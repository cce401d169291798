-- ===== src/Lib.antt =====
-- Verification of the research agent's Python host: what a human approves, what is remembered
-- between sessions, and how code runs in a sandbox.
--
-- The parts, their files here and their code:
-- - Base (with Tests, Equality, Lists, Strings, Dict, Int, Split, Collections, Sort): shared types
--   and lemmas. A text is the list of its code points, a Python dict an association list in
--   insertion order, an integer a native number with a sign.
-- - Exec, Json, Python: exceptions and stateful calls as values, JSON values (a float is kept as
--   mantissa and exponent), and conversions of the standard library, which are parameters.
-- - ApprovalApi (src/approval_api.py). Service: `ApprovalService`, one action per method on the
--   index `_runs` and the state of the runtime behind it. Path and Http:
--   `ResearchApprovalHandler`, from the raw path and body to the response (`_read_json`, `_send`,
--   `_dispatch`, `_route`); `serve_all` is a sequence of requests. Threads: `start_research`,
--   `approve` and `reject` cut into the steps between which another thread of the server may act;
--   an interleaving is a list that says whose turn it is. Main: `serve` and `main`.
--   Lifecycle, Refusals, Index, Invariants, Issued, Decided, Routing and the children of Threads
--   hold the proofs.
-- - ApprovalStore (src/approval_store.py). Records: the dictionaries of requests and results.
--   Files: `FileApprovalStore` on two modelled directories, with the temporary file of an atomic
--   write. Crash: a process that dies at any point of `_atomic_write`. Access, Pending and
--   Crash/Readers hold the proofs.
-- - Memory (src/memory.py). Topics: `topic_tags` and `session_of`. Store: `SqliteMemoryStore` with
--   its dictionary and its two tables. Search: the queries by tag, SQL translated to operations on
--   rows. Their proofs are in the child modules.
-- - Sandbox (src/sandbox.py): `DockerCodeRunner`, its command and its results.
-- - Web (src/web.py). Extractor: the handlers of `_TextExtractor`, from the calls of the HTML parser
--   on. Layout: its `get_text`, with `splitlines` and `strip` written out. Providers: the three
--   search providers, from the request to the results. Backend: `HttpWebBackend` and
--   `html_to_text`. Client: its constructor and `close`. Offline: `OfflineWebBackend`. Network holds
--   the parameters; Hidden, Bounds and the children of Layout the proofs.
-- - Notify (src/notify.py). Delivery: `HttpNotifier`, with its SMTP session, and `ConsoleNotifier`.
--   Client: the constructor of `HttpNotifier` and its `close`. Outcomes holds the proof.
-- - Runtime (src/runtime.py). Resume: `start`, `resume`, `_reject_and_replay`, `_resume_on_vm` and
--   `resume_in_fresh_process` over an abstract Nodus runtime. Tools: the handlers of
--   `_make_handler`, `_dispatch` and the `_ext_` functions over the parameters of Backends, with
--   `_ext_synthesize` in Synthesis. Setup: the profiles of the language model, and the manifests
--   (extensions/) from their loading to their registration. Wiring: the backends that the runtime
--   puts behind the tools. Offline: those that stand in for a missing one. Lifecycle: the
--   constructor and `shutdown`. Handover, Gate, Decisions, Composed and the children of Setup hold
--   the proofs.
-- - Workflow (workflows/research_task.nd): the helper functions of the script, from `fetch_top` to
--   `remember_source`. Scripts: its nine steps. Runs: sequences of steps, whose order the engine
--   chooses. Its other child modules hold the proofs, in terms of the rules of Exec/Blocks for what a
--   block of statements keeps.
-- - Examples: the theorems at concrete inputs, and runs of the code.
--
-- The parts meet in these places: the service of ApprovalApi takes the runtime as the record
-- `Host`, which `host` of Runtime.Resume implements; Runtime.Decisions follows a decision from its
-- HTTP request to the messages that Nodus gets. The runtime derives the topic tags of a question by
-- `topic_tags`. The tools take their backends as a record, which `wire` of Runtime.Wiring fills with
-- `HttpWebBackend`, `HttpNotifier`, `recall_by_tags` of the memory store and `DockerCodeRunner`;
-- Runtime.Composed says what a tool call comes to then. The gate before a tool keeps its requests in
-- the store of ApprovalStore; it is a package of its own, and a parameter here. The workflow writes
-- the memory store by `mem.put` and `mem.tag`, which the store indexes, and Workflow.Prior follows
-- what one session publishes to the recall tool of another.
--
-- Parameters are what the repository does not hold: the Nodus runtime and its approval gate, the
-- base class `MemoryStore`, `datetime`, `json`, `str.lower`, `subprocess`, HTTP, SMTP, `HTMLParser`
-- and `html.unescape`. Where a theorem needs their documented behaviour, it takes a record
-- `IsLawful`, or one named for the law (`IsOnce`, `HasMaps`, `Clones`, `Issues`). All functions are
-- structural, so there is no fuel.
--
-- Not modelled: the lock of the approval store and of the memory store (an operation is one step),
-- the bytes on a socket and the headers of an answer, the connection to SQLite, the names of the
-- tables, and statements that fail. The engine that runs the workflow is not part of the
-- repository: it is the record `Engine`.
pub mod Base
pub mod Exec
pub mod Json
pub mod Python
pub mod ApprovalApi
pub mod ApprovalStore
pub mod Memory
pub mod Sandbox
pub mod Web
pub mod Notify
pub mod Runtime
pub mod Workflow
pub mod Examples

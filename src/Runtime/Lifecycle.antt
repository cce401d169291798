-- ===== src/Runtime/Lifecycle.antt =====
-- `ResearchRuntime.__init__` and `shutdown` of src/runtime.py. The clients that it makes itself are
-- those of src/web.py and src/notify.py; the classes of other packages, the files and the Docker
-- runner are parameters. The registration of the tools is `register_tools` of Runtime.Setup.

pub mod Given
use claudecodenodus.Base.{Text, lit, Option, none, some, List, [], ◌∷◌, ◌++◌}
use claudecodenodus.Exec.Blocks.{Block, pure, ◌>>=◌, ◌>>◌}
use claudecodenodus.Notify.Delivery.{is_set}
use claudecodenodus.Web.Client.{HttpWebBackend}
use claudecodenodus.Web.Client as WebClient
use claudecodenodus.Notify.Client.{HttpNotifier}
use claudecodenodus.Notify.Client as NotifyClient

-- An argument with the default `"__auto__"`.
pub data Choice (A : Type 0) : Type 0 where
  auto : Choice A
  given : A → Choice A

-- What the constructor and `shutdown` call. Of a backend only `close` matters here; one that was
-- given may be missing.
pub record Library (S : Type 0) : Type 1 where
  pub Client : Type 0
  pub Policy : Type 0
  pub Store : Type 0
  pub Gate : Type 0
  pub Effects : Type 0
  pub Memory : Type 0
  pub Llm : Type 0
  pub Runner : Type 0
  pub Nodus : Type 0
  pub new_client : Block S Client
  pub close_client : Client → Block S (Unit {0})
  pub environ : Text → Option Text
  pub cwd : Block S Text
  pub join : Text → Text → Text
  pub mkdir : Text → Block S (Unit {0})
  pub default_policy : Policy
  pub file_store : Text → Block S Store
  pub gate : Policy → Store → Gate
  pub effect_store : Text → Block S Effects
  pub memory_store : Text → Block S Memory
  pub llm_client : Block S (Option Llm)
  pub code_runner : Block S (Option Runner)
  pub nodus_runtime : Memory → Block S Nodus
  pub set_effect_store : Nodus → Effects → Block S (Unit {0})
  pub read_workflow : Block S Text
  pub register_function : Nodus → Text → Block S (Unit {0})
  pub register_tools : Nodus → Gate → Block S (Unit {0})
  -- `getattr(closeable, "close", None)`
  pub close_effects : Effects → Option (Block S (Unit {0}))
  pub close_memory : Memory → Option (Block S (Unit {0}))
  pub shutdown_nodus : Nodus → Block S (Unit {0})
  pub clear_shared_state : Block S (Unit {0})

module _ {S : Type 0} (L : Library S) where
  open L use {Client, Policy, Store, Gate, Effects, Memory, Llm, Runner, Nodus}

  -- A backend that was given is one of the same class, or its `close` does what it does.
  pub record Closeable : Type 0 where
    pub close : Block S (Unit {0})

  -- The arguments of the constructor.
  pub record Options : Type 0 where
    pub workspace : Option Text
    pub policy : Option Policy
    pub store : Option Store
    pub effect_store : Option Effects
    pub memory_store : Option Memory
    pub llm_client : Choice (Option Llm)
    pub web_backend : Choice (Option Closeable)
    pub code_runner : Choice (Option Runner)
    pub notifier : Choice (Option Closeable)

  pub record ResearchRuntime : Type 0 where
    pub workspace : Text
    pub policy : Policy
    pub store : Store
    pub gate : Gate
    pub effect_store : Effects
    pub memory_store : Memory
    pub llm_client : Option Llm
    pub web_backend : Option Closeable
    pub code_runner : Option Runner
    pub notifier : Option Closeable
    pub runtime : Nodus
    pub workflow_source : Text

  -- `value if value is not None else default`
  unfoldable pub given_or : {A : Type 0} → Option A → Block S A → Block S A
  given_or none default = default
  given_or (some a) default = pure a

  -- `default if value == "__auto__" else value`
  unfoldable pub chosen_or : {A : Type 0} → Choice A → Block S A → Block S A
  chosen_or auto default = default
  chosen_or (given a) default = pure a

  -- `Path(workspace) if workspace else Path.cwd() / "workspace"`
  unfoldable pub workspace_path : Option Text → Block S Text
  workspace_path (some (c ∷ path)) = pure (c ∷ path)
  workspace_path other = do here ← L.cwd; pure (L.join here (lit "workspace"))

  -- `build_web_backend()` and `build_notifier()`
  unfoldable pub default_web : Block S (Option Closeable)
  default_web = do
    backend ← WebClient.build_web_backend L.new_client L.environ
    pure (some (record { close = WebClient.close_web_backend L.close_client backend }))

  unfoldable pub default_notifier : Block S (Option Closeable)
  default_notifier = do
    notifier ← NotifyClient.build_notifier L.new_client
    pure (some (record { close = NotifyClient.close_notifier L.close_client notifier }))

  unfoldable pub construct : Options → Block S ResearchRuntime
  construct o = do
    workspace ← workspace_path o.workspace
    L.mkdir workspace
    L.mkdir (L.join workspace (lit "output"))
    policy ← given_or o.policy (pure L.default_policy)
    store ← given_or o.store (L.file_store (L.join workspace (lit ".approvals")))
    effects ← given_or o.effect_store (L.effect_store (L.join workspace (lit ".effects.sqlite3")))
    memory ← given_or o.memory_store (L.memory_store (L.join workspace (lit ".memory.sqlite3")))
    llm ← chosen_or o.llm_client L.llm_client
    web ← chosen_or o.web_backend default_web
    runner ← chosen_or o.code_runner L.code_runner
    notifier ← chosen_or o.notifier default_notifier
    runtime ← L.nodus_runtime memory
    L.set_effect_store runtime effects
    source ← L.read_workflow
    L.register_function runtime (lit "_capture")
    L.register_function runtime (lit "_prime_vm")
    L.register_tools runtime (L.gate policy store)
    pure (record {
      workspace = workspace;
      policy = policy;
      store = store;
      gate = L.gate policy store;
      effect_store = effects;
      memory_store = memory;
      llm_client = llm;
      web_backend = web;
      code_runner = runner;
      notifier = notifier;
      runtime = runtime;
      workflow_source = source;
    })

  unfoldable pub close_if : Option Closeable → Block S (Unit {0})
  close_if none = pure tt
  close_if (some backend) = backend.close

  unfoldable pub call_if : Option (Block S (Unit {0})) → Block S (Unit {0})
  call_if none = pure tt
  call_if (some close) = close

  unfoldable pub shutdown : ResearchRuntime → Block S (Unit {0})
  shutdown rt = do
    close_if rt.web_backend
    close_if rt.notifier
    call_if (L.close_effects rt.effect_store)
    call_if (L.close_memory rt.memory_store)
    L.shutdown_nodus rt.runtime
    L.clear_shared_state

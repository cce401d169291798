-- ===== src/Examples/Sessions.antt =====
-- Two sessions of workflows/research_task.nd: the first publishes, the second asks about the same
-- topic.
use claudecodenodus.Base.{
  ℕ, Text, text_eq, lit, ◌==◌, ◌≡◌, ◌≢◌, refl, true, false, none, some, List, [], ◌∷◌, map, All,
  eqb,
}
use claudecodenodus.Base.Dict.{lookup, insert, erase}
use claudecodenodus.Base.Collections.{contains, keep}
use claudecodenodus.Base.Split.{split_on, nonempty}
use claudecodenodus.Exec.{Fault, ok, err}
use claudecodenodus.Exec.Blocks.{◌>>=◌}
use claudecodenodus.Json.{
  list, nil, Json, null, bool, str, dict, end, field, find, list_of, json_eq, json_key_eq,
}
use claudecodenodus.Memory.Topics.{
  topic_tags, topic_words, split_words, collect, is_noise, is_word_char, reaches, stopwords,
  session_of, max_topic_tags,
}
use claudecodenodus.Memory.Store.{
  tag_key_prefix, strip_prefix, has_row, delete_rows, insert_row, insert_tags, index_tags,
  index_put, put,
}
use claudecodenodus.Memory.Search.{Node}
use claudecodenodus.Memory.Search.Members.{carries_any}
use claudecodenodus.Runtime.Tools.{memory_recall}
use claudecodenodus.Runtime.Wiring.{wire, Parts}
use claudecodenodus.Workflow.{
  value, error, call, Engine, Flow, node_key, tags_with, is_null, Run, on_memory, on_effects, ask,
  after_write, publish_body, publish_key, publish_once, mem_put, mem_tag, remember,
}
use claudecodenodus.Workflow.Scripts.{
  draft_step, feedback_of, result_of, recall_args, published, approved_by, publish_approved,
  publish,
}
use claudecodenodus.Workflow.Runs.{Step, run_steps}
use claudecodenodus.Workflow.Gated
use claudecodenodus.Workflow.Gated.{Approves}
use claudecodenodus.Workflow.Retried
use claudecodenodus.Workflow.Retried.{finish}
use claudecodenodus.Workflow.Marks.{Clones}
use claudecodenodus.Workflow.Prior
use claudecodenodus.Workflow.Prior.{prior, answer_of}
use claudecodenodus.Workflow.Isolated
use claudecodenodus.Workflow.Denied
use claudecodenodus.Workflow.Reviewed
use claudecodenodus.Examples.Recollection.{parent, parent-IsLawful, fresh}
use claudecodenodus.Examples.Host.{backends}
use claudecodenodus.Examples.Wired.{wiring}
use claudecodenodus.Examples.Engine.{
  engine, once, settle, Unwritten, engine-HasMaps, engine-IsQuiet, engine-IsOnce,
}

abbrev llm : List Text
llm = topic_tags (λ t. t) (lit "llm") max_topic_tags

abbrev flow_of : Text → Json → Flow
flow_of session payload = record {
  question = lit "llm";
  session_id = session;
  notify_channel = lit "console";
  notify_target = lit "researcher";
  draft = str (lit "a draft");
  topic_tags = llm;
  results = [];
  payload = payload;
}

abbrev approval : Json
approval = dict (field (lit "approved") (bool true) end)

abbrev pub done : Engine parent
done = engine (λ name. value null)

abbrev broken : Engine parent
broken = engine (λ name. error (lit "disk full"))

abbrev first : Run parent done
first = record { flow = flow_of (lit "a") approval; memory = fresh; effects = ([], 0) }

abbrev waiting : Run parent done
waiting = record { flow = flow_of (lit "a") null; memory = fresh; effects = ([], 0) }

abbrev failing : Run parent broken
failing = record { flow = flow_of (lit "a") approval; memory = fresh; effects = ([], 0) }

abbrev steps : List Step
steps = Step.init ∷ Step.gather_web ∷ Step.publish ∷ []

not_approved : ¬ Approves null
not_approved (fs, e, f) = cc

pub parent-Clones : Clones parent
parent-Clones key v stored d d' h = cc

unapproved_example :
    Unwritten (run_steps parent done steps waiting).1.effects
    × ((k : Text)
        → has_row k (lit "status:final") (run_steps parent done steps waiting).1.memory.tag_rows
          ≡ true
        → has_row k (lit "status:final") fresh.tag_rows ≡ true)
unapproved_example =
    Gated.unapproved parent done Unwritten (λ t. t) max_topic_tags waiting steps
      (engine-HasMaps (λ name. value null)) parent-Clones (engine-IsQuiet (λ name. value null)) refl
      not_approved refl

-- The definitions that a run of the publish step computes with.
workflow_code : Unit {0}
unfolding publish approved_by is_null publish_approved publish_once on_effects on_memory
    publish_body ask after_write mem_put mem_tag remember ◌>>=◌ once settle put index_put index_tags
    insert_tags insert_row delete_rows has_row strip_prefix tag_key_prefix lookup insert erase keep
    lit ◌==◌ find json_eq node_key tags_with published contains list_of publish_key topic_tags
    topic_words split_words collect is_noise is_word_char reaches stopwords split_on nonempty
workflow_code = tt

-- The run after the calls of the publish step, and after all of it.
abbrev called : Run parent done
called = (publish_once parent done first.flow first).1

abbrev after : Run parent done
after = (publish parent done first).1

effects : Json
effects = dict (field (lit "written") null (field (lit "notified") null end))

tools_returned : publish_once parent done first.flow first ≡ (ok effects, called)
unfolding workflow_code effects
tools_returned = refl

approved : approved_by parent done approval ≡ ok true
unfolding workflow_code
approved = refl

publish_again_example :
    (publish parent done called ≡ finish parent done called.flow effects called)
    × ((publish parent done called).1.effects ≡ called.effects)
unfolding publish_once on_effects
publish_again_example =
    Retried.publish_again parent done (engine-IsOnce (λ name. value null)) first called called
      effects tools_returned refl refl approved

nothing_recorded : lookup (publish_key failing.flow) failing.effects.0 ≡ none
unfolding lookup
nothing_recorded = refl

approved_too : approved_by parent broken approval ≡ ok true
unfolding workflow_code
approved_too = refl

publish_fails_example :
    (f : Fault) × ((publish parent broken failing).0 ≡ err f)
    × ((publish parent broken failing).1.memory ≡ failing.memory)
    × ((publish parent broken failing).1.flow ≡ failing.flow)
    × (lookup (publish_key failing.flow) (publish parent broken failing).1.effects.0 ≡ none)
publish_fails_example =
    Retried.publish_fails parent broken (engine-IsOnce (λ name. error (lit "disk full"))) failing
      approved_too nothing_recorded (λ e. (lit "disk full", refl))

-- The second session, over the memory of the first.
abbrev second : Flow
second = flow_of (lit "b") null

abbrev wired : Parts ℕ
wired = record wiring { memory_store = λ n. after.memory }

is_named : ◌≢◌ {A = Text} (lit "b") []
unfolding lit
is_named e = cc

slashless : All (λ c. eqb c b'/' ≡ false) (lit "a")
unfolding lit
slashless = (refl, tt)

second_slashless : All (λ c. eqb c b'/' ≡ false) (lit "b")
unfolding lit
second_slashless = (refl, tt)

prior_published_example :
    ((memory_recall (wire backends wired) (recall_args second) 0).0
      ≡ ok (answer_of backends wired second 0 (prior backends wired second 0)))
    × ((key : Text)
        → contains key (map (λ (node : Node parent). node.key) (prior backends wired second 0))
          ≡ true
        → ((rest : Text) → key ≢ node_key (lit "b") rest)
          × (session_of key ≢ some (lit "b"))
          × (has_row key (lit "status:final") after.memory.tag_rows ≡ true)
          × (carries_any llm key after.memory.tag_rows ≡ true))
prior_published_example =
    Prior.prior_published backends wired second 0 (λ t. t) max_topic_tags refl is_named
      second_slashless refl

no_session : session_of (lit "note") ≢ some (lit "a")
unfolding workflow_code session_of
no_session e = cc

plain_key : strip_prefix tag_key_prefix (lit "note") ≡ none
unfolding workflow_code
plain_key = refl

tag_named : ◌≢◌ {A = Text} (lit "status:final") []
unfolding lit
tag_named e = cc

run_steps-isolated_example :
    (lookup (lit "note") (run_steps parent done steps first).1.memory.values
      ≡ lookup (lit "note") fresh.values)
    × (has_row
          (lit "note")
          (lit "status:final")
          (run_steps parent done steps first).1.memory.tag_rows
        ≡ has_row (lit "note") (lit "status:final") fresh.tag_rows)
run_steps-isolated_example =
    Isolated.run_steps-isolated parent done first steps (lit "note") (lit "status:final")
      parent-IsLawful parent-Clones slashless no_session plain_key tag_named

publish_denied_example :
    (f : Fault) × ((publish parent broken failing).0 ≡ err f)
    × ((publish parent broken failing).1.memory ≡ failing.memory)
    × ((publish parent broken failing).1.flow ≡ failing.flow)
    × (lookup (publish_key failing.flow) (publish parent broken failing).1.effects.0 ≡ none)
publish_denied_example =
    Denied.publish_denied parent broken backends (engine-IsOnce (λ name. error (lit "disk full")))
      (record { state = λ e. 0; soft = λ m args memory e f i h. (lit "disk full", refl) }) failing
      approved_too nothing_recorded (λ st. refl)

-- An engine that writes drafts, and a run whose recall is done.
abbrev writer : Engine parent
writer = engine (λ name. value (dict (field (lit "draft") (str (lit "a new draft")) end)))

abbrev drafting : Run parent writer
drafting = record {
  flow = record (flow_of (lit "a") null) {
    results = (lit "recall", dict (field (lit "results") (list nil) end)) ∷ [];
  };
  memory = fresh;
  effects = ([], 0);
}

abbrev drafted : Run parent writer
drafted = (draft_step parent writer drafting).1

abbrev resumed : Run parent writer
resumed = record drafted { flow = record drafted.flow { payload = approval } }

abbrev final_run : Run parent writer
final_run = (publish parent writer resumed).1

abbrev draft_answer : Json
draft_answer = dict (field (lit "draft") (str (lit "a new draft")) end)

drafting_code : Unit {0}
unfolding workflow_code draft_step feedback_of result_of call
drafting_code = tt

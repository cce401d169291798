-- ===== src/Workflow/Gated.antt =====
-- The gate of the step `publish` in workflows/research_task.nd.
use claudecodenodus.Base.{
  Text, lit, ◌==◌, ◌≡◌, ◌≢◌, refl, ap, ◌∙◌, inl, inr, true, false, some, List, [], ◌++◌, arith,
  Bool-cases, if◌then◌else◌,
}
use claudecodenodus.Base.Int.{ℤ}
use claudecodenodus.Base.Collections.{contains, contains-append}
use claudecodenodus.Exec.{ok, Result-cases}
use claudecodenodus.Exec.Blocks.{Keeps, Keeps-pure, Keeps-bind-gets, Keeps-bind-lift, Keeps-bind}
use claudecodenodus.Json.{Json, bool, dict, Fields, find, json_eq_iff}
use claudecodenodus.Memory.Topics.{topic_tags}
use claudecodenodus.Memory.Store.{Parent, Memory, TagRow, has_row, tag_key_prefix}
use claudecodenodus.Workflow.{
  Engine, Flow, node_key, is_null, Run, on_effects, call, remember, mem_put, mem_tag, texts,
}
use claudecodenodus.Workflow.Scripts.{approved_by, publish}
use claudecodenodus.Workflow.Runs.{Step, body, run_steps}
use claudecodenodus.Workflow.Keeping.{Known, IsKept, run_steps-Keeps}
use claudecodenodus.Workflow.Marks.{Clones, Keeps-put, put_node, put_texts, topic_tags-unmarked}

-- A human's approval, as the payload that the run is resumed with.
abbrev pub Approves : Json → Type 0
Approves payload =
    (fs : Fields) × (payload ≡ dict fs) × (find (lit "approved") fs ≡ some (bool true))

module _ (B : Parent) (E : Engine B) where
  -- What Nodus documents of maps: only a map has keys, and a key that is there gives its value.
  pub record HasMaps : Type 0 where
    pub only_maps :
        (v : Json) (key : Text)
        → E.has_key v key ≡ ok true
        → (fs : Fields) × (x : Json) × (v ≡ dict fs) × (find key fs ≡ some x)
    pub index-find :
        (fs : Fields) (key : Text) (x : Json) → find key fs ≡ some x → E.index (dict fs) key ≡ ok x

  approved_value :
      (fs : Fields) (x : Json)
      → E.has_key (dict fs) (lit "approved") ≡ ok true
      → E.index (dict fs) (lit "approved") ≡ ok x
      → approved_by B E (dict fs) ≡ ok true
      → x ≡ bool true
  unfolding approved_by is_null
  approved_value fs x has value h = ground (arith, json_eq_iff x (bool true))

  has_approved :
      (payload : Json)
      → approved_by B E payload ≡ ok true
      → E.has_key payload (lit "approved") ≡ ok true
  unfolding approved_by
  has_approved payload h = elim (Result-cases (E.has_key payload (lit "approved"))) [
    | inr (f, e) ↦ ground arith
    | inl (has, e) ↦ ground arith
  ]

  approved_by-Approves :
      HasMaps → (payload : Json) → approved_by B E payload ≡ ok true → Approves payload
  approved_by-Approves maps payload h =
      let has = has_approved payload h in
      let (fs, x, m, at) = maps.only_maps payload (lit "approved") has in
      let value = maps.index-find fs (lit "approved") x at in
      let yes_there = approved_value fs x (rw m at has) value (rw m at h) in
      (fs, m, at ∙ ap some yes_there)

  -- Something about the world outside that only publishing can end.
  pub record IsQuiet (P : E.Effects → Type 0) : Type 0 where
    pub calls :
        (name : Text) (args : Json) (m : Memory B) (e : E.Effects)
        → name ≢ lit "research.write_file"
        → name ≢ lit "research.notify"
        → P e
        → P (E.call name args m e).1
    pub checkpoints : (name : Text) (e : E.Effects) → P e → P (E.checkpoint name e).1
    pub waits :
        (kind session_id : Text) (v : Json) (e : E.Effects)
        → P e
        → P (E.workflow_wait kind session_id v e).1

  module _ (P : E.Effects → Type 0) (quiet : IsQuiet P) (clones : Clones B) (of : Flow)
      (rows : List TagRow) (unmarked : contains (lit "status:final") of.topic_tags ≡ false) where
    -- The run has neither published nor marked anything as final.
    record Unpublished (s : Run B E) : Type 0 where
      pub known : Known of s.flow
      pub outside : P s.effects
      pub marks :
          (k : Text)
          → has_row k (lit "status:final") s.memory.tag_rows ≡ true
          → has_row k (lit "status:final") rows ≡ true

    final_named : ◌≢◌ {A = Text} (lit "status:final") []
    unfolding lit
    final_named e = cc

    still_unmarked :
        (f : Flow) (extra : List Text)
        → Known of f
        → contains (lit "status:final") extra ≡ false
        → contains (lit "status:final") (f.topic_tags ++ extra) ≡ false
    still_unmarked f extra k h =
        contains-append (lit "status:final") f.topic_tags extra ∙ rw (k.topics, unmarked, h) refl

    tagged-Unpublished :
        (s : Run B E) (after : Memory B) (key : Text) (tags : List Text)
        → contains (lit "status:final") tags ≡ false
        → ((k t : Text)
            → t ≢ []
            → has_row k t after.tag_rows
              ≡ (if k == key then contains t tags else has_row k t s.memory.tag_rows))
        → Unpublished s
        → Unpublished (record s { memory = after })
    tagged-Unpublished s after key tags h at q = record {
      known = q.known;
      outside = q.outside;
      marks = λ k m. ground (arith, at k (lit "status:final") final_named, q.marks k);
    }

    remember-Unpublished :
        (f : Flow) (rest : Text) (v : Json) (extra : List Text)
        → Known of f
        → contains (lit "status:final") extra ≡ false
        → Keeps Unpublished (remember B E (node_key f.session_id rest) v (f.topic_tags ++ extra))
    unfolding remember mem_put mem_tag
    remember-Unpublished f rest v extra k h =
        let key = node_key f.session_id rest in
        Keeps-bind _ _
          (Keeps-put B E Unpublished key v λ s stored after e q. record {
            known = q.known;
            outside = q.outside;
            marks = λ j m.
                q.marks j (rw (put_node B E f.session_id rest v stored s.memory after e) at m);
          })
          λ u.
            Keeps-bind _ _
              (Keeps-put B E Unpublished (tag_key_prefix ++ key) (texts (f.topic_tags ++ extra))
                λ s stored after e q.
                  tagged-Unpublished s after key (f.topic_tags ++ extra)
                    (still_unmarked f extra k h)
                    (put_texts B E clones key (f.topic_tags ++ extra) stored s.memory after e) q)
              λ u. Keeps-pure key

    Unpublished-IsKept : IsKept B E of Unpublished
    unfolding call on_effects
    Unpublished-IsKept = record {
      known = λ s q. q.known;
      reflow = λ s f k q. record { known = k; outside = q.outside; marks = q.marks };
      calls = λ name args w n. record {
        after = λ s q. record {
          known = q.known;
          outside = quiet.calls name args s.memory s.effects w n q.outside;
          marks = q.marks;
        };
      };
      checkpoints = λ name. record {
        after = λ s q. record {
          known = q.known;
          outside = quiet.checkpoints name s.effects q.outside;
          marks = q.marks;
        };
      };
      waits = λ kind session_id v. record {
        after = λ s q. record {
          known = q.known;
          outside = quiet.waits kind session_id v s.effects q.outside;
          marks = q.marks;
        };
      };
      remembers = remember-Unpublished;
    }

    publish-Unpublished :
        HasMaps → ¬ Approves of.payload → Keeps Unpublished (body B E Step.publish)
    unfolding body publish
    publish-Unpublished maps refused = Keeps-bind-gets _ _ λ s q.
        Keeps-bind-lift (approved_by B E s.flow.payload) _ λ approved e.
          elim (Bool-cases approved) [
            | inr no_approval ↦ rw no_approval (Keeps-pure _)
            | inl approval ↦ absurd (
                refused (
                  rw q.known.resumed at
                    (approved_by-Approves maps s.flow.payload (e ∙ ap ok approval))))
          ]

  -- Without an approval as its payload, a run of any steps in any order publishes nothing: what only
  -- the tools `research.write_file` and `research.notify` can end holds on, and no key becomes one
  -- that is marked as final. The topic tags are those of a question, and the store clones values.
  pub unapproved :
      (P : E.Effects → Type 0) (lower : Text → Text) (m : ℤ) (s : Run B E) (steps : List Step)
      → HasMaps
      → Clones B
      → IsQuiet P
      → s.flow.topic_tags ≡ topic_tags lower s.flow.question m
      → ¬ Approves s.flow.payload
      → P s.effects
      → P (run_steps B E steps s).1.effects
        × ((k : Text)
            → has_row k (lit "status:final") (run_steps B E steps s).1.memory.tag_rows ≡ true
            → has_row k (lit "status:final") s.memory.tag_rows ≡ true)
  unapproved P lower m s steps maps clones quiet topics refused p =
      let u : contains (lit "status:final") s.flow.topic_tags ≡ false =
        rw topics (topic_tags-unmarked lower s.flow.question m) in
      let kept = Unpublished-IsKept P quiet clones s.flow s.memory.tag_rows u in
      let last =
        (run_steps-Keeps B E s.flow (Unpublished P quiet clones s.flow s.memory.tag_rows u) kept
            (publish-Unpublished P quiet clones s.flow s.memory.tag_rows u maps refused)
            steps).after
          s
          (record {
            known = record { session = refl; topics = refl; resumed = refl };
            outside = p;
            marks = λ k h. h;
          }) in
      (last.outside, last.marks)

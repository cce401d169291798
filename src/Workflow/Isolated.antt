-- ===== src/Workflow/Isolated.antt =====
-- The memory of other sessions during a run of workflows/research_task.nd.
use claudecodenodus.Base.{
  Text, text_eq, lit, ◌==◌, ==_iff, eq-of-==, ◌≡◌, ◌≢◌, refl, sym, ap, ◌∙◌, inl, inr, false, none,
  some, List, [], ◌++◌, arith, All, eqb, Bool-cases,
}
use claudecodenodus.Base.Dict.{lookup}
use claudecodenodus.Exec.Blocks.{
  Keeps, Keeps-pure, Keeps-bind-gets, Keeps-bind-lift, Keeps-bind, Keeps-if,
}
use claudecodenodus.Json.{Json}
use claudecodenodus.Memory.Topics.{session_of}
use claudecodenodus.Memory.Store.{Parent, IsLawful, Memory, has_row, tag_key_prefix, strip_prefix}
use claudecodenodus.Memory.Store.Tags.{strip_prefix-append}
use claudecodenodus.Workflow.{
  Engine, Flow, node_key, tags_with, Run, on_effects, call, remember, mem_put, mem_tag, texts,
  publish_once,
}
use claudecodenodus.Workflow.Scripts.{approved_by, publish_approved, publish}
use claudecodenodus.Workflow.Runs.{Step, body, run_steps}
use claudecodenodus.Workflow.Keeping.{Known, IsKept, run_steps-Keeps}
use claudecodenodus.Workflow.Marks.{Clones, Keeps-put, put_node, put_texts, session_of-node_key}
use claudecodenodus.Workflow.Sessions.{put_value}

module _ (B : Parent) (E : Engine B) (lawful : IsLawful B) (clones : Clones B) (of : Flow)
    (start : Memory B) (plain : All (λ c. eqb c b'/' ≡ false) of.session_id) where
  -- The key of a node of another session, or of something else that is no tag key.
  record OtherKey (k : Text) : Type 0 where
    pub other : session_of k ≢ some of.session_id
    pub no_tag_key : strip_prefix tag_key_prefix k ≡ none

  -- Nothing of another session has changed.
  record Untouched (s : Run B E) : Type 0 where
    pub known : Known of s.flow
    pub values : (k : Text) → OtherKey k → lookup k s.memory.values ≡ lookup k start.values
    pub marks :
        (k t : Text)
        → OtherKey k
        → t ≢ []
        → has_row k t s.memory.tag_rows ≡ has_row k t start.tag_rows

  foreign_node :
      (f : Flow) (rest k : Text)
      → Known of f
      → OtherKey k
      → (node_key f.session_id rest == k) ≡ false
  foreign_node f rest k known foreign = elim (Bool-cases (node_key f.session_id rest == k)) [
    | inr e ↦ e
    | inl e ↦ absurd (
        foreign.other (
          ap session_of (sym (eq-of-== (node_key f.session_id rest) k e))
          ∙ (rw known.session (session_of-node_key of.session_id rest plain))))
  ]

  foreign_tag_key : (key k : Text) → OtherKey k → ((tag_key_prefix ++ key) == k) ≡ false
  foreign_tag_key key k foreign = ground (
    arith,
    ==_iff (tag_key_prefix ++ key) k,
    strip_prefix-append tag_key_prefix key,
    foreign.no_tag_key,
  )

  remember-Untouched :
      (f : Flow) (rest : Text) (v : Json) (tags : List Text)
      → Known of f
      → Keeps Untouched (remember B E (node_key f.session_id rest) v tags)
  unfolding remember mem_put mem_tag
  remember-Untouched f rest v tags k =
      let key = node_key f.session_id rest in
      Keeps-bind _ _
        (Keeps-put B E Untouched key v λ s stored after e q. record {
          known = q.known;
          values = λ j foreign.
              put_value B E lawful clones key v stored s.memory after j e
              ∙ rw (foreign_node f rest j k foreign) (q.values j foreign);
          marks = λ j t foreign named.
              rw (put_node B E f.session_id rest v stored s.memory after e)
                (q.marks j t foreign named);
        })
        λ u.
          Keeps-bind _ _
            (Keeps-put B E Untouched (tag_key_prefix ++ key) (texts tags) λ s stored after e q.
              record {
                known = q.known;
                values = λ j foreign.
                    put_value B E lawful clones (tag_key_prefix ++ key) (texts tags) stored s.memory
                      after j e
                    ∙ rw (foreign_tag_key key j foreign) (q.values j foreign);
                marks = λ j t foreign named.
                    put_texts B E clones key tags stored s.memory after e j t named
                    ∙ ground (
                      arith,
                      ==_iff j key,
                      ==_iff key j,
                      foreign_node f rest j k foreign,
                      q.marks j t foreign named,
                    );
              })
            λ u. Keeps-pure key

  Untouched-IsKept : IsKept B E of Untouched
  unfolding call on_effects
  Untouched-IsKept = record {
    known = λ s q. q.known;
    reflow = λ s f k q. record { known = k; values = q.values; marks = q.marks };
    calls = λ name args w n. record {
      after = λ s q. record { known = q.known; values = q.values; marks = q.marks };
    };
    checkpoints = λ name. record {
      after = λ s q. record { known = q.known; values = q.values; marks = q.marks };
    };
    waits = λ kind session_id v. record {
      after = λ s q. record { known = q.known; values = q.values; marks = q.marks };
    };
    remembers = λ f rest v extra k h. remember-Untouched f rest v (f.topic_tags ++ extra) k;
  }

  publish_once-Untouched : (f : Flow) → Keeps Untouched (publish_once B E f)
  unfolding publish_once on_effects
  publish_once-Untouched f = record {
    after = λ s q. record { known = q.known; values = q.values; marks = q.marks };
  }

  publish-Untouched : Keeps Untouched (body B E Step.publish)
  unfolding body publish publish_approved
  publish-Untouched = Keeps-bind-gets _ _ λ s q.
      Keeps-bind-lift (approved_by B E s.flow.payload) _ λ approved e.
        Keeps-if _ _ _ (Keeps-pure _) (
          Keeps-bind _ _ (publish_once-Untouched s.flow) λ effects.
            Keeps-bind _ _
              (remember-Untouched s.flow (lit "final") s.flow.draft
                (tags_with s.flow (lit "status:final")) q.known)
              λ u. Keeps-pure _)

module _ (B : Parent) (E : Engine B) where
  -- A run of any steps, of a session whose name has no slash, leaves the values and the tags of every
  -- other session's nodes as they were, whether its steps return or throw.
  pub run_steps-isolated :
      (s : Run B E) (steps : List Step) (k t : Text)
      → IsLawful B
      → Clones B
      → All (λ c. eqb c b'/' ≡ false) s.flow.session_id
      → session_of k ≢ some s.flow.session_id
      → strip_prefix tag_key_prefix k ≡ none
      → t ≢ []
      → let after = (run_steps B E steps s).1.memory in
        (lookup k after.values ≡ lookup k s.memory.values)
        × (has_row k t after.tag_rows ≡ has_row k t s.memory.tag_rows)
  run_steps-isolated s steps k t lawful clones plain other no_tag named =
      let last =
        (run_steps-Keeps B E s.flow (Untouched B E lawful clones s.flow s.memory plain)
            (Untouched-IsKept B E lawful clones s.flow s.memory plain)
            (publish-Untouched B E lawful clones s.flow s.memory plain) steps).after
          s
          (record {
            known = record { session = refl; topics = refl; resumed = refl };
            values = λ j f. refl;
            marks = λ j u f n. refl;
          }) in
      (
        last.values k (record { other = other; no_tag_key = no_tag }),
        last.marks k t (record { other = other; no_tag_key = no_tag }) named,
      )

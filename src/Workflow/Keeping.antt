-- ===== src/Workflow/Keeping.antt =====
-- What the steps of workflows/research_task.nd before `publish` keep, step by step.
use Prim.Native.String.{String}
use claudecodenodus.Base.{
  ℕ, Text, text_eq, lit, lit-ne, ◌==◌, ◌≡◌, ◌≢◌, refl, false, List, [], ◌∷◌, ◌++◌,
}
use claudecodenodus.Base.Dict.{insert}
use claudecodenodus.Base.Collections.{contains}
use claudecodenodus.Exec.Blocks.{
  ◌>>=◌, modify, Keeps, Keeps-modify, Keeps-bind, Keeps-bind-gets, keeping,
}
use claudecodenodus.Json.{Json}
use claudecodenodus.Memory.Store.{Parent}
use claudecodenodus.Workflow.{
  Engine, Flow, node_key, tags_with, Run, Action, on_effects, call, fetch_top, gather_sources,
  remember, remember_source,
}
use claudecodenodus.Workflow.Runs.{Step, body, run_step, run_steps}
use claudecodenodus.Workflow.Scripts.{flow_now, init, recall, gather, analyze, draft_step, review}

-- What is known of the workflow's state: only the draft and the results of steps change.
pub record Known (of f : Flow) : Type 0 where
  pub session : f.session_id ≡ of.session_id
  pub topics : f.topic_tags ≡ of.topic_tags
  pub resumed : f.payload ≡ of.payload

not_session : (session : Text) → (lit "status:final" == (lit "session:" ++ session)) ≡ false
unfolding lit ◌==◌
not_session session = refl

unmarked :
    (session : Text) (status : String)
    → (lit "status:final" == lit status) ≡ false
    → contains (lit "status:final") ((lit "session:" ++ session) ∷ lit status ∷ []) ≡ false
unfolding contains
unmarked session status other = rw (not_session session, other) refl

module _ (B : Parent) (E : Engine B) where
  -- A property that the parts of the steps before `publish` keep.
  pub record IsKept (of : Flow) (Q : Run B E → Type 0) : Type 0 where
    pub known : (s : Run B E) → Q s → Known of s.flow
    pub reflow : (s : Run B E) (f : Flow) → Known of f → Q s → Q (record s { flow = f })
    pub calls :
        (name : Text) (args : Json)
        → name ≢ lit "research.write_file"
        → name ≢ lit "research.notify"
        → Keeps Q (call B E name args)
    pub checkpoints : (name : Text) → Keeps Q (on_effects B E (E.checkpoint name))
    pub waits :
        (kind session_id : Text) (v : Json)
        → Keeps Q (on_effects B E (E.workflow_wait kind session_id v))
    pub remembers :
        (f : Flow) (rest : Text) (v : Json) (extra : List Text)
        → Known of f
        → contains (lit "status:final") extra ≡ false
        → Keeps Q (remember B E (node_key f.session_id rest) v (f.topic_tags ++ extra))

  module _ (of : Flow) (Q : Run B E → Type 0) (kept : IsKept of Q) where
    Keeps-flow :
        {C : Type 0} (k : Flow → Action B E C)
        → ((f : Flow) → Known of f → Keeps Q (k f))
        → Keeps Q (flow_now B E >>= k)
    Keeps-flow k rest = Keeps-bind-gets _ k λ s q. rest s.flow (kept.known s q)

    -- A call of a tool that publishes nothing.
    Keeps-call :
        (name : String) (args : Json)
        → (lit name == lit "research.write_file") ≡ false
        → (lit name == lit "research.notify") ≡ false
        → Keeps Q (call B E (lit name) args)
    Keeps-call name args w n = kept.calls (lit name) args (lit-ne name _ w) (lit-ne name _ n)

    fetch_doc-Keeps : (args : Json) → Keeps Q (call B E (lit "research.fetch_doc") args)
    fetch_doc-Keeps args =
        Keeps-call "research.fetch_doc" args (unfold lit ◌==◌ in refl) (unfold lit ◌==◌ in refl)

    fetch_top-Keeps : (results : Json) → Keeps Q (fetch_top B E results)
    unfolding fetch_top
    fetch_top-Keeps results = search (keeping, fetch_doc-Keeps) depth 16

    web_search-Keeps : (args : Json) → Keeps Q (call B E (lit "research.web_search") args)
    web_search-Keeps args =
        Keeps-call "research.web_search" args (unfold lit ◌==◌ in refl) (unfold lit ◌==◌ in refl)

    recall_call-Keeps : (args : Json) → Keeps Q (call B E (lit "research.memory_recall") args)
    recall_call-Keeps args =
        Keeps-call "research.memory_recall" args (unfold lit ◌==◌ in refl) (unfold lit ◌==◌ in refl)

    synthesize-Keeps : (args : Json) → Keeps Q (call B E (lit "research.synthesize") args)
    synthesize-Keeps args =
        Keeps-call "research.synthesize" args (unfold lit ◌==◌ in refl) (unfold lit ◌==◌ in refl)

    gather_sources-Keeps : (q : Text) (n : ℕ) → Keeps Q (gather_sources B E q n)
    unfolding gather_sources
    gather_sources-Keeps q n = search (keeping, web_search-Keeps, fetch_top-Keeps) depth 16

    -- The tags of the nodes that the steps before `publish` remember.
    remember_source-Keeps :
        (f : Flow) (domain : Text) (gathered : Json)
        → Known of f
        → Keeps Q (remember_source B E f domain gathered)
    unfolding remember_source
    remember_source-Keeps f domain gathered k = search (keeping, remembered) depth 16
      where
        remembered :
            (rest : Text) (v : Json)
            → Keeps Q (
                remember B E (node_key f.session_id rest) v (
                  f.topic_tags
                  ++ ((lit "session:" ++ f.session_id)
                      ∷ (lit "domain:" ++ domain)
                      ∷ lit "status:raw"
                      ∷ [])))
        remembered rest v = kept.remembers f rest v _ k (unfold contains lit ◌==◌ in refl)

    marked-Keeps :
        (f : Flow) (rest : Text) (v : Json) (status : String)
        → Known of f
        → (lit "status:final" == lit status) ≡ false
        → Keeps Q (remember B E (node_key f.session_id rest) v (tags_with f (lit status)))
    unfolding tags_with
    marked-Keeps f rest v status k other =
        kept.remembers f rest v ((lit "session:" ++ f.session_id) ∷ lit status ∷ []) k
          (unmarked f.session_id status other)

    init-Keeps : Keeps Q (init B E)
    unfolding init
    init-Keeps = Keeps-flow _ λ f k. search (keeping, marked f k) depth 8
      where
        marked :
            (f : Flow)
            → Known of f
            → (v : Json)
            → Keeps Q (
                remember B E
                  (node_key f.session_id (lit "meta"))
                  v
                  (tags_with f (lit "status:raw")))
        marked f k v = marked-Keeps f (lit "meta") v "status:raw" k (unfold lit ◌==◌ in refl)

    recall-Keeps : Keeps Q (recall B E)
    unfolding recall
    recall-Keeps = Keeps-flow _ λ f k. search (keeping, recall_call-Keeps)

    gather-Keeps : (domain suffix : Text) (n : ℕ) → Keeps Q (gather B E domain suffix n)
    unfolding gather
    gather-Keeps domain suffix n =
        Keeps-flow _ λ f k. search (keeping, gather_sources-Keeps, remember_source-Keeps) depth 8

    analyze-Keeps : Keeps Q (analyze B E)
    unfolding analyze
    analyze-Keeps = search keeping

    redraft-Keeps :
        (v : Json)
        → Keeps Q (modify (λ (s : Run B E). record s { flow = record s.flow { draft = v } }))
    redraft-Keeps v = Keeps-modify _ λ s q.
        let k = kept.known s q in
        kept.reflow s (record s.flow { draft = v })
          (record { session = k.session; topics = k.topics; resumed = k.resumed }) q

    draft_step-Keeps : Keeps Q (draft_step B E)
    unfolding draft_step
    draft_step-Keeps = Keeps-bind _ _ (kept.checkpoints (lit "before_draft")) λ u.
        Keeps-flow _ λ f k. search (keeping, synthesize-Keeps, redraft-Keeps, marked f k) depth 24
      where
        marked :
            (f : Flow)
            → Known of f
            → (v : Json)
            → Keeps Q (
                remember B E
                  (node_key f.session_id (lit "draft"))
                  v
                  (tags_with f (lit "status:draft")))
        marked f k v = marked-Keeps f (lit "draft") v "status:draft" k (unfold lit ◌==◌ in refl)

    review-Keeps : Keeps Q (review B E)
    unfolding review
    review-Keeps = Keeps-flow _ λ f k. kept.waits (lit "approval_required") f.session_id _

    recorded-Keeps :
        (name : Text) (v : Json)
        → Keeps Q (
            modify (λ (s : Run B E). record s {
              flow = record s.flow { results = insert name v s.flow.results };
            }))
    recorded-Keeps name v = Keeps-modify _ λ s q.
        let k = kept.known s q in
        kept.reflow s (record s.flow { results = insert name v s.flow.results })
          (record { session = k.session; topics = k.topics; resumed = k.resumed }) q

    module _ (publishes : Keeps Q (body B E Step.publish)) where
      -- A step other than `publish` keeps what its parts keep.
      body-Keeps : (step : Step) → Keeps Q (body B E step)
      unfolding body
      body-Keeps Step.init = init-Keeps
      body-Keeps Step.recall = recall-Keeps
      body-Keeps Step.gather_web = gather-Keeps (lit "web") [] 5
      body-Keeps Step.gather_code = gather-Keeps (lit "code") (lit " code examples") 3
      body-Keeps Step.gather_data = gather-Keeps (lit "data") (lit " research data") 3
      body-Keeps Step.analyze = analyze-Keeps
      body-Keeps Step.draft_step = draft_step-Keeps
      body-Keeps Step.review = review-Keeps
      body-Keeps Step.publish = publishes

      run_step-Keeps : (step : Step) → Keeps Q (run_step B E step)
      unfolding run_step
      run_step-Keeps step = search (keeping, body-Keeps, recorded-Keeps)

      -- Steps in any order keep it, if `publish` does.
      pub run_steps-Keeps : (steps : List Step) → Keeps Q (run_steps B E steps)
      unfolding run_steps
      run_steps-Keeps [] = search keeping
      run_steps-Keeps (step ∷ steps) =
          Keeps-bind _ _ (run_step-Keeps step) λ v. run_steps-Keeps steps

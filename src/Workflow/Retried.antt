-- ===== src/Workflow/Retried.antt =====
-- A publish step of workflows/research_task.nd that is tried again.
use claudecodenodus.Base.{Text, lit, ◌≡◌, refl, ap, ◌∙◌, true, Option, none, some, List, arith}
use claudecodenodus.Exec.{Fault, ok, err}
use claudecodenodus.Exec.Blocks.{Block, ◌>>=◌, pure, Keeps, Keeps-pure, Keeps-bind}
use claudecodenodus.Json.{Json}
use claudecodenodus.Memory.Store.{Parent, Memory}
use claudecodenodus.Workflow.{
  error, Engine, Flow, node_key, tags_with, Run, on_effects, ask, write_args, after_write,
  publish_body, publish_key, publish_once, remember, mem_put, mem_tag, texts,
}
use claudecodenodus.Workflow.Marks.{Keeps-put}
use claudecodenodus.Workflow.Scripts.{published, approved_by, publish_approved, publish}

module _ (B : Parent) (E : Engine B) where
  -- What Nodus documents of `@exactly_once` over a durable store: a call that returned is recorded
  -- under its arguments, a recorded call gives the recorded value and does nothing, and a call that
  -- throws leaves its record without a value.
  pub record IsOnce : Type 1 where
    pub recorded : Json → E.Effects → Option Json
    pub answered :
        (key v : Json) (body : Block E.Effects Json) (e e' : E.Effects)
        → E.once key body e ≡ (ok v, e')
        → recorded key e' ≡ some v
    pub replayed :
        (key v : Json) (body : Block E.Effects Json) (e : E.Effects)
        → recorded key e ≡ some v
        → E.once key body e ≡ (ok v, e)
    pub pending :
        (key : Json) (body : Block E.Effects Json) (e : E.Effects)
        → recorded key e ≡ none
        → ((e' : E.Effects) → (f : Fault) × ((body e').0 ≡ err f))
        → (f : Fault) × ((E.once key body e).0 ≡ err f)
          × (recorded key (E.once key body e).1 ≡ none)

  -- An approved publish step calls the tools, and then writes the memory.
  pub publish_lem :
      (s : Run B E)
      → approved_by B E s.flow.payload ≡ ok true
      → publish B E s ≡ publish_approved B E s.flow s
  unfolding publish ◌>>=◌
  publish_lem s h = rw h refl

  body_fails :
      (f : Flow) (m : Memory B) (e : E.Effects)
      → (message : Text) × ((E.call (lit "research.write_file") (write_args f) m e).0
          ≡ error message)
      → (fault : Fault) × ((publish_body B E f m e).0 ≡ err fault)
  unfolding publish_body ask after_write ◌>>=◌
  body_fails f m e (message, h) = rw h (_, refl)

  -- The rest of an approved publish step, whose tools gave `effects`.
  abbrev pub finish : Flow → Json → Block (Run B E) Json
  finish f effects =
      remember B E (node_key f.session_id (lit "final")) f.draft (tags_with f (lit "status:final"))
      >>= λ u. pure (published f effects)

  remember-effects :
      (e : E.Effects) (key : Text) (v : Json) (tags : List Text)
      → Keeps (λ (s : Run B E). s.effects ≡ e) (remember B E key v tags)
  unfolding remember mem_put mem_tag
  remember-effects e key v tags =
      Keeps-bind _ _ (Keeps-put B E _ key v λ s stored after w same. same) λ u.
        Keeps-bind _ _ (Keeps-put B E _ _ (texts tags) λ s stored after w same. same)
          λ u. Keeps-pure key

  pub finish-effects : (f : Flow) (v : Json) (t : Run B E) → (finish f v t).1.effects ≡ t.effects
  finish-effects f v t =
      (Keeps-bind _ _ (remember-effects t.effects _ f.draft _) λ u. Keeps-pure _).after t refl

  replayed_once :
      (once : IsOnce) (f : Flow) (t : Run B E) (v : Json)
      → once.recorded (publish_key f) t.effects ≡ some v
      → publish_once B E f t ≡ (ok v, t)
  unfolding publish_once on_effects
  replayed_once once f t v h =
      rw (once.replayed (publish_key f) v (publish_body B E f t.memory) t.effects h) refl

  pub once_effects :
      (f : Flow) (s s' : Run B E) (v : Json)
      → publish_once B E f s ≡ (ok v, s')
      → E.once (publish_key f) (publish_body B E f s.memory) s.effects ≡ (ok v, s'.effects)
  unfolding publish_once on_effects
  once_effects f s s' v h = ground arith

  module _ (once : IsOnce) where
    -- Once the tools of a publish step have returned, the same step in any later run that finds the
    -- effect store as it was left, whatever became of the memory and wherever the first run
    -- stopped, calls no tool and leaves the world outside as it is: it only writes the memory, and
    -- answers with the recorded results.
    pub publish_again :
        (s s' t : Run B E) (v : Json)
        → publish_once B E s.flow s ≡ (ok v, s')
        → t.effects ≡ s'.effects
        → publish_key t.flow ≡ publish_key s.flow
        → approved_by B E t.flow.payload ≡ ok true
        → (publish B E t ≡ finish t.flow v t) × ((publish B E t).1.effects ≡ t.effects)
    unfolding publish_approved ◌>>=◌
    publish_again s s' t v first same key approved =
        let there =
          once.answered (publish_key s.flow) v (publish_body B E s.flow s.memory) s.effects
            s'.effects (once_effects s.flow s s' v first) in
        let done : publish B E t ≡ finish t.flow v t =
          publish_lem t approved ∙ rw (replayed_once once t.flow t v (rw (key, same) there)) refl in
        (done, ap (λ r. r.1.effects) done ∙ finish-effects t.flow v t)

    -- An approved publish step whose file cannot be written throws, with the memory and the state
    -- as they were, and leaves no recorded result, so that a retry calls the tools again.
    pub publish_fails :
        (s : Run B E)
        → approved_by B E s.flow.payload ≡ ok true
        → once.recorded (publish_key s.flow) s.effects ≡ none
        → ((e : E.Effects)
            → (message : Text) × ((E.call
                  (lit "research.write_file")
                  (write_args s.flow)
                  s.memory
                  e).0
                ≡ error message))
        → (f : Fault) × ((publish B E s).0 ≡ err f)
          × ((publish B E s).1.memory ≡ s.memory)
          × ((publish B E s).1.flow ≡ s.flow)
          × (once.recorded (publish_key s.flow) (publish B E s).1.effects ≡ none)
    unfolding publish_approved publish_once on_effects ◌>>=◌
    publish_fails s approved fresh fails =
        let (f, e, none_yet) =
          once.pending (publish_key s.flow) (publish_body B E s.flow s.memory) s.effects fresh
            (λ e. body_fails s.flow s.memory e (fails e)) in
        rw (publish_lem s approved, e) (f, refl, refl, refl, none_yet)

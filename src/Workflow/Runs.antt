-- ===== src/Workflow/Runs.antt =====
-- Runs of the steps of workflows/research_task.nd. The engine chooses the order of the steps.
use claudecodenodus.Base.{Text, lit, text_eq, List, [], ◌∷◌}
use claudecodenodus.Base.Dict.{insert}
use claudecodenodus.Exec.Blocks.{pure, modify, ◌>>=◌, ◌>>◌}
use claudecodenodus.Json.{Json}
use claudecodenodus.Memory.Store.{Parent}
use claudecodenodus.Workflow.{Engine, Action}
use claudecodenodus.Workflow.Scripts

pub data Step : Type 0 where
  init recall gather_web gather_code gather_data analyze draft_step review publish : Step

unfoldable pub step_name : Step → Text
step_name Step.init = lit "init"
step_name Step.recall = lit "recall"
step_name Step.gather_web = lit "gather_web"
step_name Step.gather_code = lit "gather_code"
step_name Step.gather_data = lit "gather_data"
step_name Step.analyze = lit "analyze"
step_name Step.draft_step = lit "draft_step"
step_name Step.review = lit "review"
step_name Step.publish = lit "publish"

module _ (B : Parent) (E : Engine B) where
  -- The body of a step.
  unfoldable pub body : Step → Action B E Json
  body Step.init = Scripts.init B E
  body Step.recall = Scripts.recall B E
  body Step.gather_web = Scripts.gather B E (lit "web") [] 5
  body Step.gather_code = Scripts.gather B E (lit "code") (lit " code examples") 3
  body Step.gather_data = Scripts.gather B E (lit "data") (lit " research data") 3
  body Step.analyze = Scripts.analyze B E
  body Step.draft_step = Scripts.draft_step B E
  body Step.review = Scripts.review B E
  body Step.publish = Scripts.publish B E

  -- A step, whose result later steps read by its name.
  unfoldable pub run_step : Step → Action B E Json
  run_step step = do
    v ← body step
    modify (λ s. record s {
      flow = record s.flow { results = insert (step_name step) v s.flow.results };
    })
    pure v

  -- Steps in the order in which the engine takes them, up to the first that throws.
  unfoldable pub run_steps : List Step → Action B E (Unit {0})
  run_steps [] = pure tt
  run_steps (step ∷ steps) = do run_step step; run_steps steps

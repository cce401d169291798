-- ===== src/Workflow/Denied.antt =====
-- The publish step of workflows/research_task.nd behind the gate of src/runtime.py.
use claudecodenodus.Base.Collections.{contains}
use claudecodenodus.Base.{◌==◌, ap, Text, lit, ◌≡◌, refl, inl, inr, false, none, In, true}
use claudecodenodus.Exec.{Fault, ok, err}
use claudecodenodus.Json.{Json}
use claudecodenodus.Memory.Store.{Parent, Memory}
use claudecodenodus.Runtime.Backends.{Backends}
use claudecodenodus.Runtime.Tools.{Manifest, is_gated, gated_effects, handler}
use claudecodenodus.Runtime.Gate.{approves, handler-approves}
use claudecodenodus.Runtime.Setup.{load_tool_manifests}
use claudecodenodus.Runtime.Setup.Registry.{load_tool_manifests-Sorted}
use claudecodenodus.Runtime.Setup.Shipped.{extension_manifests, write_file_manifest}
use claudecodenodus.Workflow.{error, Engine, Run, write_args, publish_key}
use claudecodenodus.Workflow.Scripts.{approved_by, publish}
use claudecodenodus.Workflow.Retried.{IsOnce, publish_fails}

module _ (B : Parent) (E : Engine B) (K : Backends) where
  -- What Nodus documents of `tool.call`: where the handler of a registered tool raises, the call
  -- gives an error value. The tools are those of the repository's manifests.
  pub record IsSoft : Type 0 where
    pub state : E.Effects → K.State
    pub soft :
        (m : Manifest) (args : Json) (memory : Memory B) (e : E.Effects) (f : Fault)
        → In m (load_tool_manifests extension_manifests)
        → (handler K m args (state e)).0 ≡ err f
        → (message : Text) × ((E.call m.name args memory e).0 ≡ error message)

  shipped_write_file : In write_file_manifest (load_tool_manifests extension_manifests)
  unfolding extension_manifests
  shipped_write_file =
      ((load_tool_manifests-Sorted extension_manifests).1 write_file_manifest).1
        (inl (inr (inr (inr (inr (inr (inl refl)))))))

  gated_write_file : is_gated write_file_manifest ≡ true
  unfolding is_gated contains gated_effects lit ◌==◌
  gated_write_file = refl

  -- The gate that never approves makes the handler raise.
  handler-denied :
      (args : Json) (st : K.State)
      → approves K (K.check (lit "research.write_file") args st).0 ≡ false
      → (f : Fault) × ((handler K write_file_manifest args st).0 ≡ err f)
  handler-denied args st h =
      elim (handler-approves K write_file_manifest args st gated_write_file) [
        | inl (a, e) ↦ absurd cc
        | inr (a, (f, e)) ↦ (f, ap (λ r. r.0) e)
      ]

  -- An approved publish step whose tools are those of the repository, behind a gate that does not
  -- approve the writing of this file, throws: nothing is remembered as final, the state is as it was,
  -- and no result is recorded, so that the step can be tried again once the gate approves.
  pub publish_denied :
      (once : IsOnce B E) (tools : IsSoft) (s : Run B E)
      → approved_by B E s.flow.payload ≡ ok true
      → once.recorded (publish_key s.flow) s.effects ≡ none
      → ((st : K.State)
          → approves K (K.check (lit "research.write_file") (write_args s.flow) st).0 ≡ false)
      → (f : Fault) × ((publish B E s).0 ≡ err f)
        × ((publish B E s).1.memory ≡ s.memory)
        × ((publish B E s).1.flow ≡ s.flow)
        × (once.recorded (publish_key s.flow) (publish B E s).1.effects ≡ none)
  publish_denied once tools s approved fresh denied = publish_fails B E once s approved fresh λ e.
      let (f, raised) =
        handler-denied (write_args s.flow) (tools.state e) (denied (tools.state e)) in
      tools.soft write_file_manifest (write_args s.flow) s.memory e f shipped_write_file raised

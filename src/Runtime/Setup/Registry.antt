-- ===== src/Runtime/Setup/Registry.antt =====
-- The registered tools (src/runtime.py) are those of the manifests, each behind the gate that its
-- effects ask for.
use mathlib.Core.Path.{subst}
use claudecodenodus.Base.{
  ◌≡◌, refl, sym, ap, ◌↔◌, ◌⊎◌, inl, inr, Bool-cases, true, false, List, [], ◌∷◌, ◌++◌, arith, In,
}
use claudecodenodus.Base.Sort.{text_le_total, text_le_trans, Sorted, sort-Sorted, In-sort}
use claudecodenodus.Exec.{Fault, Result}
use claudecodenodus.Json.{Json}
use claudecodenodus.Runtime.Backends.{Backends}
use claudecodenodus.Runtime.Tools.{Manifest, is_gated, dispatch, handler}
use claudecodenodus.Runtime.Gate.{approves, Raises, handler-approves, handler_open}
use claudecodenodus.Runtime.Setup.{
  synthesize_manifest, by_name, load_tool_manifests, Registration, registration, register_tools,
}

by_name_total : (a b : Manifest) → by_name a b ≡ false → by_name b a ≡ true
unfolding by_name
by_name_total a b h = text_le_total a.name b.name h

by_name_trans : (a b c : Manifest) → by_name a b ≡ true → by_name b c ≡ true → by_name a c ≡ true
unfolding by_name
by_name_trans a b c h k = text_le_trans a.name b.name c.name h k

In-append : {A : Type 0} (x : A) (xs ys : List A) → In x (xs ++ ys) ↔ (In x xs ⊎ In x ys)
In-append x [] ys = ground arith
In-append x (y ∷ xs) ys = ground (arith, In-append x xs ys)

-- The loaded manifests are those of the files and that of the synthesize tool, ordered by name.
pub load_tool_manifests-Sorted :
    (files : List Manifest)
    → Sorted by_name (load_tool_manifests files)
      × ((m : Manifest)
          → In m (load_tool_manifests files) ↔ (In m files ⊎ (m ≡ synthesize_manifest)))
unfolding load_tool_manifests
load_tool_manifests-Sorted files = (
  sort-Sorted by_name by_name_total by_name_trans (files ++ synthesize_manifest ∷ []),
  λ m. ground (
    arith,
    In-sort by_name m (files ++ synthesize_manifest ∷ []),
    In-append m files (synthesize_manifest ∷ []),
  ),
)

module _ (B : Backends) where
  In-register_tools :
      (r : Registration B) (ms : List Manifest)
      → In r (register_tools B ms)
      → (m : Manifest) × In m ms × (r.name ≡ m.name) × (r.handler ≡ handler B m)
  unfolding register_tools registration
  In-register_tools r [] h = elim h [ ]
  In-register_tools r (m ∷ ms) (inl e) =
      (m, inl refl, ap (λ (q : Registration B). q.name) e, ap (λ (q : Registration B). q.handler) e)
  In-register_tools r (m ∷ ms) (inr h) =
      let (n, i, name, same) = In-register_tools r ms h in (n, inr i, name, same)

  -- The call of a tool is answered behind the gate, if its manifest asks for it.
  abbrev pub Guarded :
      Manifest → (Json → B.State → Result Fault Json × B.State) → Json → B.State → Type 0
  Guarded m tool args s =
      let (answer, s') = B.check m.name args s in
      ((is_gated m ≡ false) × (tool args s ≡ dispatch B m.name args s))
      ⊎ ((is_gated m ≡ true)
          × (((approves B answer ≡ true) × (tool args s ≡ dispatch B m.name args s'))
              ⊎ ((approves B answer ≡ false) × Raises B (tool args s) s')))

  handler-Guarded : (m : Manifest) (args : Json) (s : B.State) → Guarded m (handler B m) args s
  handler-Guarded m args s = elim (Bool-cases (is_gated m)) [
    | inl g ↦ inr (g, handler-approves B m args s g)
    | inr g ↦ inl (g, handler_open B m args s g)
  ]

  -- A registered tool has a manifest. Without a gated effect it does what its extension does; with
  -- one it does so if the gate approves the call, and otherwise raises after nothing but the
  -- question to the gate.
  pub register_tools-gated :
      (files : List Manifest) (r : Registration B) (args : Json) (s : B.State)
      → In r (register_tools B (load_tool_manifests files))
      → (m : Manifest) × (In m files ⊎ (m ≡ synthesize_manifest))
        × (r.name ≡ m.name)
        × Guarded m r.handler args s
  register_tools-gated files r args s h =
      let (m, i, name, same) = In-register_tools r (load_tool_manifests files) h in
      (
        m,
        ((load_tool_manifests-Sorted files).1 m).0 i,
        name,
        subst (λ tool. Guarded m tool args s) (sym same) (handler-Guarded m args s),
      )

-- ===== src/Examples/Tools.antt =====
-- The tools as they are registered, and without configured backends (src/runtime.py).
use claudecodenodus.Base.{lit, text_eq, ◌≡◌, refl, ◌⊎◌, inl, [], ◌∷◌, In}
use claudecodenodus.Base.Sort.{text_le, sort}
use claudecodenodus.Json.{dict, end}
use claudecodenodus.Runtime.Tools.{Manifest}
use claudecodenodus.Runtime.Setup.{
  synthesize_manifest, by_name, load_tool_manifests, registration, register_tools,
}
use claudecodenodus.Runtime.Setup.Registry
use claudecodenodus.Runtime.Setup.Registry.{Guarded}
use claudecodenodus.Examples.Host.{backends, writer}

registered_first :
    In
      (registration backends synthesize_manifest)
      (register_tools backends (load_tool_manifests (writer ∷ [])))
unfolding register_tools load_tool_manifests by_name sort text_le synthesize_manifest lit
registered_first = inl refl

register_tools-gated_example :
    (m : Manifest) × (In m (writer ∷ []) ⊎ (m ≡ synthesize_manifest))
    × ((registration backends synthesize_manifest).name ≡ m.name)
    × Guarded backends m (registration backends synthesize_manifest).handler (dict end) 0
register_tools-gated_example =
    Registry.register_tools-gated backends (writer ∷ []) (registration backends synthesize_manifest)
      (dict end) 0 registered_first

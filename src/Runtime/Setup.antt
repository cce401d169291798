-- ===== src/Runtime/Setup.antt =====
-- What `ResearchRuntime` of src/runtime.py is set up with: the clients of the language model, and the
-- tools that it registers from their manifests.
pub mod Registry
pub mod Shipped
pub mod Clients
use claudecodenodus.Base.{
  ℕ, Text, lit, Option, none, some, List, [], ◌∷◌, ◌++◌, map, if◌then◌else◌, ◌==◌, text_eq, Bool,
}
use claudecodenodus.Base.Sort.{text_le, sort}
use claudecodenodus.Json.{Json, str, dict, end, field}
use claudecodenodus.Notify.Delivery.{is_set, or_text, text_or_empty}
use claudecodenodus.Runtime.Backends.{Backends, Tool}
use claudecodenodus.Runtime.Tools.{Manifest, handler}

-- `CredentialProfile`
pub record Profile : Type 0 where
  pub name : Text
  pub provider : Text
  pub api_key : Text
  pub model : Text
  pub priority : ℕ

module _ (environ : Text → Option Text) where
  anthropic_profiles : Option Text → List Profile
  anthropic_profiles key =
      if is_set key
      then record {
        name = lit "anthropic-primary";
        provider = lit "anthropic";
        api_key = text_or_empty key;
        model = or_text (environ (lit "RESEARCH_LLM_MODEL")) (lit "claude-opus-4-8");
        priority = 0;
      }
        ∷ []
      else []

  openai_profiles : Option Text → List Profile
  openai_profiles key =
      if is_set key
      then record {
        name = lit "openai-fallback";
        provider = lit "openai";
        api_key = text_or_empty key;
        model = or_text (environ (lit "RESEARCH_OPENAI_MODEL")) (lit "gpt-4o");
        priority = 1;
      }
        ∷ []
      else []

  -- The profiles of the client, or no client.
  abbrev client_of : List Profile → Option (List Profile)
  client_of [] = none
  client_of (p ∷ ps) = some (p ∷ ps)

  unfoldable pub build_llm_client : Option (List Profile)
  unfolding anthropic_profiles openai_profiles
  build_llm_client = client_of (
      anthropic_profiles (environ (lit "ANTHROPIC_API_KEY"))
      ++ openai_profiles (environ (lit "OPENAI_API_KEY")))

-- `_SYNTHESIZE_MANIFEST`
unfoldable pub synthesize_manifest : Manifest
synthesize_manifest = record {
  name = lit "research.synthesize";
  description = lit "Synthesize a research draft from gathered findings using an LLM.";
  effects = lit "llm.complete" ∷ [];
  schema = dict (
      field (lit "question") (str (lit "string")) (
        field (lit "analysis") (str (lit "string")) (
          field (lit "feedback") (str (lit "string"))
            (field (lit "prior") (str (lit "string")) end))));
}

unfoldable pub by_name : Manifest → Manifest → Bool
by_name a b = text_le a.name b.name

-- `load_tool_manifests`, on the manifests that the files hold, in the order of their paths
unfoldable pub load_tool_manifests : List Manifest → List Manifest
unfolding by_name
load_tool_manifests files = sort by_name (files ++ synthesize_manifest ∷ [])

module _ (B : Backends) where
  -- One call of `tool_registry.register`.
  pub record Registration : Type 0 where
    pub name : Text
    pub description : Text
    pub handler : Json → Tool B
    pub schema : Json

  unfoldable pub registration : Manifest → Registration
  registration m = record {
    name = m.name;
    description = m.description;
    handler = handler B m;
    schema = m.schema;
  }

  -- `_register_tools`
  unfoldable pub register_tools : List Manifest → List Registration
  unfolding registration
  register_tools manifests = map registration manifests

-- ===== src/Runtime/Setup/Clients.antt =====
-- The client of the language model (src/runtime.py), by the keys in the environment.
use claudecodenodus.Base.{
  ◌<◌, Text, lit, ◌≡◌, refl, ◌⊎◌, inl, inr, Bool, true, false, Option, none, some, List, [], ◌∷◌,
  All, arith,
}
use claudecodenodus.Notify.Delivery.{is_set, text_or_empty}
use claudecodenodus.Runtime.Setup.{Profile, anthropic_profiles, openai_profiles, build_llm_client}

set_text : (key : Option Text) → is_set key ≡ true → key ≡ some (text_or_empty key)
set_text none h = cc
set_text (some []) h = cc
set_text (some (c ∷ t)) h = refl

module _ (environ : Text → Option Text) where
  -- The key of a profile is the one that the environment has for its provider.
  abbrev pub Backed : Profile → Type 0
  Backed p =
      ((p.provider ≡ lit "anthropic") × (environ (lit "ANTHROPIC_API_KEY") ≡ some p.api_key))
      ⊎ ((p.provider ≡ lit "openai") × (environ (lit "OPENAI_API_KEY") ≡ some p.api_key))

  -- The profiles are tried in the order of their priorities.
  abbrev pub Ascending : List Profile → Type 0
  Ascending [] = Unit
  Ascending (p ∷ ps) = All (λ (q : Profile). p.priority < q.priority) ps × Ascending ps

  -- There is no client exactly if neither key is set; a client has a profile for each key that is
  -- set, with that key, and the provider of the first is preferred.
  build_llm_client-Backed :
      (keys : Bool × Bool)
      → is_set (environ (lit "ANTHROPIC_API_KEY")) ≡ keys.0
      → is_set (environ (lit "OPENAI_API_KEY")) ≡ keys.1
      → ((keys ≡ (false, false)) × (build_llm_client environ ≡ none))
        ⊎ ((profiles : List Profile) × (build_llm_client environ ≡ some profiles)
            × All Backed profiles
            × Ascending profiles)
  unfolding build_llm_client anthropic_profiles openai_profiles
  build_llm_client-Backed (false, false) a o = rw (a, o) (inl (refl, refl))
  build_llm_client-Backed (true, false) a o =
      rw (a, o) (inr (_, refl, (inl (refl, set_text _ a), tt), (tt, tt)))
  build_llm_client-Backed (false, true) a o =
      rw (a, o) (inr (_, refl, (inr (refl, set_text _ o), tt), (tt, tt)))
  build_llm_client-Backed (true, true) a o =
      rw (a, o)
        (inr (
          _,
          refl,
          (inl (refl, set_text _ a), (inr (refl, set_text _ o), tt)),
          ((omega arith, tt), (tt, tt)),
        ))

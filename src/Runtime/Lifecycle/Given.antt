-- ===== src/Runtime/Lifecycle/Given.antt =====
-- What a `ResearchRuntime` of src/runtime.py is given, it uses.
use claudecodenodus.Base.{◌≡◌, refl, Option, none, some}
use claudecodenodus.Exec.{ok}
use claudecodenodus.Exec.Blocks.{Block, Gives, Gives-pure, Gives-bind, Gives-bind-any}
use claudecodenodus.Runtime.Lifecycle.{
  Choice, auto, given, Library, Options, ResearchRuntime, given_or, chosen_or, construct,
}

-- A value that was given is the one in use.
abbrev pub Used : {A : Type 0} → Option A → A → Type 0
Used none b = Unit
Used (some a) b = b ≡ a

abbrev pub Chosen : {A : Type 0} → Choice A → A → Type 0
Chosen auto b = Unit
Chosen (given a) b = b ≡ a

module _ {S : Type 0} where
  given_or-Used :
      {A : Type 0} (L : Library S) (o : Option A) (default : Block S A)
      → Gives (Used o) (given_or L o default)
  unfolding given_or
  given_or-Used L none default = record { returned = λ s s' a h. tt }
  given_or-Used L (some a) default = Gives-pure a refl

  chosen_or-Chosen :
      {A : Type 0} (L : Library S) (o : Choice A) (default : Block S A)
      → Gives (Chosen o) (chosen_or L o default)
  unfolding chosen_or
  chosen_or-Chosen L auto default = record { returned = λ s s' a h. tt }
  chosen_or-Chosen L (given a) default = Gives-pure a refl

module _ {S : Type 0} (L : Library S) (o : Options L) where
  -- Every argument that is given stands in the runtime, and the gate is made of the policy and the
  -- store in use.
  abbrev pub Uses : ResearchRuntime L → Type 0
  Uses rt =
      Used o.policy rt.policy
      × Used o.store rt.store
      × Used o.effect_store rt.effect_store
      × Used o.memory_store rt.memory_store
      × Chosen o.llm_client rt.llm_client
      × Chosen o.web_backend rt.web_backend
      × Chosen o.code_runner rt.code_runner
      × Chosen o.notifier rt.notifier
      × (rt.gate ≡ L.gate rt.policy rt.store)

  construct-Uses : Gives Uses (construct L o)
  unfolding construct
  construct-Uses = Gives-bind-any _ _ λ workspace. Gives-bind-any _ _ λ u. Gives-bind-any _ _ λ u.
      Gives-bind _ _ _ (given_or-Used L o.policy _) λ policy a.
        Gives-bind _ _ _ (given_or-Used L o.store _) λ store b.
          Gives-bind _ _ _ (given_or-Used L o.effect_store _) λ effects c.
            Gives-bind _ _ _ (given_or-Used L o.memory_store _) λ memory d.
              Gives-bind _ _ _ (chosen_or-Chosen L o.llm_client _) λ llm e.
                Gives-bind _ _ _ (chosen_or-Chosen L o.web_backend _) λ web f.
                  Gives-bind _ _ _ (chosen_or-Chosen L o.code_runner _) λ runner g.
                    Gives-bind _ _ _ (chosen_or-Chosen L o.notifier _) λ notifier h.
                      Gives-bind-any _ _ λ runtime. Gives-bind-any _ _ λ u.
                        Gives-bind-any _ _ λ source. Gives-bind-any _ _ λ u.
                          Gives-bind-any _ _
                            λ u. Gives-bind-any _ _ λ u. Gives-pure _ (a, b, c, d, e, f, g, h, refl)

  -- A runtime that is constructed uses every component that it was given, one that is given as missing
  -- included, and its gate is made of the policy and the store that it uses.
  construct_given : (s s' : S) (rt : ResearchRuntime L) → construct L o s ≡ (ok rt, s') → Uses rt
  construct_given s s' rt h = construct-Uses.returned s s' rt h

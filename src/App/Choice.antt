-- ===== src/App/Choice.antt =====
-- The providers that `selectProvider` in `app/search_service.go` chooses.
use search_x.Provider.Fallback.{names}
use mathlib.Core.Path.{subst}
use search_x.Provider.Building.{new_chain-members}
use search_x.Prelude.{
  ◌⊎◌, true, ◌≢◌, refl, ◌∙◌, ◌∷◌, inr, ap, Option-cases, Distinct, sym, inl, Bool-cases, map, some,
  false, [], ◌≡◌, Option, List, ℕ,
}
use search_x.App.Requests.{
  is_named, select_provider, single_of, find_members, find_provider, chain_of, Selected, single,
  chained,
}
use search_x.Domain.Fallible.{Fallible, ok, fail, >>=-eq-ok}
use search_x.Domain.Attempts.{ProviderName, auto}
use search_x.Domain.{SearchRequest}
use search_x.Provider.Chain.{Provider, new_chain}
use search_x.Provider.Registry.{Registry, get_provider}
use search_x.SearchPlan.Finalize.{is_empty}

module _ {W : Type 0} (unicode : ℕ → ℕ) (registry : Registry W) where
  -- The choice is the registered provider of that name, or the chain of those of the request.
  pub IsChoice : SearchRequest → Selected W × ProviderName → Type 0
  IsChoice r (single p, name) =
      (get_provider unicode name registry ≡ some p)
      × (((is_named r.provider ≡ true) × (name ≡ r.provider))
          ⊎ ((is_named r.provider ≡ false) × (r.providers ≡ []) × (name ≡ auto)))
  IsChoice r (chained c, name) =
      (name ≡ auto)
      × (c.name ≡ auto)
      × (is_named r.provider ≡ false)
      × (r.providers ≢ [])
      × (map some c.members ≡ map (λ n. get_provider unicode n registry) r.providers)
      × Distinct (names c.members)

  choice_of :
      Selected W × ProviderName → Fallible (Selected W × ProviderName) → Selected W × ProviderName
  choice_of d (ok s) = s
  choice_of d (fail e) = d

  provider_of : Provider W → Fallible (Provider W) → Provider W
  provider_of d (ok p) = p
  provider_of d (fail e) = d

  members_of : Fallible (List (Option (Provider W))) → List (Option (Provider W))
  members_of (ok ms) = ms
  members_of (fail e) = []

  find_provider_lem :
      (name : ProviderName) (p : Provider W)
      → find_provider unicode registry name ≡ ok p
      → get_provider unicode name registry ≡ some p
  unfolding find_provider provider_of
  find_provider_lem name p h = elim (Option-cases (get_provider unicode name registry)) [
    | inl a ↦ absurd (cc (rw (find_provider, a) at h))
    | inr (q, a) ↦ a ∙ ap some (ap (provider_of p) (rw (find_provider, a) at h))
  ]

  find_members_lem :
      (ns : List ProviderName) (ms : List (Option (Provider W)))
      → find_members unicode registry ns ≡ ok ms
      → ms ≡ map (λ n. get_provider unicode n registry) ns
  unfolding find_members members_of
  find_members_lem [] ms h = sym (ap members_of h)
  find_members_lem (n ∷ ns) ms h =
      let (p, h1, a) = >>=-eq-ok _ (find_provider unicode registry n) h in
      let (ps, h2, b) = >>=-eq-ok _ (find_members unicode registry ns) h1 in
      let e : some p ∷ ps ≡ ms = ap members_of h2 in
      cc (e, find_provider_lem n p a, find_members_lem ns ps b)

  single_of_lem :
      (r : SearchRequest) (name : ProviderName) (s : Selected W × ProviderName)
      → ((is_named r.provider ≡ true) × (name ≡ r.provider))
        ⊎ ((is_named r.provider ≡ false) × (r.providers ≡ []) × (name ≡ auto))
      → single_of unicode registry name ≡ ok s
      → IsChoice r s
  unfolding single_of IsChoice choice_of
  single_of_lem r name s e h =
      let (p, k, a) = >>=-eq-ok _ (find_provider unicode registry name) h in
      subst (IsChoice r) (ap (choice_of s) k) (find_provider_lem name p a, e)

  chain_of_lem :
      (r : SearchRequest) (s : Selected W × ProviderName)
      → is_named r.provider ≡ false
      → r.providers ≢ []
      → chain_of unicode registry r.providers ≡ ok s
      → IsChoice r s
  unfolding chain_of IsChoice choice_of
  chain_of_lem r s n some_listed h =
      let (ms, h1, a) = >>=-eq-ok _ (find_members unicode registry r.providers) h in
      let (c, h2, b) = >>=-eq-ok _ (new_chain auto ms) h1 in
      let (name, same, _, distinct) = new_chain-members auto ms c b in
      subst (IsChoice r) (ap (choice_of s) h2)
        (refl, name, n, some_listed, same ∙ find_members_lem r.providers ms a, distinct)

  empty_list : (ns : List ProviderName) → is_empty ns ≡ true → ns ≡ []
  unfolding is_empty
  empty_list [] h = refl
  empty_list (n ∷ ns) h = absurd (cc)

  listed : (ns : List ProviderName) → is_empty ns ≡ false → ns ≢ []
  unfolding is_empty
  listed [] h = absurd (cc)
  listed (n ∷ ns) h = λ e. cc

  -- A provider is chosen only as registered: the one that the request names; where it names none and
  -- lists none, the one under "auto"; or, where it names none and lists some, the chain, called
  -- "auto", of exactly the providers that it lists, in their order and with different names.
  pub select_provider-IsChoice :
      (r : SearchRequest) (s : Selected W × ProviderName)
      → select_provider unicode registry r ≡ ok s
      → IsChoice r s
  unfolding select_provider
  select_provider-IsChoice r s h = elim (Bool-cases (is_named r.provider)) [
    | inl a ↦ single_of_lem r r.provider s (inl (a, refl)) (rw a at h)
    | inr a ↦ elim (Bool-cases (is_empty r.providers)) [
      | inl b ↦ single_of_lem r auto s (inr (a, empty_list r.providers b, refl)) (rw (a, b) at h)
      | inr b ↦ chain_of_lem r s a (listed r.providers b) (rw (a, b) at h)
    ]
  ]

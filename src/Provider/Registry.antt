-- ===== src/Provider/Registry.antt =====
-- `websearch/internal/provider/registry.go`. The map is an association list under normalized
-- names; `unicode` lower-cases the characters beyond ASCII. The lock makes each call one step.
use search_x.Prelude.Strings.{trim_space, to_lower}
use search_x.Domain.Attempts.{ProviderName}
use search_x.Prelude.{
  inr, arith, inl, Option-cases, if◌then◌else◌, [], none, ◌≡◌, Option, ◌∷◌, some, List, ℕ,
}
use search_x.Provider.Chain.{Provider}
use search_x.Domain.Fallible.{Fallible, ok, fail}
use search_x.Domain.Errors.{plain}
use search_x.Prelude.Text.{codes, text_eq}

abbrev pub Registry : Type 0 → Type 0
Registry W = List (ProviderName × Provider W)

-- `normalizeName`
unfoldable pub normalize_name : (ℕ → ℕ) → ProviderName → ProviderName
normalize_name unicode name = to_lower unicode (trim_space name)

module _ {W : Type 0} where
  unfoldable pub registered : ProviderName → Registry W → Option (Provider W)
  registered name [] = none
  registered name ((n, p) ∷ r) = if text_eq n name then some p else registered name r

  unfoldable pub get_provider : (ℕ → ℕ) → ProviderName → Registry W → Option (Provider W)
  unfolding registered
  get_provider unicode name r = registered (normalize_name unicode name) r

  unfoldable pub register_named : ProviderName → Provider W → Registry W → Fallible (Registry W)
  unfolding registered
  register_named [] p r = fail (plain (codes "provider name is empty"))
  register_named (c ∷ name) p r = elim (registered (c ∷ name) r) [
    | some q ↦ fail (plain (codes "provider already registered"))
    | none ↦ ok ((c ∷ name, p) ∷ r)
  ]

  unfoldable pub register : (ℕ → ℕ) → Option (Provider W) → Registry W → Fallible (Registry W)
  unfolding register_named
  register unicode none r = fail (plain (codes "provider is nil"))
  register unicode (some p) r = register_named (normalize_name unicode p.name) p r

  register_named_lem :
      (name other : ProviderName) (p : Provider W) (r r' : Registry W)
      → register_named name p r ≡ ok r'
      → (registered name r ≡ none) × (r' ≡ (name, p) ∷ r)
  unfolding register_named
  register_named_lem [] other p r r' h = cc
  register_named_lem (c ∷ name) other p r r' h = elim (Option-cases (registered (c ∷ name) r)) [
    | inl a ↦ (a, ground (arith, h, a))
    | inr (q, a) ↦ absurd (ground (arith, h, a))
  ]

-- A successful `Register` adds one provider, under a normalized name that was free: it is found
-- under every spelling of that name, and every other name finds what it found before.
pub get-register :
    {W : Type 0} (unicode : ℕ → ℕ) (p : Provider W) (r r' : Registry W) (name : ProviderName)
    → register unicode (some p) r ≡ ok r'
    → (get_provider unicode p.name r ≡ none)
      × (get_provider unicode name r' ≡ (
          if text_eq (normalize_name unicode p.name) (normalize_name unicode name)
          then some p
          else get_provider unicode name r))
unfolding register get_provider registered
get-register unicode p r r' name h =
    let (a, b) = register_named_lem (normalize_name unicode p.name) name p r r' h in
    (a, rw (b, registered))

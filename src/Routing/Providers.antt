-- ===== src/Routing/Providers.antt =====
-- The pools of the router stay those of the same providers, in the same order, through every step of
-- a search.
use search_x.Prelude.Text.{Text}
use search_x.Prelude.{
  Bool-cases, zero, refl, [], ap, suc, ◌∷◌, inr, update, inl, some, arith, Bool, get_elem?,
  Option-cases, ◌≡◌, ℕ, List,
}
use search_x.ProfilePool.Floats.{FloatOps}
use search_x.Routing.World.{Shared, Env, Event, providers_of, traced, release_at}
use search_x.ProfilePool.Types.{Pool, Lease, Result, Entry}
use search_x.ProfilePool.Acquire.{try_acquire, reconcile, grant}
use search_x.ProfilePool.Release.{release, release_entry, save_and_signal}
use search_x.ProfilePool.Control.{signal}

module _ {R : Type 0} (fl : FloatOps R) where
  pub try_acquire-provider :
      (id : Text) (a e : Bool) (x : Text) (now : ℕ) (p : Pool R)
      → (try_acquire fl id a e x now p).0.provider ≡ p.provider
  unfolding try_acquire grant reconcile
  try_acquire-provider id a e x now p = ground arith

  release_entry-provider :
      (i : ℕ) (r : Result) (now : ℕ) (e : Entry R) (p : Pool R)
      → (release_entry fl i r now e p).0.provider ≡ p.provider
  unfolding release_entry save_and_signal signal
  release_entry-provider i r now e p = ground arith

  pub release-provider :
      (l : Lease) (r : Result) (now : ℕ) (p : Pool R)
      → (release fl l r now p).1.provider ≡ p.provider
  unfolding release
  release-provider l r now p = elim (Bool-cases l.released) [
    | inl a ↦ rw (release, a) refl
    | inr a ↦ elim (Option-cases (get_elem? p.profiles l.slot)) [
      | inl b ↦ rw (release, a, b) refl
      | inr (e, b) ↦ rw (release, a, b) (release_entry-provider l.slot r now e p)
    ]
  ]

pub providers_of-update :
    {R : Type 0} (ps : List (Pool R)) (i : ℕ) (p q : Pool R)
    → get_elem? ps i ≡ some p
    → q.provider ≡ p.provider
    → providers_of (update ps i (λ _. q)) ≡ providers_of ps
providers_of-update [] i p q h e = refl
providers_of-update (c ∷ ps) zero p q h e = ground arith
providers_of-update (c ∷ ps) (suc i) p q h e =
    ap (◌∷◌ c.provider) (providers_of-update ps i p q h e)

module _ {R W : Type 0} (fl : FloatOps R) (env : Env R W) where
  pub traced-pools : (e : Event R) (s : Shared R W) → (traced fl env e s).0.pools ≡ s.pools
  unfolding traced
  traced-pools e s = ground arith

  pub release_at-providers :
      (i : ℕ) (l : Lease) (r : Result) (s : Shared R W)
      → providers_of (release_at fl env i l r s).0.pools ≡ providers_of s.pools
  unfolding release_at
  release_at-providers i l r s = elim (Option-cases (get_elem? s.pools i)) [
    | inl a ↦ rw (release_at, a)
    | inr (p, a) ↦
        rw (release_at, a)
          (providers_of-update s.pools i p _ a (release-provider fl l r (env.now s.world) p))
  ]

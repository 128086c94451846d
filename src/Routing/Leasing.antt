-- ===== src/Routing/Leasing.antt =====
-- A lease of a round comes from a pool whose provider was not attempted before in the search.
use search_x.Routing.Waiting.{acquire_any_auto}
use search_x.Routing.Search.{try_route, try_wait, acquire_lease}
use search_x.ProfilePool.Types.{Lease}
use search_x.Routing.Fresh.{
  route-IsFresh, route-providers, acquire_any_auto_fair, IsFresh, KeepsProviders,
}
use search_x.Domain.{SearchRequest}
use search_x.Routing.World.{Shared, providers_of, Limits, Env}
use search_x.ProfilePool.Floats.{FloatOps}
use search_x.Domain.Attempts.{ProviderName}
use search_x.Prelude.{
  Option-cases, refl, ◌∙◌, none, ltb, inr, inl, inr, inl, Bool-cases, Option, some, ◌-◌, ◌+◌, ◌≡◌,
  List, ℕ,
}
use search_x.Routing.Rounds.{leased, nowhere, overfull, Choice, choice_of, Progress}

module _ {R W : Type 0} (fl : FloatOps R) (env : Env R W) (limits : Limits)
    (request : SearchRequest) (shadow : ProviderName) (ns : List ProviderName)
    (keeps : KeepsProviders env) where
  abbrev pub FairChoice : Progress → Choice R W → Type 0
  FairChoice g (overfull s) = Unit
  FairChoice g (nowhere s) = Unit
  FairChoice g (leased s i l) = (providers_of s.pools ≡ ns) × IsFresh ns g.attempted i

  choice_of_fair :
      (g : Progress) (s : Shared R W) (got : Option (ℕ × Lease))
      → providers_of s.pools ≡ ns
      → ((i : ℕ) (l : Lease) → got ≡ some (i, l) → IsFresh ns g.attempted i)
      → FairChoice g (choice_of s got)
  unfolding choice_of
  choice_of_fair g s none h f = tt
  choice_of_fair g s (some (i, l)) h f = (h, f i l refl)

  try_route_fair :
      (g : Progress) (s : Shared R W)
      → providers_of s.pools ≡ ns
      → (providers_of (try_route fl env limits request shadow g s).0.pools ≡ ns)
        × ((i : ℕ) (l : Lease)
            → (try_route fl env limits request shadow g s).1 ≡ some (i, l)
            → IsFresh ns g.attempted i)
  unfolding try_route
  try_route_fair g s h = (
    route-providers fl request.request_id g.attempted g.excluded (env.now s.world) s.pools ∙ h,
    λ i l e. rw (← h) (
        route-IsFresh fl request.request_id g.attempted g.excluded (env.now s.world) s.pools i l e),
  )

  try_wait_fair :
      (g : Progress) (s : Shared R W)
      → providers_of s.pools ≡ ns
      → FairChoice g (try_wait fl env limits request shadow g s)
  unfolding try_wait
  try_wait_fair g s h =
      let (t, got) = acquire_any_auto fl env request.request_id g.attempted s in
      let (kept, fresh) =
        acquire_any_auto_fair fl env request.request_id g.attempted ns keeps s h in
      elim (Option-cases got) [
        | inr ((i, l), a) ↦ rw (try_wait, a) (kept, fresh i l a)
        | inl a ↦
            let u : Shared R W = record t { queued = t.queued - 1 } in
            let (k, f) = try_route_fair g u kept in
            rw (try_wait, a)
              (choice_of_fair g (try_route fl env limits request shadow g u).0
                (try_route fl env limits request shadow g u).1 k f)
      ]

  pub acquire_lease_fair :
      (g : Progress) (s : Shared R W)
      → providers_of s.pools ≡ ns
      → FairChoice g (acquire_lease fl env limits request shadow g s)
  unfolding acquire_lease
  acquire_lease_fair g s h =
      let (kept, fresh) = try_route_fair g s h in
      let t = (try_route fl env limits request shadow g s).0 in
      elim (Option-cases (try_route fl env limits request shadow g s).1) [
        | inr ((i, l), a) ↦ rw (acquire_lease, a) (kept, fresh i l a)
        | inl a ↦ elim (Bool-cases (ltb limits.auto_queue_max (t.queued + 1))) [
          | inl b ↦ rw (acquire_lease, a, b) tt
          | inr b ↦
              rw (acquire_lease, a, b) (try_wait_fair g (record t { queued = t.queued + 1 }) kept)
        ]
      ]

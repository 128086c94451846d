-- ===== src/Routing/Search.antt =====
-- The loop of `Router.Search` in `routing/router.go`, one round of which acquires a lease, searches
-- through it, gives it back and judges the outcome.
use search_x.Prelude.{
  ◌/◌, zero, suc, ◌&&◌, none, not, ltb, length, ◌+◌, ℕ, Option, if◌then◌else◌, Bool, some, ◌-◌, [],
}
use search_x.Domain.Attempts.{ProviderName}
use search_x.Domain.Errors.{Error}
use search_x.Domain.Fallible.{Fallible, ok, fail}
use search_x.Domain.{SearchRequest, SearchResponse}
use search_x.ProfilePool.Floats.{FloatOps}
use search_x.ProfilePool.Snapshots.{Snapshot}
use search_x.ProfilePool.Types.{Lease}
use search_x.Prelude.Text.{Text, text_eq}
use search_x.Routing.Router.{
  result_for, reroutable, route, prepare_routed, has_attempt_budget, annotate_debug_attempts,
  shadow_candidate, available_slots_of,
}
use search_x.Routing.Waiting.{acquire_any_auto}
use search_x.Routing.World.{
  Shared, Env, Limits, traced, release_at, network_error, trace_error, queue_full,
  shadow_route_decision, route_decision, lease_acquired, provider_attempt, lease_released,
  shadow_route_compare,
}
use search_x.Routing.Rounds.{
  Progress, exhausted, judged_outcome, result_count, Next, finished, again, Choice, overfull,
  nowhere, leased, lease_id, begin, counted, exclude, give_up_on, choice_of, profile_at,
  snapshot_at, provider_at, alternative_at,
}

-- What follows a step that may report an error.
unfoldable pub checked :
    {R W : Type 0}
    → (Error → Shared R W → Next R W)
    → (Shared R W → Next R W)
    → Shared R W × Option Error
    → Next R W
checked handle k (s, none) = k s
checked handle k (s, some x) = handle x s

module _ {R W : Type 0} (fl : FloatOps R) (env : Env R W) (limits : Limits)
    (request : SearchRequest) (shadow : ProviderName) where
  unfoldable pub try_route : Progress → Shared R W → Shared R W × Option (ℕ × Lease)
  unfolding route
  try_route g s =
      let (ps, got) =
        route fl request.request_id g.attempted g.excluded (env.now s.world) s.pools in
      (record s { pools = ps }, got)

  -- After a wait that gave nothing the pools are tried once more.
  unfoldable pub try_wait : Progress → Shared R W → Choice R W
  unfolding acquire_any_auto try_route choice_of
  try_wait g s =
      let (s', got) = acquire_any_auto fl env request.request_id g.attempted s in
      let s'' : Shared R W = record s' { queued = s'.queued - 1 } in
      elim got [
        | some (i, l) ↦ leased s'' i l
        | none ↦ let (t, found) = try_route g s'' in choice_of t found
      ]

  -- A lease at once, or a place in the queue.
  unfoldable pub acquire_lease : Progress → Shared R W → Choice R W
  unfolding try_route try_wait
  acquire_lease g s =
      let (s', got) = try_route g s in
      elim got [
        | some (i, l) ↦ leased s' i l
        | none ↦
            if ltb limits.auto_queue_max (s'.queued + 1)
            then overfull s'
            else try_wait g (record s' { queued = s'.queued + 1 })
      ]

  -- A lease that could not be traced is given back.
  unfoldable pub abandon : ℕ → Lease → Error → Shared R W → Next R W
  unfolding release_at trace_error
  abandon i l x s = finished (release_at fl env i l network_error s).0 (fail (trace_error x))

  -- The next round, for the provider's other profile or without the provider.
  unfoldable pub reroute : ℕ → ProviderName → Text → Error → Progress → Shared R W → Next R W
  unfolding reroutable alternative_at exclude give_up_on
  reroute i p profile e g s =
      if not (reroutable e)
      then finished s (fail e)
      else let g' = exclude p profile g in
        if ltb (g'.agent_attempts p) limits.max_agent_attempts && alternative_at i profile s
        then again s g'
        else again s (give_up_on p e g')

  unfoldable pub judge :
      ℕ → ProviderName → Text → Progress → Fallible SearchResponse → Shared R W → Next R W
  unfolding judged_outcome prepare_routed annotate_debug_attempts traced reroute lease_id
  judge i p profile g outcome s = elim (judged_outcome outcome) [
    | fail e ↦ reroute i p profile e g s
    | ok r ↦ finished (traced fl env (shadow_route_compare p shadow (text_eq shadow p)) s).0 (
        ok (
          prepare_routed profile p g.failed (
            annotate_debug_attempts p profile (lease_id request.request_id profile g.round) g.round
              r)))
  ]

  -- The two events after the release, and the verdict.
  unfoldable pub report :
      ℕ
      → Lease
      → ProviderName
      → Text
      → Option (Snapshot R)
      → Progress
      → Fallible SearchResponse
      → Shared R W
      → Next R W
  unfolding result_for result_count snapshot_at traced trace_error judge lease_id
  report i l p profile before g outcome s =
      let id = lease_id request.request_id profile g.round in
      let class = (result_for outcome).classification in
      checked (λ x t. finished t (fail (trace_error x)))
        (λ s'.
          checked (λ x t. finished t (fail (trace_error x))) (judge i p profile g outcome)
            (traced fl env
              (lease_released p profile id class ((env.now s'.world - l.acquired_at) / 1000000)
                before (snapshot_at i l s))
              s'))
        (traced fl env (provider_attempt p profile id class (result_count outcome)) s)

  -- The search through the lease, and its release.
  unfoldable pub use_lease :
      ℕ → Lease → ProviderName → Text → Option (Snapshot R) → Progress → Shared R W → Next R W
  unfolding result_for release_at trace_error report
  use_lease i l p profile before g s =
      let (s', outcome) = env.search i l (record request { provider = p }) s in
      checked (λ x t. finished t (fail (trace_error x))) (report i l p profile before g outcome)
        (release_at fl env i l (result_for outcome) s')

  -- The two events before the search.
  unfoldable pub announce : ℕ → Lease → ProviderName → Text → Progress → Shared R W → Next R W
  unfolding traced snapshot_at abandon use_lease lease_id
  announce i l p profile g s =
      let before = snapshot_at i l s in
      checked (abandon i l)
        (λ s'. checked (abandon i l) (use_lease i l p profile before g) (
          traced fl env
            (lease_acquired p profile (lease_id request.request_id profile g.round) before) s'))
        (traced fl env (route_decision p profile g.round) s)

  unfoldable pub with_choice : Progress → Choice R W → Next R W
  unfolding counted announce exhausted queue_full
  with_choice g (overfull s) = finished s (fail queue_full)
  with_choice g (nowhere s) = finished s (fail (exhausted g.failures))
  with_choice g (leased s i l) =
      let p = provider_at i s in announce i l p (profile_at i l s) (counted p g) s

  unfoldable pub has_rounds_left : Progress → Shared R W → Bool
  unfolding has_attempt_budget
  has_rounds_left g s =
      ltb (length g.attempted) limits.max_provider_attempts
      && has_attempt_budget limits.deadline limits.minimum_attempt_budget (env.now s.world)

  unfoldable pub one_round : Progress → Shared R W → Next R W
  unfolding has_rounds_left acquire_lease with_choice exhausted
  one_round g s =
      if has_rounds_left g s
      then with_choice g (acquire_lease g s)
      else finished s (fail (exhausted g.failures))

  -- `none`: the fuel ran out.
  unfoldable pub rounds : ℕ → Progress → Shared R W → Option (Shared R W × Fallible SearchResponse)
  unfolding one_round
  rounds zero g s = none
  rounds (suc fuel) g s = elim (one_round g s) [
    | finished t out ↦ some (t, out)
    | again t g' ↦ rounds fuel g' t
  ]

module _ {R W : Type 0} (fl : FloatOps R) (env : Env R W) (limits : Limits)
    (request : SearchRequest) where
  unfoldable pub start :
      ℕ → ProviderName → Shared R W × Option Error → Option (Shared R W × Fallible SearchResponse)
  unfolding rounds begin trace_error
  start fuel shadow (s, none) = rounds fl env limits request shadow fuel begin s
  start fuel shadow (s, some x) = some (s, fail (trace_error x))

  -- `Search`: the shadow decision is traced where some pool has a free slot, then the rounds follow.
  unfoldable pub search_routed : ℕ → Shared R W → Option (Shared R W × Fallible SearchResponse)
  unfolding start shadow_candidate available_slots_of traced
  search_routed fuel s =
      let shadow = shadow_candidate [] s.pools in
      start fuel shadow (
        if text_eq shadow []
        then (s, none)
        else traced fl env (shadow_route_decision shadow (available_slots_of shadow s.pools)) s)

-- ===== src/Routing/RoundEnds.antt =====
-- A round of `Router.Search` that has a lease ends the search, or spends an attempt.
use search_x.Routing.Budget.{counted_self, retry, dropped, Spent}
use search_x.Routing.Endings.{
  IsOutcome, IsNoted, IsInterruption, IsProviderError, judged_outcome-found,
  prepare_routed-IsRouted, answered, refused, interrupted, Ending,
}
use search_x.Routing.Providers.{traced-pools, release_at-providers}
use search_x.Routing.Router.{result_for, reroutable}
use search_x.Domain.Errors.{wrap, Error}
use search_x.ProfilePool.Snapshots.{Snapshot}
use search_x.Domain.Fallible.{fail, Fallible-cases, Fallible}
use search_x.Routing.Search.{checked, abandon, use_lease, report, reroute, announce, judge}
use search_x.ProfilePool.Types.{Lease}
use search_x.Routing.Fresh.{KeepsProviders}
use search_x.Domain.{SearchResponse, SearchRequest}
use search_x.Routing.World.{trace_error, Event, traced, Shared, providers_of, Limits, Env}
use search_x.ProfilePool.Floats.{FloatOps}
use search_x.Prelude.Text.{codes, Text}
use search_x.Domain.Attempts.{ProviderName}
use search_x.Prelude.{
  true, length-append, length, refl, ltb→lt, ◌∙◌, none, ap, ltb, inr, inl, inr, inl, Bool-cases,
  Option, [], ◌<◌, some, ◌≡◌, ◌∷◌, arith, List, ℕ,
}
use search_x.Routing.Rounds.{
  snapshot_at, alternative_at, judged_outcome, give_up_on, exclude, again, finished, Next, Progress,
  counted, put_at,
}

module _ {R W : Type 0} (fl : FloatOps R) (env : Env R W) (limits : Limits)
    (request : SearchRequest) (shadow : ProviderName) (ns : List ProviderName)
    (keeps : KeepsProviders env) where
  -- A round ends the search, or spends an attempt of the provider that it asked.
  pub data Advance (g : Progress) (p : ProviderName) : Next R W → Type 0 where
    ends :
        {t : Shared R W} {out : Fallible SearchResponse}
        → Ending fl env request limits.max_provider_attempts out
        → Advance g p (finished t out)
    goes_on :
        {t : Shared R W} {g' : Progress}
        → providers_of t.pools ≡ ns
        → Spent (IsNoted fl env request) limits.max_agent_attempts g g' p
        → Advance g p (again t g')

  module _ (i : ℕ) (l : Lease) (p : ProviderName) (profile : Text) (g : Progress)
      (room : length g.failed < limits.max_provider_attempts) where
    noted :
        (e : Error)
        → IsProviderError fl env request e
        → reroutable e ≡ true
        → IsNoted fl env request (wrap (codes "provider") e)
    noted e from a = record { error = e; from_provider = from; may_reroute = a; noted = refl }

    traced_ends :
        (e : Event R) (s : Shared R W) (x : Error) (t : Shared R W)
        → (traced fl env e s).1 ≡ some x
        → Advance g p (finished t (fail (trace_error x)))
    traced_ends e s x t k = ends (interrupted x (IsInterruption.tracing e s k))

    reroute_advances :
        (e : Error) (s : Shared R W)
        → IsProviderError fl env request e
        → providers_of s.pools ≡ ns
        → Advance g p (reroute fl env limits request shadow i p profile e (counted p g) s)
    unfolding reroute exclude give_up_on counted put_at
    reroute_advances e s from h = elim (Bool-cases (reroutable e)) [
      | inr a ↦ rw (reroute, a) (ends (refused from a))
      | inl a ↦ elim (Bool-cases (ltb ((counted p g).agent_attempts p) limits.max_agent_attempts)) [
        | inr b ↦
            rw (reroute, a, b)
              (goes_on h (
                dropped refl refl (length-append g.failed (p ∷ [])) (wrap (codes "provider") e)
                  (noted e from a) refl))
        | inl b ↦ elim (Bool-cases (alternative_at i profile s)) [
          | inr c ↦
              rw (reroute, a, b, c)
                (goes_on h (
                  dropped refl refl (length-append g.failed (p ∷ [])) (wrap (codes "provider") e)
                    (noted e from a) refl))
          | inl c ↦
              rw (reroute, a, b, c)
                (goes_on h
                  (retry refl refl (omega (arith, counted_self p g, ltb→lt _ _ b)) refl refl))
        ]
      ]
    ]

    judge_advances :
        (outcome : Fallible SearchResponse) (s : Shared R W)
        → IsOutcome fl env request outcome
        → providers_of s.pools ≡ ns
        → Advance g p (judge fl env limits request shadow i p profile (counted p g) outcome s)
    unfolding judge counted
    judge_advances outcome s from h = elim (Fallible-cases (judged_outcome outcome)) [
      | inl (r, a) ↦
          rw (judge, a)
            (ends (
              answered (
                prepare_routed-IsRouted limits.max_provider_attempts profile _ p g.failed _ r
                  (judged_outcome-found outcome r a) room)))
      | inr (e, a) ↦
          rw (judge, a)
            (reroute_advances e s (record { outcome = outcome; from_search = from; judged = a }) h)
    ]

    checked_advances :
        (handle : Error → Shared R W → Next R W) (k : Shared R W → Next R W)
        (r : Shared R W × Option Error)
        → providers_of r.0.pools ≡ ns
        → ((x : Error) (s : Shared R W) → r.1 ≡ some x → Advance g p (handle x s))
        → ((s : Shared R W) → providers_of s.pools ≡ ns → Advance g p (k s))
        → Advance g p (checked handle k r)
    unfolding checked
    checked_advances handle k (s, none) h a b = b s h
    checked_advances handle k (s, some x) h a b = a x s refl

    report_advances :
        (before : Option (Snapshot R)) (outcome : Fallible SearchResponse) (s : Shared R W)
        → IsOutcome fl env request outcome
        → providers_of s.pools ≡ ns
        → Advance g p
            (report fl env limits request shadow i l p profile before (counted p g) outcome s)
    unfolding report
    report_advances before outcome s from h =
        checked_advances _ _ (traced fl env _ s) (ap providers_of (traced-pools fl env _ s) ∙ h)
          (traced_ends _ s)
          (λ t e.
            checked_advances _ _ (traced fl env _ t) (ap providers_of (traced-pools fl env _ t) ∙ e)
              (traced_ends _ t) (λ v. judge_advances outcome v from))

    use_lease_advances :
        (before : Option (Snapshot R)) (s : Shared R W)
        → providers_of s.pools ≡ ns
        → Advance g p (use_lease fl env limits request shadow i l p profile before (counted p g) s)
    unfolding use_lease
    use_lease_advances before s h =
        let (t, outcome) = env.search i l (record request { provider = p }) s in
        checked_advances _ _ _
          (release_at-providers fl env i l (result_for outcome) t ∙ keeps.search_keeps i l _ s ∙ h)
          (λ x u e. ends (interrupted x (IsInterruption.releasing i l (result_for outcome) t e)))
          (λ v.
            report_advances before outcome v
              (record { pool = i; lease = l; provider = p; state = s; came = refl }))

    pub announce_advances :
        (s : Shared R W)
        → providers_of s.pools ≡ ns
        → Advance g p (announce fl env limits request shadow i l p profile (counted p g) s)
    unfolding announce abandon
    announce_advances s h =
        checked_advances _ _ (traced fl env _ s) (ap providers_of (traced-pools fl env _ s) ∙ h)
          (λ x u k. ends (interrupted x (IsInterruption.tracing _ s k)))
          (λ t e.
            checked_advances _ _ (traced fl env _ t) (ap providers_of (traced-pools fl env _ t) ∙ e)
              (λ x u k. ends (interrupted x (IsInterruption.tracing _ t k)))
              (use_lease_advances (snapshot_at i l s)))

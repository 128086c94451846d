-- ===== src/Routing/Endings.antt =====
-- The ways in which `Router.Search` ends.
use search_x.ProfilePool.Types.{Result, Lease}
use search_x.ProfilePool.Floats.{FloatOps}
use search_x.Routing.World.{release_at, traced, Shared, Event, Env, trace_error, queue_full}
use search_x.Routing.Router.{annotate_debug_attempts, prepare_routed, reroutable}
use search_x.Domain.Errors.{wrap, Error}
use search_x.Domain.Fallible.{fail, ok, Fallible}
use search_x.Domain.{SearchRequest, SearchResponse}
use search_x.Prelude.Text.{codes, Text}
use search_x.Domain.Attempts.{RouteReason, auto, ProviderName}
use search_x.Prelude.{some, All, true, lt→ltb, length, refl, ◌<◌, false, ◌≤◌, ◌≡◌, arith, List, ℕ}
use search_x.Routing.Rounds.{exhausted, judged_outcome}

-- An answer of the router.
pub record IsRouted (top : ℕ) (r : SearchResponse) : Type 0 where
  pub found : 0 < length r.results
  pub asked : r.meta.requested_provider ≡ auto
  pub selected : r.meta.selected_provider ≡ r.provider
  pub reroutes : r.meta.provider_fallback_count < top
  pub flagged :
      0 < r.meta.provider_fallback_count
      → (r.meta.route_reason ≡ RouteReason.retry_reroute) × (r.meta.degraded ≡ true)

module _ {R W : Type 0} (fl : FloatOps R) (env : Env R W) (request : SearchRequest) where
  -- What the search through a lease came to.
  pub record IsOutcome (outcome : Fallible SearchResponse) : Type 0 where
    pub pool : ℕ
    pub lease : Lease
    pub provider : ProviderName
    pub state : Shared R W
    pub came : (env.search pool lease (record request { provider = provider }) state).1 ≡ outcome

  -- The error of such a search, of which an answer without results is one.
  pub record IsProviderError (e : Error) : Type 0 where
    pub outcome : Fallible SearchResponse
    pub from_search : IsOutcome outcome
    pub judged : judged_outcome outcome ≡ fail e

  -- What is noted of a provider that is given up on.
  pub record IsNoted (x : Error) : Type 0 where
    pub error : Error
    pub from_provider : IsProviderError error
    pub may_reroute : reroutable error ≡ true
    pub noted : x ≡ wrap (codes "provider") error

  -- The error of an event that could not be traced, or of a release.
  pub data IsInterruption (x : Error) : Type 0 where
    tracing : (e : Event R) (s : Shared R W) → (traced fl env e s).1 ≡ some x → IsInterruption x
    releasing :
        (i : ℕ) (l : Lease) (r : Result) (s : Shared R W)
        → (release_at fl env i l r s).1 ≡ some x
        → IsInterruption x

  -- An answer, an error of the router's own, or a provider's error that no other provider can help.
  pub data Ending (top : ℕ) : Fallible SearchResponse → Type 0 where
    answered : {r : SearchResponse} → IsRouted top r → Ending top (ok r)
    overloaded : Ending top (fail queue_full)
    out_of_capacity :
        (es : List Error) → length es ≤ top → All IsNoted es → Ending top (fail (exhausted es))
    interrupted : (x : Error) → IsInterruption x → Ending top (fail (trace_error x))
    refused : {e : Error} → IsProviderError e → reroutable e ≡ false → Ending top (fail e)

pub judged_outcome-found :
    (o : Fallible SearchResponse) (r : SearchResponse)
    → judged_outcome o ≡ ok r
    → 0 < length r.results
unfolding judged_outcome
judged_outcome-found (fail e) r h = absurd (cc)
judged_outcome-found (ok q) r h = ground (arith, h)

pub prepare_routed-IsRouted :
    (top : ℕ) (profile lease : Text) (p : ProviderName) (failed : List ProviderName) (n : ℕ)
    (r : SearchResponse)
    → 0 < length r.results
    → length failed < top
    → IsRouted top (prepare_routed profile p failed (annotate_debug_attempts p profile lease n r))
unfolding prepare_routed annotate_debug_attempts
prepare_routed-IsRouted top profile lease p failed n r h k = record {
  found = h;
  asked = refl;
  selected = refl;
  reroutes = k;
  flagged = λ c. rw (lt→ltb _ _ c) (refl, refl);
}

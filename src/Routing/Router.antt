-- ===== src/Routing/Router.antt =====
-- The steps of `routing/router.go` and `resultFor` of `routing/provider.go`. The map of excluded
-- profiles is a function, with the empty text for a missing key; the lease of a pool comes with the
-- index of that pool.
use search_x.Prelude.Int.{ℤ, pos, is_positive}
use search_x.ProfilePool.Acquire.{try_acquire_auto_except}
use search_x.Prelude.Strings.{is_member}
use search_x.Domain.Attempts.{ProviderName, Classification, RouteReason, Attempt, auto}
use search_x.Domain.Errors.{Error, ErrorCode, SearchError, as_search_error}
use search_x.Domain.Fallible.{Fallible, ok, fail}
use search_x.Domain.{SearchResponse, SearchResult, Debug}
use search_x.Provider.Chain.{fallback_warning}
use search_x.ProfilePool.Types.{Pool, Lease, Result}
use search_x.ProfilePool.Floats.{FloatOps}
use search_x.ProfilePool.Snapshots.{Snapshot, snapshot}
use search_x.ProfilePool.Grants.{is_serving}
use search_x.Prelude.Text.{Text, text_eq}
use search_x.Prelude.{
  suc, ◌++◌, [], leb, ◌||◌, map, length, ◌&&◌, none, if◌then◌else◌, true, ltb, ℕ, false, ◌∷◌, not,
  some, List, Bool, Option, ◌+◌,
}

unfoldable pub code_classification : ErrorCode → Classification
code_classification ErrorCode.captcha_required = Classification.captcha
code_classification ErrorCode.rate_limited = Classification.rate_limited
code_classification ErrorCode.upstream_changed = Classification.parse_changed
code_classification ErrorCode.upstream_timeout = Classification.timeout
code_classification _ = Classification.network_error

unfoldable pub judge_page : List SearchResult → Result
judge_page [] = record { succeeded = false; classification = Classification.empty }
judge_page (x ∷ xs) = record { succeeded = true; classification = Classification.normal }

unfoldable pub judge_error : Option SearchError → Result
unfolding code_classification
judge_error none = record { succeeded = false; classification = Classification.unset }
judge_error (some e) = record { succeeded = false; classification = code_classification e.code }

-- `resultFor`
unfoldable pub result_for : Fallible SearchResponse → Result
unfolding judge_page judge_error
result_for (ok r) = judge_page r.results
result_for (fail e) = judge_error (as_search_error e)

unfoldable pub reroutable_error : Option SearchError → Bool
reroutable_error none = false
reroutable_error (some e) = if not e.retryable then false else elim e.code [
  | ErrorCode.captcha_required ↦ true
  | ErrorCode.rate_limited ↦ true
  | ErrorCode.upstream_changed ↦ true
  | ErrorCode.provider_unavailable ↦ true
  | ErrorCode.upstream_timeout ↦ true
  | _ ↦ false
]

unfoldable pub reroutable : Error → Bool
unfolding reroutable_error
reroutable e = reroutable_error (as_search_error e)

-- `hasAttemptBudget`; without a deadline there is always time.
unfoldable pub has_attempt_budget : Option ℕ → ℕ → ℕ → Bool
has_attempt_budget none minimum now = true
has_attempt_budget (some deadline) minimum now = leb (now + minimum) deadline

unfoldable pub annotate_attempt : ProviderName → Text → Text → ℕ → Attempt → Attempt
annotate_attempt provider profile lease round a = record a {
  provider = provider;
  profile_id = profile;
  lease_id = lease;
  route_round = round;
}

unfoldable pub annotate_debug : (Attempt → Attempt) → Option Debug → Option Debug
annotate_debug f none = none
annotate_debug f (some d) = some (record d { attempts = map f d.attempts })

-- `annotateDebugAttempts`
unfoldable pub annotate_debug_attempts :
    ProviderName → Text → Text → ℕ → SearchResponse → SearchResponse
unfolding annotate_debug annotate_attempt
annotate_debug_attempts provider profile lease round r = record r {
  debug = annotate_debug (annotate_attempt provider profile lease round) r.debug;
}

-- `prepareSuccess`
unfoldable pub prepare_routed :
    Text → ProviderName → List ProviderName → SearchResponse → SearchResponse
prepare_routed profile selected failed r =
    let rerouted = ltb 0 (length failed) in
    record r {
      provider = selected;
      meta = record (r.meta) {
        requested_provider = auto;
        selected_provider = selected;
        profile_id = profile;
        provider_fallback_count = length failed;
        route_reason = if rerouted then RouteReason.retry_reroute else RouteReason.priority;
        degraded = rerouted || r.meta.degraded;
      };
      warnings = r.warnings ++ map (fallback_warning selected) failed;
    }

-- The same lease, one pool further on.
unfoldable pub further : Option (ℕ × Lease) → Option (ℕ × Lease)
further none = none
further (some (i, l)) = some (suc i, l)

module _ {R : Type 0} where
  unfoldable pub is_alternative : Text → Snapshot R → Bool
  is_alternative excluded s =
      not (text_eq s.id excluded) && is_serving s.state && ltb s.in_flight s.capacity

  unfoldable pub any_alternative : Text → List (Snapshot R) → Bool
  unfolding is_alternative
  any_alternative excluded [] = false
  any_alternative excluded (s ∷ ss) = is_alternative excluded s || any_alternative excluded ss

  -- `hasAlternativeProfile`
  unfoldable pub has_alternative_profile : Pool R → Text → Bool
  unfolding any_alternative snapshot
  has_alternative_profile p excluded = any_alternative excluded (snapshot p).profiles

  -- `shadowCandidate`; the empty name stands for none.
  unfoldable pub shadow_candidate : List ProviderName → List (Pool R) → ProviderName
  unfolding snapshot
  shadow_candidate excluded [] = []
  shadow_candidate excluded (p ∷ ps) =
      if not (is_member p.provider excluded) && is_positive (snapshot p).available_slots
      then p.provider
      else shadow_candidate excluded ps

  unfoldable pub available_slots_of : ProviderName → List (Pool R) → ℤ
  unfolding snapshot
  available_slots_of provider [] = pos 0
  available_slots_of provider (p ∷ ps) =
      if text_eq p.provider provider
      then (snapshot p).available_slots
      else available_slots_of provider ps

module _ {R : Type 0} (fl : FloatOps R) (request_id : Text) (attempted : List ProviderName)
    (excluded : ProviderName → Text) (now : ℕ) where
  -- One round of the loop: an attempted provider is skipped.
  unfoldable pub tried : Pool R → Pool R × Option Lease
  tried p =
      if is_member p.provider attempted
      then (p, none)
      else try_acquire_auto_except fl request_id (excluded p.provider) now p

  -- `tryAcquire` of the router.
  unfoldable pub route : List (Pool R) → List (Pool R) × Option (ℕ × Lease)
  unfolding tried further
  route [] = ([], none)
  route (p ∷ ps) =
      let rest = route ps in
      elim (tried p).1 [
        | some l ↦ ((tried p).0 ∷ ps, some (0, l))
        | none ↦ ((tried p).0 ∷ rest.0, further rest.1)
      ]

-- ===== src/Routing/Rounds.antt =====
-- The local variables of the loop of `Router.Search` in `routing/router.go`, what it reads off a lease,
-- and what becomes of a round.
use search_x.Prelude.{
  false, none, get_elem?, ◌++◌, length, ◌+◌, ◌∷◌, ℕ, List, Option, if◌then◌else◌, Bool, some, true,
  [],
}
use search_x.Domain.Attempts.{ProviderName}
use search_x.Domain.Errors.{Error, Errors, end, more, ErrorCode, search, original, Original, wrap}
use search_x.Domain.Fallible.{Fallible, ok, fail}
use search_x.Domain.{SearchResponse}
use search_x.ProfilePool.Snapshots.{Snapshot, snapshot_entry}
use search_x.ProfilePool.Types.{Lease}
use search_x.Prelude.Decimal.{decimal}
use search_x.Prelude.Text.{Text, codes, text_eq}
use search_x.Routing.Router.{has_alternative_profile}
use search_x.Routing.World.{Shared}

-- The local variables of the loop; `failed` and `failures` are in the order of the rounds.
pub record Progress : Type 0 where
  pub attempted : List ProviderName
  pub agent_attempts : ProviderName → ℕ
  pub excluded : ProviderName → Text
  pub round : ℕ
  pub failures : List Error
  pub failed : List ProviderName

-- A key of a map of the loop is set.
unfoldable pub put_at : {A : Type 0} → ProviderName → A → (ProviderName → A) → ProviderName → A
put_at k v m j = if text_eq j k then v else m j

unfoldable pub as_errors : List Error → Errors
as_errors [] = end
as_errors (e ∷ es) = more e (as_errors es)

-- `errors.Join` of no errors is nil.
unfoldable pub join_errors : List Error → Original
unfolding as_errors
join_errors [] = Original.nil
join_errors (e ∷ es) = original (Error.joined (as_errors (e ∷ es)))

unfoldable pub exhausted : List Error → Error
unfolding join_errors
exhausted failures =
    search ErrorCode.provider_capacity_exhausted (codes "当前没有可用的搜索 Provider 容量") true
      (join_errors failures) [] []

unfoldable pub no_valid_result : Error
no_valid_result =
    search ErrorCode.provider_unavailable (codes "Provider 未返回有效结果") true Original.nil [] []

-- An answer without results counts as an error.
unfoldable pub judged_outcome : Fallible SearchResponse → Fallible SearchResponse
unfolding no_valid_result
judged_outcome (fail e) = fail e
judged_outcome (ok r) = elim r.results [ [] ↦ fail no_valid_result | x ∷ xs ↦ ok r ]

unfoldable pub result_count : Fallible SearchResponse → ℕ
result_count (ok r) = length r.results
result_count (fail e) = 0

-- What a round comes to: the end of the search, or the next round.
pub data Next (R W : Type 0) : Type 0 where
  finished : Shared R W → Fallible SearchResponse → Next R W
  again : Shared R W → Progress → Next R W

-- The choice of a lease: the queue is full, there is none, or the lease of a pool.
pub data Choice (R W : Type 0) : Type 0 where
  overfull : Shared R W → Choice R W
  nowhere : Shared R W → Choice R W
  leased : Shared R W → ℕ → Lease → Choice R W

unfoldable pub lease_id : Text → Text → ℕ → Text
unfolding decimal
lease_id request_id profile round =
    request_id ++ (codes "-" ++ (profile ++ (codes "-" ++ decimal round)))

unfoldable pub begin : Progress
begin = record {
  attempted = [];
  agent_attempts = λ p. 0;
  excluded = λ p. [];
  round = 0;
  failures = [];
  failed = [];
}

-- `routeRound++` and `agentAttempts[…]++`
unfoldable pub counted : ProviderName → Progress → Progress
unfolding put_at
counted p s = record s {
  round = s.round + 1;
  agent_attempts = put_at p (s.agent_attempts p + 1) s.agent_attempts;
}

unfoldable pub exclude : ProviderName → Text → Progress → Progress
unfolding put_at
exclude p profile s = record s { excluded = put_at p profile s.excluded }

unfoldable pub give_up_on : ProviderName → Error → Progress → Progress
give_up_on p e s = record s {
  attempted = p ∷ s.attempted;
  failures = s.failures ++ wrap (codes "provider") e ∷ [];
  failed = s.failed ++ p ∷ [];
}

module _ {R W : Type 0} where
  unfoldable pub choice_of : Shared R W → Option (ℕ × Lease) → Choice R W
  choice_of s none = nowhere s
  choice_of s (some (i, l)) = leased s i l

  -- `lease.ProfileID()` and `lease.Snapshot()` read the entry of the lease.
  unfoldable pub profile_at : ℕ → Lease → Shared R W → Text
  profile_at i l s = elim (get_elem? s.pools i) [
    | none ↦ []
    | some p ↦ elim (get_elem? p.profiles l.slot) [ none ↦ [] | some e ↦ e.profile.id ]
  ]

  unfoldable pub snapshot_at : ℕ → Lease → Shared R W → Option (Snapshot R)
  unfolding snapshot_entry
  snapshot_at i l s = elim (get_elem? s.pools i) [
    | none ↦ none
    | some p ↦ elim (get_elem? p.profiles l.slot) [ none ↦ none | some e ↦ some (snapshot_entry e) ]
  ]

  unfoldable pub provider_at : ℕ → Shared R W → ProviderName
  provider_at i s = elim (get_elem? s.pools i) [ none ↦ [] | some p ↦ p.provider ]

  unfoldable pub alternative_at : ℕ → Text → Shared R W → Bool
  unfolding has_alternative_profile
  alternative_at i profile s = elim (get_elem? s.pools i) [
    | none ↦ false
    | some p ↦ has_alternative_profile p profile
  ]

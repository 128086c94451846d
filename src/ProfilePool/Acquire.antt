-- ===== src/ProfilePool/Acquire.antt =====
-- `tryAcquire`, `reconcileLocked` and the waiting counters in `pool.go`. An operation
-- reads the clock once; `now` is that reading.
use search_x.Prelude.{
  ℕ, ◌+◌, ◌-◌, Bool, true, false, not, ◌&&◌, ◌||◌, List, [], map, Option, none, some, ltb, leb,
  if◌then◌else◌, update,
}
use search_x.Prelude.Text.{Text}
use search_x.ProfilePool.Floats.{FloatOps}
use search_x.ProfilePool.Hash.{bucket}
use search_x.ProfilePool.Select.{select_entry}
use search_x.ProfilePool.Types.{State, state_eq, Config, Entry, Pool, Lease}

unfoldable pub next_streak : Bool → Bool → ℕ → ℕ
next_streak automatic explicit n = if automatic then 0 else if explicit then n + 1 else n

unfoldable pub fallback : State → State
fallback s = if state_eq s State.trusted then State.probation else State.trusted

module _ {R : Type 0} where
  -- `StateDraining`, or `StateRetired` if nothing is in flight.
  unfoldable pub drained : Entry R → Entry R
  drained e = record e { state = if ltb 0 e.in_flight then State.draining else State.retired }

  unfoldable pub is_due : ℕ → Entry R → Bool
  is_due now e =
      (state_eq e.state State.quarantined || state_eq e.state State.degraded)
      && not (ltb now e.quarantined_until)

  unfoldable pub reconcile_entry : Config R → ℕ → Entry R → Entry R
  unfolding is_due drained
  reconcile_entry c now e =
      if is_due now e
      then if leb c.max_recovery_attempts e.recovery_attempts then drained e else record e {
        recovery_attempts = e.recovery_attempts + 1;
        state = State.probation;
        consecutive_failures = 0;
      }
      else e

  unfoldable pub reconcile : ℕ → Pool R → Pool R
  unfolding reconcile_entry
  reconcile now p = record p { profiles = map (reconcile_entry p.config now) p.profiles }

  -- `selected.inFlight++`
  unfoldable pub reserve : Entry R → Entry R
  reserve e = record e { in_flight = e.in_flight + 1 }

  unfoldable pub grant : Bool → Bool → ℕ → ℕ → Pool R → Pool R × Option Lease
  unfolding reserve next_streak
  grant automatic explicit now i p = (
    record p {
      profiles = update p.profiles i reserve;
      explicit_streak = next_streak automatic explicit p.explicit_streak;
    },
    some (record { slot = i; acquired_at = now; released = false }),
  )

  -- The two early returns.
  unfoldable pub refuses : Bool → Pool R → Bool
  refuses explicit p =
      p.closed
      || not p.disk.manifest_healthy
      || (explicit && ltb 0 p.auto_waiters && leb 3 p.explicit_streak)

  unfoldable pub preferred : Text → Pool R → State
  unfolding bucket
  preferred request_id p =
      if ltb (bucket request_id) p.config.trusted_traffic_percent
      then State.trusted
      else State.probation

  -- `AcquireAuto` and `WaitAvailable` count themselves among the waiters while they wait.
  unfoldable pub wait_begin : Pool R → Pool R
  wait_begin p = record p { auto_waiters = p.auto_waiters + 1 }

  unfoldable pub wait_end : Pool R → Pool R
  wait_end p = record p { auto_waiters = p.auto_waiters - 1 }

module _ {R : Type 0} (fl : FloatOps R) where
  unfoldable pub choose : State → Text → List (Entry R) → Option (ℕ × Entry R)
  unfolding select_entry
  choose first excluded es = elim (select_entry fl first excluded es) [
    | some s ↦ some s
    | none ↦ select_entry fl (fallback first) excluded es
  ]

  unfoldable pub try_acquire : Text → Bool → Bool → Text → ℕ → Pool R → Pool R × Option Lease
  unfolding refuses choose grant reconcile preferred fallback
  try_acquire request_id automatic explicit excluded now p =
      if refuses explicit p
      then (p, none)
      else let q = reconcile now p in
        elim (choose (preferred request_id q) excluded q.profiles) [
          | none ↦ (q, none)
          | some (i, e) ↦ grant automatic explicit now i q
        ]

  -- The exported forms of it.
  unfoldable pub try_acquire_plain : Text → ℕ → Pool R → Pool R × Option Lease
  unfolding try_acquire
  try_acquire_plain request_id now = try_acquire request_id false false [] now

  unfoldable pub try_acquire_auto : Text → ℕ → Pool R → Pool R × Option Lease
  unfolding try_acquire
  try_acquire_auto request_id now = try_acquire request_id true false [] now

  unfoldable pub try_acquire_auto_except : Text → Text → ℕ → Pool R → Pool R × Option Lease
  unfolding try_acquire
  try_acquire_auto_except request_id excluded now = try_acquire request_id true false excluded now

  -- One round of the loop of `Acquire`.
  unfoldable pub try_acquire_explicit : Text → ℕ → Pool R → Pool R × Option Lease
  unfolding try_acquire
  try_acquire_explicit request_id now = try_acquire request_id false true [] now

-- ===== src/ProfilePool/Lifecycle.antt =====
-- How results and time move a profile between the states.
use search_x.ProfilePool.Trust.{success_rate}
use search_x.Prelude.{
  ◌∷◌, [], arith, ◌+◌, ◌≤◌, length, true, ◌||◌, ◌<◌, false, All, ◌≢◌, ◌≡◌, Bool, ℕ, List,
}
use search_x.ProfilePool.Release.{returned, retires, is_parse_changed, is_risk, settled}
use search_x.ProfilePool.Acquire.{is_due, reconcile_entry}
use search_x.ProfilePool.Types.{Entry, state_eq, Result, State, Config}
use search_x.ProfilePool.Floats.{FloatOps}

module _ {R : Type 0} (fl : FloatOps R) (c : Config R) where
  -- A profile that was not trusted becomes so only from probation, with enough observations, both
  -- rates reached, too few failures in a row for degradation, and no captcha or rate limit.
  pub settled-trusted :
      (r : Result) (now : ℕ) (e : Entry R)
      → (settled fl c r now e).state ≡ State.trusted
      → e.state ≢ State.trusted
      → let f = settled fl c r now e in
        (e.state ≡ State.probation)
        × (c.trust.min_samples ≤ f.effective_samples)
        × (fl.le c.trust.min_success_rate (success_rate fl f.success_weight f.failure_weight)
            ≡ true)
        × (fl.le c.trust.min_recent_ewma f.recent_ewma ≡ true)
        × (f.consecutive_failures < c.trust.max_consecutive_failures)
        × (is_risk r.classification ≡ false)
  unfolding settled
  settled-trusted r now e h n = ground arith

  -- Any number of results in a row, each with the time of its release.
  unfoldable pub settle_all : List (Result × ℕ) → Entry R → Entry R
  settle_all [] e = e
  settle_all ((r, now) ∷ rs) e = settle_all rs (settled fl c r now e)

  -- A result that counts against the profile.
  abbrev pub IsFailure : Result × ℕ → Type 0
  IsFailure (r, now) = (r.succeeded ≡ false) × (is_parse_changed r.classification ≡ false)

  -- The states that take no requests but can come back.
  abbrev pub is_suspended : State → Bool
  is_suspended s = state_eq s State.degraded || state_eq s State.quarantined

  -- A failure counts, and suspends once the count is reached.
  settled_failure :
      (r : Result) (now : ℕ) (e : Entry R)
      → IsFailure (r, now)
      → e.state ≢ State.draining
      → ((settled fl c r now e).consecutive_failures ≡ e.consecutive_failures + 1)
        × ((settled fl c r now e).state ≢ State.draining)
        × (c.trust.max_consecutive_failures ≤ e.consecutive_failures + 1
            → is_suspended (settled fl c r now e).state ≡ true)
  unfolding settled
  settled_failure r now e h n = (ground arith, λ q. ground arith, λ q. ground arith)

  -- A profile that is not draining and fails at least once, and so often in a row that its failures
  -- reach `MaxConsecutiveFailures`, is degraded or quarantined then, whatever else held.
  pub settle_all-suspends :
      (rs : List (Result × ℕ)) (e : Entry R)
      → All IsFailure rs
      → 0 < length rs
      → e.state ≢ State.draining
      → c.trust.max_consecutive_failures ≤ e.consecutive_failures + length rs
      → is_suspended (settle_all rs e).state ≡ true
  unfolding settle_all
  settle_all-suspends [] e h k n m = absurd (omega arith)
  settle_all-suspends ((r, now) ∷ []) e h k n m = (settled_failure r now e h.0 n).2 (omega arith)
  settle_all-suspends ((r, now) ∷ s ∷ rs) e h k n m =
      let (a, b, _) = settled_failure r now e h.0 n in
      settle_all-suspends (s ∷ rs) (settled fl c r now e) h.1 (omega arith) b (omega (arith, a))

  -- What can happen to a profile while it is in the pool, with the time at which it happens: a look
  -- at it, before a lease is given or a wait begins, or the result of a request.
  pub data Moment : Type 0 where
    looked_at : ℕ → Moment
    resulted : Result → ℕ → Moment

  unfoldable pub play : List Moment → Entry R → Entry R
  unfolding settled reconcile_entry
  play [] e = e
  play (looked_at at ∷ ms) e = play ms (reconcile_entry c at e)
  play (resulted r at ∷ ms) e = play ms (settled fl c r at e)

  abbrev pub Within : ℕ → ℕ → Moment → Type 0
  Within from to (looked_at at) = at ≤ to
  Within from to (resulted r at) = from ≤ at

  -- Suspended for longer than `to`.
  abbrev IsAway : ℕ → Entry R → Type 0
  IsAway to e = (is_suspended e.state ≡ true) × (to < e.quarantined_until)

  reconcile_entry-IsAway :
      (at to : ℕ) (e : Entry R) → at ≤ to → IsAway to e → IsAway to (reconcile_entry c at e)
  unfolding reconcile_entry is_due
  reconcile_entry-IsAway at to e h (a, b) = (ground arith, ground arith)

  settled-IsAway :
      (r : Result) (from at to : ℕ) (e : Entry R)
      → from ≤ at
      → to < from + c.quarantine_cooldown
      → to < from + c.degraded_cooldown
      → IsAway to e
      → IsAway to (settled fl c r at e)
  unfolding settled
  settled-IsAway r from at to e h q d (a, b) = (ground arith, ground arith)

  play-IsAway :
      (ms : List Moment) (from to : ℕ) (e : Entry R)
      → All (Within from to) ms
      → to < from + c.quarantine_cooldown
      → to < from + c.degraded_cooldown
      → IsAway to e
      → IsAway to (play ms e)
  unfolding play
  play-IsAway [] from to e h q d a = a
  play-IsAway (looked_at at ∷ ms) from to e (k, h) q d a =
      play-IsAway ms from to (reconcile_entry c at e) h q d (reconcile_entry-IsAway at to e k a)
  play-IsAway (resulted r at ∷ ms) from to e (k, h) q d a =
      play-IsAway ms from to (settled fl c r at e) h q d (settled-IsAway r from at to e k q d a)

  -- Unless it ends the last request of a draining profile, a captcha or a rate limit suspends the
  -- profile, which then serves nothing for as long as the shorter of the two cooldowns: whatever results of
  -- other requests come in from then on and however often it is looked at until `to`, it is quarantined
  -- or degraded, and not yet due.
  pub play-suspended :
      (r : Result) (now to : ℕ) (e : Entry R) (ms : List Moment)
      → is_risk r.classification ≡ true
      → retires (returned e) ≡ false
      → to < now + c.quarantine_cooldown
      → to < now + c.degraded_cooldown
      → All (Within now to) ms
      → let f = play ms (settled fl c r now e) in
        (is_suspended f.state ≡ true) × (to < f.quarantined_until)
  unfolding settled
  play-suspended r now to e ms h k q d w =
      play-IsAway ms now to (settled fl c r now e) w q d (ground arith, ground arith)

  -- The drain of a profile is lost when one of several requests in flight ends in a captcha or a
  -- rate limit: the profile is quarantined instead, and serves again, on probation, once the
  -- cooldown is over and recoveries are left.
  pub drain_undone :
      (r : Result) (now later : ℕ) (e : Entry R)
      → e.state ≡ State.draining
      → 1 < e.in_flight
      → is_risk r.classification ≡ true
      → now + c.quarantine_cooldown ≤ later
      → e.recovery_attempts < c.max_recovery_attempts
      → (reconcile_entry c later (settled fl c r now e)).state ≡ State.probation
  unfolding settled reconcile_entry
  drain_undone r now later e h k risk due left = ground arith

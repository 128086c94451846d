-- ===== src/ProfilePool/Release.antt =====
-- `Lease.Release` and `release` in `lease.go`. The clock is read once; `now` is that reading.
use search_x.Prelude.{
  ℕ, ◌+◌, ◌-◌, ◌==◌, Bool, true, false, not, ◌&&◌, ◌||◌, Option, none, some, leb, if◌then◌else◌,
  update, get_elem?,
}
use search_x.Domain.Attempts.{Classification}
use search_x.Domain.Errors.{Error}
use search_x.ProfilePool.Control.{signal}
use search_x.ProfilePool.Floats.{FloatOps}
use search_x.ProfilePool.Manifests.{save_manifest}
use search_x.ProfilePool.Trust.{success_rate, failure_weight}
use search_x.ProfilePool.Types.{State, state_eq, Result, Config, Entry, Pool, Lease}

abbrev pub is_parse_changed : Classification → Bool
is_parse_changed Classification.parse_changed = true
is_parse_changed _ = false

-- `ClassificationCaptcha` or `ClassificationRateLimited`.
abbrev pub is_risk : Classification → Bool
is_risk Classification.captcha = true
is_risk Classification.rate_limited = true
is_risk _ = false

unfoldable pub profile_relevant : Result → Bool
profile_relevant r = r.succeeded || not (is_parse_changed r.classification)

module _ {R : Type 0} where
  -- `if value.inFlight > 0 { value.inFlight-- }`
  unfoldable pub returned : Entry R → Entry R
  returned e = record e { in_flight = e.in_flight - 1 }

  -- `StateDraining` and nothing in flight any more.
  unfoldable pub retires : Entry R → Bool
  retires e = state_eq e.state State.draining && e.in_flight == 0

  -- A failed save is reported, and the waiters are woken all the same.
  unfoldable pub save_and_signal : Entry R → ℕ → Pool R → Pool R × Option Error
  unfolding save_manifest signal
  save_and_signal e now p =
      let (d, err) = save_manifest e now p.disk in (signal (record p { disk = d }), err)

module _ {R : Type 0} (fl : FloatOps R) where
  -- The counters and weights of one observation.
  unfoldable pub observed : Config R → Result → Entry R → Entry R
  unfolding failure_weight
  observed c r e =
      let alpha = c.trust.recent_alpha in
      let observation = if r.succeeded then fl.literal 1 1 else fl.literal 0 1 in
      record e {
        effective_samples = e.effective_samples + 1;
        success_weight =
            if r.succeeded then fl.add e.success_weight (fl.literal 1 1) else e.success_weight;
        failure_weight =
            if r.succeeded
            then e.failure_weight
            else fl.add e.failure_weight (failure_weight fl r.classification);
        consecutive_failures = if r.succeeded then 0 else e.consecutive_failures + 1;
        recent_ewma =
            fl.add (fl.mul alpha observation)
              (fl.mul (fl.sub (fl.literal 1 1) alpha) e.recent_ewma);
      }

  -- Probation has lasted, and both rates are high enough.
  unfoldable pub earns_trust : Config R → Entry R → Bool
  unfolding success_rate
  earns_trust c e =
      state_eq e.state State.probation
      && leb c.trust.min_samples e.effective_samples
      && fl.le c.trust.min_success_rate (success_rate fl e.success_weight e.failure_weight)
      && fl.le c.trust.min_recent_ewma e.recent_ewma

  -- The `if`/`else if` ladder on an entry whose counters are up to date.
  unfoldable pub judged : Config R → Result → ℕ → Entry R → Entry R
  unfolding earns_trust
  judged c r now e =
      if is_risk r.classification
      then record e { state = State.quarantined; quarantined_until = now + c.quarantine_cooldown }
      else if leb c.trust.max_consecutive_failures e.consecutive_failures
      then record e { state = State.degraded; quarantined_until = now + c.degraded_cooldown }
      else if earns_trust c e
      then record e { state = State.trusted }
      else e

  -- What the entry becomes.
  unfoldable pub settled : Config R → Result → ℕ → Entry R → Entry R
  unfolding returned observed judged retires profile_relevant
  settled c r now e =
      let e' = returned e in
      if retires e'
      then record e' { state = State.retired }
      else if not (profile_relevant r)
      then e'
      else judged c r now (observed c r e')

  -- `release`: the manifest is saved and the waiters are woken, unless the result says nothing of
  -- the profile; then they are only woken.
  unfoldable pub release_entry : ℕ → Result → ℕ → Entry R → Pool R → Pool R × Option Error
  unfolding settled retires profile_relevant signal save_and_signal
  release_entry i r now e p =
      let e' = settled p.config r now e in
      let q : Pool R = record p { profiles = update p.profiles i (λ _. e') } in
      if not (retires (returned e)) && not (profile_relevant r)
      then (signal q, none)
      else save_and_signal e' now q

  -- `Release`, exactly once for a lease. A lease's slot is always in range.
  unfoldable pub release : Lease → Result → ℕ → Pool R → Lease × Pool R × Option Error
  unfolding release_entry
  release l r now p = if l.released then (l, p, none) else elim (get_elem? p.profiles l.slot) [
    | none ↦ (record l { released = true }, p, none)
    | some e ↦
        let (q, err) = release_entry l.slot r now e p in (record l { released = true }, q, err)
  ]

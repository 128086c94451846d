-- ===== src/Examples/Profiles.antt =====
-- Single operations on the pool of two profiles.
use search_x.Prelude.Int.{pos}
use search_x.ProfilePool.Fairness.{attempts-le, attempts}
use search_x.ProfilePool.Hash.{bucket}
use search_x.ProfilePool.Select.{
  relative_load, less_loaded, better, eligible, pick, select_from, select_entry,
}
use search_x.Domain.Attempts.{Classification}
use search_x.Prelude.Text.{text_lt, text_eq, Text, codes}
use search_x.ProfilePool.Selection.{select_entry-IsLeast, IsLeast}
use search_x.ProfilePool.Lifecycle.{
  settled-trusted, settle_all-suspends, play-suspended, play, Moment, looked_at, resulted,
  drain_undone, settle_all, is_suspended,
}
use search_x.ProfilePool.Acquire.{
  preferred, is_due, reconcile, choose, try_acquire, reconcile_entry, refuses,
}
use search_x.ProfilePool.Snapshots.{snapshot-full, snapshot}
use search_x.ProfilePool.Grants.{try_acquire-none, IsFull, try_acquire-grants, Granted}
use search_x.ProfilePool.Release.{
  profile_relevant, earns_trust, observed, judged, is_risk, returned, retires, settled,
}
use search_x.Prelude.{
  All, ◌↔◌, ◌≢◌, some, ◌+◌, ◌<◌, arith, ◌≤◌, refl, ◌∷◌, none, ◌⊎◌, ◌≡◌, [], true, false, ℕ, List,
}
use search_x.ProfilePool.Types.{Result, State, Entry, Pool}
use search_x.ProfilePool.Trust.{success_rate, failure_weight}
use search_x.Examples.Pool.{scaled, idle, scaled-IsOrder, AnyNumber, first, second, settings, built}

-- The pool with a lease on the first profile.
abbrev leased : Pool ℕ
leased = record built { profiles = record (idle first) { in_flight = 1 } ∷ idle second ∷ [] }

granted : try_acquire scaled (codes "r1") false true [] 1 built ≡ (
  record leased { explicit_streak = 1 },
  some (record { slot = 0; acquired_at = 1; released = false }),
)
unfolding try_acquire refuses choose select_entry select_from pick eligible better less_loaded
    relative_load text_eq text_lt bucket preferred reconcile reconcile_entry is_due
granted = refl

try_acquire-grants_example :
    Granted scaled
      (codes "r1")
      false
      true
      []
      1
      built
      (record leased { explicit_streak = 1 })
      (record { slot = 0; acquired_at = 1; released = false })
try_acquire-grants_example =
    try_acquire-grants scaled (codes "r1") false true [] 1 built
      (record leased { explicit_streak = 1 })
      (record { slot = 0; acquired_at = 1; released = false }) granted

-- The first profile carries a load, so the second is selected.
selected : select_entry scaled State.probation [] leased.profiles ≡ some (1, idle second)
unfolding select_entry select_from pick eligible better less_loaded relative_load text_eq text_lt
selected = refl

select_entry-IsLeast_example : IsLeast scaled State.probation [] (idle second) leased.profiles
select_entry-IsLeast_example =
    select_entry-IsLeast scaled AnyNumber scaled-IsOrder State.probation [] leased.profiles 1
      (idle second) (ground arith, (ground arith, tt)) selected

-- A pool with both profiles in full use.
abbrev busy : Pool ℕ
busy = record built {
  profiles = record (idle first) { in_flight = 2 } ∷ record (idle second) { in_flight = 1 } ∷ [];
}

no_lease : try_acquire scaled (codes "r1") true false [] 1 busy ≡ (busy, none)
unfolding try_acquire refuses choose select_entry select_from pick eligible better less_loaded
    relative_load text_eq text_lt bucket preferred reconcile reconcile_entry is_due
no_lease = refl

try_acquire-none_example :
    ((refuses false busy ≡ true) × (busy ≡ busy))
    ⊎ ((busy ≡ reconcile 1 busy)
        × IsFull State.trusted [] busy.profiles
        × IsFull State.probation [] busy.profiles)
try_acquire-none_example = try_acquire-none scaled (codes "r1") true false [] 1 busy busy no_lease

admits : refuses false busy ≡ false
unfolding refuses
admits = refl

not_due : All (λ e. is_due 1 e ≡ false) busy.profiles
unfolding is_due
not_due = (refl, (refl, tt))

within : All (λ e. e.in_flight ≤ e.profile.capacity) busy.profiles
within = (ground arith, (ground arith, tt))

others : All (λ e. text_eq e.profile.id (codes "none") ≡ false) busy.profiles
unfolding text_eq
others = (refl, (refl, tt))

snapshot-full_example :
    ((snapshot busy).available_slots ≡ pos 0)
    ↔ ((try_acquire scaled (codes "r1") true false (codes "none") 1 busy).1 ≡ none)
snapshot-full_example =
    snapshot-full scaled (codes "r1") true false (codes "none") 1 busy admits not_due within others

abbrev requests : List (Text × ℕ)
requests = (codes "r1", 1) ∷ (codes "r2", 2) ∷ (codes "r3", 3) ∷ []

attempts-le_example : (attempts scaled requests (record built { auto_waiters = 1 })).1 + 0 ≤ 3
attempts-le_example =
    attempts-le scaled requests (record built { auto_waiters = 1 }) (ground arith) (ground arith)

abbrev good : Result
good = record { succeeded = true; classification = Classification.normal }

abbrev captcha : Result
captcha = record { succeeded = false; classification = Classification.captcha }

abbrev lost : Result
lost = record { succeeded = false; classification = Classification.timeout }

-- One request in flight on the first profile.
abbrev serving : Entry ℕ
serving = record (idle first) { in_flight = 1 }

earned : (settled scaled settings good 5 serving).state ≡ State.trusted
unfolding settled judged observed earns_trust success_rate failure_weight
earned = refl

fresh : serving.state ≢ State.trusted
fresh = λ e. cc

settled-trusted_example :
    let f = settled scaled settings good 5 serving in
    (State.probation ≡ State.probation)
    × (1 ≤ f.effective_samples)
    × (scaled.le 600_000 (success_rate scaled f.success_weight f.failure_weight) ≡ true)
    × (scaled.le 900_000 f.recent_ewma ≡ true)
    × (f.consecutive_failures < 2)
    × (is_risk Classification.normal ≡ false)
settled-trusted_example = settled-trusted scaled settings good 5 serving earned fresh

settle_all-suspends_example :
    is_suspended scaled settings
      (settle_all scaled settings ((lost, 5) ∷ (lost, 6) ∷ []) serving).state
    ≡ true
settle_all-suspends_example =
    settle_all-suspends scaled settings ((lost, 5) ∷ (lost, 6) ∷ []) serving
      ((refl, refl), ((refl, refl), tt)) (ground arith) (λ e. cc) (ground arith)

serves_on : retires (returned serving) ≡ false
unfolding retires returned
serves_on = refl

-- Another request fails twice while the profile is quarantined.
abbrev afterwards : List (Moment scaled settings)
afterwards = looked_at 10 ∷ resulted lost 11 ∷ resulted lost 12 ∷ looked_at 20 ∷ []

-- The failures shorten the quarantine to the cooldown of a degraded profile.
shortened :
    (play scaled settings afterwards (settled scaled settings captcha 5 serving)).quarantined_until
    ≡ 32
unfolding play settled reconcile_entry judged observed returned retires profile_relevant is_due
    earns_trust success_rate failure_weight
shortened = refl

play-suspended_example :
    let f = play scaled settings afterwards (settled scaled settings captcha 5 serving) in
    (is_suspended scaled settings f.state ≡ true) × (20 < f.quarantined_until)
play-suspended_example =
    play-suspended scaled settings captcha 5 20 serving afterwards refl serves_on (ground arith)
      (ground arith) (ground arith)

abbrev draining : Entry ℕ
draining = record (idle first) { state = State.draining; in_flight = 2 }

left : draining.recovery_attempts < settings.max_recovery_attempts
left = ground arith

drain_undone_example :
    (reconcile_entry settings 60 (settled scaled settings captcha 5 draining)).state
    ≡ State.probation
drain_undone_example =
    drain_undone scaled settings captcha 5 60 draining refl (ground arith) refl (ground arith) left

abbrev away : Entry ℕ
away = record (idle first) { state = State.quarantined; quarantined_until = 50 }

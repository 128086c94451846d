-- ===== src/ProfilePool/Build.antt =====
-- `New` in `pool.go`. A configured number that is tested by `<= 0` alone is 0 when not positive.
use search_x.Prelude.{◌≡◌, refl}
use search_x.Prelude.{
  ℕ, ◌+◌, ◌*◌, ◌-◌, ◌%◌, ◌^◌, ◌==◌, Bool, true, false, not, ◌||◌, List, [], ◌∷◌, ◌++◌, Option, none,
  some, ltb, leb, if◌then◌else◌,
}
use search_x.Prelude.Text.{text_eq, codes}
use search_x.Domain.Attempts.{ProviderName}
use search_x.Domain.Errors.{Error, plain, wrap}
use search_x.ProfilePool.Control.{find_slot}
use search_x.ProfilePool.Floats.{FloatOps}
use search_x.ProfilePool.Manifests.{Loaded}
use search_x.ProfilePool.Manifests
use search_x.ProfilePool.Trust.{or_default, normalized}
use search_x.ProfilePool.Types.{State, state_eq, Profile, Config, Entry, Manifest, Store, Pool}

-- A call returns, fails, or panics on a nil pointer.
pub data Outcome {ℓ} (A : Type ℓ) : Type ℓ where
  made : A → Outcome A
  rejected : Error → Outcome A
  panic : Outcome A

infixl 5 ◌>>=◌
abbrev pub ◌>>=◌ {ℓ κ} : {A : Type ℓ} {B : Type κ} → Outcome A → (A → Outcome B) → Outcome B
panic >>= f = panic
rejected e >>= f = rejected e
made a >>= f = f a

module _ {ℓ κ} {A : Type ℓ} {B : Type κ} (f : A → Outcome B) where
  pub >>=-eq-made :
      (m : Outcome A) {y : B} → (m >>= f) ≡ made y → (x : A) × (f x ≡ made y) × (m ≡ made x)
  >>=-eq-made (made x) h = (x, h, refl)
  >>=-eq-made (rejected e) h = cc
  >>=-eq-made panic h = cc

-- time.Minute
abbrev minute : ℕ
minute = 60_000_000_000

-- `providerName == "" || ID() == "" || Capacity() <= 0`
unfoldable pub is_invalid : Profile → Bool
is_invalid q = text_eq q.provider [] || text_eq q.id [] || q.capacity == 0

module _ {R : Type 0} (fl : FloatOps R) where
  unfoldable pub configured : Config R → Config R
  unfolding normalized
  configured c = record {
    trusted_traffic_percent =
        if c.trusted_traffic_percent == 0 || leb 100 c.trusted_traffic_percent
        then 80
        else c.trusted_traffic_percent;
    trust = normalized fl c.trust;
    quarantine_cooldown = or_default c.quarantine_cooldown (5 * minute);
    degraded_cooldown = or_default c.degraded_cooldown minute;
    max_recovery_attempts = or_default c.max_recovery_attempts 3;
  }

  unfoldable pub fresh_entry : Profile → Entry R
  fresh_entry q = record {
    profile = q;
    state = State.probation;
    in_flight = 0;
    effective_samples = 0;
    success_weight = fl.literal 0 1;
    failure_weight = fl.literal 0 1;
    recent_ewma = fl.literal 1 1;
    consecutive_failures = 0;
    generation = 1;
    recovery_state = State.probation;
    quarantined_until = 0;
    recovery_attempts = 0;
  }

  -- What is left of an observation after `age`; a manifest from the future has age 0.
  unfoldable pub decay : Config R → ℕ → R
  decay c age =
      if ltb 0 age
      then fl.half_life (fl.of_int age) (fl.of_int c.trust.decay_half_life)
      else fl.literal 1 1

  unfoldable pub restored : Config R → ℕ → Manifest R → Entry R → Entry R
  unfolding decay
  restored c now m e =
      let factor = decay c (now - m.updated_at) in
      record e {
        effective_samples = fl.round (fl.mul (fl.of_int m.effective_samples) factor);
        success_weight = fl.mul m.success_weight factor;
        failure_weight = fl.mul m.failure_weight factor;
        recent_ewma =
            fl.add (fl.literal 1 2) (fl.mul (fl.sub m.recent_ewma (fl.literal 1 2)) factor);
        consecutive_failures = m.consecutive_failures;
        generation = (m.generation + 1) % 2 ^ 64;
        quarantined_until = m.quarantined_until;
        recovery_attempts = m.recovery_attempts;
        recovery_state =
            if state_eq m.desired_state State.trusted then State.trusted else e.recovery_state;
      }

  -- The entry of one profile, with the directory after its manifest was read.
  unfoldable pub entry_for :
      Config R → ℕ → Profile → Option (Store R) → Outcome (Entry R × Option (Store R))
  unfolding fresh_entry restored
  entry_for c now q none = made (fresh_entry q, none)
  entry_for c now q (some s) =
      let (s', loaded) = Manifests.load q.id s in
      let e : Entry R = record (fresh_entry q) { state = State.warming } in
      elim loaded [
        | Loaded.missing ↦ made (e, some s')
        | Loaded.found m ↦ made (restored c now m e, some s')
        | Loaded.failed x ↦ rejected (wrap (codes "load profile manifest") x)
      ]

  -- The checks of one round.
  unfoldable pub admit : ProviderName → List (Entry R) → Option Profile → Outcome Profile
  unfolding is_invalid
  admit provider done none = rejected (plain (codes "profile is nil"))
  admit provider done (some q) =
      if not (text_eq q.provider provider)
      then rejected (plain (codes "profile provider differs from pool provider"))
      else if text_eq q.id [] || q.capacity == 0
      then rejected (plain (codes "profile is invalid"))
      else elim (find_slot q.id done) [
        | some _ ↦ rejected (plain (codes "duplicate profile id"))
        | none ↦ made q
      ]

  -- The loop; `done` are the entries so far.
  unfoldable pub build_from :
      Config R
      → ProviderName
      → ℕ
      → List (Entry R)
      → Option (Store R)
      → List (Option Profile)
      → Outcome (List (Entry R) × Option (Store R))
  unfolding admit entry_for
  build_from c provider now done s [] = made (done, s)
  build_from c provider now done s (q ∷ qs) = do
    q' ← admit provider done q
    (e, s') ← entry_for c now q' s
    build_from c provider now (done ++ e ∷ []) s' qs

  unfoldable pub build : List (Option Profile) → Config R → Option (Store R) → ℕ → Outcome (Pool R)
  unfolding build_from configured
  build [] c s now = rejected (plain (codes "profile pool is empty"))
  build (none ∷ qs) c s now = panic
  build (some q ∷ qs) c s now =
      if is_invalid q then rejected (plain (codes "profile 0 is invalid")) else do
        let c' = configured c
        (es, s') ← build_from c' q.provider now [] s (some q ∷ qs)
        made (record {
          provider = q.provider;
          config = c';
          profiles = es;
          disk = record { store = s'; manifest_healthy = true };
          signals = 0;
          closed = false;
          auto_waiters = 0;
          explicit_streak = 0;
        })

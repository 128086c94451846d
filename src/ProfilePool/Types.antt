-- ===== src/ProfilePool/Types.antt =====
-- The state of a pool: `profile.go`, the fields of `Config`, `entry` and `Pool` in `pool.go`,
-- `Lease` in `lease.go`, `TrustConfig` in `trust.go` and `Manifest` in `manifest.go`.
use search_x.Prelude.{ℕ, Bool, true, false, List, Option}
use search_x.Prelude.Text.{Text}
use search_x.Domain.Attempts.{ProviderName, Classification}
use search_x.Domain.Errors.{Error}

pub data State : Type 0 where
  warming probation trusted degraded quarantined draining retired : State

abbrev pub state_eq : State → State → Bool
state_eq warming warming = true
state_eq probation probation = true
state_eq trusted trusted = true
state_eq degraded degraded = true
state_eq quarantined quarantined = true
state_eq draining draining = true
state_eq retired retired = true
state_eq _ _ = false

-- What the pool reads of a profile: `closes` counts the calls of its `Close`, and `close_error n` is
-- what the call after `n` others returns.
pub record Profile : Type 0 where
  pub id : Text
  pub provider : ProviderName
  pub capacity : ℕ
  pub closes : ℕ
  pub close_error : ℕ → Option Error

pub record Result : Type 0 where
  pub succeeded : Bool
  pub classification : Classification

pub record TrustConfig (R : Type 0) : Type 0 where
  pub min_samples : ℕ
  pub min_success_rate : R
  pub min_recent_ewma : R
  pub max_consecutive_failures : ℕ
  pub recent_alpha : R
  pub decay_half_life : ℕ

pub record Config (R : Type 0) : Type 0 where
  pub trusted_traffic_percent : ℕ
  pub trust : TrustConfig R
  pub quarantine_cooldown : ℕ
  pub degraded_cooldown : ℕ
  pub max_recovery_attempts : ℕ

pub record Entry (R : Type 0) : Type 0 where
  pub profile : Profile
  pub state : State
  pub in_flight : ℕ
  pub effective_samples : ℕ
  pub success_weight : R
  pub failure_weight : R
  pub recent_ewma : R
  pub consecutive_failures : ℕ
  pub generation : ℕ
  pub recovery_state : State
  pub quarantined_until : ℕ
  pub recovery_attempts : ℕ

pub record Manifest (R : Type 0) : Type 0 where
  pub version : ℕ
  pub profile_id : Text
  pub provider : ProviderName
  pub desired_state : State
  pub effective_samples : ℕ
  pub success_weight : R
  pub failure_weight : R
  pub recent_ewma : R
  pub consecutive_failures : ℕ
  pub generation : ℕ
  pub quarantined_until : ℕ
  pub recovery_attempts : ℕ
  pub updated_at : ℕ

-- The manifest directory: the decoded file of each profile, and the outcomes, in order, of the
-- file operations still to come; past the end of `faults` they succeed.
pub record Store (R : Type 0) : Type 0 where
  pub files : List (Text × Manifest R)
  pub faults : List (Option Error)

-- `config.Manifest` and `manifestHealthy`.
pub record Disk (R : Type 0) : Type 0 where
  pub store : Option (Store R)
  pub manifest_healthy : Bool

-- `profiles` is the slice, so a pointer to an entry is an index; `byID` is a search by id in it.
-- `signals` counts the `notify` channels that were closed.
pub record Pool (R : Type 0) : Type 0 where
  pub provider : ProviderName
  pub config : Config R
  pub profiles : List (Entry R)
  pub disk : Disk R
  pub signals : ℕ
  pub closed : Bool
  pub auto_waiters : ℕ
  pub explicit_streak : ℕ

-- `released` is the state of `once`.
pub record Lease : Type 0 where
  pub slot : ℕ
  pub acquired_at : ℕ
  pub released : Bool

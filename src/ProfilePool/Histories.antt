-- ===== src/ProfilePool/Histories.antt =====
-- A pool with the leases it has handed out, driven by a sequence of calls: each method holds the
-- pool's mutex, so a concurrent run is a sequence of them. A lease is named by its number.
use search_x.ProfilePool.Release.{release}
use search_x.ProfilePool.Acquire.{try_acquire, wait_end, wait_begin}
use search_x.Domain.Errors.{Error}
use search_x.ProfilePool.Control.{replace_retired, drain, close, activate}
use search_x.Prelude.Text.{Text}
use search_x.Prelude.{get_elem?, none, [], ◌++◌, Bool, update, some, ◌∷◌, Option, List, ℕ}
use search_x.ProfilePool.Types.{Result, Profile, Lease, Pool}
use search_x.ProfilePool.Floats.{FloatOps}

pub record World (R : Type 0) : Type 0 where
  pub pool : Pool R
  pub leases : List Lease

-- `acquires` has the arguments of `tryAcquire`; `waits` and `wakes` are the two ends of a wait.
pub data Call : Type 0 where
  activates closes waits wakes : Call
  drains : Text → Call
  replaces : Text → Option Profile → Call
  acquires : Text → Bool → Bool → Text → Call
  releases : ℕ → Result → Call

module _ {R : Type 0} where
  -- A new lease joins those handed out.
  unfoldable pub hand_out : World R → Pool R × Option Lease → World R
  hand_out w (p, none) = record w { pool = p }
  hand_out w (p, some l) = record { pool = p; leases = w.leases ++ l ∷ [] }

  unfoldable pub take_back : World R → ℕ → Lease × Pool R × Option Error → World R
  take_back w n (l, p, err) = record { pool = p; leases = update w.leases n (λ _. l) }

module _ {R : Type 0} (fl : FloatOps R) where
  unfoldable pub step : ℕ × Call → World R → World R
  unfolding hand_out take_back
  step (now, activates) w = record w { pool = (activate now w.pool).0 }
  step (now, closes) w = record w { pool = (close w.pool).0 }
  step (now, waits) w = record w { pool = wait_begin w.pool }
  step (now, wakes) w = record w { pool = wait_end w.pool }
  step (now, drains id) w = record w { pool = (drain id now w.pool).0 }
  step (now, replaces id q) w = record w { pool = (replace_retired fl id q now w.pool).0 }
  step (now, acquires id automatic explicit x) w =
      hand_out w (try_acquire fl id automatic explicit x now w.pool)
  step (now, releases n r) w = elim (get_elem? w.leases n) [
    | none ↦ w
    | some l ↦ take_back w n (release fl l r now w.pool)
  ]

  unfoldable pub run : List (ℕ × Call) → World R → World R
  run [] w = w
  run (c ∷ cs) w = run cs (step c w)

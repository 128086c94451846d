-- ===== src/ProfilePool/BalanceStep.antt =====
-- Leases and requests in flight, call by call.
use search_x.ProfilePool.StepValid.{step-IsValid}
use search_x.ProfilePool.Grants.{choose-serving, Attempted, try_acquire-Attempted}
use search_x.ProfilePool.Validity.{settled-IsIdle, settled_frame, IsIdle}
use search_x.ProfilePool.Preserve.{IsValid}
use search_x.ProfilePool.Balance.{
  IsCounted-grant, IsCounted-release, IsCounted-stray, IsCounted-again, IsBalanced,
}
use search_x.ProfilePool.Histories.{
  wakes, waits, activates, releases, acquires, replaces, drains, closes, Call, run, step, hand_out,
  World, take_back,
}
use search_x.Prelude.Text.{Text}
use search_x.ProfilePool.Release.{settled, save_and_signal, release, release_entry}
use search_x.ProfilePool.Acquire.{
  reserve, preferred, choose, wait_end, try_acquire, wait_begin, grant, reconcile,
}
use search_x.ProfilePool.Types.{State, Result, Lease, Pool, Entry}
use search_x.ProfilePool.Control.{signal}
use search_x.Prelude.{
  ◌≢◌, Bool, true, All-update, ◌∙◌, none, [], sym, ◌∷◌, inr, Option-cases, inl, All-get_elem?,
  update, Bool-cases, arith, All, some, get_elem?, ◌≡◌, List, ℕ, refl,
}
use search_x.ProfilePool.Floats.{FloatOps}
use mathlib.Core.Option.{some-injective}
use search_x.ProfilePool.BalanceUpkeep.{
  Balances, PoolBalances, activate-balances, drain-balances, reconcile-balances,
  replace_retired-balances,
}

module _ {R : Type 0} (fl : FloatOps R) where
  release_entry-profiles :
      (i : ℕ) (r : Result) (now : ℕ) (e : Entry R) (p : Pool R)
      → (release_entry fl i r now e p).0.profiles
        ≡ update p.profiles i (λ _. settled fl p.config r now e)
  unfolding release_entry signal save_and_signal
  release_entry-profiles i r now e p = ground arith

  -- A second release does nothing.
  pub release_again :
      (l : Lease) (r : Result) (now : ℕ) (p : Pool R)
      → l.released ≡ true
      → release fl l r now p ≡ (l, p, none)
  unfolding release
  release_again l r now p h = ground arith

  again-balances :
      (w : World R) (n : ℕ) (l : Lease) (r : Result) (now : ℕ)
      → get_elem? w.leases n ≡ some l
      → l.released ≡ true
      → IsBalanced w
      → IsBalanced (take_back w n (release fl l r now w.pool))
  unfolding take_back
  again-balances w n l r now a c b =
      rw (release_again l r now w.pool c) (record {
        counted = IsCounted-again w.pool.profiles w.leases n l a b.counted;
        idle = b.idle;
      })

  release-balances :
      (w : World R) (n : ℕ) (l : Lease) (r : Result) (now : ℕ)
      → get_elem? w.leases n ≡ some l
      → IsBalanced w
      → IsBalanced (take_back w n (release fl l r now w.pool))
  unfolding release take_back
  release-balances w n l r now a b = elim (Bool-cases l.released) [
    | inl c ↦ again-balances w n l r now a c b
    | inr c ↦ elim (Option-cases (get_elem? w.pool.profiles l.slot)) [
      | inl d ↦
          rw (c, d, release)
            (record {
              counted = IsCounted-stray w.pool.profiles w.leases n l a d b.counted;
              idle = b.idle;
            })
      | inr (e, d) ↦
          let f = settled_frame fl w.pool.config r now e in
          let g = release_entry-profiles l.slot r now e w.pool in
          rw (c, d, release)
            (record {
              counted =
                  rw g (IsCounted-release w.pool.profiles w.leases n l e _ a c d (f.1) b.counted);
              idle = rw g (
                  All-update IsIdle w.pool.profiles l.slot _ b.idle (λ _ _ _.
                    settled-IsIdle fl w.pool.config r now e
                      (All-get_elem? IsIdle w.pool.profiles l.slot e b.idle d)));
            })
    ]
  ]

  grant-Balances :
      (w : World R) (id : Text) (automatic explicit : Bool) (x : Text) (now i : ℕ) (e : Entry R)
      → choose fl (preferred id w.pool) x (reconcile now w.pool).profiles ≡ some (i, e)
      → Balances (reconcile now w.pool).profiles w.leases
      → IsBalanced (hand_out w (grant automatic explicit now i (reconcile now w.pool)))
  unfolding hand_out grant
  grant-Balances w id automatic explicit x now i e d q = record {
    counted = IsCounted-grant (reconcile now w.pool).profiles w.leases i now q.0;
    idle =
        All-update IsIdle (reconcile now w.pool).profiles i reserve q.1
          (λ c g _. unfold reserve in λ z. absurd (serving c g z));
  }
    where
      serving :
          (c : Entry R)
          → get_elem? (reconcile now w.pool).profiles i ≡ some c
          → c.state ≢ State.retired
      serving c g z =
          let (m, k, _, _) = choose-serving fl id x w.pool (reconcile now w.pool).profiles i e d in
          ground (arith, some-injective c e (sym g ∙ m))

  acquire-balances :
      (w : World R) (id : Text) (automatic explicit : Bool) (x : Text) (now : ℕ)
      → IsBalanced w
      → IsBalanced (hand_out w (try_acquire fl id automatic explicit x now w.pool))
  unfolding hand_out
  acquire-balances w id automatic explicit x now b =
      let q = reconcile-balances now w.pool w.leases (unfold PoolBalances in (b.counted, b.idle)) in
      elim (try_acquire-Attempted fl id automatic explicit x now w.pool) [
        | Attempted.refused c d ↦ rw d b
        | Attempted.full c d e ↦ rw e (unfold PoolBalances in record { counted = q.0; idle = q.1 })
        | Attempted.granted i e c d f ↦
            rw f (grant-Balances w id automatic explicit x now i e d (unfold PoolBalances in q))
      ]

  pub step-IsBalanced :
      (c : ℕ × Call) (w : World R)
      → c.1 ≢ closes
      → IsValid w.pool
      → IsBalanced w
      → IsBalanced (step fl c w)
  unfolding step PoolBalances wait_begin wait_end
  step-IsBalanced (now, activates) w n v b =
      let r = activate-balances now w.pool w.leases v (b.counted, b.idle) in
      record { counted = r.0; idle = r.1 }
  step-IsBalanced (now, closes) w n v b = absurd (n refl)
  step-IsBalanced (now, waits) w n v b = record { counted = b.counted; idle = b.idle }
  step-IsBalanced (now, wakes) w n v b = record { counted = b.counted; idle = b.idle }
  step-IsBalanced (now, drains id) w n v b =
      let r = drain-balances id now w.pool w.leases (b.counted, b.idle) in
      record { counted = r.0; idle = r.1 }
  step-IsBalanced (now, replaces id q) w n v b =
      let r = replace_retired-balances fl id q now w.pool w.leases (b.counted, b.idle) in
      record { counted = r.0; idle = r.1 }
  step-IsBalanced (now, acquires id automatic explicit x) w n v b =
      acquire-balances w id automatic explicit x now b
  step-IsBalanced (now, releases k r) w n v b = elim (Option-cases (get_elem? w.leases k)) [
    | inl a ↦ rw (a, step) b
    | inr (l, a) ↦ rw (a, step) (release-balances w k l r now a b)
  ]

  pub run-IsBalanced :
      (cs : List (ℕ × Call)) (w : World R)
      → All (λ c. c.1 ≢ closes) cs
      → IsValid w.pool
      → IsBalanced w
      → IsBalanced (run fl cs w)
  unfolding run
  run-IsBalanced [] w n v b = b
  run-IsBalanced (c ∷ cs) w n v b =
      run-IsBalanced cs (step fl c w) n.1 (step-IsValid fl c w v) (step-IsBalanced c w n.0 v b)

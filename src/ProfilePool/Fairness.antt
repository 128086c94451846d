-- ===== src/ProfilePool/Fairness.antt =====
-- The 3:1 rule of `tryAcquire` between explicit and automatic requests.
use search_x.ProfilePool.Grants.{Attempted, try_acquire-Attempted}
use search_x.Prelude.Text.{Text}
use search_x.ProfilePool.Types.{Pool, Lease}
use search_x.ProfilePool.Acquire.{refuses, reconcile, grant, try_acquire_explicit}
use search_x.Prelude.{
  refl, false, true, ◌∷◌, [], arith, ◌≡◌, ◌+◌, ◌≤◌, none, ◌<◌, some, ℕ, Option, List,
}
use search_x.ProfilePool.Floats.{FloatOps}

abbrev pub won : Option Lease → ℕ
won none = 0
won (some l) = 1

module _ {R : Type 0} (fl : FloatOps R) where
  -- Explicit attempts, one after the other: the pool, and how many leases they got.
  unfoldable pub attempts : List (Text × ℕ) → Pool R → Pool R × ℕ
  attempts [] p = (p, 0)
  attempts ((id, now) ∷ as') p =
      let (q, l) = try_acquire_explicit fl id now p in
      let (q', n) = attempts as' q in (q', won l + n)

  explicit_step :
      (id : Text) (now : ℕ) (p : Pool R)
      → 0 < p.auto_waiters
      → p.explicit_streak ≤ 3
      → let (q, l) = try_acquire_explicit fl id now p in
        (q.auto_waiters ≡ p.auto_waiters)
        × (won l + p.explicit_streak ≡ q.explicit_streak)
        × (q.explicit_streak ≤ 3)
  unfolding try_acquire_explicit grant reconcile refuses
  explicit_step id now p w s = elim (try_acquire-Attempted fl id false true [] now p) [
    | Attempted.refused a b ↦ rw b (refl, omega arith, s)
    | Attempted.full a b c ↦ rw c (refl, omega arith, s)
    | Attempted.granted i e a b c ↦ rw c (refl, omega arith, below a)
  ]
    where
      below : refuses true p ≡ false → p.explicit_streak + 1 ≤ 3
      below a = ground arith

  -- While an automatic request waits and the streak of explicit leases is at most three, explicit
  -- requests get no more leases in a row than the streak lacks of three, however many are made and
  -- whatever capacity there is.
  pub attempts-le :
      (as' : List (Text × ℕ)) (p : Pool R)
      → 0 < p.auto_waiters
      → p.explicit_streak ≤ 3
      → (attempts as' p).1 + p.explicit_streak ≤ 3
  unfolding attempts
  attempts-le [] p w s = omega arith
  attempts-le ((id, now) ∷ as') p w s =
      let (a, b, d) = explicit_step id now p w s in
      omega (arith, attempts-le as' (try_acquire_explicit fl id now p).0 (omega (arith, a)) d, b)

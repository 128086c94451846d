-- ===== src/ProfilePool/Ledger.antt =====
-- Leases and requests in flight over a whole history.
use search_x.ProfilePool.StepValid.{run-IsValid}
use search_x.ProfilePool.BalanceStep.{run-IsBalanced}
use search_x.ProfilePool.Build.{made, build}
use search_x.ProfilePool.Validity.{IsSound, IsIdle}
use search_x.ProfilePool.Founding.{build-IsValid, IsNew}
use search_x.ProfilePool.Histories.{run, closes, Call, World}
use search_x.Prelude.{
  arith, All-get_elem?, ◌≤◌, some, get_elem?, ◌≢◌, ◌≡◌, All-imp, ℕ, [], Option, All, List,
}
use search_x.ProfilePool.Balance.{flights-at, flights-unused, IsBalanced, open_at}
use search_x.ProfilePool.Types.{Entry, Store, Config, Profile, Pool}
use search_x.ProfilePool.Floats.{FloatOps}

module _ {R : Type 0} (fl : FloatOps R) where
  abbrev pub opened : Pool R → World R
  opened p = record { pool = p; leases = [] }

  founded-IsBalanced : (p : Pool R) → All (IsNew p.provider) p.profiles → IsBalanced (opened p)
  unfolding open_at
  founded-IsBalanced p h = record {
    counted = λ i n k.
        unfold open_at in
        flights-unused p.profiles i n
          (All-imp (IsNew p.provider) (λ e. e.in_flight ≡ 0) p.profiles (λ e m. m.unused) h) k;
    idle = All-imp (IsNew p.provider) IsIdle p.profiles (λ e m z. m.unused) h;
  }

  -- From a pool that `New` built, whatever calls follow short of `Close`: the requests in flight
  -- on a profile are exactly the leases on it that were not released, and these never exceed its
  -- capacity.
  pub run_leases :
      (qs : List (Option Profile)) (c : Config R) (s : Option (Store R)) (t : ℕ) (p : Pool R)
      (cs : List (ℕ × Call)) (i : ℕ) (e : Entry R)
      → build fl qs c s t ≡ made p
      → All (λ k. k.1 ≢ closes) cs
      → get_elem? (run fl cs (opened p)).pool.profiles i ≡ some e
      → (e.in_flight ≡ open_at i (run fl cs (opened p)).leases)
        × (open_at i (run fl cs (opened p)).leases ≤ e.profile.capacity)
  run_leases qs c s t p cs i e h n g =
      let (v, news, _) = build-IsValid fl qs c s t p h in
      let b = run-IsBalanced fl cs (opened p) n v (founded-IsBalanced p news) in
      let w = run-IsValid fl cs (opened p) v in
      let count = b.counted i e.in_flight (flights-at (run fl cs (opened p)).pool.profiles i e g) in
      let sound = All-get_elem? (IsSound (run fl cs (opened p)).pool.provider) _ i e w.entries g in
      (count, omega (arith, count, sound.bounded))

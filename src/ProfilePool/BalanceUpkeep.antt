-- ===== src/ProfilePool/BalanceUpkeep.antt =====
-- Leases and requests in flight under the operations that take or give back no lease.
use search_x.ProfilePool.Manifests.{save_manifest}
use search_x.ProfilePool.Upkeep.{activate_frame}
use search_x.ProfilePool.Validity.{drained-IsIdle, IsSound, reconcile_entry-IsIdle, IsIdle}
use search_x.ProfilePool.Preserve.{commit_frame, at_entry_cases, IsValid}
use search_x.ProfilePool.Balance.{
  update-same, flights-map, flights-update, IsCounted-of, flights, IsCounted,
}
use search_x.Domain.Attempts.{ProviderName}
use search_x.Prelude.Text.{Text}
use search_x.ProfilePool.Acquire.{drained, reconcile_entry, reconcile}
use search_x.ProfilePool.Types.{state_eq, State, Disk, Lease, Profile, Pool, Entry}
use search_x.ProfilePool.Control.{
  close_profile, valid_replacement, replaced, activate, commit, replace_retired, drain,
  activate_from, swap_profile,
}
use search_x.Prelude.{
  All-update, ◌∙◌, none, [], sym, All-map, ◌∷◌, inr, Option-cases, inl, All-get_elem?, map, update,
  Bool-cases, arith, All, some, get_elem?, Option, ◌≡◌, List, ℕ, refl,
}
use search_x.ProfilePool.Floats.{FloatOps}
use mathlib.Core.Option.{some-injective}

module _ {R : Type 0} where
  -- Counted, and nothing in flight where retired.
  abbrev pub Balances : List (Entry R) → List Lease → Type 0
  Balances es ls = IsCounted es ls × All IsIdle es

  Balances-map :
      (f : Entry R → Entry R) (es : List (Entry R)) (ls : List Lease)
      → ((e : Entry R) → (f e).in_flight ≡ e.in_flight)
      → ((e : Entry R) → IsIdle e → IsIdle (f e))
      → Balances es ls
      → Balances (map f es) ls
  Balances-map f es ls same keeps (c, d) =
      (IsCounted-of es (map f es) ls (flights-map f es same) c, All-map IsIdle f es keeps d)

  -- An entry is put in the place of one with as many in flight.
  Balances-put :
      (es : List (Entry R)) (ls : List Lease) (i : ℕ) (e e' : Entry R)
      → get_elem? es i ≡ some e
      → e'.in_flight ≡ e.in_flight
      → IsIdle e'
      → Balances es ls
      → Balances (update es i (λ _. e')) ls
  Balances-put es ls i e e' g same k (c, d) = (
    IsCounted-of es _ ls
        (flights-update es i (λ _. e') (λ n. n) (λ y q. cc (some-injective y e (sym q ∙ g), same))
          ∙ update-same (flights es) i)
        c,
    All-update IsIdle es i (λ _. e') d (λ _ _ _. k),
  )

  activate_from-balances :
      (v : ProviderName) (now : ℕ) (es : List (Entry R)) (d : Disk R)
      → All (IsSound v) es
      → All IsIdle es
      → (flights (activate_from now es d).0 ≡ flights es) × All IsIdle (activate_from now es d).0
  unfolding activate_from
  activate_from-balances v now [] d h k = (refl, tt)
  activate_from-balances v now (e ∷ es) d h k = elim (Bool-cases (state_eq e.state State.warming)) [
    | inr q ↦
        rw (q, activate_from)
          (let r = activate_from-balances v now es d h.1 k.1 in (cc (r.0), (k.0, r.1)))
    | inl q ↦
        let e' : Entry R = record e { state = e.recovery_state } in
        let r = activate_from-balances v now es (save_manifest e' now d).0 h.1 k.1 in
        elim (Option-cases (save_manifest e' now d).1) [
          | inl f ↦ rw (q, activate_from, f) (cc (r.0), (λ z. absurd (h.0.recovers z), r.1))
          | inr (x, f) ↦ rw (q, activate_from, f) (refl, (λ z. absurd (h.0.recovers z), k.1))
        ]
  ]

  -- A pool's profiles with the leases.
  unfoldable pub PoolBalances : Pool R → List Lease → Type 0
  PoolBalances p ls = Balances p.profiles ls

  commit-balances :
      (e : Entry R) (now : ℕ) (p : Pool R) (ls : List Lease)
      → PoolBalances p ls
      → PoolBalances (commit e now p).0 ls
  unfolding PoolBalances
  commit-balances e now p ls h = rw ((commit_frame e now p).0) h

  pub activate-balances :
      (now : ℕ) (p : Pool R) (ls : List Lease)
      → IsValid p
      → PoolBalances p ls
      → PoolBalances (activate now p).0 ls
  unfolding PoolBalances
  activate-balances now p ls v (c, d) =
      let r = activate_from-balances p.provider now p.profiles p.disk v.entries d in
      rw ((activate_frame now p).0) (IsCounted-of p.profiles _ ls (r.0) c, r.1)

  pub drain-balances :
      (id : Text) (now : ℕ) (p : Pool R) (ls : List Lease)
      → PoolBalances p ls
      → PoolBalances (drain id now p).0 ls
  unfolding drain PoolBalances
  drain-balances id now p ls h =
      at_entry_cases (λ r. PoolBalances r.0 ls) _ id _ p h
        λ i e g _. commit-balances (drained e) now _ ls (
          Balances-put p.profiles ls i e (drained e) g (unfold drained in refl) (drained-IsIdle e)
            h)

  pub reconcile-balances :
      (now : ℕ) (p : Pool R) (ls : List Lease)
      → PoolBalances p ls
      → PoolBalances (reconcile now p) ls
  unfolding PoolBalances reconcile
  reconcile-balances now p ls h =
      Balances-map (reconcile_entry p.config now) p.profiles ls
        (λ e. unfold reconcile_entry in ground arith) (reconcile_entry-IsIdle p.config now) h

module _ {R : Type 0} (fl : FloatOps R) where
  swap_profile-balances :
      (now i : ℕ) (q : Profile) (e : Entry R) (p : Pool R) (ls : List Lease)
      → get_elem? p.profiles i ≡ some e
      → e.state ≡ State.retired
      → PoolBalances p ls
      → PoolBalances (swap_profile fl now i q e p).0 ls
  unfolding swap_profile PoolBalances
  swap_profile-balances now i q e p ls g s h =
      let zero_flight = All-get_elem? IsIdle p.profiles i e h.1 g s in
      elim (Option-cases (e.profile.close_error e.profile.closes)) [
        | inl f ↦
            rw (f, swap_profile)
              (commit-balances (replaced fl q e) now _ ls (
                Balances-put p.profiles ls i e (replaced fl q e) g
                  (unfold replaced in sym zero_flight) (unfold replaced in λ z. refl) h))
        | inr (x, f) ↦
            rw (f, swap_profile)
              (Balances-put p.profiles ls i e (record e { profile = close_profile e.profile }) g
                refl (λ z. zero_flight) h)
      ]

  pub replace_retired-balances :
      (id : Text) (o : Option Profile) (now : ℕ) (p : Pool R) (ls : List Lease)
      → PoolBalances p ls
      → PoolBalances (replace_retired fl id o now p).0 ls
  unfolding replace_retired
  replace_retired-balances id none now p ls h =
      at_entry_cases (λ r. PoolBalances r.0 ls) _ id _ p h
        λ i e g k. elim (Bool-cases (state_eq e.state State.retired)) [
          | inl a ↦ rw a h
          | inr a ↦ rw a h
        ]
  replace_retired-balances id (some q) now p ls h =
      at_entry_cases (λ r. PoolBalances r.0 ls) _ id _ p h
        λ i e g k. elim (Bool-cases (state_eq e.state State.retired)) [
          | inr a ↦ rw a h
          | inl a ↦ elim (Bool-cases (valid_replacement id p (some q))) [
            | inr b ↦ rw (a, b) h
            | inl b ↦ rw (a, b) (swap_profile-balances now i q e p ls g (ground arith) h)
          ]
        ]

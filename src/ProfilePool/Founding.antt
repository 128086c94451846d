-- ===== src/ProfilePool/Founding.antt =====
-- The pools that `New` in `pool.go` returns.
use search_x.ProfilePool.Preserve.{IsValid}
use mathlib.Core.List.{map-append}
use search_x.ProfilePool.Validity.{ids, IsSound}
use search_x.Prelude.Text.{text_eq_refl, text_eq→eq, Text}
use search_x.ProfilePool.Types.{Pool, State, Store, Profile, Config, Entry}
use search_x.Domain.Attempts.{ProviderName}
use search_x.Prelude.{
  Distinct-snoc, Distinct, inr, inl, Bool-cases, All-imp, false, sym, ◌∙◌, ap, All-append, ◌++◌,
  arith, ◌∷◌, ◌<◌, [], some, none, ◌≢◌, ◌≡◌, ℕ, All, Option, List,
}
use search_x.ProfilePool.Control.{find_slot}
use search_x.ProfilePool.Build.{
  configured, is_invalid, >>=-eq-made, build, build_from, made, admit, entry_for,
}
use search_x.ProfilePool.Floats.{FloatOps}

module _ {R : Type 0} where
  -- An entry as `New` leaves it.
  pub record IsNew (v : ProviderName) (e : Entry R) : Type 0 where
    pub sound : IsSound v e
    pub unused : e.in_flight ≡ 0
    pub starts : e.state ≢ State.retired

  find_slot-none :
      (id : Text) (es : List (Entry R)) → find_slot id es ≡ none → All (λ y. id ≢ y) (ids es)
  unfolding find_slot
  find_slot-none id [] h = tt
  find_slot-none id (e ∷ es) h = (
    λ q. ground (arith, q, text_eq_refl id),
    find_slot-none id es (ground (arith, find_slot id es)),
  )

module _ {R : Type 0} (fl : FloatOps R) where
  -- What the checks of one round establish.
  pub record Admitted (v : ProviderName) (done : List (Entry R)) (q : Profile) : Type 0 where
    pub owned : q.provider ≡ v
    pub named : q.id ≢ []
    pub positive : 0 < q.capacity
    pub unseen : find_slot q.id done ≡ none

  admit-Admitted :
      (v : ProviderName) (done : List (Entry R)) (o : Option Profile) (q : Profile)
      → admit fl v done o ≡ made q
      → Admitted v done q
  unfolding admit
  admit-Admitted v done none q h = absurd (cc)
  admit-Admitted v done (some c) q h =
      let e : c ≡ q = ground arith in
      record {
        owned = ground (arith, text_eq→eq c.provider v);
        named = λ n. ground (arith, e, text_eq_refl c.id);
        positive = ground arith;
        unseen = ground arith;
      }

  IsNew-of :
      (v : ProviderName) (q : Profile) (e : Entry R)
      → q.provider ≡ v
      → q.id ≢ []
      → 0 < q.capacity
      → e.profile ≡ q
      → e.in_flight ≡ 0
      → e.state ≢ State.retired
      → e.recovery_state ≢ State.retired
      → IsNew v e × (e.profile ≡ q)
  IsNew-of v q e a b d f g k l = (
    record {
      sound = record {
        owned = ap (λ z. z.provider) f ∙ a;
        named = λ n. b (sym (ap (λ z. z.id) f) ∙ n);
        positive = rw f d;
        bounded = omega arith;
        recovers = l;
      };
      unused = g;
      starts = k;
    },
    f,
  )

  -- What the entry of a profile is when its manifest could be read.
  entry_for-fields :
      (c : Config R) (now : ℕ) (q : Profile) (s : Option (Store R)) (e : Entry R)
      (s' : Option (Store R))
      → entry_for fl c now q s ≡ made (e, s')
      → (e.profile ≡ q)
        × (e.in_flight ≡ 0)
        × (e.state ≢ State.retired)
        × (e.recovery_state ≢ State.retired)
  unfolding entry_for
  entry_for-fields c now q none e s' h = ground arith
  entry_for-fields c now q (some s) e s' h = ground arith

  entry_for-IsNew :
      (c : Config R) (now : ℕ) (q : Profile) (s : Option (Store R)) (v : ProviderName) (e : Entry R)
      (s' : Option (Store R))
      → q.provider ≡ v
      → q.id ≢ []
      → 0 < q.capacity
      → entry_for fl c now q s ≡ made (e, s')
      → IsNew v e × (e.profile ≡ q)
  entry_for-IsNew c now q s v e s' a b d h =
      let f = entry_for-fields c now q s e s' h in IsNew-of v q e a b d f.0 f.1 f.2 f.3

  snoc-IsNew :
      (v : ProviderName) (done : List (Entry R)) (q : Profile) (e : Entry R)
      → Admitted v done q
      → IsNew v e × (e.profile ≡ q)
      → All (IsNew v) done × Distinct (ids done)
      → All (IsNew v) (done ++ e ∷ []) × Distinct (ids (done ++ e ∷ []))
  snoc-IsNew v done q e a (n, f) (h, d) = (
    All-append (IsNew v) done (e ∷ []) h (n, tt),
    rw (map-append, f) (Distinct-snoc (ids done) q.id (find_slot-none q.id done a.unseen) d),
  )

  build_from-IsNew :
      (c : Config R) (v : ProviderName) (now : ℕ) (done : List (Entry R)) (s : Option (Store R))
      (qs : List (Option Profile)) (es : List (Entry R)) (s' : Option (Store R))
      → All (IsNew v) done × Distinct (ids done)
      → build_from fl c v now done s qs ≡ made (es, s')
      → All (IsNew v) es × Distinct (ids es)
  unfolding build_from
  build_from-IsNew c v now done s [] es s' h k = let e : es ≡ done = ground arith in rw e h
  build_from-IsNew c v now done s (o ∷ qs) es s' h k =
      let (q, k', a) = >>=-eq-made _ (admit fl v done o) k in
      let ((e, t), k'', b) = >>=-eq-made _ (entry_for fl c now q s) k' in
      let m = admit-Admitted v done o q a in
      build_from-IsNew c v now (done ++ e ∷ []) t qs es s'
        (snoc-IsNew v done q e m (entry_for-IsNew c now q s v e t m.owned m.named m.positive b) h)
        k''

  founded :
      (p : Pool R) (v : ProviderName) (es : List (Entry R))
      → p.provider ≡ v
      → p.profiles ≡ es
      → p.closed ≡ false
      → All (IsNew v) es × Distinct (ids es)
      → IsValid p × All (IsNew p.provider) p.profiles × (p.closed ≡ false)
  founded p v es a b d (n, k) = (
    record {
      entries = rw (a, b) (All-imp (IsNew v) (IsSound v) es (λ e m. m.sound) n);
      distinct = rw b k;
    },
    rw (a, b) n,
    d,
  )

  -- Whatever the profiles, the configuration and the manifests: a pool that `New` returns is
  -- well-formed and open, and has nothing in flight and nothing retired.
  pub build-IsValid :
      (qs : List (Option Profile)) (c : Config R) (s : Option (Store R)) (now : ℕ) (p : Pool R)
      → build fl qs c s now ≡ made p
      → IsValid p × All (IsNew p.provider) p.profiles × (p.closed ≡ false)
  unfolding build
  build-IsValid [] c s now p h = absurd (cc)
  build-IsValid (none ∷ qs) c s now p h = absurd (cc)
  build-IsValid (some q ∷ qs) c s now p h = elim (Bool-cases (is_invalid q)) [
    | inl a ↦ absurd (ground arith)
    | inr a ↦
        let k = rw a at h in
        let ((es, s'), d, b) =
          >>=-eq-made _ (build_from fl (configured fl c) q.provider now [] s (some q ∷ qs)) k in
        let news =
          build_from-IsNew (configured fl c) q.provider now [] s (some q ∷ qs) es s' (tt, tt) b in
        founded p q.provider es (ground arith) (ground arith) (ground arith) news
  ]

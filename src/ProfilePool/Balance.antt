-- ===== src/ProfilePool/Balance.antt =====
-- The requests in flight on a profile, and the leases on it that were not given back.
use search_x.ProfilePool.Validity.{IsIdle}
use search_x.ProfilePool.Acquire.{reserve}
use search_x.ProfilePool.Histories.{World}
use search_x.ProfilePool.Types.{Lease, Entry}
use mathlib.Core.Option.{some-injective}
use search_x.Prelude.{
  ◌∙◌, true, none, ◌-◌, ap, inr, sym, ◌==◌, inl, ◌&&◌, arith, zero, ◌≢◌, false, ◌⊎◌, [], suc, ◌+◌,
  not, if◌then◌else◌, ◌∷◌, some, ◌++◌, update, map, get_elem?, ◌≡◌, All, List, ℕ, refl,
}

-- The leases on slot `i` still to be released.
abbrev pub is_open_at : ℕ → Lease → ℕ
is_open_at i l = if not l.released && l.slot == i then 1 else 0

unfoldable pub open_at : ℕ → List Lease → ℕ
open_at i [] = 0
open_at i (l ∷ ls) = is_open_at i l + open_at i ls

open_at-append : (i : ℕ) (ls ms : List Lease) → open_at i (ls ++ ms) ≡ open_at i ls + open_at i ms
unfolding open_at
open_at-append i [] ms = omega arith
open_at-append i (l ∷ ls) ms = omega (arith, open_at-append i ls ms)

-- Writing a lease back changes the count by that lease alone.
open_at-update :
    (i : ℕ) (ls : List Lease) (n : ℕ) (l m : Lease)
    → get_elem? ls n ≡ some l
    → open_at i (update ls n (λ _. m)) + is_open_at i l ≡ open_at i ls + is_open_at i m
unfolding open_at
open_at-update i [] n l m h = absurd (cc)
open_at-update i (k ∷ ls) zero l m h = rw (some-injective k l h) (omega arith)
open_at-update i (k ∷ ls) (suc n) l m h = omega (arith, open_at-update i ls n l m h)

module _ {R : Type 0} where
  abbrev pub flights : List (Entry R) → List ℕ
  flights = map (λ e. e.in_flight)

  -- Entry by entry, as many in flight as there are open leases.
  abbrev pub IsCounted : List (Entry R) → List Lease → Type 0
  IsCounted es ls = (i n : ℕ) → get_elem? (flights es) i ≡ some n → n ≡ open_at i ls

  pub record IsBalanced (w : World R) : Type 0 where
    pub counted : IsCounted w.pool.profiles w.leases
    pub idle : All IsIdle w.pool.profiles

  pub flights-map :
      (f : Entry R → Entry R) (es : List (Entry R))
      → ((e : Entry R) → (f e).in_flight ≡ e.in_flight)
      → flights (map f es) ≡ flights es
  flights-map f [] h = refl
  flights-map f (e ∷ es) h = cc (h e, flights-map f es h)

  pub flights-update :
      (es : List (Entry R)) (i : ℕ) (f : Entry R → Entry R) (g : ℕ → ℕ)
      → ((e : Entry R) → get_elem? es i ≡ some e → (f e).in_flight ≡ g e.in_flight)
      → flights (update es i f) ≡ update (flights es) i g
  flights-update [] i f g h = refl
  flights-update (e ∷ es) zero f g h = cc (h e refl)
  flights-update (e ∷ es) (suc i) f g h = cc (flights-update es i f g h)

pub update-same : (xs : List ℕ) (i : ℕ) → update xs i (λ n. n) ≡ xs
update-same [] i = refl
update-same (x ∷ xs) zero = refl
update-same (x ∷ xs) (suc i) = cc (update-same xs i)

-- An entry of an updated list: the changed one, or one that was there.
update_cases :
    (xs : List ℕ) (k i n : ℕ) (f : ℕ → ℕ)
    → get_elem? (update xs k f) i ≡ some n
    → ((k ≡ i) × (m : ℕ) × (get_elem? xs i ≡ some m) × (n ≡ f m))
      ⊎ ((k ≢ i) × (get_elem? xs i ≡ some n))
update_cases [] k i n f h = absurd (cc)
update_cases (x ∷ xs) zero zero n f h = inl (refl, x, refl, sym (some-injective _ _ h))
update_cases (x ∷ xs) zero (suc i) n f h = inr (λ e. absurd (omega arith), h)
update_cases (x ∷ xs) (suc k) zero n f h = inr (λ e. absurd (omega arith), h)
update_cases (x ∷ xs) (suc k) (suc i) n f h = elim (update_cases xs k i n f h) [
  | inl (e, m, a, b) ↦ inl (ap suc e, m, a, b)
  | inr (e, a) ↦ inr (λ q. e (omega arith), a)
]

module _ {R : Type 0} where
  -- Two lists with as many in flight everywhere are counted alike.
  pub IsCounted-of :
      (es fs : List (Entry R)) (ls : List Lease)
      → flights fs ≡ flights es
      → IsCounted es ls
      → IsCounted fs ls
  IsCounted-of es fs ls same h i n k = h i n (rw same at k)

  pub flights-at :
      (es : List (Entry R)) (i : ℕ) (e : Entry R)
      → get_elem? es i ≡ some e
      → get_elem? (flights es) i ≡ some e.in_flight
  flights-at [] i e h = absurd (cc)
  flights-at (c ∷ es) zero e h = cc
  flights-at (c ∷ es) (suc i) e h = flights-at es i e h

  pub flights-unused :
      (es : List (Entry R)) (i n : ℕ)
      → All (λ e. e.in_flight ≡ 0) es
      → get_elem? (flights es) i ≡ some n
      → n ≡ 0
  flights-unused [] i n h k = absurd (cc)
  flights-unused (e ∷ es) zero n h k = ground (arith, h.0)
  flights-unused (e ∷ es) (suc i) n h k = flights-unused es i n h.1 k

  flights-get_elem? :
      (es : List (Entry R)) (i n : ℕ) → get_elem? (flights es) i ≡ some n → get_elem? es i ≢ none
  flights-get_elem? [] i n h k = absurd (cc)
  flights-get_elem? (e ∷ es) zero n h k = absurd (cc)
  flights-get_elem? (e ∷ es) (suc i) n h k = flights-get_elem? es i n h k

  -- One more in flight at `i`, and one more open lease there.
  pub IsCounted-grant :
      (es : List (Entry R)) (ls : List Lease) (i now : ℕ)
      → IsCounted es ls
      → IsCounted
          (update es i reserve)
          (ls ++ record { slot = i; acquired_at = now; released = false } ∷ [])
  unfolding open_at reserve
  IsCounted-grant es ls i now h j n k =
      let k' = rw (flights-update es i reserve (λ m. m + 1) (λ e _. refl)) at k in
      let l : Lease = record { slot = i; acquired_at = now; released = false } in
      elim (update_cases (flights es) i j n (λ m. m + 1) k') [
        | inl (a, m, b, c) ↦ ground (arith, h j m b, open_at-append j ls (l ∷ []))
        | inr (a, b) ↦ ground (arith, h j n b, open_at-append j ls (l ∷ []))
      ]

  -- One fewer in flight at the slot of a lease that is released.
  pub IsCounted-release :
      (es : List (Entry R)) (ls : List Lease) (n : ℕ) (l : Lease) (e e' : Entry R)
      → get_elem? ls n ≡ some l
      → l.released ≡ false
      → get_elem? es l.slot ≡ some e
      → e'.in_flight ≡ e.in_flight - 1
      → IsCounted es ls
      → IsCounted (update es l.slot (λ _. e')) (update ls n (λ _. record l { released = true }))
  IsCounted-release es ls n l e e' a b c d h j m k =
      let k' =
        rw
          (flights-update es l.slot (λ _. e') (λ x. x - 1)
            (λ y q. cc (some-injective y e (sym q ∙ c), d)))
          at k in
      let count = open_at-update j ls n l (record l { released = true }) a in
      elim (update_cases (flights es) l.slot j m (λ x. x - 1) k') [
        | inl (f, x, g, y) ↦ ground (arith, h j x g, count)
        | inr (f, g) ↦ ground (arith, h j m g, count)
      ]

  -- A lease on no slot of the pool does not count.
  pub IsCounted-stray :
      (es : List (Entry R)) (ls : List Lease) (n : ℕ) (l : Lease)
      → get_elem? ls n ≡ some l
      → get_elem? es l.slot ≡ none
      → IsCounted es ls
      → IsCounted es (update ls n (λ _. record l { released = true }))
  IsCounted-stray es ls n l a b h j m k =
      let count = open_at-update j ls n l (record l { released = true }) a in
      let apart : l.slot ≢ j = λ q. flights-get_elem? es j m k (rw q at b) in
      ground (arith, h j m k, count)

  -- A lease that is released again stays as it was.
  pub IsCounted-again :
      (es : List (Entry R)) (ls : List Lease) (n : ℕ) (l : Lease)
      → get_elem? ls n ≡ some l
      → IsCounted es ls
      → IsCounted es (update ls n (λ _. l))
  IsCounted-again es ls n l a h j m k = omega (arith, h j m k, open_at-update j ls n l l a)

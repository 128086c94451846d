-- ===== src/Cache/Eviction.antt =====
-- The entry that `evictOldestLocked` in `cache/memory.go` drops.
use search_x.Cache.Bounds.{keys}
use search_x.Prelude.Text.{text_eq_ne, text_eq_refl, text_eq→eq, text_eq, Text}
use search_x.Cache.Memory.{remove, evict_oldest, Entry, lookup, oldest_from}
use search_x.Prelude.{
  length, ◌<◌, arith, inr, sym, ◌∙◌, inl, ltb, Bool-cases, Distinct, [], ◌∷◌, [], some, ◌≤◌, All,
  ◌≡◌, ◌≢◌, List, ℕ, refl,
}

-- Nothing in the list is older than `at`.
abbrev pub NoneOlder : ℕ → List (Text × Entry) → Type 0
NoneOlder at = All (λ p. at ≤ p.1.stored_at)

lookup-ne :
    (k r : Text) (es : List (Text × Entry)) (e : Entry)
    → All (λ y. y ≢ k) (keys es)
    → lookup r es ≡ some e
    → k ≢ r
unfolding lookup
lookup-ne k r [] e h g = absurd (cc)
lookup-ne k r ((j, x) ∷ es) e h g = elim (Bool-cases (text_eq j r)) [
  | inl a ↦ λ q. h.0 (text_eq→eq j r a ∙ sym q)
  | inr a ↦ lookup-ne k r es e h.1 (rw a at g)
]

-- What the loop returns: the key it holds, if nothing further on is older, or one further on.
data Oldest (key : Text) (at : ℕ) (es : List (Text × Entry)) (r : Text) : Type 0 where
  held : r ≡ key → NoneOlder at es → Oldest key at es r
  found :
      (e : Entry)
      → lookup r es ≡ some e
      → e.stored_at ≤ at
      → NoneOlder e.stored_at es
      → r ≢ []
      → Oldest key at es r

lookup-tail :
    (k : Text) (x : Entry) (r : Text) (es : List (Text × Entry)) (e : Entry)
    → All (λ y. y ≢ k) (keys es)
    → lookup r es ≡ some e
    → lookup r ((k, x) ∷ es) ≡ some e
unfolding lookup
lookup-tail k x r es e h g = rw (text_eq_ne k r (lookup-ne k r es e h g)) g

newer :
    (key : Text) (at : ℕ) (k : Text) (x : Entry) (es : List (Text × Entry)) (r : Text)
    → k ≢ []
    → All (λ y. y ≢ k) (keys es)
    → x.stored_at ≤ at
    → Oldest k x.stored_at es r
    → Oldest key at ((k, x) ∷ es) r
unfolding lookup
newer key at k x es r n h le (Oldest.held e aged) =
    Oldest.found x (rw (e, text_eq_refl k)) le (omega arith, aged) (rw e n)
newer key at k x es r n h le (Oldest.found e g m aged q) =
    Oldest.found e (lookup-tail k x r es e h g) (omega arith) (m, aged) q

older :
    (key : Text) (at : ℕ) (k : Text) (x : Entry) (es : List (Text × Entry)) (r : Text)
    → All (λ y. y ≢ k) (keys es)
    → at ≤ x.stored_at
    → Oldest key at es r
    → Oldest key at ((k, x) ∷ es) r
older key at k x es r h le (Oldest.held e aged) = Oldest.held e (le, aged)
older key at k x es r h le (Oldest.found e g m aged q) =
    Oldest.found e (lookup-tail k x r es e h g) m (omega arith, aged) q

oldest_from-Oldest :
    (key : Text) (at : ℕ) (es : List (Text × Entry))
    → key ≢ []
    → All (λ k. k ≢ []) (keys es)
    → Distinct (keys es)
    → Oldest key at es (oldest_from key at es)
unfolding oldest_from
oldest_from-Oldest key at [] n h d = Oldest.held refl tt
oldest_from-Oldest key at ((k, e) ∷ es) n h d = elim (Bool-cases (ltb e.stored_at at)) [
  | inl a ↦
      rw (text_eq_ne key [] n, a)
        (newer key at k e es _ h.0 d.0 (ground arith)
          (oldest_from-Oldest k e.stored_at es h.0 h.1 d.1))
  | inr a ↦
      rw (text_eq_ne key [] n, a)
        (older key at k e es _ d.0 (ground arith) (oldest_from-Oldest key at es n h.1 d.1))
]

evict_step :
    (k : Text) (x : Entry) (es : List (Text × Entry)) (r : Text)
    → oldest_from k x.stored_at es ≡ r
    → r ≢ []
    → evict_oldest ((k, x) ∷ es) ≡ remove r ((k, x) ∷ es)
unfolding evict_oldest oldest_from text_eq
evict_step k x es r e n = ground (arith, text_eq_ne r [] n)

-- The entry that a full cache gives up is one that aged other is older than; all others stay.
pub evict_oldest-oldest :
    (es : List (Text × Entry))
    → All (λ k. k ≢ []) (keys es)
    → Distinct (keys es)
    → 0 < length es
    → (key : Text) × (e : Entry) × (lookup key es ≡ some e)
      × NoneOlder e.stored_at es
      × (evict_oldest es ≡ remove key es)
unfolding lookup
evict_oldest-oldest [] h d p = absurd (omega arith)
evict_oldest-oldest ((k, x) ∷ es) h d p = elim (oldest_from-Oldest k x.stored_at es h.0 h.1 d.1) [
  | Oldest.held e aged ↦ (k, x, rw (text_eq_refl k), (omega arith, aged), evict_step k x es k e h.0)
  | Oldest.found e g m aged q ↦
      (_, e, lookup-tail k x _ es e d.0 g, (m, aged), evict_step k x es _ refl q)
]

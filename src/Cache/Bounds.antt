-- ===== src/Cache/Bounds.antt =====
-- The entries of the cache in `cache/memory.go`: their keys and their number.
use search_x.Prelude.Text.{text_eq_refl, text_eq, Text}
use search_x.Cache.Memory.{Entry, lookup, has_key, remove, put, Memory}
use search_x.Prelude.{
  inr, arith, inl, ◌+◌, if◌then◌else◌, true, Bool-cases, map, ◌≡◌, ◌∷◌, [], ◌<◌, ◌≤◌, length,
  Distinct, [], ◌≢◌, All, List, refl,
}

abbrev pub keys : List (Text × Entry) → List Text
keys = map (λ e. e.0)

pub record IsValid (m : Memory) : Type 0 where
  pub named : All (λ k. k ≢ []) (keys m.entries)
  pub distinct : Distinct (keys m.entries)
  pub bounded : length m.entries ≤ m.max_items
  pub positive : 0 < m.max_items

pub All-keys-remove :
    (P : Text → Type 0) (key : Text) (es : List (Text × Entry))
    → All P (keys es)
    → All P (keys (remove key es))
unfolding remove
All-keys-remove P key [] h = tt
All-keys-remove P key ((k, e) ∷ es) h = elim (Bool-cases (text_eq k key)) [
  | inl a ↦ rw a (h.1)
  | inr a ↦ rw a (h.0, All-keys-remove P key es h.1)
]

pub Distinct-keys-remove :
    (key : Text) (es : List (Text × Entry)) → Distinct (keys es) → Distinct (keys (remove key es))
unfolding remove
Distinct-keys-remove key [] h = tt
Distinct-keys-remove key ((k, e) ∷ es) h = elim (Bool-cases (text_eq k key)) [
  | inl a ↦ rw a (h.1)
  | inr a ↦ rw a (All-keys-remove (λ y. y ≢ k) key es h.0, Distinct-keys-remove key es h.1)
]

pub All-keys-put :
    (P : Text → Type 0) (key : Text) (v : Entry) (es : List (Text × Entry))
    → P key
    → All P (keys es)
    → All P (keys (put key v es))
unfolding put
All-keys-put P key v [] p h = (p, tt)
All-keys-put P key v ((k, e) ∷ es) p h = elim (Bool-cases (text_eq k key)) [
  | inl a ↦ rw a h
  | inr a ↦ rw a (h.0, All-keys-put P key v es p h.1)
]

pub Distinct-keys-put :
    (key : Text) (v : Entry) (es : List (Text × Entry))
    → Distinct (keys es)
    → Distinct (keys (put key v es))
unfolding put
Distinct-keys-put key v [] h = (tt, tt)
Distinct-keys-put key v ((k, e) ∷ es) h = elim (Bool-cases (text_eq k key)) [
  | inl a ↦ rw a h
  | inr a ↦ rw a (
    All-keys-put (λ y. y ≢ k) key v es (λ q. ground (arith, q, text_eq_refl k)) h.0,
    Distinct-keys-put key v es h.1,
  )
]

pub length-put :
    (key : Text) (v : Entry) (es : List (Text × Entry))
    → length (put key v es) ≡ (if has_key key es then length es else length es + 1)
unfolding put has_key lookup
length-put key v [] = refl
length-put key v ((k, e) ∷ es) = ground (arith, length-put key v es)

pub length-remove :
    (key : Text) (es : List (Text × Entry))
    → has_key key es ≡ true
    → length (remove key es) + 1 ≡ length es
unfolding remove has_key lookup
length-remove key [] h = cc
length-remove key ((k, e) ∷ es) h = ground (arith, length-remove key es)

-- ===== src/Cache/Refinement.antt =====
-- The cache of `cache/memory.go` against its specification: the sequence of the writes so far.
use mathlib.Core.Option.{some-injective}
use mathlib.Core.Path.{subst}
use search_x.Prelude.Text.{text_eq_refl, text_eq→eq, text_eq, text_eq_ne, Text}
use search_x.Prelude.{
  ◌+◌, ◌≤◌, Bool, arith, leb, ◌&&◌, false, Option-cases, not, ap, ◌⊎◌, ◌∙◌, sym, inr, inl, refl,
  Bool-cases, if◌then◌else◌, ◌≡◌, [], length, some, ◌≢◌, ◌∷◌, All, Distinct, none, ◌<◌, Option,
  List, ℕ,
}
use search_x.Cache.Bounds.{IsValid, keys}
use search_x.Cache.Eviction.{evict_oldest-oldest}
use search_x.Cache.Memory.{
  is_expired, get, put, has_key, Entry, Memory, evict_oldest, lookup, remove, set,
}
use search_x.Cache.Reads.{lookup-put_ne, lookup-put_self, set-IsValid, lookup-remove_ne}
use search_x.Domain.Errors.{Error}
use search_x.Domain.{SearchResponse}

-- A call of `Set`; `stopped` is the error of its context.
pub record Write : Type 0 where
  pub key : Text
  pub value : SearchResponse
  pub at : ℕ
  pub stopped : Option Error

abbrev pub entry_of : Write → Entry
entry_of w = record { value = record (w.value) { stored_at = w.at }; stored_at = w.at }

-- The specification forgets nothing: it has the newest write under the key that was not stopped.
unfoldable pub noted : Option Error → Write → Text → Option Entry → Option Entry
noted (some e) w key found = found
noted none w key found = if text_eq w.key key then some (entry_of w) else found

unfoldable pub newest_from : Option Entry → Text → List Write → Option Entry
unfolding noted
newest_from found key [] = found
newest_from found key (w ∷ ws) = newest_from (noted w.stopped w key found) key ws

unfoldable pub newest : Text → List Write → Option Entry
unfolding newest_from
newest key ws = newest_from none key ws

unfoldable pub write_all : List Write → Memory → Memory
unfolding set
write_all [] m = m
write_all (w ∷ ws) m = write_all ws (set w.stopped w.at w.key w.value m).0

lookup-absent :
    (key : Text) (es : List (Text × Entry)) → All (λ y. y ≢ key) (keys es) → lookup key es ≡ none
unfolding lookup
lookup-absent key [] h = refl
lookup-absent key ((k, e) ∷ es) h = rw (text_eq_ne k key h.0) (lookup-absent key es h.1)

lookup-remove_self :
    (key : Text) (es : List (Text × Entry)) → Distinct (keys es) → lookup key (remove key es) ≡ none
unfolding lookup remove
lookup-remove_self key [] d = refl
lookup-remove_self key ((k, e) ∷ es) d = elim (Bool-cases (text_eq k key)) [
  | inl a ↦
      rw a (lookup-absent key es (subst (λ x. All (λ y. y ≢ x) (keys es)) (text_eq→eq k key a) d.0))
  | inr a ↦ rw (a, a) (lookup-remove_self key es d.1)
]

-- What is found after an eviction was there before it.
lookup-evict_oldest :
    (key : Text) (m : Memory) (e : Entry)
    → IsValid m
    → 0 < length m.entries
    → lookup key (evict_oldest m.entries) ≡ some e
    → lookup key m.entries ≡ some e
lookup-evict_oldest key m e h n g =
    let (k, _, _, _, same) = evict_oldest-oldest m.entries h.named h.distinct n in
    elim (Bool-cases (text_eq k key)) [
      | inl a ↦
          let gone : lookup key (remove k m.entries) ≡ none =
            subst (λ x. lookup x (remove k m.entries) ≡ none) (text_eq→eq k key a)
              (lookup-remove_self k m.entries h.distinct) in
          absurd (cc (sym gone ∙ rw same at g))
      | inr a ↦
          sym (lookup-remove_ne k key m.entries (λ q. cc (q, a, text_eq_refl key))) ∙ rw same at g
    ]

-- What is kept beside the value that is written.
abbrev kept : Text → Memory → List (Text × Entry)
kept key m =
    if not (has_key key m.entries) && leb m.max_items (length m.entries)
    then evict_oldest m.entries
    else m.entries

lookup-kept :
    (key other : Text) (m : Memory) (e : Entry)
    → IsValid m
    → lookup other (kept key m) ≡ some e
    → lookup other m.entries ≡ some e
lookup-kept key other m e h g =
    elim (Bool-cases (not (has_key key m.entries) && leb m.max_items (length m.entries))) [
      | inr a ↦ rw a at g
      | inl a ↦ lookup-evict_oldest other m e h (ground (arith, h.positive)) (rw a at g)
    ]

-- What is found after a write is the value written, or was there before it.
lookup-set :
    (now : ℕ) (key other : Text) (v : SearchResponse) (m : Memory) (e : Entry)
    → IsValid m
    → lookup other (set none now key v m).0.entries ≡ some e
    → ((key ≡ other) × (record { value = record v { stored_at = now }; stored_at = now } ≡ e))
      ⊎ ((text_eq key other ≡ false) × (lookup other m.entries ≡ some e))
unfolding set
lookup-set now key other v m e h g =
    let x : Entry = record { value = record v { stored_at = now }; stored_at = now } in
    elim (Bool-cases (text_eq key other)) [
      | inl a ↦
          let same = text_eq→eq key other a in
          inl (
            same,
            some-injective x e (
                sym (lookup-put_self key x (kept key m))
                ∙ (ap (λ y. lookup y (put key x (kept key m))) same ∙ g)),
          )
      | inr a ↦ inr (
        a,
        lookup-kept key other m e h
            (sym (lookup-put_ne key other x (kept key m) (λ q. cc (q, a, text_eq_refl other))) ∙ g),
      )
    ]

-- The cache agrees with the specification on what it still has under the key.
abbrev Agrees : Text → Option Entry → Memory → Type 0
Agrees key found m = (e : Entry) → lookup key m.entries ≡ some e → found ≡ some e

set-Agrees :
    (stopped : Option Error) (w : Write) (key : Text) (found : Option Entry) (m : Memory)
    → IsValid m
    → Agrees key found m
    → Agrees key (noted stopped w key found) (set stopped w.at w.key w.value m).0
unfolding set noted
set-Agrees (some x) w key found m h g e l = g e l
set-Agrees none w key found m h g e l = elim (lookup-set w.at w.key key w.value m e h l) [
  | inl (same, x) ↦ rw (same, text_eq_refl key) (ap some x)
  | inr (a, before) ↦ rw a (g e before)
]

stopped_set-IsValid :
    (stopped : Option Error) (w : Write) (m : Memory)
    → w.key ≢ []
    → IsValid m
    → IsValid (set stopped w.at w.key w.value m).0
unfolding set
stopped_set-IsValid (some x) w m n h = h
stopped_set-IsValid none w m n h = set-IsValid w.at w.key w.value m n h

write_all-Agrees :
    (ws : List Write) (key : Text) (found : Option Entry) (m : Memory)
    → IsValid m
    → All (λ w. w.key ≢ []) ws
    → Agrees key found m
    → Agrees key (newest_from found key ws) (write_all ws m)
unfolding newest_from write_all
write_all-Agrees [] key found m h n g = g
write_all-Agrees (w ∷ ws) key found m h n g =
    write_all-Agrees ws key (noted w.stopped w key found) (set w.stopped w.at w.key w.value m).0
      (stopped_set-IsValid w.stopped w m n.0 h) n.1 (set-Agrees w.stopped w key found m h g)

get-found :
    (canceled : Bool) (now : ℕ) (key : Text) (ttl : ℕ) (m : Memory) (v : SearchResponse)
    → get canceled now key ttl m ≡ some v
    → (e : Entry) × (lookup key m.entries ≡ some e)
      × (v ≡ record (e.value) { stored_at = e.stored_at })
      × (now ≤ e.stored_at + ttl)
unfolding get is_expired
get-found canceled now key ttl m v h = elim (Bool-cases canceled) [
  | inl a ↦ absurd (cc (rw a at h))
  | inr a ↦ elim (Option-cases (lookup key m.entries)) [
    | inl b ↦ absurd (cc (rw (a, b) at h))
    | inr (e, b) ↦ elim (Bool-cases (is_expired now ttl e)) [
      | inl c ↦ absurd (cc (rw (a, b, c) at h))
      | inr c ↦ (e, b, sym (some-injective _ v (rw (a, b, c) at h)), ground (arith, c))
    ]
  ]
]

-- A cache that starts empty, with a positive size, may forget but is never wrong: after any sequence of
-- writes, none under the empty key, whatever a read finds is the value of the newest write under that
-- key whose context was not canceled, stamped with the time of that write, and that is no longer ago
-- than the TTL asked for.
pub get-newest :
    (ws : List Write) (canceled : Bool) (now : ℕ) (key : Text) (ttl : ℕ) (m : Memory)
    (v : SearchResponse)
    → m.entries ≡ []
    → 0 < m.max_items
    → All (λ w. w.key ≢ []) ws
    → get canceled now key ttl (write_all ws m) ≡ some v
    → (e : Entry) × (newest key ws ≡ some e)
      × (v ≡ record (e.value) { stored_at = e.stored_at })
      × (now ≤ e.stored_at + ttl)
unfolding newest lookup
get-newest ws canceled now key ttl m v empty positive n h =
    let (e, there, value, young) = get-found canceled now key ttl (write_all ws m) v h in
    (
      e,
      write_all-Agrees ws key none m valid n (λ x l. absurd (cc (rw empty at l))) e there,
      value,
      young,
    )
  where
    valid : IsValid m
    valid = record {
      named = rw empty tt;
      distinct = rw empty tt;
      bounded = rw empty (ground arith);
      positive = positive;
    }

-- ===== src/Cache/Reads.antt =====
-- `Set` and the reads of `cache/memory.go`.
use search_x.Cache.Eviction.{evict_oldest-oldest, NoneOlder}
use search_x.Cache.Bounds.{
  length-put, length-remove, Distinct-keys-put, Distinct-keys-remove, All-keys-put, All-keys-remove,
  keys, IsValid,
}
use search_x.Prelude.Text.{text_eq→eq, text_eq, text_eq_refl, text_eq_ne, Text}
use search_x.Prelude.{
  ◌∙◌, Distinct, All, refl, true, ◌<◌, ◌⊎◌, inr, length, inl, leb, arith, ◌&&◌, Bool-cases, none,
  false, ◌∷◌, [], ◌+◌, not, some, [], if◌then◌else◌, Bool, ◌≤◌, ◌≡◌, ◌≢◌, ℕ, List,
}
use search_x.Cache.Memory.{
  remove, has_key, get_stale, Entry, put, Memory, lookup, get, set, get_fresh,
}
use search_x.Domain.{SearchResponse}

pub lookup-put_self :
    (key : Text) (v : Entry) (es : List (Text × Entry)) → lookup key (put key v es) ≡ some v
unfolding lookup put
lookup-put_self key v [] = rw (text_eq_refl key)
lookup-put_self key v ((k, e) ∷ es) = elim (Bool-cases (text_eq k key)) [
  | inl a ↦ rw (a, a)
  | inr a ↦ rw (a, a) (lookup-put_self key v es)
]

pub lookup-put_ne :
    (key other : Text) (v : Entry) (es : List (Text × Entry))
    → key ≢ other
    → lookup other (put key v es) ≡ lookup other es
unfolding lookup put
lookup-put_ne key other v [] h = rw (text_eq_ne key other h)
lookup-put_ne key other v ((k, e) ∷ es) h =
    ground (arith, text_eq→eq k key, text_eq_ne key other h, lookup-put_ne key other v es h)

-- After a write, with no other between, a read of the key whose context is not canceled finds the
-- value, stamped with the time of the write, as long as that is no longer ago than the TTL asked
-- for.
pub get-set :
    (now later ttl : ℕ) (key : Text) (v : SearchResponse) (m : Memory)
    → later ≤ now + ttl
    → get false later key ttl (set none now key v m).0 ≡ some (record v { stored_at = now })
unfolding get set
get-set now later ttl key v m h = rw (lookup-put_self, get) (ground arith)

-- Where the fresh TTL is at most the stale one: what a read finds as fresh, a read at the same time
-- finds as stale too, with the same value.
pub fresh-stale :
    (canceled : Bool) (now : ℕ) (key : Text) (m : Memory) (v : SearchResponse)
    → m.fresh_ttl ≤ m.stale_ttl
    → get_fresh canceled now key m ≡ some v
    → get_stale canceled now key m ≡ some v
unfolding get_fresh get_stale
fresh-stale canceled now key m v le h = ground arith

put-IsValid :
    (key : Text) (v : Entry) (m : Memory) (es : List (Text × Entry))
    → key ≢ []
    → 0 < m.max_items
    → All (λ k. k ≢ []) (keys es)
    → Distinct (keys es)
    → (if has_key key es then length es else length es + 1) ≤ m.max_items
    → IsValid (record m { entries = put key v es })
put-IsValid key v m es n p h d b = record {
  named = All-keys-put (λ k. k ≢ []) key v es n h;
  distinct = Distinct-keys-put key v es d;
  bounded = rw (length-put key v es) b;
  positive = p;
}

has_key_of :
    (key : Text) (es : List (Text × Entry)) (e : Entry)
    → lookup key es ≡ some e
    → has_key key es ≡ true
unfolding has_key
has_key_of key es e h = rw (h, has_key)

-- A write under a key that is not empty keeps a well-formed cache so: it has a positive size and no
-- more entries than that, one for each key, and no empty key.
pub set-IsValid :
    (now : ℕ) (key : Text) (v : SearchResponse) (m : Memory)
    → key ≢ []
    → IsValid m
    → IsValid (set none now key v m).0
unfolding set
set-IsValid now key v m n h =
    elim (Bool-cases (not (has_key key m.entries) && leb m.max_items (length m.entries))) [
      | inr a ↦
          rw a (put-IsValid key _ m m.entries n h.positive h.named h.distinct (room a h.bounded))
      | inl a ↦
          let some_entries : 0 < length m.entries = full a h.positive in
          let (k, e, found, _, same) =
            evict_oldest-oldest m.entries h.named h.distinct some_entries in
          rw (a, same)
            (put-IsValid key _ m (remove k m.entries) n h.positive
              (All-keys-remove (λ y. y ≢ []) k m.entries h.named)
              (Distinct-keys-remove k m.entries h.distinct)
              (ground
                (arith, length-remove k m.entries (has_key_of k m.entries e found), h.bounded)))
    ]
  where
    room :
        (not (has_key key m.entries) && leb m.max_items (length m.entries)) ≡ false
        → length m.entries ≤ m.max_items
        → (if has_key key m.entries then length m.entries else length m.entries + 1) ≤ m.max_items
    room a b = ground arith

    full :
        (not (has_key key m.entries) && leb m.max_items (length m.entries)) ≡ true
        → 0 < m.max_items
        → 0 < length m.entries
    full a p = ground arith

pub lookup-remove_ne :
    (k other : Text) (es : List (Text × Entry))
    → k ≢ other
    → lookup other (remove k es) ≡ lookup other es
unfolding lookup remove
lookup-remove_ne k other [] h = refl
lookup-remove_ne k other ((j, e) ∷ es) h =
    ground (arith, text_eq→eq j k, text_eq_ne k other h, lookup-remove_ne k other es h)

-- What a write leaves of the other entries: all of them, or all but the one under `gone`.
pub data Cost (key : Text) (before after : Memory) : Type 0 where
  nothing :
      All
        (λ other. (other ≡ key) ⊎ (lookup other after.entries ≡ lookup other before.entries))
        (keys before.entries)
      → Cost key before after
  oldest :
      (gone : Text) (e : Entry)
      → lookup gone before.entries ≡ some e
      → NoneOlder e.stored_at before.entries
      → has_key key before.entries ≡ false
      → before.max_items ≤ length before.entries
      → All
          (λ other.
            (other ≡ gone)
            ⊎ (other ≡ key)
            ⊎ (lookup other after.entries ≡ lookup other before.entries))
          (keys before.entries)
      → Cost key before after

All-every : {P : Text → Type 0} → ((k : Text) → P k) → (ks : List Text) → All P ks
All-every f [] = tt
All-every f (k ∷ ks) = (f k, All-every f ks)

-- A write to a well-formed cache leaves every other entry as it was, or, where its key is new and the
-- cache is full, every other one but a single entry than which none is older.
pub set-others :
    (now : ℕ) (key : Text) (v : SearchResponse) (m : Memory)
    → IsValid m
    → Cost key m (set none now key v m).0
unfolding set
set-others now key v m h =
    elim (Bool-cases (not (has_key key m.entries) && leb m.max_items (length m.entries))) [
      | inr a ↦ Cost.nothing (All-every (λ other. rw a (kept m.entries other)) (keys m.entries))
      | inl a ↦
          let (k, x, found, aged, same) =
            evict_oldest-oldest m.entries h.named h.distinct (ground (arith, h.positive)) in
          Cost.oldest k x found aged (ground arith) (ground arith)
            (All-every (λ other. rw (a, same) (spared k other)) (keys m.entries))
    ]
  where
    new_entry : Entry
    new_entry = record { value = record v { stored_at = now }; stored_at = now }

    kept :
        (es : List (Text × Entry)) (other : Text)
        → (other ≡ key) ⊎ (lookup other (put key new_entry es) ≡ lookup other es)
    kept es other = elim (Bool-cases (text_eq other key)) [
      | inl b ↦ inl (text_eq→eq other key b)
      | inr b ↦ inr (lookup-put_ne key other new_entry es (λ q. cc (q, b, text_eq_refl key)))
    ]

    spared :
        (gone other : Text)
        → (other ≡ gone)
          ⊎ (other ≡ key)
          ⊎ (lookup other (put key new_entry (remove gone m.entries)) ≡ lookup other m.entries)
    spared gone other = elim (Bool-cases (text_eq other gone)) [
      | inl b ↦ inl (text_eq→eq other gone b)
      | inr b ↦ inr (elim (kept (remove gone m.entries) other) [
        | inl c ↦ inl c
        | inr c ↦
            inr (c ∙ lookup-remove_ne gone other m.entries (λ q. cc (q, b, text_eq_refl gone)))
      ])
    ]

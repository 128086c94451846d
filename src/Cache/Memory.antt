-- ===== src/Cache/Memory.antt =====
-- `websearch/internal/cache/memory.go`. The Go map is an association list with one entry for each
-- key; its order stands for the order in which `range` visits the map, which Go leaves open. A
-- response is a value, so `cloneResponse` copies nothing. `canceled` is `ctx.Err() != nil`.
use search_x.Domain.Errors.{plain, Error}
use search_x.Domain.Fallible.{ok, fail, Fallible}
use search_x.Prelude.Text.{codes, text_eq, Text}
use search_x.Prelude.{
  length, leb, ◌&&◌, not, true, ◌||◌, false, ◌==◌, ◌-◌, some, [], if◌then◌else◌, ◌∷◌, ltb, none,
  List, Option, Bool, ℕ,
}
use search_x.Domain.{SearchResponse}

pub record Entry : Type 0 where
  pub value : SearchResponse
  pub stored_at : ℕ

pub record Memory : Type 0 where
  pub entries : List (Text × Entry)
  pub max_items : ℕ
  pub fresh_ttl : ℕ
  pub stale_ttl : ℕ

-- `NewMemory`; a size or a TTL that is not positive is 0.
unfoldable pub new_memory : ℕ → ℕ → ℕ → Fallible Memory
new_memory max_items fresh_ttl stale_ttl =
    if max_items == 0
    then fail (plain (codes "cache max items must be positive"))
    else if fresh_ttl == 0 || leb stale_ttl fresh_ttl
    then fail (plain (codes "cache TTLs must satisfy 0 < fresh < stale"))
    else ok (record {
      entries = [];
      max_items = max_items;
      fresh_ttl = fresh_ttl;
      stale_ttl = stale_ttl;
    })

unfoldable pub lookup : Text → List (Text × Entry) → Option Entry
lookup key [] = none
lookup key ((k, e) ∷ es) = if text_eq k key then some e else lookup key es

unfoldable pub remove : Text → List (Text × Entry) → List (Text × Entry)
remove key [] = []
remove key ((k, e) ∷ es) = if text_eq k key then es else (k, e) ∷ remove key es

unfoldable pub put : Text → Entry → List (Text × Entry) → List (Text × Entry)
put key v [] = (key, v) ∷ []
put key v ((k, e) ∷ es) = if text_eq k key then (k, v) ∷ es else (k, e) ∷ put key v es

-- Whether the entry is older than `ttl`; an entry from the future has age 0.
unfoldable pub is_expired : ℕ → ℕ → Entry → Bool
is_expired now ttl e = ltb ttl (now - e.stored_at)

unfoldable pub get : Bool → ℕ → Text → ℕ → Memory → Option SearchResponse
unfolding lookup is_expired
get canceled now key ttl m = if canceled then none else elim (lookup key m.entries) [
  | none ↦ none
  | some e ↦
      if is_expired now ttl e then none else some (record (e.value) { stored_at = e.stored_at })
]

unfoldable pub get_fresh : Bool → ℕ → Text → Memory → Option SearchResponse
unfolding get
get_fresh canceled now key m = get canceled now key m.fresh_ttl m

unfoldable pub get_stale : Bool → ℕ → Text → Memory → Option SearchResponse
unfolding get
get_stale canceled now key m = get canceled now key m.stale_ttl m

-- The loop of `evictOldestLocked`; the empty key stands for "none yet".
unfoldable pub oldest_from : Text → ℕ → List (Text × Entry) → Text
oldest_from key at [] = key
oldest_from key at ((k, e) ∷ es) =
    let better = text_eq key [] || ltb e.stored_at at in
    oldest_from (if better then k else key) (if better then e.stored_at else at) es

unfoldable pub evict_oldest : List (Text × Entry) → List (Text × Entry)
unfolding oldest_from remove
evict_oldest es = let key = oldest_from [] 0 es in if text_eq key [] then es else remove key es

unfoldable pub has_key : Text → List (Text × Entry) → Bool
unfolding lookup
has_key key es = elim (lookup key es) [ none ↦ false | some e ↦ true ]

-- `Set`: a new key in a full cache costs the oldest entry.
unfoldable pub set : Option Error → ℕ → Text → SearchResponse → Memory → Memory × Option Error
unfolding put evict_oldest has_key
set (some e) now key value m = (m, some e)
set none now key value m =
    let full = not (has_key key m.entries) && leb m.max_items (length m.entries) in
    let kept = if full then evict_oldest m.entries else m.entries in
    (
      record m {
        entries =
            put key (record { value = record value { stored_at = now }; stored_at = now }) kept;
      },
      none,
    )

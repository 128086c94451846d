-- ===== src/Examples/Caching.antt =====
-- Caches of one entry.
use search_x.Cache.Refinement.{Write, get-newest, newest, write_all}
use search_x.Domain.Errors.{plain}
use search_x.Cache.Reads.{Cost, set-others, get-set, set-IsValid}
use search_x.Prelude.{◌+◌, List, ◌≤◌, refl, some, ◌≡◌, [], ◌∷◌, arith, false, none}
use search_x.Cache.Memory.{
  Entry, put, evict_oldest, oldest_from, remove, has_key, is_expired, Memory, lookup, set, get,
  get_fresh,
}
use search_x.Cache.Bounds.{IsValid}
use search_x.Prelude.Text.{text_eq, codes}
use search_x.Examples.Requests.{page}

abbrev one : Memory
one = record {
  entries = (codes "a", record { value = page; stored_at = 3 }) ∷ [];
  max_items = 1;
  fresh_ttl = 10;
  stale_ttl = 20;
}

one-IsValid : IsValid one
one-IsValid = record {
  named = (λ e. cc, tt);
  distinct = (tt, tt);
  bounded = ground arith;
  positive = ground arith;
}

set-IsValid_example : IsValid (set none 5 (codes "ab") page one).0
set-IsValid_example = set-IsValid 5 (codes "ab") page one (λ e. cc) one-IsValid

stands : lookup (codes "a") one.entries ≡ some (record { value = page; stored_at = 3 })
unfolding lookup text_eq
stands = refl

set-others_example : Cost (codes "ab") one (set none 5 (codes "ab") page one).0
set-others_example = set-others 5 (codes "ab") page one one-IsValid

get-set_example :
    get false 9 (codes "ab") 10 (set none 5 (codes "ab") page one).0
    ≡ some (record page { stored_at = 5 })
get-set_example = get-set 5 9 10 (codes "ab") page one (ground arith)

is_fresh : get_fresh false 9 (codes "a") one ≡ some (record page { stored_at = 3 })
unfolding get_fresh get lookup is_expired text_eq
is_fresh = refl

abbrev nothing : Memory
nothing = record { entries = []; max_items = 1; fresh_ttl = 10; stale_ttl = 20 }

-- The first write is evicted by the second, and the third is stopped.
abbrev writes : List Write
writes =
    record { key = codes "a"; value = page; at = 1; stopped = none }
    ∷ record { key = codes "ab"; value = page; at = 2; stopped = none }
    ∷ record { key = codes "ab"; value = page; at = 3; stopped = some (plain (codes "canceled")) }
    ∷ []

finds :
    get false 9 (codes "ab") 10 (write_all writes nothing) ≡ some (record page { stored_at = 2 })
unfolding get lookup is_expired text_eq write_all set put evict_oldest oldest_from remove has_key
finds = refl

get-newest_example :
    (e : Entry) × (newest (codes "ab") writes ≡ some e)
    × (record page { stored_at = 2 } ≡ record (e.value) { stored_at = e.stored_at })
    × (9 ≤ e.stored_at + 10)
get-newest_example =
    get-newest writes false 9 (codes "ab") 10 nothing (record page { stored_at = 2 }) refl
      (ground arith) ((λ e. cc), ((λ e. cc), ((λ e. cc), tt))) finds

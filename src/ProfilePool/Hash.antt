-- ===== src/ProfilePool/Hash.antt =====
-- `bucket` in `pool.go`: FNV-1a over the bytes of the request id.
use Prim.Native.Nat.{bit_xor}
use search_x.Prelude.{ℕ, ◌*◌, ◌%◌, ◌^◌, List, [], ◌∷◌, ◌≡◌, refl}
use search_x.Prelude.Text.{Text, codes, utf8}

fnv_from : ℕ → List ℕ → ℕ
fnv_from hash [] = hash
fnv_from hash (b ∷ bs) = fnv_from (bit_xor hash b * 16777619 % 2 ^ 32) bs

unfoldable pub sum32a : Text → ℕ
unfolding fnv_from
sum32a key = fnv_from 2166136261 (utf8 key)

unfoldable pub bucket : Text → ℕ
unfolding sum32a
bucket key = sum32a key % 100

-- FNV-1a of "a" is 0xe40c292c.
sum32a_a : sum32a (codes "a") ≡ 0xe40c292c
unfolding sum32a
sum32a_a = refl

-- ===== src/Prelude/Strings.antt =====
-- The functions of Go's packages `strings` and `unicode` that the program calls, on code points.
use Prim.Native.Nat.{ℕ, ◌+◌}
use mathlib.Core.Bool.{Bool, true, false, ◌&&◌, ◌||◌}
use mathlib.Core.List.{List, [], ◌∷◌, ◌++◌, map, reverse}
use search_x.Prelude.Tests.{leb, ltb, ◌==◌, if◌then◌else◌}
use search_x.Prelude.Text.{Text, text_eq, text_lt}

-- `unicode.IsSpace`
unfoldable pub is_space : ℕ → Bool
is_space c =
    (leb 9 c && leb c 13)
    || c == 0x20
    || c == 0x85
    || c == 0xA0
    || c == 0x1680
    || (leb 0x2000 c && leb c 0x200A)
    || c == 0x2028
    || c == 0x2029
    || c == 0x202F
    || c == 0x205F
    || c == 0x3000

unfoldable pub trim_left : Text → Text
unfolding is_space
trim_left [] = []
trim_left (c ∷ s) = elim (is_space c) [ true ↦ trim_left s | false ↦ c ∷ s ]

unfoldable pub trim_space : Text → Text
unfolding trim_left
trim_space s = reverse (trim_left (reverse (trim_left s)))

-- A word that is complete, if there is one, and the others.
unfoldable pub emit : Text → List Text → List Text
emit [] ws = ws
emit (c ∷ w) ws = reverse (c ∷ w) ∷ ws

-- The words of a text; `word` is the current one, backwards.
unfoldable pub fields_from : Text → Text → List Text
unfolding is_space emit
fields_from word [] = emit word []
fields_from word (c ∷ s) =
    let ended = emit word (fields_from [] s) in
    let longer = fields_from (c ∷ word) s in if is_space c then ended else longer

unfoldable pub fields : Text → List Text
unfolding fields_from
fields s = fields_from [] s

unfoldable pub join : Text → List Text → Text
join sep [] = []
join sep (w ∷ []) = w
join sep (w ∷ v ∷ ws) = w ++ (sep ++ join sep (v ∷ ws))

-- `strings.Split` by a separator of one character; `part` is the current part, backwards.
unfoldable pub split_from : ℕ → Text → Text → List Text
split_from sep part [] = reverse part ∷ []
split_from sep part (c ∷ s) =
    let ended = reverse part ∷ split_from sep [] s in
    let longer = split_from sep (c ∷ part) s in if c == sep then ended else longer

unfoldable pub split : ℕ → Text → List Text
unfolding split_from
split sep s = split_from sep [] s

unfoldable pub has_prefix : Text → Text → Bool
has_prefix s [] = true
has_prefix [] (p ∷ ps) = false
has_prefix (c ∷ s) (p ∷ ps) = c == p && has_prefix s ps

unfoldable pub has_suffix : Text → Text → Bool
unfolding has_prefix
has_suffix s t = has_prefix (reverse s) (reverse t)

-- `TrimPrefix` and `TrimSuffix` of one character.
unfoldable pub trim_prefix : ℕ → Text → Text
trim_prefix p [] = []
trim_prefix p (c ∷ s) = if c == p then s else c ∷ s

unfoldable pub trim_suffix : ℕ → Text → Text
unfolding trim_prefix
trim_suffix p s = reverse (trim_prefix p (reverse s))

unfoldable pub one_of : ℕ → List ℕ → Bool
one_of c [] = false
one_of c (d ∷ ds) = c == d || one_of c ds

unfoldable pub contains_any : Text → List ℕ → Bool
contains_any [] cs = false
contains_any (c ∷ s) cs = one_of c cs || contains_any s cs

unfoldable pub replace_all : ℕ → Text → Text → Text
replace_all old new [] = []
replace_all old new (c ∷ s) = (if c == old then new else c ∷ []) ++ replace_all old new s

-- `strings.ToLower`; the lower case of what is not ASCII is an argument.
unfoldable pub lower_char : (ℕ → ℕ) → ℕ → ℕ
lower_char unicode c =
    if ltb c 0x80 then if leb b'A' c && leb c b'Z' then c + 32 else c else unicode c

unfoldable pub to_lower : (ℕ → ℕ) → Text → Text
unfolding lower_char
to_lower unicode = map (lower_char unicode)

unfoldable pub is_member : Text → List Text → Bool
is_member v [] = false
is_member v (w ∷ ws) = text_eq w v || is_member v ws

unfoldable pub insert_sorted : Text → List Text → List Text
insert_sorted v [] = v ∷ []
insert_sorted v (w ∷ ws) = if text_lt w v then w ∷ insert_sorted v ws else v ∷ w ∷ ws

-- `sort.Strings`, whose result is the one sorted order of the values.
unfoldable pub sort_strings : List Text → List Text
unfolding insert_sorted
sort_strings [] = []
sort_strings (v ∷ vs) = insert_sorted v (sort_strings vs)

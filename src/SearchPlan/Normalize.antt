-- ===== src/SearchPlan/Normalize.antt =====
-- `Normalize` and its helpers in `plan.go`.
use search_x.Domain.Errors.{plain}
use search_x.Prelude.Text.{codes, text_eq, Text}
use search_x.Prelude.{
  reverse, ◌-◌, ◌+◌, [], not, ◌||◌, ◌==◌, ltb, ◌*◌, ◌++◌, ◌&&◌, true, false, length, leb, Bool,
  if◌then◌else◌, ◌∷◌, List, ℕ,
}
use search_x.Prelude.Strings.{
  join, trim_suffix, trim_space, trim_prefix, contains_any, to_lower, sort_strings, split, fields,
  is_member,
}
use search_x.Domain.Fallible.{◌>>=◌, Fallible, ok, fail, wrapped}
use search_x.Domain.{SearchRequest}

abbrev pub max_filter_values : ℕ
max_filter_values = 20

is_digit : ℕ → Bool
is_digit c = leb b'0' c && leb c b'9'

-- `[a-z0-9]`
unfoldable pub is_alnum : ℕ → Bool
unfolding is_digit
is_alnum c = (leb b'a' c && leb c b'z') || is_digit c

unfoldable pub every : (ℕ → Bool) → Text → Bool
every p [] = true
every p (c ∷ s) = p c && every p s

starts_alnum : Text → Bool
unfolding is_alnum
starts_alnum [] = false
starts_alnum (c ∷ s) = is_alnum c

-- `domainLabelPattern`
unfoldable pub is_label : Text → Bool
unfolding starts_alnum is_alnum every
is_label s =
    starts_alnum s
    && starts_alnum (reverse s)
    && every (λ c. is_alnum c || c == b'-') s
    && leb (length s) 63

-- `fileTypePattern`
unfoldable pub is_file_type : Text → Bool
unfolding is_alnum every
is_file_type s = leb 1 (length s) && leb (length s) 10 && every is_alnum s

unfoldable pub every_label : List Text → Bool
unfolding is_label
every_label [] = true
every_label (l ∷ ls) = is_label l && every_label ls

decimal_from : ℕ → Text → ℕ
decimal_from n [] = n
decimal_from n (c ∷ s) = decimal_from (n * 10 + (c - b'0')) s

-- One part of a dotted address: no leading zero, at most 255.
is_octet : Text → Bool
unfolding is_digit every decimal_from
is_octet [] = false
is_octet (c ∷ []) = is_digit c
is_octet (c ∷ d ∷ s) =
    every is_digit (c ∷ d ∷ s)
    && not (c == b'0')
    && leb (length s) 1
    && leb (decimal_from 0 (c ∷ d ∷ s)) 255

every_octet : List Text → Bool
unfolding is_octet
every_octet [] = true
every_octet (p ∷ ps) = is_octet p && every_octet ps

-- `net.ParseIP(value) != nil` for a value without a colon, so for a dotted address.
unfoldable pub is_ipv4 : Text → Bool
unfolding every_octet split
is_ipv4 s = let parts = split b'.' s in length parts == 4 && every_octet parts

-- A value that was seen before is dropped.
unfoldable pub add_new : Text → List Text → List Text
unfolding is_member
add_new v done = if is_member v done then done else done ++ v ∷ []

module _ (unicode : ℕ → ℕ) where
  unfoldable pub domain_value : Text → Text
  unfolding to_lower trim_space trim_suffix
  domain_value raw = trim_suffix b'.' (to_lower unicode (trim_space raw))

  unfoldable pub check_domain : Text → Fallible Text
  unfolding domain_value contains_any is_ipv4 split every_label
  check_domain raw =
      let value = domain_value raw in
      if text_eq value [] || contains_any value (codes "/:@?#") || is_ipv4 value
      then fail (plain (codes "not a valid domain"))
      else if ltb (length (split b'.' value)) 2
      then fail (plain (codes "must contain a public suffix"))
      else if not (every_label (split b'.' value))
      then fail (plain (codes "not a valid domain"))
      else ok value

  unfoldable pub check_file_type : Text → Fallible Text
  unfolding to_lower trim_prefix trim_space is_file_type
  check_file_type raw =
      let value = to_lower unicode (trim_prefix b'.' (trim_space raw)) in
      if is_file_type value then ok value else fail (plain (codes "invalid file type"))

unfoldable pub check_text : Text → Fallible Text
unfolding fields join
check_text raw =
    let value = join (codes " ") (fields raw) in
    if text_eq value [] || ltb 100 (length value)
    then fail (plain (codes "values must contain between 1 and 100 characters"))
    else ok value

-- The loop that the three kinds of values share; `done` are the values so far.
unfoldable pub collect : (Text → Fallible Text) → List Text → List Text → Fallible (List Text)
unfolding add_new
collect check done [] = ok done
collect check done (raw ∷ raws) = do value ← check raw; collect check (add_new value done) raws

unfoldable pub normalize_values :
    ℕ → (Text → Fallible Text) → (List Text → List Text) → List Text → Fallible (List Text)
unfolding collect
normalize_values limit check arrange values =
    if ltb limit (length values)
    then fail (plain (codes "must contain at most that many values"))
    else do result ← collect check [] values; ok (arrange result)

module _ (unicode : ℕ → ℕ) where
  unfoldable pub normalize_domains : List Text → Fallible (List Text)
  unfolding normalize_values check_domain sort_strings
  normalize_domains = normalize_values max_filter_values (check_domain unicode) sort_strings

  unfoldable pub normalize_file_types : List Text → Fallible (List Text)
  unfolding normalize_values check_file_type sort_strings
  normalize_file_types = normalize_values 10 (check_file_type unicode) sort_strings

unfoldable pub normalize_text_values : List Text → Fallible (List Text)
unfolding normalize_values check_text
normalize_text_values = normalize_values max_filter_values check_text (λ vs. vs)

-- The first included domain that is excluded too.
unfoldable pub overlaps : List Text → List Text → Bool
unfolding is_member
overlaps excluded [] = false
overlaps excluded (v ∷ vs) = is_member v excluded || overlaps excluded vs

unfoldable pub disjoint : List Text → List Text → Fallible (Unit {0})
unfolding overlaps
disjoint included excluded =
    if overlaps excluded included
    then fail (plain (codes "domain appears in both include_domains and exclude_domains"))
    else ok tt

module _ (unicode : ℕ → ℕ) where
  unfoldable pub normalize : SearchRequest → Fallible SearchRequest
  unfolding normalize_domains disjoint normalize_text_values normalize_file_types
  normalize r = do
    included ←
        wrapped (codes "include_domains") (normalize_domains unicode r.filters.include_domains)
    excluded ←
        wrapped (codes "exclude_domains") (normalize_domains unicode r.filters.exclude_domains)
    _ ← disjoint included excluded
    exact ← normalize_text_values r.query_options.exact_phrases
    any ← normalize_text_values r.query_options.any_terms
    exclude ← normalize_text_values r.query_options.exclude_terms
    title ← normalize_text_values r.query_options.title_terms
    file_types ← normalize_file_types unicode r.query_options.file_types
    ok (record r {
      filters = record { include_domains = included; exclude_domains = excluded };
      query_options = record {
        exact_phrases = exact;
        any_terms = any;
        exclude_terms = exclude;
        title_terms = title;
        file_types = file_types;
      };
    })

-- ===== src/WebFetch/Normalized.antt =====
-- The limits of the request that `Normalize` of `domain/read.go` returns.
use search_x.Prelude.Strings.{trim_space}
use search_x.Prelude.Int.{negsuc, pos, is_zero, ℤ}
use search_x.WebFetch.Failures.{ok}
use search_x.WebFetch.Types.{ReadRequest}
use search_x.Prelude.{
  ltb, Bool-cases, ◌||◌, if◌then◌else◌, arith, inr, inl, false, true, refl, [], ◌≡◌, ◌≤◌,
}
use search_x.Prelude.Text.{byte_length, text_eq}
use search_x.WebFetch.Requests.{
  is_supported, max_url_length, default_max_chars, default_format, in_chars, normalize_read,
  at_least_zero,
}

-- The limits of a normalized request.
pub record IsNormalized (request n : ReadRequest) : Type 0 where
  pub at_least : 1000 ≤ at_least_zero n.max_chars
  pub at_most : at_least_zero n.max_chars ≤ 100000
  pub as_asked : is_zero request.max_chars ≡ false → n.max_chars ≡ request.max_chars
  pub same_id : n.request_id ≡ request.request_id
  pub same_debug : n.debug ≡ request.debug
  pub debug_refreshes : n.debug ≡ true → n.refresh ≡ true

in_chars_bounds :
    (m : ℤ) → in_chars m ≡ true → (1000 ≤ at_least_zero m) × (at_least_zero m ≤ 100000)
in_chars_bounds (pos n) h = ground (arith, h)
in_chars_bounds (negsuc n) h = absurd (cc)

abbrev chars_of : ReadRequest → ℤ
chars_of request = if is_zero request.max_chars then default_max_chars else request.max_chars

-- The request that `Normalize` returns, and the last of its tests.
normalize_read-eq :
    (request n : ReadRequest)
    → normalize_read request ≡ ok n
    → (in_chars (chars_of request) ≡ true)
      × (n ≡ record request {
        url = trim_space request.url;
        format = default_format request.format;
        max_chars = chars_of request;
        refresh = request.refresh || request.debug;
      })
unfolding normalize_read
normalize_read-eq request n h = elim (Bool-cases (text_eq (trim_space request.url) [])) [
  | inl a ↦ absurd (cc (rw a at h))
  | inr a ↦ elim (Bool-cases (ltb max_url_length (byte_length (trim_space request.url)))) [
    | inl b ↦ absurd (cc (rw (a, b) at h))
    | inr b ↦ elim (Bool-cases (is_supported (default_format request.format))) [
      | inr c ↦ absurd (cc (rw (a, b, c) at h))
      | inl c ↦ elim (Bool-cases (in_chars (chars_of request))) [
        | inr d ↦ absurd (cc (rw (a, b, c, d) at h))
        | inl d ↦ (d, cc (rw (a, b, c, d) at h))
      ]
    ]
  ]
]

pub normalize_read-IsNormalized :
    (request n : ReadRequest) → normalize_read request ≡ ok n → IsNormalized request n
normalize_read-IsNormalized request n h =
    let (chars, e) = normalize_read-eq request n h in
    let (low, high) = in_chars_bounds (chars_of request) chars in
    rw e (record {
      at_least = low;
      at_most = high;
      as_asked = λ z. rw z refl;
      same_id = refl;
      same_debug = refl;
      debug_refreshes = λ d. ground (arith, d);
    })

-- ===== src/WebFetch/Requests.antt =====
-- `ReadRequest.Normalize` of `domain/read.go`, and `TruncateContent` of `fetch/converter/text.go`.
use search_x.Prelude.{
  take, suc, not, ◌&&◌, ℕ, Bool, true, false, [], ◌∷◌, Option, none, some, length, leb, ltb,
  if◌then◌else◌, ◌||◌,
}
use search_x.Prelude.Int.{ℤ, pos, negsuc, is_zero}
use search_x.Prelude.Strings.{has_prefix, trim_space}
use search_x.Prelude.Text.{byte_length, Text, text_eq, codes}
use search_x.WebFetch.Failures.{Outcome, ok, fail, plain}
use search_x.WebFetch.Types.{ReadRequest, OutputFormat}

-- `DefaultReadMaxChars`, `MinReadMaxChars`, `MaxReadMaxChars` and `MaxReadURLLength`
abbrev pub default_max_chars : ℤ
default_max_chars = pos 30000

abbrev pub max_url_length : ℕ
max_url_length = 2048

unfoldable pub default_format : OutputFormat → OutputFormat
default_format OutputFormat.unset = OutputFormat.markdown
default_format f = f

abbrev pub is_supported : OutputFormat → Bool
is_supported OutputFormat.markdown = true
is_supported OutputFormat.text = true
is_supported _ = false

abbrev pub in_chars : ℤ → Bool
in_chars (pos n) = leb 1000 n && leb n 100000
in_chars (negsuc n) = false

unfoldable pub normalize_read : ReadRequest → Outcome ReadRequest
unfolding trim_space default_format
normalize_read request =
    let url = trim_space request.url in
    let format = default_format request.format in
    let max_chars = if is_zero request.max_chars then default_max_chars else request.max_chars in
    if text_eq url []
    then fail (plain (codes "url is required"))
    else if ltb max_url_length (byte_length url)
    then fail (plain (codes "url exceeds the length limit"))
    else if not (is_supported format)
    then fail (plain (codes "unsupported format"))
    else if not (in_chars max_chars)
    then fail (plain (codes "max_chars is out of range"))
    else ok (record request {
      url = url;
      format = format;
      max_chars = max_chars;
      refresh = request.refresh || request.debug;
    })

-- `strings.LastIndex(text, "\n\n")`, where there is one.
unfoldable pub last_break : Text → Option ℕ
last_break [] = none
last_break (c ∷ s) =
    let here = if has_prefix (c ∷ s) (10 ∷ 10 ∷ []) then some 0 else none in
    elim (last_break s) [ some i ↦ some (suc i) | none ↦ here ]

-- What stands in front of the last paragraph break, unless that is at the very start.
unfoldable pub to_paragraph : Text → Text
unfolding last_break take
to_paragraph s = elim (last_break s) [ none ↦ s | some i ↦ if ltb 0 i then take i s else s ]

abbrev pub at_least_zero : ℤ → ℕ
at_least_zero (pos n) = n
at_least_zero (negsuc n) = 0

unfoldable pub truncate_content : Text → ℤ → Text × Bool
unfolding to_paragraph take trim_space
truncate_content content max_runes =
    let most = at_least_zero max_runes in
    if leb (length content) most
    then (content, false)
    else (trim_space (to_paragraph (take most content)), true)

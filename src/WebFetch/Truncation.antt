-- ===== src/WebFetch/Truncation.antt =====
-- A text that `TruncateContent` shortened is within the limit.
use search_x.Prelude.Int.{ℤ}
use search_x.Prelude.{
  refl, length-take, length-append, take, length-take_le, [], ap, inr, leb→le, inl, leb, ◌∷◌,
  Option-cases, arith, Bool-cases, ◌≡◌, reverse, ◌≤◌, length,
}
use search_x.Prelude.Text.{Text}
use mathlib.Core.List.{reverse-append}
use search_x.WebFetch.Requests.{truncate_content, to_paragraph, last_break, at_least_zero}
use search_x.Prelude.Strings.{trim_left, trim_space}

length-reverse : (s : Text) → length (reverse s) ≡ length s
length-reverse [] = refl
length-reverse (c ∷ s) = omega (
  arith,
  ap length (reverse-append (c ∷ []) s),
  length-append (reverse s) (c ∷ []),
  length-reverse s,
)

length-trim_left : (s : Text) → length (trim_left s) ≤ length s
unfolding trim_left
length-trim_left [] = omega arith
length-trim_left (c ∷ s) = ground (arith, length-trim_left s)

length-trim_space : (s : Text) → length (trim_space s) ≤ length s
unfolding trim_space
length-trim_space s = omega (
  arith,
  length-reverse (trim_left (reverse (trim_left s))),
  length-trim_left s,
  length-trim_left (reverse (trim_left s)),
  length-reverse (trim_left s),
)

length-to_paragraph : (s : Text) → length (to_paragraph s) ≤ length s
unfolding to_paragraph
length-to_paragraph s = elim (Option-cases (last_break s)) [
  | inl a ↦ rw (to_paragraph, a) (omega arith)
  | inr (i, a) ↦ rw (to_paragraph, a) (ground (arith, length-take_le i s))
]

pub truncate_content_le : (s : Text) (n : ℤ) → length (truncate_content s n).0 ≤ at_least_zero n
unfolding truncate_content
truncate_content_le s n = elim (Bool-cases (leb (length s) (at_least_zero n))) [
  | inl a ↦ rw (truncate_content, a) (leb→le _ _ a)
  | inr a ↦
      rw (truncate_content, a)
        (omega (
          arith,
          length-trim_space (to_paragraph (take (at_least_zero n) s)),
          length-to_paragraph (take (at_least_zero n) s),
          length-take (at_least_zero n) s,
        ))
]

-- ===== src/SearchPlan/Values.antt =====
-- The values that `normalizeTextValues` in `plan.go` returns.
use mathlib.Core.Path.{subst}
use search_x.Prelude.Strings.{is_member, fields, join}
use search_x.Domain.Fallible.{Fallible, ok, fail, >>=-eq-ok}
use search_x.SearchPlan.Normalize.{
  collect, add_new, check_text, normalize_values, normalize_text_values,
}
use search_x.SearchPlan.Guarantees.{is_member-All}
use search_x.Prelude.Text.{text_eq_refl, Text, codes, text_eq}
use search_x.Prelude.{
  false, length-append, Distinct-snoc, All-append, ◌∷◌, sym, arith, inr, ◌||◌, inl, ltb, ap, ◌≤◌,
  Distinct, All, length, [], Bool-cases, List, ◌≡◌, ℕ, ◌≢◌, ◌+◌,
}

-- Not empty, and at most 100 characters.
abbrev pub IsShort : Text → Type 0
IsShort v = (v ≢ []) × (length v ≤ 100)

text_of : Text → Fallible Text → Text
text_of d (ok v) = v
text_of d (fail e) = d

texts_of : List Text → Fallible (List Text) → List Text
texts_of d (ok vs) = vs
texts_of d (fail e) = d

check_text_lem : (raw v : Text) → check_text raw ≡ ok v → IsShort v
unfolding check_text text_of
check_text_lem raw v h =
    let value = join (codes " ") (fields raw) in
    elim (Bool-cases (text_eq value [] || ltb 100 (length value))) [
      | inl a ↦ absurd (cc (rw a at h))
      | inr a ↦
          let full : text_eq value [] ≡ false = ground (arith, a) in
          subst IsShort (ap (text_of v) (rw a at h))
            (λ e. cc (full, e, text_eq_refl []), ground (arith, a))
    ]

-- Distinct short values, no more than `n`.
record AreNormal (n : ℕ) (vs : List Text) : Type 0 where
  short : All IsShort vs
  distinct : Distinct vs
  bounded : length vs ≤ n

add_new-AreNormal :
    (v : Text) (n : ℕ) (done : List Text)
    → IsShort v
    → AreNormal n done
    → AreNormal (n + 1) (add_new v done)
unfolding add_new
add_new-AreNormal v n done s h = elim (Bool-cases (is_member v done)) [
  | inl a ↦
      rw a (record { short = h.short; distinct = h.distinct; bounded = omega (arith, h.bounded) })
  | inr a ↦ rw a (record {
    short = All-append IsShort done _ h.short (s, tt);
    distinct = Distinct-snoc done v (is_member-All v done a) h.distinct;
    bounded = omega (arith, length-append done (v ∷ []), h.bounded);
  })
]

collect-AreNormal :
    (n : ℕ) (done raws out : List Text)
    → AreNormal n done
    → collect check_text done raws ≡ ok out
    → AreNormal (n + length raws) out
unfolding collect texts_of
collect-AreNormal n done [] out h k =
    subst (AreNormal (n + 0)) (ap (texts_of out) k)
      (record { short = h.short; distinct = h.distinct; bounded = omega (arith, h.bounded) })
collect-AreNormal n done (raw ∷ raws) out h k =
    let (v, g, a) = >>=-eq-ok (λ x. collect check_text (add_new x done) raws) (check_text raw) k in
    let r =
      collect-AreNormal (n + 1) (add_new v done) raws out
        (add_new-AreNormal v n done (check_text_lem raw v a) h) g in
    record { short = r.short; distinct = r.distinct; bounded = omega (arith, r.bounded) }

-- The values that `normalizeTextValues` accepts are distinct, not empty and of at most 100
-- characters each, and no more than were given, which were at most 20.
pub normalize_text_values_lem :
    (raws out : List Text)
    → normalize_text_values raws ≡ ok out
    → All IsShort out × Distinct out × (length out ≤ length raws) × (length raws ≤ 20)
unfolding normalize_text_values normalize_values texts_of
normalize_text_values_lem raws out h = elim (Bool-cases (ltb 20 (length raws))) [
  | inl a ↦ absurd (cc (rw a at h))
  | inr a ↦
      let (vs, g, k) = >>=-eq-ok (λ x. ok x) (collect check_text [] raws) (rw a at h) in
      let r =
        collect-AreNormal 0 [] raws vs (record { short = tt; distinct = tt; bounded = omega arith })
          k in
      let e : vs ≡ out = ap (texts_of out) g in
      rw (sym e) (r.short, r.distinct, omega (arith, r.bounded), ground arith)
]

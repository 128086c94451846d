-- ===== src/SearchPlan/Guarantees.antt =====
-- The results that `Finalize` in `plan.go` returns.
use search_x.Prelude.Int.{pos, leb_int, ℤ}
use search_x.SearchPlan.Finalize.{finalize, finalize_from, domain_allowed, accept}
use search_x.Prelude.Strings.{is_member}
use search_x.Prelude.Text.{text_eq_refl, Text}
use search_x.Domain.{SearchRequest, SearchFilters, SearchResult}
use search_x.Prelude.{
  Bool-cases, inr, inl, Distinct, Option-cases, Distinct-snoc, true, All-append, arith, ◌+◌, ◌++◌,
  ◌≢◌, suc, some, All, length, false, ◌∷◌, map, ◌≡◌, Option, List, [], ℕ, refl,
}
use mathlib.Core.List.{map-append}

abbrev pub urls : List SearchResult → List Text
urls = map (λ r. r.canonical_url)

-- Ranks count from `n` on.
abbrev pub IsRanked : ℕ → List SearchResult → Type 0
IsRanked n [] = Unit
IsRanked n (r ∷ rs) = (r.rank ≡ n) × IsRanked (suc n) rs

-- A result as the provider gave it.
abbrev pub as_given : SearchResult → SearchResult
as_given r = record r { canonical_url = []; domain = []; rank = 0 }

pub is_member-All : (v : Text) (ws : List Text) → is_member v ws ≡ false → All (λ w. v ≢ w) ws
unfolding is_member
is_member-All v [] h = tt
is_member-All v (w ∷ ws) h =
    (λ e. ground (arith, e, text_eq_refl v), is_member-All v ws (ground arith))

IsRanked-snoc :
    (n : ℕ) (rs : List SearchResult) (r : SearchResult)
    → IsRanked n rs
    → r.rank ≡ length rs + n
    → IsRanked n (rs ++ r ∷ [])
IsRanked-snoc n [] r h k = (omega arith, tt)
IsRanked-snoc n (q ∷ rs) r h k = (h.0, IsRanked-snoc (suc n) rs r h.1 (omega arith))

module _ (canonicalize : Text → Option (Text × Text)) (f : SearchFilters) where
  -- Its URL is canonical, and its domain passes the filters.
  pub record IsScreened (r : SearchResult) : Type 0 where
    pub canonical : canonicalize r.url ≡ some (r.canonical_url, r.domain)
    pub allowed : domain_allowed r.domain f ≡ true

  pub record IsFinal (rs : List SearchResult) : Type 0 where
    pub screened : All IsScreened rs
    pub ranked : IsRanked 1 rs
    pub distinct : Distinct (urls rs)

  ranked : SearchResult → Text → Text → List SearchResult → SearchResult
  ranked r url domain done = record r {
    canonical_url = url;
    domain = domain;
    rank = length done + 1;
  }

  accept_cases :
      (seen : List Text) (r : SearchResult) (url domain : Text)
      → accept canonicalize f seen r ≡ some (url, domain)
      → (canonicalize r.url ≡ some (url, domain))
        × (domain_allowed domain f ≡ true)
        × (is_member url seen ≡ false)
  unfolding accept
  accept_cases seen r url domain h = elim (Option-cases (canonicalize r.url)) [
    | inl e ↦ absurd (ground arith)
    | inr ((u, d), e) ↦ ground arith
  ]

  IsFinal-snoc :
      (done : List SearchResult) (r : SearchResult) (url domain : Text)
      → accept canonicalize f (urls done) r ≡ some (url, domain)
      → IsFinal done
      → IsFinal
          (done ++ record r { canonical_url = url; domain = domain; rank = length done + 1 } ∷ [])
  IsFinal-snoc done r url domain h k =
      let (a, b, c) = accept_cases (urls done) r url domain h in
      record {
        screened =
            All-append IsScreened done _ k.screened (record { canonical = a; allowed = b }, tt);
        ranked = IsRanked-snoc 1 done _ k.ranked refl;
        distinct =
            rw map-append
              (Distinct-snoc (urls done) url (is_member-All url (urls done) c) k.distinct);
      }

  finalize_from-IsFinal :
      (limit : ℤ) (seen : List Text) (done rs : List SearchResult)
      → seen ≡ urls done
      → IsFinal done
      → IsFinal (finalize_from canonicalize f limit seen done rs)
  unfolding finalize_from
  finalize_from-IsFinal limit seen done [] e h = h
  finalize_from-IsFinal limit seen done (r ∷ rs) e h =
      elim (Option-cases (accept canonicalize f seen r)) [
        | inl a ↦ rw (a, finalize_from) (finalize_from-IsFinal limit seen done rs e h)
        | inr ((url, domain), a) ↦
            let r' : SearchResult = record r {
              canonical_url = url;
              domain = domain;
              rank = length done + 1;
            } in
            let h' = IsFinal-snoc done r url domain (rw e at a) h in
            elim (Bool-cases (leb_int limit (pos (length (done ++ r' ∷ []))))) [
              | inl b ↦ rw (a, finalize_from, b) h'
              | inr b ↦
                  rw (a, finalize_from, b)
                    (finalize_from-IsFinal limit (seen ++ url ∷ []) (done ++ r' ∷ []) rs
                      (rw (map-append, e)) h')
            ]
      ]

-- Every result of `Finalize` has its canonical URL and a domain that the filters allow; the ranks
-- count from 1 without a gap, and no canonical URL stands twice.
pub finalize-IsFinal :
    (canonicalize : Text → Option (Text × Text)) (q : SearchRequest) (rs : List SearchResult)
    → IsFinal canonicalize q.filters (finalize canonicalize q rs)
unfolding finalize
finalize-IsFinal canonicalize q rs =
    finalize_from-IsFinal canonicalize q.filters q.limit [] [] rs refl
      (record { screened = tt; ranked = tt; distinct = tt })

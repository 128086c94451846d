-- ===== src/SearchPlan/Coverage.antt =====
-- Which of the given results `Finalize` in `plan.go` returns.
use mathlib.Core.Option.{some-injective}
use search_x.SearchPlan.Guarantees.{urls, as_given}
use search_x.SearchPlan.Finalize.{domain_allowed, finalize, screen, accept, finalize_from}
use search_x.Prelude.Strings.{is_member}
use search_x.Prelude.Text.{text_eq_refl, Text}
use search_x.Domain.{SearchRequest, SearchFilters, SearchResult}
use search_x.Prelude.{
  zero, suc, get_elem?, Bool-cases, length-append, ◌⊎◌, inr, false, ◌<◌, ◌+◌, inl, some,
  Option-cases, arith, ◌≤◌, [], true, none, ℕ, map, ◌∷◌, ◌≡◌, ◌++◌, length, Option, List, refl,
}
use search_x.Prelude.Int.{ℤ, pos, leb_int}
use mathlib.Core.List.{
  append_assoc, nil-sublist, sublist-cons_self, map-append, Sublist, append-nil,
}
use mathlib.Core.List.Sublist

is_member-append_left :
    (v : Text) (ws xs : List Text) → is_member v ws ≡ true → is_member v (ws ++ xs) ≡ true
unfolding is_member
is_member-append_left v [] xs h = cc
is_member-append_left v (w ∷ ws) xs h = ground (arith, is_member-append_left v ws xs)

is_member-snoc : (v : Text) (ws : List Text) → is_member v (ws ++ v ∷ []) ≡ true
unfolding is_member
is_member-snoc v [] = ground (arith, text_eq_refl v)
is_member-snoc v (w ∷ ws) = ground (arith, is_member-snoc v ws)

module _ (canonicalize : Text → Option (Text × Text)) (f : SearchFilters) where
  -- The three ways of one round of the loop.
  data Round (limit : ℤ) (seen : List Text) (done : List SearchResult) (r : SearchResult)
      (rs out : List SearchResult) : Type 0 where
    skipped :
        accept canonicalize f seen r ≡ none
        → out ≡ finalize_from canonicalize f limit seen done rs
        → Round limit seen done r rs out
    last :
        (url domain : Text)
        → accept canonicalize f seen r ≡ some (url, domain)
        → leb_int limit (pos (length done + 1)) ≡ true
        → out
          ≡ done ++ record r { canonical_url = url; domain = domain; rank = length done + 1 } ∷ []
        → Round limit seen done r rs out
    taken :
        (url domain : Text)
        → accept canonicalize f seen r ≡ some (url, domain)
        → leb_int limit (pos (length done + 1)) ≡ false
        → out
          ≡ finalize_from canonicalize f limit
              (seen ++ url ∷ [])
              (done
                ++ record r { canonical_url = url; domain = domain; rank = length done + 1 } ∷ [])
              rs
        → Round limit seen done r rs out

  length-snoc :
      (done : List SearchResult) (r : SearchResult) → length (done ++ r ∷ []) ≡ length done + 1
  length-snoc done r = omega (arith, length-append done (r ∷ []))

  round :
      (limit : ℤ) (seen : List Text) (done : List SearchResult) (r : SearchResult)
      (rs : List SearchResult)
      → Round limit seen done r rs (finalize_from canonicalize f limit seen done (r ∷ rs))
  unfolding finalize_from
  round limit seen done r rs = elim (Option-cases (accept canonicalize f seen r)) [
    | inl a ↦ Round.skipped a (rw (a, finalize_from))
    | inr ((url, domain), a) ↦
        let r' : SearchResult = record r {
          canonical_url = url;
          domain = domain;
          rank = length done + 1;
        } in
        elim (Bool-cases (leb_int limit (pos (length done + 1)))) [
          | inl b ↦ Round.last url domain a b (rw (a, finalize_from, length-snoc done r', b))
          | inr b ↦ Round.taken url domain a b (rw (a, finalize_from, length-snoc done r', b))
        ]
  ]

  finalize_from-le :
      (n : ℕ) (seen : List Text) (done rs : List SearchResult)
      → length done < n
      → length (finalize_from canonicalize f (pos n) seen done rs) ≤ n
  unfolding finalize_from
  finalize_from-le n seen done [] h = omega arith
  finalize_from-le n seen done (r ∷ rs) h = elim (round (pos n) seen done r rs) [
    | Round.skipped a e ↦ rw e (finalize_from-le n seen done rs h)
    | Round.last url domain a b e ↦ rw e (omega (arith, length-snoc done _))
    | Round.taken url domain a b e ↦ rw e (
        finalize_from-le n (seen ++ url ∷ []) (done ++ _ ∷ []) rs (
          ground (
            arith,
            length-snoc done
                (record r { canonical_url = url; domain = domain; rank = length done + 1 }),
          )))
  ]

  finalize_from-sublist :
      (limit : ℤ) (seen : List Text) (done rs : List SearchResult)
      → Sublist
          (map as_given (finalize_from canonicalize f limit seen done rs))
          (map as_given done ++ map as_given rs)
  unfolding finalize_from
  finalize_from-sublist limit seen done [] = rw append-nil (Sublist.refl _)
  finalize_from-sublist limit seen done (r ∷ rs) = elim (round limit seen done r rs) [
    | Round.skipped a e ↦ rw e (
        Sublist.trans (finalize_from-sublist limit seen done rs)
          (Sublist.append (Sublist.refl (map as_given done)) (sublist-cons_self _ _)))
    | Round.last url domain a b e ↦
        rw (e, map-append)
          (Sublist.append (Sublist.refl (map as_given done))
            (Sublist.cons-cons (as_given r) (nil-sublist (map as_given rs))))
    | Round.taken url domain a b e ↦ rw e (
        Sublist.trans (finalize_from-sublist limit (seen ++ url ∷ []) (done ++ _ ∷ []) rs)
          (rw (map-append, append_assoc) (Sublist.refl _)))
  ]

  -- What was returned so far stays.
  finalize_from-keeps :
      (limit : ℤ) (v : Text) (seen : List Text) (done rs : List SearchResult)
      → is_member v (urls done) ≡ true
      → is_member v (urls (finalize_from canonicalize f limit seen done rs)) ≡ true
  unfolding finalize_from
  finalize_from-keeps limit v seen done [] h = h
  finalize_from-keeps limit v seen done (r ∷ rs) h = elim (round limit seen done r rs) [
    | Round.skipped a e ↦ rw e (finalize_from-keeps limit v seen done rs h)
    | Round.last url domain a b e ↦
        rw (e, map-append) (is_member-append_left v (urls done) (url ∷ []) h)
    | Round.taken url domain a b e ↦ rw e (
        finalize_from-keeps limit v (seen ++ url ∷ []) (done ++ _ ∷ []) rs
          (rw map-append (is_member-append_left v (urls done) (url ∷ []) h)))
  ]

  accept_screened :
      (seen : List Text) (r : SearchResult) (url domain : Text)
      → screen canonicalize f r ≡ some (url, domain)
      → ((accept canonicalize f seen r ≡ none) × (is_member url seen ≡ true))
        ⊎ (accept canonicalize f seen r ≡ some (url, domain))
  unfolding accept
  accept_screened seen r url domain h = elim (Bool-cases (is_member url seen)) [
    | inl m ↦ inl (rw (h, accept, m), m)
    | inr m ↦ inr (rw (h, accept, m))
  ]

  -- A result that passes the filters is in the output of its own round, if only as a duplicate.
  finalize_from-covers_head :
      (limit : ℤ) (seen : List Text) (done rs : List SearchResult) (r : SearchResult)
      (url domain : Text)
      → seen ≡ urls done
      → screen canonicalize f r ≡ some (url, domain)
      → is_member url (urls (finalize_from canonicalize f limit seen done (r ∷ rs))) ≡ true
  finalize_from-covers_head limit seen done rs r url domain w h =
      elim (round limit seen done r rs) [
        | Round.skipped a e ↦
            rw e (finalize_from-keeps limit url seen done rs (rw (← w) (seen_already a)))
        | Round.last u d a b e ↦ rw (e, map-append, same u d a) (is_member-snoc u (urls done))
        | Round.taken u d a b e ↦
            rw (e, same u d a)
              (finalize_from-keeps limit u (seen ++ u ∷ []) (done ++ _ ∷ []) rs
                (rw map-append (is_member-snoc u (urls done))))
      ]
    where
      seen_already : accept canonicalize f seen r ≡ none → is_member url seen ≡ true
      seen_already a = ground (arith, accept_screened seen r url domain h)

      same : (u d : Text) → accept canonicalize f seen r ≡ some (u, d) → url ≡ u
      same u d a = ground (arith, accept_screened seen r url domain h)

  -- Its canonical URL is in the output, or the output has reached the limit.
  IsCovered : ℤ → Text → List SearchResult → Type 0
  IsCovered limit v out =
      (is_member v (urls out) ≡ true) ⊎ (leb_int limit (pos (length out)) ≡ true)

  finalize_from-covers :
      (limit : ℤ) (seen : List Text) (done rs : List SearchResult) (i : ℕ) (r : SearchResult)
      (url domain : Text)
      → seen ≡ urls done
      → get_elem? rs i ≡ some r
      → screen canonicalize f r ≡ some (url, domain)
      → IsCovered limit url (finalize_from canonicalize f limit seen done rs)
  unfolding IsCovered
  finalize_from-covers limit seen done [] i r url domain w g h = absurd (cc)
  finalize_from-covers limit seen done (c ∷ rs) zero r url domain w g h =
      inl
        (finalize_from-covers_head limit seen done rs c url domain w (rw (some-injective c r g) h))
  finalize_from-covers limit seen done (c ∷ rs) (suc i) r url domain w g h =
      elim (round limit seen done c rs) [
        | Round.skipped a e ↦ rw e (finalize_from-covers limit seen done rs i r url domain w g h)
        | Round.last u d a b e ↦ inr (rw (e, length-snoc done _) b)
        | Round.taken u d a b e ↦ rw e (
            finalize_from-covers limit (seen ++ u ∷ []) (done ++ _ ∷ []) rs i r url domain
              (rw (map-append, w)) g h)
      ]

module _ (canonicalize : Text → Option (Text × Text)) (q : SearchRequest)
    (rs : List SearchResult) where
  -- With a positive limit `Finalize` returns at most that many results.
  pub length-finalize-le :
      (n : ℕ) → q.limit ≡ pos n → 0 < n → length (finalize canonicalize q rs) ≤ n
  unfolding finalize
  length-finalize-le n h p = rw h (finalize_from-le canonicalize q.filters n [] [] rs p)

  -- The results are given ones, in the given order, with nothing changed but canonical URL, domain
  -- and rank.
  pub finalize-Sublist : Sublist (map as_given (finalize canonicalize q rs)) (map as_given rs)
  unfolding finalize
  finalize-Sublist = finalize_from-sublist canonicalize q.filters q.limit [] [] rs

  -- A given result whose URL is valid and whose domain is allowed is returned, itself or as an
  -- earlier one with its canonical URL, unless the limit is reached.
  pub finalize-covers :
      (i : ℕ) (r : SearchResult) (url domain : Text)
      → get_elem? rs i ≡ some r
      → canonicalize r.url ≡ some (url, domain)
      → domain_allowed domain q.filters ≡ true
      → (is_member url (urls (finalize canonicalize q rs)) ≡ true)
        ⊎ (leb_int q.limit (pos (length (finalize canonicalize q rs))) ≡ true)
  unfolding finalize IsCovered screen
  finalize-covers i r url domain g h k =
      finalize_from-covers canonicalize q.filters q.limit [] [] rs i r url domain refl g
        (rw (h, screen, k))

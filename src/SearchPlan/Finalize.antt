-- ===== src/SearchPlan/Finalize.antt =====
-- `Finalize`, `domainAllowed` and `hostMatches` in `plan.go`.
use search_x.Prelude.Strings.{is_member, has_suffix}
use search_x.Prelude.Text.{text_eq, Text}
use search_x.Prelude.{
  ◌+◌, length, ◌++◌, some, none, ◌||◌, ◌∷◌, false, [], true, if◌then◌else◌, Option, Bool, List,
}
use search_x.Domain.{SearchFilters, SearchRequest, SearchResult}
use search_x.Prelude.Int.{ℤ, pos, leb_int}

-- `host == filter || strings.HasSuffix(host, "."+filter)`
unfoldable pub host_matches : Text → Text → Bool
unfolding has_suffix
host_matches host filter = text_eq host filter || has_suffix host (b'.' ∷ filter)

unfoldable pub matches_any : Text → List Text → Bool
unfolding host_matches
matches_any host [] = false
matches_any host (f ∷ fs) = host_matches host f || matches_any host fs

unfoldable pub is_empty : List Text → Bool
is_empty [] = true
is_empty (v ∷ vs) = false

unfoldable pub domain_allowed : Text → SearchFilters → Bool
unfolding matches_any is_empty
domain_allowed host f =
    if matches_any host f.exclude_domains
    then false
    else if is_empty f.include_domains
    then true
    else matches_any host f.include_domains

module _ (canonicalize : Text → Option (Text × Text)) (f : SearchFilters) where
  -- The canonical URL and the domain of a result that passes the filters.
  unfoldable pub screen : SearchResult → Option (Text × Text)
  unfolding domain_allowed
  screen r = elim (canonicalize r.url) [
    | none ↦ none
    | some (url, domain) ↦ if domain_allowed domain f then some (url, domain) else none
  ]

  -- The three tests of one round, for the canonical URLs `seen` so far.
  unfoldable pub accept : List Text → SearchResult → Option (Text × Text)
  unfolding screen is_member
  accept seen r = elim (screen r) [
    | none ↦ none
    | some (url, domain) ↦ if is_member url seen then none else some (url, domain)
  ]

  -- The loop; it ends when the limit is reached.
  unfoldable pub finalize_from :
      ℤ → List Text → List SearchResult → List SearchResult → List SearchResult
  unfolding accept
  finalize_from limit seen done [] = done
  finalize_from limit seen done (r ∷ rs) = elim (accept seen r) [
    | none ↦ finalize_from limit seen done rs
    | some (url, domain) ↦
        let done' =
          done ++ record r { canonical_url = url; domain = domain; rank = length done + 1 } ∷ [] in
        elim (leb_int limit (pos (length done'))) [
          | true ↦ done'
          | false ↦ finalize_from limit (seen ++ url ∷ []) done' rs
        ]
  ]

unfoldable pub finalize :
    (Text → Option (Text × Text)) → SearchRequest → List SearchResult → List SearchResult
unfolding finalize_from
finalize canonicalize r = finalize_from canonicalize r.filters r.limit [] []

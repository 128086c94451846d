-- ===== src/Examples/Search.antt =====
-- Compiling a query and finalizing the results.
use search_x.SearchPlan.Values.{normalize_text_values_lem, IsShort}
use search_x.SearchPlan.Normalize.{check_text, normalize_text_values}
use search_x.Domain.Fallible.{ok}
use search_x.Prelude.Int.{pos, leb_int}
use search_x.SearchPlan.Compatibility.{compatible_providers-compiles, compiles, keep}
use search_x.SearchPlan.Coverage.{finalize-covers, finalize-Sublist}
use mathlib.Core.List.{Sublist}
use search_x.SearchPlan.Guarantees.{as_given, finalize-IsFinal, urls, IsFinal}
use search_x.Prelude.{Distinct, All, ◌⊎◌, refl, true, [], ◌≤◌, ◌∷◌, some, map, length, ◌≡◌}
use search_x.SearchPlan.Compiler.{
  has_query_options, compiler_for, supports, supported, compatible_providers,
}
use search_x.Prelude.Strings.{is_member}
use search_x.Examples.Requests.{result_at, hosts, same_case, request, given}
use search_x.SearchPlan.Canonical.{canonicalize}
use search_x.SearchPlan.Finalize.{
  host_matches, screen, matches_any, accept, domain_allowed, finalize_from, finalize,
}
use search_x.Prelude.Text.{text_eq, codes}

finalized_urls :
    urls (finalize (canonicalize hosts same_case) request given)
    ≡ codes "http://a.com/" ∷ codes "http://c.com/" ∷ []
unfolding finalize finalize_from accept screen domain_allowed matches_any host_matches text_eq
    canonicalize
finalized_urls = refl

finalize-IsFinal_example :
    IsFinal
      (canonicalize hosts same_case)
      request.filters
      (finalize (canonicalize hosts same_case) request given)
finalize-IsFinal_example = finalize-IsFinal (canonicalize hosts same_case) request given

finalize-Sublist_example :
    Sublist
      (map as_given (finalize (canonicalize hosts same_case) request given))
      (map as_given given)
finalize-Sublist_example = finalize-Sublist (canonicalize hosts same_case) request given

third_is_canonical :
    canonicalize hosts same_case (codes "a.com") ≡ some (codes "http://a.com/", codes "a.com")
unfolding canonicalize text_eq
third_is_canonical = refl

allowed : domain_allowed (codes "a.com") request.filters ≡ true
unfolding domain_allowed matches_any host_matches text_eq
allowed = refl

finalize-covers_example :
    let out = finalize (canonicalize hosts same_case) request given in
    (is_member (codes "http://a.com/") (urls out) ≡ true)
    ⊎ (leb_int (pos 2) (pos (length out)) ≡ true)
finalize-covers_example =
    finalize-covers (canonicalize hosts same_case) request given 2 (result_at (codes "a.com"))
      (codes "http://a.com/") (codes "a.com") refl third_is_canonical allowed

compatible_providers-compiles_example :
    compatible_providers request (codes "baidu" ∷ codes "brave" ∷ [])
    ≡ keep (compiles request) (codes "baidu" ∷ codes "brave" ∷ [])
compatible_providers-compiles_example =
    compatible_providers-compiles request (codes "baidu" ∷ codes "brave" ∷ [])

compatible : compatible_providers request (codes "baidu" ∷ codes "brave" ∷ []) ≡ codes "brave" ∷ []
unfolding compatible_providers supported supports compiler_for has_query_options text_eq
compatible = refl

-- The second value repeats the first once its spaces are gone.
normalized_texts :
    normalize_text_values (codes "a  b" ∷ codes " a b" ∷ codes "c" ∷ [])
    ≡ ok (codes "a b" ∷ codes "c" ∷ [])
unfolding normalize_text_values check_text text_eq
normalized_texts = refl

normalize_text_values_lem_example :
    All IsShort (codes "a b" ∷ codes "c" ∷ [])
    × Distinct (codes "a b" ∷ codes "c" ∷ [])
    × (2 ≤ 3)
    × (3 ≤ 20)
normalize_text_values_lem_example =
    normalize_text_values_lem (codes "a  b" ∷ codes " a b" ∷ codes "c" ∷ [])
      (codes "a b" ∷ codes "c" ∷ []) normalized_texts

-- ===== src/SearchPlan/Compiler.antt =====
-- `compiler.go`, and `CompatibleProviders`, `HasQueryOptions`, `Compile` and the quoting of `plan.go`.
use search_x.Domain.Attempts
use search_x.Domain.Errors.{plain}
use search_x.Prelude.{
  ◌+◌, ◌&&◌, length, not, ltb, [], ◌++◌, true, map, ◌∷◌, Bool, if◌then◌else◌, List,
}
use search_x.Prelude.Text.{text_eq, codes, Text}
use search_x.Domain.Attempts.{ProviderName}
use search_x.Prelude.Strings.{join, is_member, replace_all, contains_any}
use search_x.Domain.Fallible.{Fallible, ok, fail}
use search_x.Domain.{SearchFilters, SearchQueryOptions, SearchRequest}

-- The three implementations of `compiler`.
pub data Compiler : Type 0 where
  domain_only brave duck_duck_go : Compiler

unfoldable pub has_query_options : SearchQueryOptions → Bool
has_query_options o = ltb 0 (
    length o.exact_phrases
    + length o.any_terms
    + length o.exclude_terms
    + length o.title_terms
    + length o.file_types)

unfoldable pub quote : Text → Text
unfolding replace_all
quote v = codes "\"" ++ (replace_all b'"' (codes "\\\"") v ++ codes "\"")

unfoldable pub quote_when_needed : Text → Text
unfolding quote contains_any
quote_when_needed v = if contains_any v (codes " \t\"") then quote v else v

-- The file types that DuckDuckGo documents.
unfoldable pub is_documented : Text → Bool
unfolding is_member
is_documented v = is_member v (
    codes "pdf"
    ∷ codes "doc"
    ∷ codes "docx"
    ∷ codes "xls"
    ∷ codes "xlsx"
    ∷ codes "ppt"
    ∷ codes "pptx"
    ∷ codes "html"
    ∷ [])

unfoldable pub every_documented : List Text → Bool
unfolding is_documented
every_documented [] = true
every_documented (v ∷ vs) = is_documented v && every_documented vs

unfoldable pub supports : Compiler → SearchQueryOptions → Bool
unfolding has_query_options every_documented
supports Compiler.domain_only o = not (has_query_options o)
supports Compiler.brave o = true
supports Compiler.duck_duck_go o =
    not (ltb 1 (length o.file_types)) && every_documented o.file_types

unfoldable pub compiler_for : ProviderName → Compiler
compiler_for p =
    if text_eq p Attempts.brave
    then Compiler.brave
    else if text_eq p Attempts.duck_duck_go
    then Compiler.duck_duck_go
    else Compiler.domain_only

-- "(a OR b)"
unfoldable pub alternatives : List Text → Text
unfolding join
alternatives vs = codes "(" ++ (join (codes " OR ") vs ++ codes ")")

-- Nothing, one operator, or the alternatives.
unfoldable pub one_or_more : Text → List Text → List Text
unfolding alternatives
one_or_more prefix [] = []
one_or_more prefix (v ∷ []) = (prefix ++ v) ∷ []
one_or_more prefix (v ∷ w ∷ vs) = alternatives (map (λ x. prefix ++ x) (v ∷ w ∷ vs)) ∷ []

-- `appendDomainOperatorsWithExclude`
unfoldable pub append_domain_operators : Text → List Text → SearchFilters → Text
unfolding one_or_more join
append_domain_operators exclude_prefix parts f = join (codes " ") (
    parts
    ++ (one_or_more (codes "site:") f.include_domains
        ++ map (λ v. exclude_prefix ++ v) f.exclude_domains))

unfoldable pub any_of : List Text → List Text
unfolding alternatives quote_when_needed
any_of [] = []
any_of (v ∷ vs) = alternatives (map quote_when_needed (v ∷ vs)) ∷ []

unfoldable pub compile_documented_operators : Text → SearchRequest → Text
unfolding append_domain_operators quote quote_when_needed one_or_more any_of
compile_documented_operators exclude_prefix r =
    let o = r.query_options in
    append_domain_operators exclude_prefix
      ((r.query ∷ map quote o.exact_phrases)
        ++ (any_of o.any_terms
            ++ (map (λ v. codes "-" ++ quote_when_needed v) o.exclude_terms
                ++ (map (λ v. codes "intitle:" ++ quote_when_needed v) o.title_terms
                    ++ one_or_more (codes "filetype:") o.file_types))))
      r.filters

unfoldable pub compile_with : Compiler → SearchRequest → Text
unfolding compile_documented_operators append_domain_operators
compile_with Compiler.domain_only r =
    append_domain_operators (codes "-site:") (r.query ∷ []) r.filters
compile_with Compiler.brave r = compile_documented_operators (codes "NOT site:") r
compile_with Compiler.duck_duck_go r = compile_documented_operators (codes "-site:") r

unfoldable pub compile : SearchRequest → ProviderName → Fallible Text
unfolding compile_with supports compiler_for
compile r p =
    let compiler = compiler_for p in
    if not (supports compiler r.query_options)
    then fail (plain (codes "provider does not support the requested query options"))
    else ok (compile_with compiler r)

unfoldable pub supported : SearchQueryOptions → List ProviderName → List ProviderName
unfolding supports compiler_for
supported o [] = []
supported o (p ∷ ps) = if supports (compiler_for p) o then p ∷ supported o ps else supported o ps

unfoldable pub compatible_providers : SearchRequest → List ProviderName → List ProviderName
unfolding supported has_query_options
compatible_providers r ps =
    if not (has_query_options r.query_options) then ps else supported r.query_options ps

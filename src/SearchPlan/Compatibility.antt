-- ===== src/SearchPlan/Compatibility.antt =====
-- `CompatibleProviders` and `Compile` in `plan.go`.
use search_x.Prelude.Text.{Text}
use search_x.Domain.Fallible.{fail, ok}
use search_x.Domain.Attempts.{ProviderName}
use search_x.SearchPlan.Compiler.{
  every_documented, compiler_for, has_query_options, Compiler, compatible_providers, supports,
  supported, compile,
}
use search_x.Domain.{SearchQueryOptions, SearchRequest}
use search_x.Prelude.{
  ◌&&◌, ltb, not, length, sym, [], inr, if◌then◌else◌, arith, inl, true, ◌∷◌, false, Bool-cases,
  Bool, ◌≡◌, List, refl,
}

-- Whether `Compile` returns a query.
unfoldable pub compiles : SearchRequest → ProviderName → Bool
unfolding compile
compiles r p = elim (compile r p) [ ok q ↦ true | fail e ↦ false ]

pub keep : (ProviderName → Bool) → List ProviderName → List ProviderName
keep test [] = []
keep test (p ∷ ps) = if test p then p ∷ keep test ps else keep test ps

compiles-supports :
    (r : SearchRequest) (p : ProviderName)
    → compiles r p ≡ supports (compiler_for p) r.query_options
unfolding compiles
compiles-supports r p = ground arith

-- Without structured options every compiler serves.
supports_plain :
    (c : Compiler) (o : SearchQueryOptions) → has_query_options o ≡ false → supports c o ≡ true
unfolding supports
supports_plain Compiler.domain_only o h = rw h
supports_plain Compiler.brave o h = refl
supports_plain Compiler.duck_duck_go o h = no_file_types o.file_types (ground arith)
  where
    no_file_types :
        (vs : List Text) → length vs ≡ 0 → (not (ltb 1 (length vs)) && every_documented vs) ≡ true
    no_file_types [] k = refl
    no_file_types (v ∷ vs) k = absurd (omega arith)

keep-supported :
    (r : SearchRequest) (ps : List ProviderName)
    → supported r.query_options ps ≡ keep (compiles r) ps
unfolding supported keep
keep-supported r [] = refl
keep-supported r (p ∷ ps) = ground (arith, keep-supported r ps, compiles-supports r p)

keep-plain :
    (r : SearchRequest) (ps : List ProviderName)
    → has_query_options r.query_options ≡ false
    → keep (compiles r) ps ≡ ps
unfolding keep
keep-plain r [] h = refl
keep-plain r (p ∷ ps) h = ground (
  arith,
  keep-plain r ps h,
  compiles-supports r p,
  supports_plain (compiler_for p) r.query_options h,
)

-- The compatible providers are exactly those for which the request compiles, in the caller's order.
pub compatible_providers-compiles :
    (r : SearchRequest) (ps : List ProviderName) → compatible_providers r ps ≡ keep (compiles r) ps
unfolding compatible_providers
compatible_providers-compiles r ps = elim (Bool-cases (has_query_options r.query_options)) [
  | inl h ↦ rw h (keep-supported r ps)
  | inr h ↦ rw h (sym (keep-plain r ps h))
]

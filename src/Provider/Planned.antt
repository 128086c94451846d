-- ===== src/Provider/Planned.antt =====
-- `websearch/internal/provider/planned.go`.
use mathlib.Core.Path.{subst}
use search_x.SearchPlan.Guarantees.{finalize-IsFinal, IsFinal}
use search_x.Domain.{SearchResponse, SearchRequest}
use search_x.Domain.Attempts.{ProviderName}
use search_x.Prelude.{
  arith, inl, inr, Bool-cases, ◌≡◌, ◌++◌, not, none, if◌then◌else◌, some, [], Option, false,
}
use search_x.Provider.Chain.{Provider}
use search_x.Domain.Fallible.{>>=-eq-ok, Fallible-cases, Fallible, ok, fail, ◌>>=◌}
use search_x.Domain.Errors.{Error, SearchError, plain, as_error, Original, ErrorCode}
use search_x.Prelude.Text.{text_eq→eq, Text, codes, text_eq}
use search_x.SearchPlan.Compiler.{compile}
use search_x.SearchPlan.Finalize.{finalize}

abbrev not_configured : SearchError
not_configured = record {
  code = ErrorCode.provider_unavailable;
  message = codes "Provider 未配置";
  retryable = false;
  original = Original.nil;
  attempts = [];
  artifacts = [];
}

abbrev pub unsupported : Error → SearchError
unsupported e = record {
  code = ErrorCode.invalid_request;
  message = codes "Provider 不支持请求的高级搜索条件";
  retryable = false;
  original = Original.original e;
  attempts = [];
  artifacts = [];
}

-- What `Search` makes of the upstream's response.
unfoldable pub finish :
    (Text → Option (Text × Text))
    → ProviderName
    → SearchRequest
    → SearchResponse
    → Fallible SearchResponse
finish canonicalize name request r =
    let query = if text_eq r.query [] then request.query else r.query in
    if not (text_eq query request.query)
    then fail (plain (codes "provider " ++ (name ++ codes " returned a mismatched query")))
    else ok (record r { results = finalize canonicalize request r.results; query = query })

module _ {W : Type 0} (canonicalize : Text → Option (Text × Text)) where
  unfoldable pub search_configured : Provider W → SearchRequest → W → W × Fallible SearchResponse
  unfolding finish
  search_configured p request w = elim (compile request p.name) [
    | fail e ↦ (w, fail (as_error (unsupported e)))
    | ok query ↦
        let (w', answer) = p.search (record request { provider_query = query }) w in
        (w', answer >>= finish canonicalize p.name request)
  ]

  -- `Planned.Search`
  unfoldable pub search_planned :
      Option (Provider W) → SearchRequest → W → W × Fallible SearchResponse
  unfolding search_configured
  search_planned none request w = (w, fail (as_error not_configured))
  search_planned (some p) request w = search_configured p request w

finish-IsFinal :
    (canonicalize : Text → Option (Text × Text)) (name : ProviderName) (request : SearchRequest)
    (q r : SearchResponse)
    → finish canonicalize name request q ≡ ok r
    → IsFinal canonicalize request.filters r.results × (r.query ≡ request.query)
unfolding finish
finish-IsFinal canonicalize name request q r h =
    let query = if text_eq q.query [] then request.query else q.query in
    elim (Bool-cases (text_eq query request.query)) [
      | inl a ↦
          let e = rw a at h in
          let same : record q { results = finalize canonicalize request q.results; query = query }
              ≡ r =
            cc e in
          (
            subst (λ x. IsFinal canonicalize request.filters x.results) same
                (finalize-IsFinal canonicalize request q.results),
            subst (λ x. x.query ≡ request.query) same (text_eq→eq query request.query a),
          )
      | inr a ↦ absurd (cc (rw a at h))
    ]

-- A successful answer of a planned provider meets the guarantees of `Finalize` for the request's
-- filters, whatever the upstream returned, and carries the request's query.
pub search_planned-IsFinal :
    {W : Type 0} (canonicalize : Text → Option (Text × Text)) (p : Provider W)
    (request : SearchRequest) (w w' : W) (r : SearchResponse)
    → search_planned canonicalize (some p) request w ≡ (w', ok r)
    → IsFinal canonicalize request.filters r.results × (r.query ≡ request.query)
unfolding search_planned search_configured
search_planned-IsFinal canonicalize p request w w' r h =
    elim (Fallible-cases (compile request p.name)) [
      | inr (e, a) ↦ absurd (ground (arith, h, a))
      | inl (query, a) ↦
          let answer = p.search (record request { provider_query = query }) w in
          let k : (answer.1 >>= finish canonicalize p.name request) ≡ ok r = ground (arith, h, a) in
          let (q, f, _) = >>=-eq-ok (finish canonicalize p.name request) answer.1 k in
          finish-IsFinal canonicalize p.name request q r f
    ]

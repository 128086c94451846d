-- ===== src/App/Acceptance.antt =====
-- The requests that `normalizeRequest` in `app/search_service.go` accepts.
use search_x.SearchPlan.Normalize.{
  normalize_file_types, normalize_text_values, disjoint, normalize_domains, normalize,
}
use search_x.SearchPlan.Compiler.{
  compiler_for, supports, supported, has_query_options, compatible_providers,
}
use search_x.Prelude.Strings.{fields, join}
use search_x.Prelude.Int.{pos, is_zero}
use mathlib.Core.Path.{subst}
use search_x.Prelude.{
  List, arith, ◌∙◌, ap, false, sym, ltb, inl, inr, ◌∷◌, Bool-cases, ◌&&◌, refl, if◌then◌else◌, ◌≤◌,
  true, length, [], ℕ, ◌≢◌, ◌≡◌,
}
use search_x.App.Requests.{
  lower_names, normalize_request, honour_chain, honour_provider, is_named, normalize_region,
  as_invalid, in_range, set_region, check_query, paginate,
}
use search_x.Domain.Fallible.{wrapped, Fallible, ok, fail, >>=-eq-ok}
use search_x.Domain.{SearchQueryOptions, SearchRequest}
use search_x.Domain.Attempts.{ProviderName, auto}
use search_x.SearchPlan.Finalize.{is_empty}
use search_x.Prelude.Text.{Text, text_eq_refl, codes, text_eq}

pub record IsAcceptable (q : SearchRequest) : Type 0 where
  pub asked : q.query ≢ []
  pub short : length q.query ≤ 256
  pub paged : in_range q.limit q.page ≡ true
  -- A provider that is named supports the options.
  pub honoured :
      (is_named q.provider && is_empty (compatible_providers q (q.provider ∷ []))) ≡ false
  -- So do all providers of the chain.
  pub compatible : compatible_providers q q.providers ≡ q.providers
  -- Without providers there are no options to support.
  pub structured :
      (is_empty q.providers && text_eq q.provider auto && has_query_options q.query_options) ≡ false

-- The value, or the given request for an error.
abbrev value_of : Fallible SearchRequest → SearchRequest → SearchRequest
value_of (ok q) d = q
value_of (fail e) d = d

check_query_lem :
    (r q : SearchRequest) → check_query r ≡ ok q → (q.query ≢ []) × (length q.query ≤ 256)
unfolding check_query
check_query_lem r q h =
    let query = join (codes " ") (fields r.query) in
    elim (Bool-cases (text_eq query [])) [
      | inl a ↦ absurd (cc (rw a at h))
      | inr a ↦ elim (Bool-cases (ltb 256 (length query))) [
        | inl b ↦ absurd (cc (rw (a, b) at h))
        | inr b ↦
            let e : query ≡ q.query = ap (λ z. (value_of z r).query) (rw (a, b) at h) in
            (λ n. cc (a, e, n, text_eq_refl []), rw (sym e) (ground arith))
      ]
    ]

paginate_lem :
    (r q : SearchRequest)
    → paginate r ≡ ok q
    → (q.query ≡ r.query) × (in_range q.limit q.page ≡ true)
unfolding paginate
paginate_lem r q h =
    let limit = if is_zero r.limit then pos 10 else r.limit in
    let page = if is_zero r.page then pos 1 else r.page in
    elim (Bool-cases (in_range limit page)) [
      | inr a ↦ absurd (cc (rw a at h))
      | inl a ↦
          let k = rw a at h in
          (
            sym (ap (λ z. (value_of z r).query) k),
            ap (λ z. in_range (value_of z r).limit (value_of z r).page) (sym k) ∙ a,
          )
    ]

-- What the later steps leave alone.
IsFramed : SearchRequest → SearchRequest → Type 0
IsFramed r q = (q.query ≡ r.query) × (q.limit ≡ r.limit) × (q.page ≡ r.page)

IsFramed-value : (r s q : SearchRequest) → IsFramed r s → ok s ≡ ok q → IsFramed r q
unfolding IsFramed
IsFramed-value r s q h k = subst (λ z. IsFramed r (value_of z r)) k h

set_region_frame :
    (unicode : ℕ → ℕ) (r q : SearchRequest) → set_region unicode r ≡ ok q → IsFramed r q
unfolding set_region IsFramed
set_region_frame unicode r q h =
    let (region, k, _) =
      >>=-eq-ok (λ x. ok (record r { region = x }))
        (as_invalid (codes "地区参数格式错误") (normalize_region unicode r.region)) h in
    IsFramed-value r (record r { region = region }) q (refl, refl, refl) k

normalize_frame :
    (unicode : ℕ → ℕ) (r q : SearchRequest) → normalize unicode r ≡ ok q → IsFramed r q
unfolding normalize IsFramed
normalize_frame unicode r q h =
    let (a, h1, _) =
      >>=-eq-ok _
        (wrapped (codes "include_domains") (normalize_domains unicode r.filters.include_domains))
        h in
    let (b, h2, _) =
      >>=-eq-ok _
        (wrapped (codes "exclude_domains") (normalize_domains unicode r.filters.exclude_domains))
        h1 in
    let (_, h3, _) = >>=-eq-ok _ (disjoint a b) h2 in
    let (_, h4, _) = >>=-eq-ok _ (normalize_text_values r.query_options.exact_phrases) h3 in
    let (_, h5, _) = >>=-eq-ok _ (normalize_text_values r.query_options.any_terms) h4 in
    let (_, h6, _) = >>=-eq-ok _ (normalize_text_values r.query_options.exclude_terms) h5 in
    let (_, h7, _) = >>=-eq-ok _ (normalize_text_values r.query_options.title_terms) h6 in
    let (_, h8, _) = >>=-eq-ok _ (normalize_file_types unicode r.query_options.file_types) h7 in
    (
      sym (ap (λ z. (value_of z r).query) h8),
      sym (ap (λ z. (value_of z r).limit) h8),
      sym (ap (λ z. (value_of z r).page) h8),
    )

as_invalid_lem {ℓ} :
    {A : Type ℓ} (m : Text) (x : Fallible A) {a : A} → as_invalid m x ≡ ok a → x ≡ ok a
as_invalid_lem m (ok a) h = h
as_invalid_lem m (fail e) h = cc

honour_provider_lem :
    (r q : SearchRequest)
    → honour_provider r ≡ ok q
    → (r ≡ q)
      × ((is_named r.provider && is_empty (compatible_providers r (r.provider ∷ []))) ≡ false)
unfolding honour_provider
honour_provider_lem r q h =
    elim (Bool-cases (is_named r.provider && is_empty (compatible_providers r (r.provider ∷ [])))) [
      | inl a ↦ absurd (cc (rw a at h))
      | inr a ↦ (ap (λ z. value_of z r) (rw a at h), a)
    ]

supported_again :
    (o : SearchQueryOptions) (ps : List ProviderName)
    → supported o (supported o ps) ≡ supported o ps
unfolding supported
supported_again o [] = refl
supported_again o (p ∷ ps) = elim (Bool-cases (supports (compiler_for p) o)) [
  | inl a ↦ rw (a, supported, a) (ap (◌∷◌ p) (supported_again o ps))
  | inr a ↦ rw a (supported_again o ps)
]

compatible_again :
    (r : SearchRequest) (ps : List ProviderName)
    → compatible_providers r (compatible_providers r ps) ≡ compatible_providers r ps
unfolding compatible_providers
compatible_again r ps = elim (Bool-cases (has_query_options r.query_options)) [
  | inl a ↦ rw a (supported_again r.query_options ps)
  | inr a ↦ rw a
]

-- The last step, for a request that has passed the others.
honour_chain_lem :
    (r q : SearchRequest)
    → r.query ≢ []
    → length r.query ≤ 256
    → in_range r.limit r.page ≡ true
    → (is_named r.provider && is_empty (compatible_providers r (r.provider ∷ []))) ≡ false
    → honour_chain r ≡ ok q
    → IsAcceptable q
unfolding honour_chain compatible_providers supported is_empty
honour_chain_lem r q n l g m h = elim (Bool-cases (is_empty r.providers)) [
  | inr a ↦ elim (Bool-cases (is_empty (compatible_providers r r.providers))) [
    | inl b ↦ absurd (cc (rw (a, b) at h))
    | inr b ↦ subst (λ z. IsAcceptable (value_of z r)) (rw (a, b) at h) (with_chain b)
  ]
  | inl a ↦ elim (Bool-cases (text_eq r.provider auto && has_query_options r.query_options)) [
    | inl b ↦ absurd (cc (rw (a, b) at h))
    | inr b ↦
        subst (λ z. IsAcceptable (value_of z r)) (rw (a, b) at h)
          (record {
            asked = n;
            short = l;
            paged = g;
            honoured = m;
            compatible = no_chain r.providers a;
            structured = rw (a, b);
          })
  ]
]
  where
    with_chain :
        is_empty (compatible_providers r r.providers) ≡ false
        → IsAcceptable (record r { providers = compatible_providers r r.providers })
    with_chain b = record {
      asked = n;
      short = l;
      paged = g;
      honoured = m;
      compatible = compatible_again r r.providers;
      structured = rw b;
    }

    no_chain : (ps : List ProviderName) → is_empty ps ≡ true → compatible_providers r ps ≡ ps
    no_chain [] e = ground arith
    no_chain (p ∷ ps) e = absurd (ground (arith, e))

-- A request that `normalizeRequest` accepts has a query of 1 to 256 characters, a limit from 1 to
-- 20 and a page from 1 to 10; a provider that it names and all providers of its chain support its
-- options, and it has none if it leaves the choice to the router.
pub normalize_request-IsAcceptable :
    (unicode : ℕ → ℕ) (r q : SearchRequest) → normalize_request unicode r ≡ ok q → IsAcceptable q
unfolding normalize_request lower_names IsFramed
normalize_request-IsAcceptable unicode r q h =
    let (r1, h1, a) = >>=-eq-ok _ (check_query r) h in
    let (r2, h2, b) = >>=-eq-ok _ (paginate (lower_names unicode r1)) h1 in
    let (r3, h3, c) = >>=-eq-ok _ (set_region unicode r2) h2 in
    let (r4, h4, d) = >>=-eq-ok _ (as_invalid (codes "高级搜索参数格式错误") (normalize unicode r3)) h3 in
    let (r5, h5, e) = >>=-eq-ok _ (honour_provider r4) h4 in
    let (n, l) = check_query_lem r r1 a in
    let (same2, g) = paginate_lem (lower_names unicode r1) r2 b in
    let (same3, limit3, page3) = set_region_frame unicode r2 r3 c in
    let (same4, limit4, page4) =
      normalize_frame unicode r3 r4
        (as_invalid_lem (codes "高级搜索参数格式错误") (normalize unicode r3) d) in
    let (same5, m) = honour_provider_lem r4 r5 e in
    let query : r4.query ≡ r1.query = same4 ∙ same3 ∙ same2 ∙ lowered unicode r1 in
    honour_chain_lem r4 q (λ z. n (sym query ∙ z)) (rw query l)
      (rw (limit4, limit3, page4, page3) g) m (rw same5 h5)
  where
    lowered : (u : ℕ → ℕ) (s : SearchRequest) → (lower_names u s).query ≡ s.query
    lowered u s = refl

-- ===== src/App/Requests.antt =====
-- `normalizeRequest` and `selectProvider` of `app/search_service.go`, and `NormalizeRegion` of
-- `domain/search.go`. A request is a value, so the names in `Providers` are lowered in a copy,
-- where the code writes them back into the caller's slice.
use search_x.SearchPlan.Compiler.{has_query_options, compatible_providers}
use search_x.Prelude.Strings.{trim_space, to_lower, fields, join}
use search_x.Prelude.{
  length, leb, ltb, ◌∷◌, Option, false, [], some, none, List, not, Bool, map, ◌&&◌, if◌then◌else◌,
  ℕ,
}
use search_x.Domain.Fallible.{Fallible, ok, fail, ◌>>=◌}
use search_x.Domain.Errors.{SearchError, plain, as_error, Original, ErrorCode}
use search_x.Domain.Attempts.{ProviderName, auto}
use search_x.Domain.{SearchRequest}
use search_x.Provider.Chain.{Chain, Provider, new_chain}
use search_x.Provider.Registry.{normalize_name, Registry, get_provider}
use search_x.SearchPlan.Finalize.{is_empty}
use search_x.SearchPlan.Normalize.{normalize}
use search_x.Prelude.Int.{leb_int, is_zero, ℤ, pos}
use search_x.Prelude.Text.{Text, codes, text_eq}

unfoldable pub is_region : Text → Bool
is_region (a ∷ b ∷ []) = leb b'a' a && leb a b'z' && leb b'a' b && leb b b'z'
is_region _ = false

unfoldable pub normalize_region : (ℕ → ℕ) → Text → Fallible Text
unfolding is_region
normalize_region unicode raw =
    let region = to_lower unicode (trim_space raw) in
    if text_eq region []
    then ok []
    else if not (is_region region)
    then fail (plain (codes "region must be a 2-letter country code"))
    else ok region

abbrev pub invalid : Text → Original → SearchError
invalid message e = record {
  code = ErrorCode.invalid_request;
  message = message;
  retryable = false;
  original = e;
  attempts = [];
  artifacts = [];
}

abbrev pub refuse {ℓ} : {A : Type ℓ} → Text → Original → Fallible A
refuse message e = fail (as_error (invalid message e))

-- An error becomes the original of an invalid request.
abbrev pub as_invalid {ℓ} : {A : Type ℓ} → Text → Fallible A → Fallible A
as_invalid message (ok a) = ok a
as_invalid message (fail e) = refuse message (Original.original e)

unfoldable pub check_query : SearchRequest → Fallible SearchRequest
check_query r =
    let query = join (codes " ") (fields r.query) in
    if text_eq query []
    then refuse (codes "搜索文本不能为空") (Original.original (plain (codes "query is required")))
    else if ltb 256 (length query)
    then refuse (codes "搜索文本超过 256 个字符")
        (Original.original (plain (codes "query exceeds 256 characters")))
    else ok (record r { query = query })

unfoldable pub lower_names : (ℕ → ℕ) → SearchRequest → SearchRequest
unfolding is_empty
lower_names unicode r =
    let provider = normalize_name unicode r.provider in
    let providers = map (normalize_name unicode) r.providers in
    record r {
      provider = if text_eq provider [] && is_empty providers then auto else provider;
      providers = providers;
    }

unfoldable pub in_range : ℤ → ℤ → Bool
in_range limit page =
    leb_int (pos 1) limit && leb_int limit (pos 20) && leb_int (pos 1) page && leb_int page (pos 10)

unfoldable pub paginate : SearchRequest → Fallible SearchRequest
unfolding in_range
paginate r =
    let limit = if is_zero r.limit then pos 10 else r.limit in
    let page = if is_zero r.page then pos 1 else r.page in
    if in_range limit page
    then ok (record r { limit = limit; page = page })
    else refuse (codes "分页参数超出范围") (Original.original (plain (codes "invalid pagination")))

unfoldable pub set_region : (ℕ → ℕ) → SearchRequest → Fallible SearchRequest
unfolding normalize_region
set_region unicode r = do
  region ← as_invalid (codes "地区参数格式错误") (normalize_region unicode r.region)
  ok (record r { region = region })

-- Neither empty nor "auto".
unfoldable pub is_named : ProviderName → Bool
is_named p = not (text_eq p []) && not (text_eq p auto)

unfoldable pub honour_provider : SearchRequest → Fallible SearchRequest
unfolding is_named is_empty
honour_provider r =
    if is_named r.provider && is_empty (compatible_providers r (r.provider ∷ []))
    then refuse (codes "指定 Provider 不支持请求的高级搜索条件") Original.nil
    else ok r

unfoldable pub honour_chain : SearchRequest → Fallible SearchRequest
unfolding is_empty
honour_chain r =
    let providers = compatible_providers r r.providers in
    if not (is_empty r.providers)
    then if is_empty providers
      then refuse (codes "没有 Provider 支持请求的高级搜索条件") Original.nil
      else ok (record r { providers = providers })
    else if text_eq r.provider auto && has_query_options r.query_options
    then refuse (codes "高级搜索请求必须提供可校验的 Provider 链") Original.nil
    else ok r

unfoldable pub normalize_request : (ℕ → ℕ) → SearchRequest → Fallible SearchRequest
unfolding check_query lower_names paginate set_region honour_provider honour_chain
normalize_request unicode r = do
  asked ← check_query r
  paged ← paginate (lower_names unicode asked)
  placed ← set_region unicode paged
  planned ← as_invalid (codes "高级搜索参数格式错误") (normalize unicode placed)
  honoured ← honour_provider planned
  honour_chain honoured

-- `selectProvider`: a provider of the registry, or the providers of a chain.
pub data Selected (W : Type 0) : Type 0 where
  single : Provider W → Selected W
  chained : Chain W → Selected W

module _ {W : Type 0} (unicode : ℕ → ℕ) (registry : Registry W) where
  unfoldable pub find_provider : ProviderName → Fallible (Provider W)
  find_provider name = elim (get_provider unicode name registry) [
    | none ↦ fail (plain (codes "provider is not registered"))
    | some p ↦ ok p
  ]

  unfoldable pub find_members : List ProviderName → Fallible (List (Option (Provider W)))
  unfolding find_provider
  find_members [] = ok []
  find_members (n ∷ ns) = do
    member ← find_provider n
    members ← find_members ns
    ok (some member ∷ members)

  unfoldable pub single_of : ProviderName → Fallible (Selected W × ProviderName)
  unfolding find_provider
  single_of name = do p ← find_provider name; ok (single p, name)

  unfoldable pub chain_of : List ProviderName → Fallible (Selected W × ProviderName)
  unfolding find_members
  chain_of names = do
    members ← find_members names
    chain ← new_chain auto members
    ok (chained chain, auto)

  unfoldable pub select_provider : SearchRequest → Fallible (Selected W × ProviderName)
  unfolding single_of chain_of is_named is_empty
  select_provider r =
      if is_named r.provider
      then single_of r.provider
      else if is_empty r.providers
      then single_of auto
      else chain_of r.providers

-- ===== src/Provider/Chain.antt =====
-- `websearch/internal/provider/chain.go`. A provider is a function on the state `W` of the world
-- outside, in which the context may be canceled between two calls.
use search_x.Prelude.Text.{text_eq, codes, Text}
use search_x.Prelude.Strings.{is_member}
use search_x.Domain.Attempts.{Attempt, WarningCode, ProviderName}
use search_x.Prelude.{
  false, true, not, none, ◌||◌, ◌++◌, if◌then◌else◌, some, ltb, map, Bool, ◌+◌, ◌∷◌, [], ℕ, Option,
  List,
}
use search_x.Domain.Errors.{
  Original, wrap, as_search_error, as_error, Errors, ErrorCode, plain, SearchError, Error,
}
use search_x.Domain.Fallible.{◌>>=◌, Fallible, ok, fail}
use search_x.Domain.{SearchResult, SearchRequest, SearchResponse, Debug, Warning}

pub record Provider (W : Type 0) : Type 0 where
  pub name : ProviderName
  pub search : SearchRequest → W → W × Fallible SearchResponse

pub record Chain (W : Type 0) : Type 0 where
  pub name : ProviderName
  pub members : List (Provider W)

module _ {W : Type 0} where
  -- The loop of `NewChain`; `seen` are the names so far.
  unfoldable pub check_members :
      List ProviderName → List (Option (Provider W)) → Fallible (List (Provider W))
  unfolding is_member
  check_members seen [] = ok []
  check_members seen (none ∷ ms) = fail (plain (codes "provider chain member is nil"))
  check_members seen (some m ∷ ms) =
      let rest = check_members (m.name ∷ seen) ms in
      if text_eq m.name []
      then fail (plain (codes "provider chain member name is empty"))
      else if is_member m.name seen
      then fail (plain (codes "provider chain member is duplicated"))
      else rest >>= λ ms'. ok (m ∷ ms')

  unfoldable pub new_chain : ProviderName → List (Option (Provider W)) → Fallible (Chain W)
  unfolding check_members
  new_chain [] ms = fail (plain (codes "provider chain name is empty"))
  new_chain (c ∷ name) [] = fail (plain (codes "provider chain members are empty"))
  new_chain (c ∷ name) (m ∷ ms) = do
    members ← check_members [] (m ∷ ms)
    ok (record { name = c ∷ name; members = members })

unfoldable pub annotate : ProviderName → Attempt → Attempt
annotate name a = record a { provider = name }

-- `annotateAttempts`
unfoldable pub annotate_attempts : ProviderName → List Attempt → List Attempt
unfolding annotate
annotate_attempts name = map (annotate name)

unfoldable pub allows_fallback : SearchError → Bool
allows_fallback e = if not e.retryable then false else elim e.code [
  | ErrorCode.captcha_required ↦ true
  | ErrorCode.rate_limited ↦ true
  | ErrorCode.upstream_changed ↦ true
  | ErrorCode.provider_unavailable ↦ true
  | ErrorCode.upstream_timeout ↦ true
  | _ ↦ false
]

-- "provider %s failed; using %s"
unfoldable pub fallback_warning : ProviderName → ProviderName → Warning
fallback_warning used failed = record {
  code = WarningCode.provider_fallback;
  message = codes "provider " ++ (failed ++ (codes " failed; using " ++ used));
}

unfoldable pub debug_attempts : ProviderName → Option Debug → List Attempt
unfolding annotate_attempts
debug_attempts name none = []
debug_attempts name (some d) = annotate_attempts name d.attempts

unfoldable pub debug_artifacts : Option Debug → List Text
debug_artifacts none = []
debug_artifacts (some d) = d.raw_artifacts

-- The variables of the loop of `Search`.
pub record Progress : Type 0 where
  pub index : ℕ
  pub attempts : List Attempt
  pub artifacts : List Text
  pub causes : List Error
  pub failed : List ProviderName

abbrev pub started : Progress
started = record { index = 0; attempts = []; artifacts = []; causes = []; failed = [] }

unfoldable pub prepare_success :
    ProviderName → Bool → ProviderName → Progress → SearchResponse → SearchResponse
unfolding fallback_warning debug_attempts debug_artifacts
prepare_success chain debug name p r =
    let fell_back = ltb 0 p.index in
    record r {
      provider = name;
      meta = record (r.meta) {
        requested_provider = chain;
        provider_fallback_count = p.index;
        degraded = fell_back || r.meta.degraded;
      };
      warnings =
          if fell_back then r.warnings ++ map (fallback_warning name) p.failed else r.warnings;
      debug =
          if debug
          then some (record {
            attempts = p.attempts ++ debug_attempts name r.debug;
            raw_artifacts = p.artifacts ++ debug_artifacts r.debug;
          })
          else none;
    }

-- What one member's answer means: a response with results, or an error.
pub data Verdict : Type 0 where
  success : SearchResponse → Verdict
  failure : Error → Verdict

abbrev pub no_results : SearchError
no_results = record {
  code = ErrorCode.provider_unavailable;
  message = codes "Provider returned no results";
  retryable = true;
  original = Original.nil;
  attempts = [];
  artifacts = [];
}

unfoldable pub judge_results : SearchResponse → List SearchResult → Verdict
judge_results r [] = Verdict.failure (as_error no_results)
judge_results r (x ∷ xs) = Verdict.success r

unfoldable pub verdict : Fallible SearchResponse → Verdict
unfolding judge_results
verdict (ok r) = judge_results r r.results
verdict (fail e) = Verdict.failure e

-- The error of a member is noted.
unfoldable pub note : ProviderName → SearchError → Progress → Progress
unfolding annotate_attempts
note name e p = record {
  index = p.index + 1;
  attempts = p.attempts ++ annotate_attempts name e.attempts;
  artifacts = p.artifacts ++ e.artifacts;
  causes = p.causes ++ wrap (codes "provider " ++ name) (as_error e) ∷ [];
  failed = p.failed ++ name ∷ [];
}

unfoldable pub joined_causes : List Error → Errors
joined_causes [] = Errors.end
joined_causes (e ∷ es) = Errors.more e (joined_causes es)

unfoldable pub all_failed : Progress → Error
unfolding joined_causes
all_failed p = as_error (record {
  code = ErrorCode.provider_unavailable;
  message = codes "所有搜索 Provider 均不可用";
  retryable = true;
  original = Original.original (Error.joined (joined_causes p.causes));
  attempts = p.attempts;
  artifacts = p.artifacts;
})

unfoldable pub stopped : SearchError → Progress → Error
stopped e p = as_error (record e { attempts = p.attempts; artifacts = p.artifacts })

module _ {W : Type 0} (ctx_err : W → Option Error) (chain : ProviderName)
    (request : SearchRequest) where
  -- The loop, from one member on.
  unfoldable pub search_from : Progress → List (Provider W) → W → W × Fallible SearchResponse
  unfolding all_failed
  search_from p [] w = (w, fail (all_failed p))
  search_from p (m ∷ ms) w = elim (ctx_err w) [
    | some e ↦ (w, fail e)
    | none ↦
        let (w', answer) = m.search (record request { provider = m.name }) w in
        elim (verdict answer) [
          | success r ↦ (w', ok (prepare_success chain request.debug m.name p r))
          | failure e ↦ elim (ctx_err w') [
            | some e' ↦ (w', fail e')
            | none ↦ elim (as_search_error e) [
              | none ↦ (w', fail (wrap (codes "provider failed") e))
              | some s ↦
                  let p' = note m.name s p in
                  elim (allows_fallback s) [
                    | false ↦ (w', fail (stopped s p'))
                    | true ↦ search_from p' ms w'
                  ]
            ]
          ]
        ]
  ]

unfoldable pub search_chain :
    {W : Type 0} → (W → Option Error) → Chain W → SearchRequest → W → W × Fallible SearchResponse
unfolding search_from
search_chain ctx_err c request w = search_from ctx_err c.name request started c.members w

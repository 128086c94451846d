-- ===== src/Examples/Answers.antt =====
-- Providers that fail and answer, the registry and the circuit breaker.
use search_x.Prelude.Strings.{trim_space, to_lower}
use search_x.SearchPlan.Compiler.{compiler_for, supports, compile}
use search_x.SearchPlan.Canonical.{canonicalize}
use search_x.Provider.Fallback.{search_chain-Answered, Answered}
use search_x.SearchPlan.Guarantees.{IsFinal}
use search_x.Prelude.{
  if◌then◌else◌, refl, leb, some, arith, none, ◌+◌, [], ◌∷◌, ◌≢◌, ◌≡◌, Option, ℕ, true,
}
use search_x.SearchPlan.Finalize.{finalize}
use search_x.Provider.Registry.{
  get-register, normalize_name, registered, register_named, get_provider, register, Registry,
}
use search_x.Provider.Breaker.{
  allow-trip, trip-conservative, new_breaker, allow, number, trip, conservative_allows, cooldown,
}
use search_x.Provider.Planned.{finish, search_planned-IsFinal, search_configured, search_planned}
use search_x.Provider.Chain.{
  note, prepare_success, allows_fallback, judge_results, verdict, search_from, fallback_warning,
  search_chain, Provider, Chain,
}
use search_x.Domain.{SearchResponse}
use search_x.Domain.Attempts.{TransportName, Classification}
use search_x.Domain.Errors.{as_search_error, Error, as_error, SearchError, ErrorCode, Original}
use search_x.Domain.Fallible.{ok, fail}
use search_x.Prelude.Text.{text_eq, codes}
use search_x.Examples.Requests.{hosts, same_case, request, given, page, plain_meta}

abbrev pub limited : SearchError
limited = record {
  code = ErrorCode.rate_limited;
  message = codes "429";
  retryable = true;
  original = Original.nil;
  attempts = [];
  artifacts = [];
}

-- The state outside is the number of calls so far.
abbrev pub failing : Provider ℕ
failing = record { name = codes "brave"; search = λ r w. (w + 1, fail (as_error limited)) }

abbrev pub answering : Provider ℕ
answering = record { name = codes "bing"; search = λ r w. (w + 1, ok page) }

abbrev never_canceled : ℕ → Option Error
never_canceled w = none

abbrev pub both : Chain ℕ
both = record { name = codes "auto"; members = failing ∷ answering ∷ [] }

abbrev fallen_back : SearchResponse
fallen_back = record page {
  provider = codes "bing";
  meta = record plain_meta {
    requested_provider = codes "auto";
    provider_fallback_count = 1;
    degraded = true;
  };
  warnings = fallback_warning (codes "bing") (codes "brave") ∷ [];
}

answered : search_chain never_canceled both request 0 ≡ (2, ok fallen_back)
unfolding search_chain search_from verdict judge_results allows_fallback prepare_success note
    as_search_error
answered = refl

search_chain-Answered_example :
    Answered (codes "auto") request [] (failing ∷ answering ∷ []) 0 2 fallen_back
search_chain-Answered_example =
    search_chain-Answered never_canceled both request 0 2 fallen_back answered

abbrev planned_answer : SearchResponse
planned_answer = record page { results = finalize (canonicalize hosts same_case) request given }

abbrev pub brave_answering : Provider ℕ
brave_answering = record { name = codes "brave"; search = λ r w. (w + 1, ok page) }

planned :
    search_planned (canonicalize hosts same_case) (some brave_answering) request 0
    ≡ (1, ok planned_answer)
unfolding search_planned search_configured finish compile supports compiler_for text_eq
planned = refl

search_planned-IsFinal_example :
    IsFinal (canonicalize hosts same_case) request.filters planned_answer.results
    × (codes "go" ≡ codes "go")
search_planned-IsFinal_example =
    search_planned-IsFinal (canonicalize hosts same_case) brave_answering request 0 1 planned_answer
      planned

abbrev known : Registry ℕ
known = (codes "bing", answering) ∷ []

added :
    register same_case (some failing) known
    ≡ ok ((codes "brave", failing) ∷ (codes "bing", answering) ∷ [])
unfolding register register_named registered normalize_name to_lower trim_space text_eq
added = refl

get-register_example :
    (get_provider same_case (codes "brave") known ≡ none)
    × (get_provider same_case
          (codes " Bing ")
          ((codes "brave", failing) ∷ (codes "bing", answering) ∷ [])
        ≡ (if text_eq
              (normalize_name same_case (codes "brave"))
              (normalize_name same_case (codes " Bing "))
            then some failing
            else get_provider same_case (codes " Bing ") known))
get-register_example =
    get-register same_case failing known ((codes "brave", failing) ∷ (codes "bing", answering) ∷ [])
      (codes " Bing ") added

cools : cooldown Classification.rate_limited ≡ some 300_000_000_000
unfolding cooldown
cools = refl

apart : number TransportName.mobile_http ≢ number TransportName.chromedp
unfolding number
apart = λ e. absurd (omega (arith, e))

allow-trip_example :
    ((allow 300_000_000_007 TransportName.chromedp
        (trip 7 TransportName.chromedp Classification.rate_limited new_breaker)).0
      ≡ leb 300_000_000_007 300_000_000_007)
    × ((allow 300_000_000_007 TransportName.mobile_http
          (trip 7 TransportName.chromedp Classification.rate_limited new_breaker)).0
        ≡ (allow 300_000_000_007 TransportName.mobile_http new_breaker).0)
allow-trip_example =
    allow-trip 7 300_000_000_007 300_000_000_000 TransportName.chromedp TransportName.mobile_http
      Classification.rate_limited new_breaker cools apart

falls_back : conservative_allows Classification.timeout ≡ true
unfolding conservative_allows
falls_back = refl

trip-conservative_example :
    trip 7 TransportName.chromedp Classification.timeout new_breaker ≡ new_breaker
trip-conservative_example =
    trip-conservative 7 TransportName.chromedp Classification.timeout new_breaker falls_back

-- ===== src/Examples/Strategies.antt =====
-- A Baidu search whose first strategy is refused by the network.
use search_x.Prelude.Strings.{has_suffix, to_lower}
use search_x.Baidu.Detector.{
  extract_title, has_empty_marker, has_result_card, contains, has_normal_root, text_token,
  captcha_body, start_tag, captcha_url, PageLib, classify,
}
use search_x.Baidu.Attempts.{
  attempt_of, failure_class, fetched_attempt, or_class, previewed, save_artifacts, trip_strategy,
  wait_for,
}
use search_x.Baidu.Judging.{
  respond, parse_for_transport, use_parsed, debug_store, judge_fetch, judge_page, settle,
  settle_tripped,
}
use search_x.Baidu.Search.{
  fetch_step, search_baidu, search_steps, try_allowed, try_guarded, try_step, wait_step, with_title,
}
use search_x.Prelude.{refl, ◌≡◌, map, false, [], some, List, ◌∷◌, none, ℕ, true}
use search_x.Prelude.Text.{text_eq, codes}
use search_x.Baidu.Explained.{Explained}
use search_x.Baidu.Types.{
  Baidu, FetchError, Fetched, Parsed, Shared, Step, add_attempt, strategy_number,
}
use search_x.Domain.Attempts.{BaiduSessionState, BaiduStrategyName, Classification, TransportName}
use search_x.Domain.{SearchResponse, SearchRequest}
use search_x.Provider.Breaker.{cooldown, trip, allow, conservative_allows, new_breaker}
use search_x.Domain.Fallible.{Fallible, ok, fail}
use search_x.Examples.Requests.{page, request, same_case}

abbrev fetched : Classification → Fetched
fetched c = record {
  request_url = codes "u";
  header_profile = [];
  status_code = 200;
  final_url = codes "u";
  page_title = codes "t";
  classification = c;
  headers = [];
  body = codes "b";
  screenshot = [];
  elapsed = 2_000_000;
  session_state = BaiduSessionState.unset;
  session_generation = 0;
  session_wait = 0;
  blocked_until = 0;
}

abbrev refused : FetchError
refused = record { message = codes "refused"; session = none; is_context = false }

abbrev session_step : Step ℕ
session_step = record {
  name = BaiduStrategyName.fixed_session;
  transport = TransportName.baidu_session_http;
  fetch = λ r s. (s, fetched Classification.unset, some refused);
  waiters = (λ s. (s, none)) ∷ [];
  use_breaker = true;
}

abbrev pool_step : Step ℕ
pool_step = record {
  name = BaiduStrategyName.header_pool;
  transport = TransportName.desktop_http;
  fetch = λ r s. (s, fetched Classification.normal, none);
  waiters = [];
  use_breaker = false;
}

abbrev two_steps : Baidu ℕ
two_steps = record {
  steps = session_step ∷ pool_step ∷ [];
  allows = conservative_allows;
  artifacts = none;
  page_lib = record { unicode = same_case; tokens = λ b. []; parse_url = λ u. none };
  now = λ w. w;
  parse_desktop = λ b limit. Parsed.parsed page.results [];
  parse_mobile = λ b limit. Parsed.broken (codes "no results");
}

abbrev start : Shared ℕ
start = record { breaker = new_breaker; world = 7 }

abbrev debugging : SearchRequest
debugging = record request { debug = true }

-- The classifications in the diagnostics of an answer.
abbrev classes : Fallible SearchResponse → List Classification
classes (ok r) = elim r.debug [ none ↦ [] | some d ↦ map (λ a. a.classification) d.attempts ]
classes (fail e) = []

falls_back :
    classes (search_baidu two_steps debugging start).1
    ≡ Classification.network_error ∷ Classification.normal ∷ []
unfolding search_baidu search_steps try_step try_guarded try_allowed allow wait_step wait_for
    fetch_step with_title previewed save_artifacts debug_store fetched_attempt attempt_of
    judge_fetch failure_class or_class settle_tripped settle add_attempt trip_strategy
    strategy_number judge_page use_parsed parse_for_transport respond text_eq conservative_allows
    trip cooldown
falls_back = refl

abbrev plain_pages : PageLib
plain_pages = record {
  unicode = same_case;
  tokens = λ b. start_tag (codes "TITLE") ∷ text_token b ∷ [];
  parse_url = λ u. some (u, codes "/x/Captcha");
}

a_normal_page :
    classify two_steps.page_lib 200
      (codes "u")
      (codes "t")
      (codes "<div id=\"results\"><p class=\"result c\">")
    ≡ Classification.normal
unfolding classify captcha_url captcha_body has_normal_root has_result_card contains to_lower
    text_eq
a_normal_page = refl

an_empty_page :
    classify two_steps.page_lib 200
      (codes "u")
      (codes "t")
      (codes "<div id='content_left'><p class=\"nors\">")
    ≡ Classification.empty
unfolding classify captcha_url captcha_body has_normal_root has_result_card has_empty_marker
    contains to_lower text_eq
an_empty_page = refl

a_changed_page :
    classify two_steps.page_lib 200 (codes "u") (codes "t") (codes "<p>")
    ≡ Classification.parse_changed
unfolding classify captcha_url captcha_body has_normal_root has_result_card has_empty_marker
    contains to_lower text_eq
a_changed_page = refl

a_captcha_url :
    classify plain_pages 200 (codes "www.baidu.com") [] (codes "<p>") ≡ Classification.captcha
unfolding classify captcha_url captcha_body contains to_lower has_suffix text_eq extract_title
a_captcha_url = refl

another_host :
    classify plain_pages 404 (codes "baidu.com.net") [] (codes "<p>") ≡ Classification.blocked
unfolding classify captcha_url captcha_body contains to_lower has_suffix text_eq extract_title
another_host = refl

-- ===== src/Examples/Requests.antt =====
-- A request, a response and a URL library in which a URL is a bare host name.
use search_x.Prelude.Int.{pos}
use search_x.Prelude.{◌++◌, some, none, false, ◌∷◌, List, ℕ, []}
use search_x.Domain.{SearchRequest, SearchResponse, SearchResult, Meta}
use search_x.SearchPlan.Canonical.{UrlLib}
use search_x.Prelude.Text.{Text, codes}
use search_x.Domain.Attempts.{TransportName, BaiduStrategyName, RouteReason}

abbrev pub hosts : UrlLib Text
hosts = record {
  parse = λ t. elim t [ [] ↦ none | c ∷ s ↦ some (c ∷ s) ];
  scheme = λ u. codes "http";
  host = λ u. u;
  hostname = λ u. u;
  port = λ u. [];
  path = λ u. [];
  query = λ u. [];
  encode = λ q. [];
  clean = λ p. p;
  join_host_port = λ h p. h ++ b':' ∷ p;
  to_string = λ u s h p q. s ++ (codes "://" ++ (h ++ p));
}

abbrev pub same_case : ℕ → ℕ
same_case c = c

abbrev pub request : SearchRequest
request = record {
  query = codes "go";
  providers = [];
  provider = [];
  request_id = codes "r1";
  limit = pos 2;
  page = pos 1;
  refresh = false;
  debug = false;
  region = [];
  filters = record { include_domains = []; exclude_domains = codes "b.com" ∷ [] };
  query_options = record {
    exact_phrases = codes "x y" ∷ [];
    any_terms = [];
    exclude_terms = [];
    title_terms = [];
    file_types = [];
  };
  provider_query = [];
  provider_page_token = [];
}

abbrev pub result_at : Text → SearchResult
result_at url = record {
  title = codes "t";
  url = url;
  canonical_url = [];
  domain = [];
  snippet = [];
  rank = 0;
  provider = [];
}

-- The second result is excluded, the third repeats the first.
abbrev pub given : List SearchResult
given =
    result_at (codes "A.com")
    ∷ result_at (codes "www.b.com")
    ∷ result_at (codes "a.com")
    ∷ result_at (codes "c.com")
    ∷ []

abbrev pub plain_meta : Meta
plain_meta = record {
  requested_provider = [];
  transport = TransportName.unset;
  strategy = BaiduStrategyName.unset;
  cached = false;
  degraded = false;
  fallback_count = 0;
  provider_fallback_count = 0;
  selected_provider = [];
  route_reason = RouteReason.unset;
  profile_id = [];
  provider_queue_ms = 0;
  took_ms = 0;
  request_id = [];
  cache_age_seconds = 0;
}

abbrev pub page : SearchResponse
page = record {
  query = codes "go";
  provider = codes "bing";
  results = given;
  meta = plain_meta;
  warnings = [];
  debug = none;
  stored_at = 0;
  pagination_known = false;
  next_page_token = [];
}

-- ===== src/Examples/Service.antt =====
-- Requests and answers of the search service.
use search_x.SearchPlan.Compiler.{compatible_providers}
use search_x.SearchPlan.Normalize.{normalize}
use search_x.Provider.Registry.{normalize_name, registered, get_provider, Registry}
use search_x.App.Choice.{select_provider-IsChoice, IsChoice}
use search_x.Prelude.Strings.{one_of, trim_space, to_lower, fields, join}
use search_x.App.Serving.{prepare_stale-set}
use search_x.Provider.Building.{new_chain-members}
use search_x.Provider.Fallback.{names}
use search_x.App.Acceptance.{normalize_request-IsAcceptable, IsAcceptable}
use search_x.Prelude.{
  ℕ, arith, ◌++◌, Distinct, none, ◌≢◌, All, false, ◌∷◌, some, true, refl, map, [], ◌≡◌,
}
use search_x.App.Responses.{stale_warning, cache_value, prepare_stale, live_response}
use search_x.App.Requests.{
  find_provider, find_members, Selected, select_provider, normalize_request,
}
use search_x.Provider.Chain.{check_members, new_chain}
use search_x.Domain.{SearchRequest, SearchResponse}
use search_x.Domain.Fallible.{ok}
use search_x.Domain.Errors.{plain}
use search_x.Prelude.Text.{codes, text_eq}
use search_x.Prelude.Int.{pos}
use search_x.Cache.Memory.{set, get_stale, Memory}
use search_x.Examples.Requests.{same_case, request, page}
use search_x.Examples.Answers.{failing, answering, both}

abbrev pub raw : SearchRequest
raw = record request {
  query = codes " go  lang ";
  provider = codes " Brave";
  limit = pos 0;
  region = codes "US";
}

abbrev pub accepted : SearchRequest
accepted = record request {
  query = codes "go lang";
  provider = codes "brave";
  limit = pos 10;
  region = codes "us";
}

pub accepts : normalize_request same_case raw ≡ ok accepted
unfolding normalize_request text_eq join fields to_lower trim_space normalize one_of normalize_name
    compatible_providers
accepts = refl

normalize_request-IsAcceptable_example : IsAcceptable accepted
normalize_request-IsAcceptable_example =
    normalize_request-IsAcceptable same_case raw accepted accepts

builds : new_chain (codes "auto") (some failing ∷ some answering ∷ []) ≡ ok both
unfolding new_chain check_members text_eq
builds = refl

new_chain-members_example :
    (codes "auto" ≡ codes "auto")
    × (map some both.members ≡ some failing ∷ some answering ∷ [])
    × All (λ n. n ≢ []) (names both.members)
    × Distinct (names both.members)
new_chain-members_example =
    new_chain-members (codes "auto") (some failing ∷ some answering ∷ []) both builds

abbrev pub empty_cache : Memory
empty_cache = record { entries = []; max_items = 1; fresh_ttl = 10; stale_ttl = 20 }

prepare_stale-set_example :
    let live = live_response (codes "auto") page in
    let serve = prepare_stale (codes "auto") (codes "r2") (plain (codes "down")) true 15 in
    (c : SearchResponse) × (get_stale false 15
        (codes "k")
        (set none 5 (codes "k") (cache_value live) empty_cache).0
      ≡ some c)
    × ((serve c).results ≡ live.results)
    × All (λ r. r.provider ≢ []) live.results
    × ((serve c).meta.cached ≡ true)
    × ((serve c).meta.degraded ≡ true)
    × ((serve c).warnings ≡ live.warnings ++ stale_warning ∷ [])
prepare_stale-set_example =
    prepare_stale-set 5 15 (codes "k") (codes "auto") (codes "r2") (plain (codes "down")) true page
      empty_cache (ground arith) (λ e. cc)

abbrev two_known : Registry ℕ
two_known = (codes "brave", failing) ∷ (codes "bing", answering) ∷ []

abbrev listing : SearchRequest
listing = record request { provider = []; providers = codes "brave" ∷ codes "Bing" ∷ [] }

chooses : select_provider same_case two_known listing ≡ ok (Selected.chained both, codes "auto")
unfolding select_provider find_members find_provider get_provider registered normalize_name text_eq
    to_lower trim_space new_chain
chooses = refl

select_provider-IsChoice_example :
    IsChoice same_case two_known listing (Selected.chained both, codes "auto")
select_provider-IsChoice_example =
    select_provider-IsChoice same_case two_known listing (Selected.chained both, codes "auto")
      chooses

-- ===== src/Examples/Flow.antt =====
-- A search that is asked twice.
use search_x.Prelude.Strings.{trim_space, to_lower}
use search_x.Domain.Attempts.{TransportName}
use search_x.Examples.Service.{accepts, raw, accepted, empty_cache}
use search_x.Examples.Requests.{page, same_case}
use search_x.Prelude.Text.{text_eq, codes}
use search_x.Examples.Answers.{brave_answering}
use search_x.Domain.{SearchResponse}
use search_x.Prelude.{arith, [], ◌∷◌, refl, some, true, none, ℕ, false, ◌≡◌}
use search_x.Provider.Registry.{normalize_name, registered, Registry, get_provider}
use search_x.Cache.Memory.{get_fresh, lookup, get}
use search_x.App.Again.{search_service-again}
use search_x.App.Flow.{
  Service, Surroundings, acquire_live, acquire_within, ask, fresh_in, is_canceled, search_service,
  take_slot, cache_key,
}
use search_x.App.Requests.{Selected, find_provider, select_provider, single_of, is_named}
use search_x.Domain.Fallible.{ok}

abbrev brave_known : Registry ℕ
brave_known = (codes "brave", brave_answering) ∷ []

-- The clock counts the calls.
abbrev around : Surroundings ℕ
around = record {
  unicode = same_case;
  registry = brave_known;
  fingerprint = λ r. codes "f";
  now = λ w. w;
  canceled = λ w. none;
  await_slot = λ s. (s, none);
  others = λ s. s;
}

abbrev idle : Service ℕ
idle = record {
  memory = empty_cache;
  live_slots = some 1;
  in_use = 0;
  queue_max = 2;
  queued = 0;
  world = 0;
}

abbrev busy : Service ℕ
busy = record idle { in_use = 1 }

abbrev later : Service ℕ
later = record idle { memory = (search_service around raw idle).0.memory; world = 9 }

selects :
    select_provider same_case brave_known accepted
    ≡ ok (Selected.single brave_answering, codes "brave")
unfolding select_provider single_of find_provider get_provider registered normalize_name to_lower
    trim_space text_eq is_named
selects = refl

absent : fresh_in around false (cache_key around accepted) idle ≡ none
unfolding fresh_in get_fresh get lookup is_canceled
absent = refl

free : acquire_live around idle ≡ (busy, none)
unfolding acquire_live acquire_within take_slot
free = refl

asked : (ask around (Selected.single brave_answering) accepted 0).1 ≡ ok page
unfolding ask
asked = refl

search_service-again_example :
    (first again : SearchResponse) × ((search_service around raw idle).1 ≡ ok first)
    × (search_service around raw later ≡ (later, ok again))
    × (again.results ≡ first.results)
    × (again.meta.cached ≡ true)
    × (again.meta.transport ≡ TransportName.fresh_cache)
    × (again.meta.request_id ≡ accepted.request_id)
search_service-again_example =
    search_service-again around raw accepted (Selected.single brave_answering) (codes "brave") idle
      busy later page (λ w. refl) accepts selects refl absent free asked refl (ground arith)

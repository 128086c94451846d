-- ===== src/App/Serving.antt =====
-- The answers that `Search` in `app/search_service.go` serves from the cache.
use search_x.Cache.Reads.{get-set}
use search_x.Domain.Errors.{as_search_error, SearchError, Error}
use search_x.Cache.Memory.{Memory, set, get_stale}
use search_x.Domain.Attempts.{ProviderName}
use search_x.App.Responses.{
  stale_warning, with_error, as_stale, annotate_result_providers, prepare_stale, cache_value,
  live_response, annotate_result,
}
use search_x.Prelude.{
  ◌∙◌, ◌++◌, true, some, none, false, Option, ◌+◌, ◌≤◌, Bool, ℕ, arith, refl, inr, inl, Bool-cases,
  ◌∷◌, ◌≡◌, map, All, ◌≢◌, List, [],
}
use search_x.Domain.{SearchResponse, SearchResult}
use search_x.Prelude.Text.{Text, text_eq_refl, text_eq}

attributed :
    (p : ProviderName) (rs : List SearchResult)
    → p ≢ []
    → All (λ r. r.provider ≢ []) (map (annotate_result p) rs)
unfolding annotate_result
attributed p [] n = tt
attributed p (r ∷ rs) n = (
  elim (Bool-cases (text_eq r.provider [])) [
    | inl b ↦ rw b n
    | inr b ↦ rw b (λ q. cc (b, q, text_eq_refl []))
  ],
  attributed p rs n,
)

annotate_result_again :
    (p : ProviderName) (r : SearchResult)
    → annotate_result p (annotate_result p r) ≡ annotate_result p r
unfolding annotate_result
annotate_result_again p r = elim (Bool-cases (text_eq r.provider [])) [
  | inl b ↦ rw b (ground arith)
  | inr b ↦ rw (b, b)
]

pub annotate_again :
    (p : ProviderName) (rs : List SearchResult)
    → map (annotate_result p) (map (annotate_result p) rs) ≡ map (annotate_result p) rs
annotate_again p [] = refl
annotate_again p (r ∷ rs) = cc (annotate_result_again p r, annotate_again p rs)

-- An error adds to the diagnostics alone.
served :
    (o : Option SearchError) (debug : Bool) (x : SearchResponse)
    → let s = annotate_result_providers (with_error debug o x) in
      (s.results ≡ map (annotate_result x.provider) x.results)
      × (s.meta.cached ≡ x.meta.cached)
      × (s.meta.degraded ≡ x.meta.degraded)
      × (s.warnings ≡ x.warnings)
unfolding annotate_result_providers with_error
served none debug x = (refl, refl, refl, refl)
served (some e) debug x = (refl, refl, refl, refl)

-- A live answer that was cached under a key is found as stale until its TTL is over, and what is
-- then served has the live results, each with a provider where the answer has one, is marked as
-- cached and degraded, and ends in the warning that the live search was not available.
pub prepare_stale-set :
    (now later : ℕ) (key : Text) (requested : ProviderName) (id : Text) (e : Error) (debug : Bool)
    (v : SearchResponse) (m : Memory)
    → later ≤ now + m.stale_ttl
    → v.provider ≢ []
    → let live = live_response requested v in
      (c : SearchResponse) × (get_stale false later key (set none now key (cache_value live) m).0
        ≡ some c)
      × ((prepare_stale requested id e debug later c).results ≡ live.results)
      × All (λ r. r.provider ≢ []) live.results
      × ((prepare_stale requested id e debug later c).meta.cached ≡ true)
      × ((prepare_stale requested id e debug later c).meta.degraded ≡ true)
      × ((prepare_stale requested id e debug later c).warnings
          ≡ live.warnings ++ stale_warning ∷ [])
unfolding live_response cache_value prepare_stale as_stale annotate_result_providers get_stale set
prepare_stale-set now later key requested id e debug v m le n =
    let live = live_response requested v in
    let c : SearchResponse = record live { debug = none; stored_at = now } in
    let (a, b, d, w) = served (as_search_error e) debug (as_stale requested id later c) in
    (
      c,
      get-set now later m.stale_ttl key (cache_value live) m le,
      a ∙ annotate_again v.provider v.results,
      attributed v.provider v.results n,
      b,
      d,
      w,
    )

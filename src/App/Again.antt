-- ===== src/App/Again.antt =====
-- A search that was answered live is answered from the cache the next time.
use search_x.App.Serving.{annotate_again}
use search_x.Cache.Reads.{get-set}
use search_x.Cache.Memory.{Memory, get_fresh, set}
use search_x.Prelude.Text.{Text}
use search_x.Prelude.{
  Option, some, true, ◌+◌, ◌≤◌, false, ◌∙◌, ap, refl, inr, inl, Option-cases, none, ◌≡◌,
}
use search_x.Domain.Attempts.{TransportName, ProviderName}
use search_x.App.Flow.{
  is_canceled, cache_key, search_with, search_normalized, search_service, with_cache_error,
  land_response, acquire_live, fresh_in, await_flight, with_slot, fly_from, give_slot, answer_from,
  use_outcome, ask, Service, search_live, Surroundings,
}
use search_x.App.Requests.{select_provider, normalize_request, Selected}
use search_x.App.Responses.{annotate_result_providers, prepare_fresh, cache_value, live_response}
use search_x.Domain.{SearchRequest, SearchResponse}
use search_x.Domain.Fallible.{ok}

module _ {W : Type 0} (env : Surroundings W) (n : SearchRequest) (selected : Selected W)
    (requested : ProviderName) (patient : (w : W) → env.canceled w ≡ none) where
  -- The service when the provider has answered.
  abbrev pub after_provider : Service W → Service W
  after_provider s = env.others (record s { world = (ask env selected n s.world).0 })

  abbrev stored_in : Text → SearchResponse → Service W → Memory
  stored_in key r s =
      (set none (env.now s.world) key (cache_value (live_response requested r)) s.memory).0

  use_outcome-ok :
      (key : Text) (s : Service W) (r : SearchResponse)
      → use_outcome env n requested key s (ok r)
        ≡ (record s { memory = stored_in key r s }, ok (live_response requested r))
  unfolding use_outcome set with_cache_error
  use_outcome-ok key s r = rw (patient s.world) refl

  -- A search that goes to the provider.
  search_live-ok :
      (key : Text) (s : Service W) (r : SearchResponse)
      → (ask env selected n s.world).1 ≡ ok r
      → search_live env n selected requested key s ≡ (
        give_slot env (record (after_provider s) { memory = stored_in key r (after_provider s) }),
        ok (live_response requested r),
      )
  unfolding search_live
  search_live-ok key s r a =
      rw (search_live, a)
        (ap (λ x. (give_slot env x.0, x.1)) (use_outcome-ok key (after_provider s) r))

  give_slot-memory : (s : Service W) → (give_slot env s).memory ≡ s.memory
  unfolding give_slot
  give_slot-memory s = elim (Option-cases s.live_slots) [
    | inl a ↦ rw (give_slot, a) refl
    | inr (k, a) ↦ rw (give_slot, a) refl
  ]

  module _ (key : Text) (s u : Service W) (r : SearchResponse)
      (absent : fresh_in env n.refresh key s ≡ none) (free : acquire_live env s ≡ (u, none))
      (answered : (ask env selected n u.world).1 ≡ ok r) where
    -- The service after the search.
    abbrev pub left : Service W
    left = give_slot env (record (after_provider u) { memory = stored_in key r (after_provider u) })

    fly_from-ok :
        fly_from env (fresh_in env n.refresh key s) n selected requested key s
        ≡ (left, ok (live_response requested r))
    unfolding fly_from
    fly_from-ok =
        ap (λ o. fly_from env o n selected requested key s) absent
        ∙ ap (λ x. with_slot env n selected requested key x) free
        ∙ with_slot-none
      where
        with_slot-none :
            with_slot env n selected requested key (u, none)
            ≡ (left, ok (live_response requested r))
        with_slot-none = unfold with_slot in search_live-ok key u r answered

    -- The whole search, where the cache has nothing and there is a slot.
    pub answer_from-live :
        answer_from env (fresh_in env n.refresh key s) n selected requested key s ≡ (
          left,
          ok (
              land_response env n
                (env.now s.world)
                (env.now left.world)
                (live_response requested r)),
        )
    unfolding answer_from
    answer_from-live =
        ap (λ o. answer_from env o n selected requested key s) absent
        ∙ ap (λ x. await_flight env (env.canceled x.0.world) n (env.now s.world) x) fly_from-ok
        ∙ landed
      where
        landed :
            await_flight env
              (env.canceled left.world)
              n
              (env.now s.world)
              (left, ok (live_response requested r))
            ≡ (
              left,
              ok (
                  land_response env n
                    (env.now s.world)
                    (env.now left.world)
                    (live_response requested r)),
            )
        landed = unfold await_flight in rw (patient left.world) refl

    fresh_again :
        (v : Service W)
        → v.memory ≡ left.memory
        → env.now v.world ≤ env.now (after_provider u).world + (after_provider u).memory.fresh_ttl
        → fresh_in env false key v
          ≡ some (record (cache_value (live_response requested r)) {
            stored_at = env.now (after_provider u).world;
          })
    fresh_again v same soon = looked ∙ ap look (same ∙ give_slot-memory _) ∙ found
      where
        look : Memory → Option SearchResponse
        look m = get_fresh false (env.now v.world) key m

        looked : fresh_in env false key v ≡ look v.memory
        looked = unfold fresh_in is_canceled in rw (patient v.world) refl

        found :
            look (stored_in key r (after_provider u))
            ≡ some (record (cache_value (live_response requested r)) {
              stored_at = env.now (after_provider u).world;
            })
        found =
            unfold get_fresh set in
            get-set (env.now (after_provider u).world) (env.now v.world)
              (after_provider u).memory.fresh_ttl key (cache_value (live_response requested r))
              (after_provider u).memory soon

    -- The same search again, from the cache.
    pub answer_from-again :
        (v : Service W)
        → n.refresh ≡ false
        → v.memory ≡ left.memory
        → env.now v.world ≤ env.now (after_provider u).world + (after_provider u).memory.fresh_ttl
        → answer_from env (fresh_in env n.refresh key v) n selected requested key v ≡ (
          v,
          ok (
              prepare_fresh requested n.request_id
                (env.now v.world)
                (env.now v.world)
                (record (cache_value (live_response requested r)) {
                  stored_at = env.now (after_provider u).world;
                })),
        )
    unfolding answer_from
    answer_from-again v refreshed same soon =
        ap (λ b. answer_from env (fresh_in env b key v) n selected requested key v) refreshed
        ∙ ap (λ o. answer_from env o n selected requested key v) (fresh_again v same soon)

-- A caller that is never canceled, and whose request does not ask for a refresh: where the cache has
-- nothing, a slot is free and the provider answers, the search returns an answer; and the same search
-- again, with the cache as the first one left it and while the entry is fresh, changes nothing, so that no
-- provider is asked, and returns the same results, marked as cached and under its own request id.
pub search_service-again :
    {W : Type 0} (env : Surroundings W) (request n : SearchRequest) (selected : Selected W)
    (requested : ProviderName) (s u v : Service W) (r : SearchResponse)
    (patient : (w : W) → env.canceled w ≡ none)
    → normalize_request env.unicode request ≡ ok n
    → select_provider env.unicode env.registry n ≡ ok (selected, requested)
    → n.refresh ≡ false
    → fresh_in env n.refresh (cache_key env n) s ≡ none
    → acquire_live env s ≡ (u, none)
    → (ask env selected n u.world).1 ≡ ok r
    → v.memory ≡ (search_service env request s).0.memory
    → env.now v.world
      ≤ env.now (env.others (record u { world = (ask env selected n u.world).0 })).world
        + (env.others (record u { world = (ask env selected n u.world).0 })).memory.fresh_ttl
    → (first again : SearchResponse) × ((search_service env request s).1 ≡ ok first)
      × (search_service env request v ≡ (v, ok again))
      × (again.results ≡ first.results)
      × (again.meta.cached ≡ true)
      × (again.meta.transport ≡ TransportName.fresh_cache)
      × (again.meta.request_id ≡ n.request_id)
unfolding search_service search_normalized search_with land_response prepare_fresh cache_value
    live_response annotate_result_providers
search_service-again env request n selected requested s u v r patient a b c d e f g h =
    let fetched = after_provider env n selected requested patient u in
    let after = left env n selected requested patient (cache_key env n) s u r d e f in
    let run = answer_from-live env n selected requested patient (cache_key env n) s u r d e f in
    let started = ap (λ x. search_normalized env x s) a ∙ ap (λ x. search_with env n x s) b ∙ run in
    let later =
      answer_from-again env n selected requested patient (cache_key env n) s u r d e f v c
        (g ∙ ap (λ x. x.0.memory) started) h in
    (
      land_response env n (env.now s.world) (env.now after.world) (live_response requested r),
      prepare_fresh requested n.request_id (env.now v.world) (env.now v.world)
          (record (cache_value (live_response requested r)) { stored_at = env.now fetched.world }),
      ap (λ x. x.1) started,
      ap (λ x. search_normalized env x v) a ∙ ap (λ x. search_with env n x v) b ∙ later,
      annotate_again r.provider r.results,
      refl,
      refl,
      refl,
    )

-- ===== src/WebFetch/Answering.antt =====
-- The responses of `Read` to a normalized request.
use search_x.WebFetch.Origins.{Origin, LookedFor, Wanted, IsSource, Good, format_response-Good}
use search_x.WebFetch.Accepted.{read_live-Live, Live, IsLive, FailedAfter}
use search_x.WebFetch.Live.{read_live}
use search_x.WebFetch.Extraction.{LiveReadResult}
use search_x.WebFetch.Failures.{plain_attempt, attempts_from_read_error, Failure, fail, ok, Outcome}
use search_x.WebFetch.Types.{ReadDocument, ReadStage, ReadAttempt, ReadRequest}
use search_x.WebFetch.Service.{
  cached_result, prepare, land, await, fly_from, land_stale, after_policy, after_strategy,
  read_from, note_cache, fresh_unless, fly, store_live,
}
use search_x.WebFetch.Formatting.{is_fresh_cache, from_stale, from_live, from_fresh}
use search_x.WebFetch.Pipeline.{key_of, SafeTarget, Pipeline}
use search_x.Prelude.{
  ap, inr, inl, Option-cases, false, none, some, true, Option, Bool, List, refl, [], ◌∷◌, ◌≡◌, ℕ,
}
use search_x.Prelude.Text.{Text}

module _ {S : Type 0} (env : Pipeline S) where
  -- A result of the flight.
  abbrev Flown : Bool → Outcome LiveReadResult → Type 0
  Flown debug (ok r) = IsSource env debug (from_live r)
  Flown false (fail f) = Unit
  Flown true (fail f) =
      (policy : ReadAttempt) × (policy.stage ≡ ReadStage.policy)
      × FailedAfter env (policy ∷ []) (attempts_from_read_error f)

  note_cache-Flown :
      (debug : Bool) (p : ReadAttempt) (r : LiveReadResult) (err : Option Failure)
      → p.stage ≡ ReadStage.policy
      → IsLive env (p ∷ []) r
      → IsSource env debug (from_live (note_cache env r err))
  unfolding note_cache from_live plain_attempt
  note_cache-Flown debug p r err h l = record { origin = origin err; complete = complete debug err }
    where
      origin : (e : Option Failure) → Origin env (from_live (note_cache env r e))
      origin none =
          Origin.live l.resource l.accepted_action l.transported (ap is_fresh_cache l.transported)
            refl
      origin (some f) =
          Origin.live l.resource l.accepted_action l.transported (ap is_fresh_cache l.transported)
            refl

      complete : (d : Bool) (e : Option Failure) → Wanted env d (from_live (note_cache env r e))
      complete false e = tt
      complete true none = (p, h, LookedFor.found l.remembered refl)
      complete true (some f) = (p, h, LookedFor.not_stored r.attempts _ l.remembered refl refl refl)

  store_live-Flown :
      (debug : Bool) (key : Text) (p : ReadAttempt) (r : S × Outcome LiveReadResult)
      → p.stage ≡ ReadStage.policy
      → Live env (p ∷ []) r.1
      → Flown debug (store_live env key r).1
  unfolding store_live
  store_live-Flown false key p (s, fail f) h l = tt
  store_live-Flown true key p (s, fail f) h l = (p, h, l)
  store_live-Flown debug key p (s, ok r) h l =
      note_cache-Flown debug p r (env.set key r.document s).1 h l

  -- Nothing is wanted of a page from the cache, which is asked only without diagnostics.
  from_fresh-IsSource :
      (debug : Bool) (key : Text) (s : S) (d : ReadDocument) (attempts : List ReadAttempt)
      → env.get_fresh key s ≡ some d
      → debug ≡ false
      → IsSource env debug (from_fresh d attempts)
  unfolding from_fresh
  from_fresh-IsSource false key s d attempts h k = record {
    origin = Origin.fresh key s h refl refl refl;
    complete = tt;
  }
  from_fresh-IsSource true key s d attempts h k = absurd (cc)

  cached_result-IsSource :
      (debug : Bool) (key : Text) (s : S) (d : ReadDocument)
      → env.get_fresh key s ≡ some d
      → debug ≡ false
      → IsSource env debug (from_live (cached_result env d))
  unfolding from_live cached_result is_fresh_cache
  cached_result-IsSource false key s d h k = record {
    origin = Origin.fresh key s h refl refl refl;
    complete = tt;
  }
  cached_result-IsSource true key s d h k = absurd (cc)

  -- What the fresh cache gives, it gives to a request without diagnostics.
  abbrev Given : Bool → Option ReadDocument → Type 0
  Given debug none = Unit
  Given debug (some d) = (key : Text) × (s : S) × (env.get_fresh key s ≡ some d) × (debug ≡ false)

  fresh_unless-Given :
      (debug refresh : Bool) (key : Text) (s : S)
      → (debug ≡ true → refresh ≡ true)
      → Given debug (fresh_unless env refresh key s)
  unfolding fresh_unless
  fresh_unless-Given debug true key s k = tt
  fresh_unless-Given debug false key s k = elim (Option-cases (env.get_fresh key s)) [
    | inl a ↦ rw a tt
    | inr (d, a) ↦ rw a (key, s, a, unwanted debug k)
  ]
    where
      unwanted : (b : Bool) → (b ≡ true → false ≡ true) → b ≡ false
      unwanted false h = refl
      unwanted true h = absurd (cc (h refl))

  fly_from-Flown :
      (debug : Bool) (o : Option ReadDocument) (target : SafeTarget) (p : ReadAttempt) (s : S)
      → Given debug o
      → p.stage ≡ ReadStage.policy
      → Flown debug (fly_from env o target p s).1
  unfolding fly_from
  fly_from-Flown debug (some d) target p s (key, t, a, k) h =
      cached_result-IsSource debug key t d a k
  fly_from-Flown debug none target p s k h =
      store_live-Flown debug (key_of target) p (read_live env target p s) h
        (read_live-Live env target p s)

  from_stale-IsSource :
      (debug : Bool) (key : Text) (s : S) (d : ReadDocument) (f : Failure)
      → env.get_stale key s ≡ some d
      → Flown debug (fail f)
      → IsSource env debug (from_stale d f)
  unfolding from_stale
  from_stale-IsSource false key s d f a h = record {
    origin = Origin.stale key s a refl refl refl;
    complete = tt;
  }
  from_stale-IsSource true key s d f a (p, h, l) = record {
    origin = Origin.stale key s a refl refl refl;
    complete = (p, h, LookedFor.failed l refl);
  }

  land_stale-Good :
      (request : ReadRequest) (key : Text) (u : S) (f : Failure) (d : Option ReadDocument) (n : ℕ)
      (s : S)
      → env.get_stale key u ≡ d
      → Flown request.debug (fail f)
      → Good env request (land_stale env request f d n s).1
  unfolding land_stale
  land_stale-Good request key u f none n s a h = tt
  land_stale-Good request key u f (some d) n s a h =
      format_response-Good env request (from_stale d f) n s
        (from_stale-IsSource request.debug key u d f a h)

  await-Good :
      (ended : Option Failure) (request : ReadRequest) (key : Text)
      (flight : Outcome LiveReadResult) (n : ℕ) (s : S)
      → Flown request.debug flight
      → Good env request (await env ended request key flight n s).1
  unfolding await land
  await-Good (some f) request key flight n s h = tt
  await-Good none request key (ok r) n s h = format_response-Good env request (from_live r) n s h
  await-Good none request key (fail f) n s h =
      land_stale-Good request key s f (env.get_stale key s) n s refl h

  read_from-Good :
      (o : Option ReadDocument) (request : ReadRequest) (target : SafeTarget) (p : ReadAttempt)
      (n : ℕ) (s : S)
      → (request.debug ≡ true → request.refresh ≡ true)
      → Given request.debug o
      → p.stage ≡ ReadStage.policy
      → Good env request (read_from env o request target p n s).1
  unfolding read_from fly
  read_from-Good (some d) request target p n s k (key, t, a, b) h =
      format_response-Good env request (from_fresh d (p ∷ [])) n s
        (from_fresh-IsSource request.debug key t d (p ∷ []) a b)
  read_from-Good none request target p n s k g h =
      await-Good (env.ended (fly env request.refresh target p s).0) request (key_of target)
        (fly env request.refresh target p s).1 n (fly env request.refresh target p s).0
        (fly_from-Flown request.debug (fresh_unless env request.refresh (key_of target) s) target p
          s (fresh_unless-Given request.debug request.refresh (key_of target) s k) h)

  after_strategy-Good :
      (request : ReadRequest) (p : ReadAttempt) (n : ℕ) (r : S × Outcome SafeTarget)
      → (request.debug ≡ true → request.refresh ≡ true)
      → p.stage ≡ ReadStage.policy
      → Good env request (after_strategy env request p n r).1
  unfolding after_strategy
  after_strategy-Good request p n (s, fail f) k h = tt
  after_strategy-Good request p n (s, ok target) k h =
      read_from-Good (fresh_unless env request.refresh (key_of target) s) request target p n s k
        (fresh_unless-Given request.debug request.refresh (key_of target) s k) h

  pub after_policy-Good :
      (request : ReadRequest) (p : ReadAttempt) (n : ℕ) (r : S × Outcome SafeTarget)
      → (request.debug ≡ true → request.refresh ≡ true)
      → p.stage ≡ ReadStage.policy
      → Good env request (after_policy env request p n r).1
  unfolding after_policy
  after_policy-Good request p n (s, fail f) k h = tt
  after_policy-Good request p n (s, ok target) k h = elim (Option-cases target.url) [
    | inl a ↦ rw (after_policy, a) tt
    | inr (u, a) ↦
        rw (after_policy, a)
          (after_strategy-Good request p n (prepare env (env.resolve_strategy target) target s) k h)
  ]

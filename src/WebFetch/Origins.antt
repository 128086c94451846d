-- ===== src/WebFetch/Origins.antt =====
-- Where the page of a response of `Read` comes from, and what its diagnostics have.
use search_x.WebFetch.Accepted.{AcceptedAfter, FailedAfter}
use search_x.WebFetch.Truncation.{truncate_content_le}
use search_x.WebFetch.Failures.{plain_attempt, fail, ok, Outcome}
use search_x.WebFetch.Types.{
  QualityAction, Resource, ReadTransport, FormattedContent, ReadStage, ReadResponse, ReadDebug,
  ReadAttempt, ReadRequest,
}
use search_x.WebFetch.Formatting.{
  is_fresh_cache, debug_of, convert_with, format_response, Source, finish_convert, respond,
}
use search_x.WebFetch.Pipeline.{ContentConverter, Pipeline}
use search_x.Prelude.{
  false, none, some, true, Option, Bool, List, refl, [], ◌∷◌, ◌≡◌, ◌≤◌, ◌++◌, length, ℕ,
}
use search_x.Prelude.Text.{Text}
use search_x.WebFetch.Requests.{at_least_zero}

module _ {S : Type 0} (env : Pipeline S) where
  -- Where the page of a response comes from, with the marks that it carries: the fresh cache; the stale
  -- cache, which alone makes it degraded; or a reader, where the evaluator accepted the page.
  pub data Origin (x : Source) : Type 0 where
    fresh :
        (key : Text) (s : S)
        → env.get_fresh key s ≡ some x.document
        → x.transport ≡ ReadTransport.fresh_cache
        → x.cached ≡ true
        → x.degraded ≡ false
        → Origin x
    stale :
        (key : Text) (s : S)
        → env.get_stale key s ≡ some x.document
        → x.transport ≡ ReadTransport.stale_cache
        → x.cached ≡ true
        → x.degraded ≡ true
        → Origin x
    live :
        (resource : Resource)
        → (env.evaluate x.document resource).action ≡ QualityAction.accept
        → x.transport ≡ resource.transport
        → x.cached ≡ is_fresh_cache resource.transport
        → x.degraded ≡ false
        → Origin x

  -- The attempts of a page that was looked for: those of a live read that was accepted, which may
  -- be followed by one at the cache that refused the page, or those of a live read that failed.
  pub data LookedFor (policy : ReadAttempt) (x : Source) : Type 0 where
    found :
        AcceptedAfter env (policy ∷ []) x.fallback_count x.attempts
        → x.degraded ≡ false
        → LookedFor policy x
    not_stored :
        (attempts : List ReadAttempt) (a : ReadAttempt)
        → AcceptedAfter env (policy ∷ []) x.fallback_count attempts
        → a.stage ≡ ReadStage.cache
        → x.attempts ≡ attempts ++ a ∷ []
        → x.degraded ≡ false
        → LookedFor policy x
    failed : FailedAfter env (policy ∷ []) x.attempts → x.degraded ≡ true → LookedFor policy x

  -- The diagnostics begin with the attempt at the policy, have every attempt that was made for the
  -- page and end with the one at the conversion.
  pub record IsComplete (x : Source) (d : ReadDebug) : Type 0 where
    pub policy : ReadAttempt
    pub at_policy : policy.stage ≡ ReadStage.policy
    pub looked_for : LookedFor policy x
    pub conversion : ReadAttempt
    pub at_conversion : conversion.stage ≡ ReadStage.convert
    pub all : d.attempts ≡ x.attempts ++ conversion ∷ []

  abbrev pub HasDiagnostics : Bool → Source → Option ReadDebug → Type 0
  HasDiagnostics false x d = d ≡ none
  HasDiagnostics true x none = ⊥
  HasDiagnostics true x (some d) = IsComplete x d

  -- A response to a normalized request.
  pub record IsResponse (request : ReadRequest) (r : ReadResponse) : Type 0 where
    pub bounded : length r.content ≤ at_least_zero request.max_chars
    pub counted : r.content_length ≡ length r.content
    pub echoed : (r.url ≡ request.url) × (r.meta.request_id ≡ request.request_id)
    pub source : Source
    pub origin : Origin source
    pub page :
        (r.final_url ≡ source.document.final_url)
        × (r.title ≡ source.document.title)
        × (r.status_code ≡ source.document.status_code)
    pub marks :
        (r.meta.transport ≡ source.transport)
        × (r.meta.cached ≡ source.cached)
        × (r.meta.degraded ≡ source.degraded)
        × (r.meta.fallback_count ≡ source.fallback_count)
    pub diagnostics : HasDiagnostics request.debug source r.debug

  abbrev pub Good : ReadRequest → Outcome ReadResponse → Type 0
  Good request (ok r) = IsResponse request r
  Good request (fail f) = Unit

  -- Where diagnostics are wanted, the page was looked for after the attempt at the policy.
  abbrev pub Wanted : Bool → Source → Type 0
  Wanted false x = Unit
  Wanted true x = (policy : ReadAttempt) × (policy.stage ≡ ReadStage.policy) × LookedFor policy x

  pub record IsSource (debug : Bool) (x : Source) : Type 0 where
    pub origin : Origin x
    pub complete : Wanted debug x

  debug_of-HasDiagnostics :
      (debug : Bool) (x : Source) (a : ReadAttempt)
      → a.stage ≡ ReadStage.convert
      → Wanted debug x
      → HasDiagnostics debug x (debug_of debug (x.attempts ++ a ∷ []))
  unfolding debug_of
  debug_of-HasDiagnostics false x a k h = refl
  debug_of-HasDiagnostics true x a k (policy, e, h) = record {
    policy = policy;
    at_policy = e;
    looked_for = h;
    conversion = a;
    at_conversion = k;
    all = refl;
  }

  respond-IsResponse :
      (request : ReadRequest) (x : Source) (a : ReadAttempt) (f : FormattedContent) (from to : ℕ)
      → a.stage ≡ ReadStage.convert
      → IsSource request.debug x
      → IsResponse request (respond request x (x.attempts ++ a ∷ []) f from to)
  unfolding respond
  respond-IsResponse request x a f from to k h = record {
    bounded = truncate_content_le f.content request.max_chars;
    counted = refl;
    echoed = (refl, refl);
    source = x;
    origin = h.origin;
    page = (refl, refl, refl);
    marks = (refl, refl, refl, refl);
    diagnostics = debug_of-HasDiagnostics request.debug x a k h.complete;
  }

  finish_convert-Good :
      (request : ReadRequest) (x : Source) (a : ReadAttempt) (n : ℕ) (t : S)
      (c : Outcome FormattedContent)
      → a.stage ≡ ReadStage.convert
      → IsSource request.debug x
      → Good request (finish_convert env request x a n t c)
  unfolding finish_convert
  finish_convert-Good request x a n t (ok f) k h =
      respond-IsResponse request x a f n (env.now t) k h
  finish_convert-Good request x a n t (fail f) k h = tt

  convert_with-Good :
      (request : ReadRequest) (x : Source) (n : ℕ) (s : S) (c : Outcome (ContentConverter S))
      → IsSource request.debug x
      → Good request (convert_with env request x n s c).1
  unfolding convert_with plain_attempt
  convert_with-Good request x n s (fail f) h = tt
  convert_with-Good request x n s (ok c) h =
      finish_convert-Good request x _ n _ (c.convert x.document s).1 refl h

  pub format_response-Good :
      (request : ReadRequest) (x : Source) (n : ℕ) (s : S)
      → IsSource request.debug x
      → Good request (format_response env request x n s).1
  unfolding format_response
  format_response-Good request x n s h =
      convert_with-Good request x n s (env.resolve_converter request.format) h

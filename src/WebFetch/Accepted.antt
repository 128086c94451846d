-- ===== src/WebFetch/Accepted.antt =====
-- What `readLive` returns was accepted by the evaluator, and nothing that was tried is forgotten.
use mathlib.Core.Path.{subst}
use search_x.WebFetch.Pipeline.{ResourceReader, SafeTarget, Pipeline}
use search_x.Prelude.{
  sym, ◌⊎◌, none, some, Bool-cases, [], Option, inl, inr, ℕ, ◌∷◌, refl, ◌++◌, ◌≡◌, List,
}
use search_x.WebFetch.Live.{
  settle_page, settle_rendered, render_page, quality_attempt, judge_page, recover, after_page,
  accepted, judge_rendered, read_rendered, read_live,
}
use search_x.WebFetch.Extraction.{Extracted, read_and_extract, LiveReadResult}
use search_x.WebFetch.Failures.{
  plain_attempt, browser_fallback_eligible, fail, ok, Outcome, Failure, attempts_from_read_error,
}
use search_x.WebFetch.Types.{ReadStage, Resource, QualityResult, QualityAction, ReadAttempt}
use search_x.WebFetch.Diagnostics.{
  Grows, Grows-snoc, FailedReading, Reading, attempts-failing, attempts-quality_rejection,
  extracted_stages, read_and_extract-Reading,
}

-- The stages of a page that was read, extracted and judged.
abbrev pub judged_stages : List ReadStage
judged_stages = extracted_stages ++ ReadStage.quality ∷ []

-- A page that was judged, or a reading that failed.
abbrev pub AfterTry : List ReadAttempt → List ReadAttempt → Type 0
AfterTry before after = Grows before judged_stages after ⊎ FailedReading before after

module _ {S : Type 0} (env : Pipeline S) (first : List ReadAttempt) where
  -- The attempts of a page that was accepted: those of its reading and its judgement, after those of one
  -- earlier try if it was rendered as a fallback.
  abbrev pub AcceptedAfter : ℕ → List ReadAttempt → Type 0
  AcceptedAfter n after =
      ((n ≡ 0) × Grows first judged_stages after)
      ⊎ ((n ≡ 1)
          × ((middle : List ReadAttempt) × AfterTry first middle
              × Grows middle judged_stages after))

  -- The attempts of a failure: those of one try, or of two.
  abbrev pub FailedAfter : List ReadAttempt → Type 0
  FailedAfter after =
      AfterTry first after
      ⊎ ((middle : List ReadAttempt) × AfterTry first middle × AfterTry middle after)

  -- A live page: accepted by the evaluator as it was fetched, with at most one fallback.
  pub record IsLive (r : LiveReadResult) : Type 0 where
    pub resource : Resource
    pub accepted_action : (env.evaluate r.document resource).action ≡ QualityAction.accept
    pub transported : r.transport ≡ resource.transport
    pub remembered : AcceptedAfter r.fallback_count r.attempts

  abbrev pub Live : Outcome LiveReadResult → Type 0
  Live (ok r) = IsLive r
  Live (fail f) = FailedAfter (attempts_from_read_error f)

  accepted-IsLive :
      (n : ℕ) (x : Extracted) (attempts : List ReadAttempt)
      → AcceptedAfter n attempts
      → (env.evaluate x.document x.resource).action ≡ QualityAction.accept
      → IsLive (accepted env n attempts x)
  unfolding accepted
  accepted-IsLive n x attempts h e = record {
    resource = x.resource;
    accepted_action = e;
    transported = refl;
    remembered = h;
  }

  settle_rendered-Live :
      (a : QualityAction) (x : Extracted) (middle attempts : List ReadAttempt)
      → AfterTry first middle
      → Grows middle judged_stages attempts
      → (env.evaluate x.document x.resource).action ≡ a
      → Live (settle_rendered env a (env.evaluate x.document x.resource) attempts x)
  unfolding settle_rendered
  settle_rendered-Live QualityAction.accept x middle attempts t h e =
      accepted-IsLive 1 x attempts (inr (refl, (middle, t, h))) e
  settle_rendered-Live _ x middle attempts t h e =
      subst FailedAfter
        (sym (attempts-quality_rejection attempts (env.evaluate x.document x.resource) _ _))
        (inr (middle, t, inl h))

  quality-Grows :
      (before : List ReadAttempt) (x : Extracted) (q : QualityResult)
      → Grows before extracted_stages x.attempts
      → Grows before judged_stages (x.attempts ++ quality_attempt env x q ∷ [])
  unfolding quality_attempt plain_attempt
  quality-Grows before x q h = Grows-snoc before x.attempts extracted_stages _ h

  judge_rendered-Live :
      (middle : List ReadAttempt) (x : Outcome Extracted)
      → AfterTry first middle
      → Reading env middle x
      → Live (judge_rendered env x)
  unfolding judge_rendered
  judge_rendered-Live middle (fail f) t h = inr (middle, t, inr h)
  judge_rendered-Live middle (ok x) t h =
      settle_rendered-Live _ x middle _ t
        (quality-Grows middle x (env.evaluate x.document x.resource) h) refl

  read_rendered-Live :
      (browser : ResourceReader S) (target : SafeTarget) (attempts : List ReadAttempt) (s : S)
      → AfterTry first attempts
      → Live (read_rendered env browser target attempts s).1
  unfolding read_rendered
  read_rendered-Live browser target attempts s t =
      judge_rendered-Live attempts (read_and_extract env browser target attempts s).1 t
        (read_and_extract-Reading env attempts browser target s)

  recover-Live :
      (browser : Option (ResourceReader S)) (target : SafeTarget) (f : Failure) (s : S)
      → FailedReading first (attempts_from_read_error f)
      → Live (recover env browser target f s).1
  unfolding recover
  recover-Live none target f s h = inl (inr h)
  recover-Live (some b) target f s h = elim (Bool-cases (browser_fallback_eligible f)) [
    | inl c ↦ rw c (read_rendered-Live b target (attempts_from_read_error f) s (inr h))
    | inr c ↦ rw c (inl (inr h))
  ]

  render_page-Live :
      (browser : Option (ResourceReader S)) (target : SafeTarget) (q : QualityResult)
      (attempts : List ReadAttempt) (s : S)
      → Grows first judged_stages attempts
      → Live (render_page env browser target q attempts s).1
  unfolding render_page
  render_page-Live none target q attempts s h =
      subst FailedAfter (sym (attempts-failing attempts _ _ _ _)) (inl (inl h))
  render_page-Live (some b) target q attempts s h = read_rendered-Live b target attempts s (inl h)

  settle_page-Live :
      (a : QualityAction) (target : SafeTarget) (x : Extracted) (attempts : List ReadAttempt)
      (s : S)
      → Grows first judged_stages attempts
      → (env.evaluate x.document x.resource).action ≡ a
      → Live (settle_page env a target (env.evaluate x.document x.resource) attempts x s).1
  unfolding settle_page
  settle_page-Live QualityAction.accept target x attempts s h e =
      accepted-IsLive 0 x attempts (inl (refl, h)) e
  settle_page-Live QualityAction.render target x attempts s h e =
      render_page-Live env.browser_reader target _ attempts s h
  settle_page-Live QualityAction.reject target x attempts s h e =
      subst FailedAfter
        (sym (attempts-quality_rejection attempts (env.evaluate x.document x.resource) _ _))
        (inl (inl h))

  after_page-Live :
      (target : SafeTarget) (r : S × Outcome Extracted)
      → Reading env first r.1
      → Live (after_page env target r).1
  unfolding after_page judge_page
  after_page-Live target (s, fail f) h = recover-Live env.browser_reader target f s h
  after_page-Live target (s, ok x) h =
      settle_page-Live _ target x _ s (quality-Grows first x (env.evaluate x.document x.resource) h)
        refl

pub read_live-Live :
    {S : Type 0} (env : Pipeline S) (target : SafeTarget) (policy : ReadAttempt) (s : S)
    → Live env (policy ∷ []) (read_live env target policy s).1
unfolding read_live
read_live-Live env target policy s =
    after_page-Live env (policy ∷ []) target
      (read_and_extract env env.http_reader target (policy ∷ []) s)
      (read_and_extract-Reading env (policy ∷ []) env.http_reader target s)

-- ===== src/WebFetch/Diagnostics.antt =====
-- The attempts that `readAndExtract` adds on every path.
use mathlib.Core.Path.{subst}
use search_x.WebFetch.Pipeline.{ContentExtractor, ResourceReader, SafeTarget, Pipeline}
use mathlib.Core.List.{append-nil, append_assoc}
use search_x.Prelude.Text.{codes, Text}
use search_x.Prelude.{
  sym, refl, map, none, false, true, some, [], Option, inl, inr, ◌∷◌, Option-cases, Bool, ◌∙◌, ap,
  ◌++◌, ◌≡◌, List,
}
use search_x.WebFetch.Extraction.{
  extract_class, failed_attempt, extract_by, extract_with, detect_and_extract, Extracted,
  read_and_extract, finish_extract, resolve_and_extract, after_read, quality_rejection,
  extract_failure, read_failure, failing,
}
use search_x.WebFetch.Failures.{
  read_error_description, plain_attempt, read_error_code, fail, as_read_error, ok, Outcome, Failure,
  attempts_from_read_error,
}
use search_x.WebFetch.Types.{
  ReadStage, ReadDocument, SourceType, ImplementationName, ReadClassification, Resource,
  QualityResult, ErrorCode, ReadAttempt,
}

-- The attempts are those before, and then one attempt of each of the stages, in order.
abbrev pub Grows : List ReadAttempt → List ReadStage → List ReadAttempt → Type 0
Grows before stages after =
    (rest : List ReadAttempt) × (after ≡ before ++ rest) × (map (λ a. a.stage) rest ≡ stages)

pub Grows-snoc :
    (before xs : List ReadAttempt) (stages : List ReadStage) (a : ReadAttempt)
    → Grows before stages xs
    → Grows before (stages ++ a.stage ∷ []) (xs ++ a ∷ [])
Grows-snoc before xs stages a (rest, e, g) = (
  rest ++ a ∷ [],
  ap (λ x. x ++ a ∷ []) e ∙ append_assoc before rest (a ∷ []),
  map-append rest (a ∷ []) ∙ ap (λ x. x ++ a.stage ∷ []) g,
)
  where
    map-append :
        (xs ys : List ReadAttempt)
        → map (λ (b : ReadAttempt). b.stage) (xs ++ ys)
          ≡ map (λ (b : ReadAttempt). b.stage) xs ++ map (λ (b : ReadAttempt). b.stage) ys
    map-append [] ys = refl
    map-append (x ∷ xs) ys = ap (λ z. x.stage ∷ z) (map-append xs ys)

-- The stages of a page that was read and extracted.
abbrev pub extracted_stages : List ReadStage
extracted_stages = ReadStage.read ∷ ReadStage.detect ∷ ReadStage.extract ∷ []

-- A reading that fails: at the reader, which may have attempts of its own to add, at the detection or
-- for want of an extractor, or at the extraction.
pub data FailedReading (before after : List ReadAttempt) : Type 0 where
  at_reader :
      (a : ReadAttempt) (own : List ReadAttempt)
      → a.stage ≡ ReadStage.read
      → after ≡ before ++ a ∷ own
      → FailedReading before after
  at_detector :
      Grows before (ReadStage.read ∷ ReadStage.detect ∷ []) after → FailedReading before after
  at_extractor : Grows before extracted_stages after → FailedReading before after

attempts-read_failure :
    (attempts : List ReadAttempt) (f : Failure)
    → (own : List ReadAttempt) × (attempts_from_read_error (read_failure f attempts)
        ≡ attempts ++ own)
unfolding read_failure attempts_from_read_error
attempts-read_failure attempts f = elim (Option-cases (as_read_error f)) [
  | inr (e, a) ↦ (e.attempts, rw (read_failure, a) refl)
  | inl a ↦ ([], rw (read_failure, a) (sym (append-nil attempts)))
]

pub attempts-failing :
    (attempts : List ReadAttempt) (c : ErrorCode) (m : Text) (r : Bool) (f : Failure)
    → attempts_from_read_error (failing c m r f attempts) ≡ attempts
unfolding failing attempts_from_read_error
attempts-failing attempts c m r f = refl

attempts-extract_failure :
    (attempts : List ReadAttempt) (c : ErrorCode) (f : Failure)
    → attempts_from_read_error (extract_failure c f attempts) ≡ attempts
unfolding extract_failure attempts_from_read_error
attempts-extract_failure attempts ErrorCode.captcha_required f = refl
attempts-extract_failure attempts _ f = refl

pub attempts-quality_rejection :
    (attempts : List ReadAttempt) (q : QualityResult) (m : Text) (f : Failure)
    → attempts_from_read_error (quality_rejection q m f attempts) ≡ attempts
unfolding quality_rejection attempts_from_read_error
attempts-quality_rejection attempts q m f = go q.classification
  where
    go :
        (c : ReadClassification)
        → attempts_from_read_error (elim c as (λ x. Failure) [
          | ReadClassification.captcha ↦
              failing ErrorCode.captcha_required (codes "目标网页要求安全验证") true f attempts
          | _ ↦ failing ErrorCode.extraction_failed m false f attempts
        ])
          ≡ attempts
    go ReadClassification.captcha = refl
    go _ = refl

module _ {S : Type 0} (env : Pipeline S) (before : List ReadAttempt) where
  -- What one reading adds to the attempts.
  abbrev pub Reading : Outcome Extracted → Type 0
  Reading (ok x) = Grows before extracted_stages x.attempts
  Reading (fail f) = FailedReading before (attempts_from_read_error f)

  finish_extract-Reading :
      (resource : Resource) (name : ImplementationName) (attempts : List ReadAttempt)
      (a : ReadAttempt) (r : ReadDocument × Option Failure)
      → a.stage ≡ ReadStage.extract
      → Grows before (ReadStage.read ∷ ReadStage.detect ∷ []) attempts
      → Reading (finish_extract env resource name attempts a r)
  unfolding finish_extract failed_attempt
  finish_extract-Reading resource name attempts a (d, none) k h =
      subst (λ x. Grows before (ReadStage.read ∷ ReadStage.detect ∷ x ∷ []) (attempts ++ a ∷ [])) k
        (Grows-snoc before attempts _ a h)
  finish_extract-Reading resource name attempts a (d, some f) k h =
      let b = failed_attempt a (extract_class (read_error_code f)) f in
      FailedReading.at_extractor (
        subst (Grows before extracted_stages)
          (sym (attempts-extract_failure (attempts ++ b ∷ []) (read_error_code f) f))
          (subst
            (λ x. Grows before (ReadStage.read ∷ ReadStage.detect ∷ x ∷ []) (attempts ++ b ∷ [])) k
            (Grows-snoc before attempts _ b h)))

  extract_by-Reading :
      (resource : Resource) (attempts : List ReadAttempt) (x : Outcome (ContentExtractor S)) (s : S)
      → Grows before (ReadStage.read ∷ ReadStage.detect ∷ []) attempts
      → Reading (extract_by env resource attempts x s).1
  unfolding extract_by extract_with failing attempts_from_read_error plain_attempt
  extract_by-Reading resource attempts (fail f) s h = FailedReading.at_detector h
  extract_by-Reading resource attempts (ok x) s h =
      finish_extract-Reading resource _ attempts _
        ((x.extract resource s).1, (x.extract resource s).2) refl h

  resolve_and_extract-Reading :
      (resource : Resource) (attempts : List ReadAttempt) (source : Outcome SourceType)
      (a : ReadAttempt) (s : S)
      → a.stage ≡ ReadStage.detect
      → Grows before (ReadStage.read ∷ []) attempts
      → Reading (resolve_and_extract env resource attempts source a s).1
  unfolding resolve_and_extract failing attempts_from_read_error failed_attempt
  resolve_and_extract-Reading resource attempts (fail f) a s k h =
      let b = failed_attempt a ReadClassification.unsupported f in
      FailedReading.at_detector (
        subst (λ x. Grows before (ReadStage.read ∷ x ∷ []) (attempts ++ b ∷ [])) k
          (Grows-snoc before attempts _ b h))
  resolve_and_extract-Reading resource attempts (ok source) a s k h =
      extract_by-Reading resource _ (env.resolve_extractor source) s (
        subst (λ x. Grows before (ReadStage.read ∷ x ∷ []) (attempts ++ a ∷ [])) k
          (Grows-snoc before attempts _ a h))

  after_read-Reading :
      (a : ReadAttempt) (resource : Resource) (err : Option Failure) (s : S)
      → a.stage ≡ ReadStage.read
      → Reading (after_read env before a resource err s).1
  unfolding after_read detect_and_extract failed_attempt plain_attempt
  after_read-Reading a resource (some f) s k =
      let b = failed_attempt a (read_error_description (read_error_code f)).2 f in
      let (own, e) = attempts-read_failure (before ++ b ∷ []) f in
      FailedReading.at_reader b own k (e ∙ append_assoc before (b ∷ []) own)
  after_read-Reading a resource none s k =
      resolve_and_extract-Reading resource _ (env.detect resource) _ s refl
        (a ∷ [], refl, ap (λ x. x ∷ []) k)

  pub read_and_extract-Reading :
      (reader : ResourceReader S) (target : SafeTarget) (s : S)
      → Reading (read_and_extract env reader target before s).1
  unfolding read_and_extract plain_attempt
  read_and_extract-Reading reader target s =
      after_read-Reading _ (reader.read target s).1 (reader.read target s).2
        (reader.read target s).0 refl

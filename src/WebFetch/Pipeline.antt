-- ===== src/WebFetch/Pipeline.antt =====
-- `webfetch/internal/fetch/pipeline.go`: the parts of the read service as an interface. `S` is the state
-- of everything outside of the service, and of the cache.
use search_x.Prelude.{[], ℕ, ◌-◌, ◌/◌, List, Option, none, some}
use search_x.Prelude.Text.{Text}
use search_x.WebFetch.Failures.{Failure, Outcome}
use search_x.WebFetch.Types.{
  ReadDocument, Resource, SourceType, OutputFormat, QualityResult, FormattedContent,
  ImplementationName,
}

-- `SafeTarget`: the text of the URL, unless it is nil, and the pinned addresses.
pub record SafeTarget : Type 0 where
  pub url : Option Text
  pub addresses : List Text

-- A reader and an extractor return their value also beside an error.
pub record ResourceReader (S : Type 0) : Type 0 where
  pub name : ImplementationName
  pub read : SafeTarget → S → S × Resource × Option Failure

pub record ContentExtractor (S : Type 0) : Type 0 where
  pub name : ImplementationName
  pub extract : Resource → S → S × ReadDocument × Option Failure

pub record ContentConverter (S : Type 0) : Type 0 where
  pub name : ImplementationName
  pub convert : ReadDocument → S → S × Outcome FormattedContent

-- `ReadServiceConfig`; `resolve_strategy` may give no strategy, `ended` is the error of a caller whose
-- context is done before the flight lands.
pub record Pipeline (S : Type 0) : Type 0 where
  pub now : S → ℕ
  pub validate : Text → S → S × Outcome SafeTarget
  pub resolve_strategy : SafeTarget → Option (SafeTarget → S → S × Outcome SafeTarget)
  pub http_reader : ResourceReader S
  pub browser_reader : Option (ResourceReader S)
  pub detector_name : ImplementationName
  pub detect : Resource → Outcome SourceType
  pub resolve_extractor : SourceType → Outcome (ContentExtractor S)
  pub evaluator_name : ImplementationName
  pub evaluate : ReadDocument → Resource → QualityResult
  pub resolve_converter : OutputFormat → Outcome (ContentConverter S)
  pub get_fresh : Text → S → Option ReadDocument
  pub get_stale : Text → S → Option ReadDocument
  pub set : Text → ReadDocument → S → S × Option Failure
  pub ended : S → Option Failure

-- `target.URL.String()`; a target that passed the policy has a URL.
unfoldable pub key_of : SafeTarget → Text
key_of t = elim t.url [ none ↦ [] | some u ↦ u ]

-- `Sub(…).Milliseconds()`
unfoldable pub millis : ℕ → ℕ → ℕ
millis from to = (to - from) / 1000000

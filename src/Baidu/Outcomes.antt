-- ===== src/Baidu/Outcomes.antt =====
-- The ways in which one step of a Baidu search may turn out.
use search_x.Provider.Breaker.{allow}
use search_x.Prelude.Text.{codes, Text}
use search_x.Prelude.{
  if◌then◌else◌, none, length, false, [], true, ◌≢◌, ◌∷◌, ◌⊎◌, ◌++◌, some, ◌≡◌, List,
}
use search_x.Baidu.Attempts.{Turn, answered, attempt_of, ended, next, wait_for}
use search_x.Baidu.Types.{Baidu, Shared, Step}
use search_x.Domain.Attempts.{Attempt, Classification}
use search_x.Domain.{SearchRequest, SearchResponse}

module _ {W : Type 0} (p : Baidu W) (request : SearchRequest) where
  -- The attempt is one of the step.
  abbrev pub IsAttemptOf : Step W → Attempt → Type 0
  IsAttemptOf step a = (a.strategy ≡ step.name) × (a.transport ≡ step.transport)

  -- The breaker does not let the step through; the attempt says so, and nothing was fetched.
  pub record IsRefusal (step : Step W) (a : Attempt) : Type 0 where
    pub guarded : step.use_breaker ≡ true
    pub state : Shared W
    pub refused : (allow (p.now state.world) step.transport state.breaker).0 ≡ false
    pub told : a ≡ attempt_of step Classification.blocked (codes "transport circuit is open")

  -- A waiter of the step ends with an error; the attempt tells it, and nothing was fetched.
  pub record IsEndedWait (step : Step W) (a : Attempt) : Type 0 where
    pub state : Shared W
    pub message : Text
    pub ended : (wait_for step.waiters state).1 ≡ some message
    pub told :
        a ≡ attempt_of step Classification.timeout (codes "wait for Baidu strategy: " ++ message)

  -- After the attempt the next step may be tried: the breaker refused the step, or the policy allows it.
  pub record Passed (step : Step W) (a : Attempt) : Type 0 where
    pub made : IsAttemptOf step a
    pub reason : IsRefusal step a ⊎ (p.allows a.classification ≡ true)

  -- The attempt ends the search.
  pub record Halted (step : Step W) (a : Attempt) : Type 0 where
    pub made : IsAttemptOf step a
    pub reason : IsEndedWait step a ⊎ (p.allows a.classification ≡ false)

  -- The response of the step after the earlier attempts.
  pub record AnsweredBy (step : Step W) (earlier : List Attempt) (a : Attempt) (r : SearchResponse)
      : Type 0 where
    pub made : IsAttemptOf step a
    pub page :
        ((a.classification ≡ Classification.normal) × (r.results ≢ []))
        ⊎ (a.classification ≡ Classification.empty)
    pub strategy : r.meta.strategy ≡ step.name
    pub transport : r.meta.transport ≡ step.transport
    pub count : r.meta.fallback_count ≡ length earlier
    pub artifacts : List Text
    pub debug : r.debug ≡ (
        if request.debug
        then some (record { attempts = earlier ++ a ∷ []; raw_artifacts = artifacts })
        else none)

  abbrev pub Fits : Step W → List Attempt → Turn → Type 0
  Fits step earlier (next t) = (a : Attempt) × (t.attempts ≡ earlier ++ a ∷ []) × Passed step a
  Fits step earlier (ended t) = (a : Attempt) × (t.attempts ≡ earlier ++ a ∷ []) × Halted step a
  Fits step earlier (answered r) = (a : Attempt) × AnsweredBy step earlier a r

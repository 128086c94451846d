-- ===== src/Baidu/Explained.antt =====
-- What the result of a Baidu search says of the steps of its chain.
use search_x.Prelude.Text.{Text}
use search_x.Prelude.{◌⊎◌, true, some, ◌∷◌, ◌++◌, ◌≡◌, List, []}
use search_x.Baidu.Failures.{build_search_error}
use search_x.Baidu.Attempts.{Turn, answered, ended, next}
use search_x.Baidu.Search.{search_steps}
use search_x.Baidu.Outcomes.{AnsweredBy, Halted, Passed}
use search_x.Baidu.Types.{Baidu, Shared, Step}
use search_x.Domain.Attempts.{Attempt}
use search_x.Domain.Errors.{SearchError, as_error, as_search_error}
use search_x.Domain.{SearchRequest, SearchResponse}
use search_x.Domain.Fallible.{Fallible, ok, fail}

module _ {W : Type 0} (p : Baidu W) (request : SearchRequest) where
  -- The steps and the attempts are the same in number and in order, and each attempt is passed.
  abbrev pub Passes : List (Step W) → List Attempt → Type 0
  Passes [] [] = Unit
  Passes [] (a ∷ ats) = ⊥
  Passes (step ∷ steps) [] = ⊥
  Passes (step ∷ steps) (a ∷ ats) = Passed p request step a × Passes steps ats

  -- The step that answered, and the steps before it, which were all tried and passed.
  pub record Answered (steps : List (Step W)) (r : SearchResponse) : Type 0 where
    pub before : List (Step W)
    pub step : Step W
    pub after : List (Step W)
    pub order : steps ≡ before ++ step ∷ after
    pub earlier : List Attempt
    pub passes : Passes before earlier
    pub last : Attempt
    pub answer : AnsweredBy p request step earlier last r

  -- The step that ended the search, after which no other was tried.
  pub record Stopped (steps : List (Step W)) (ats : List Attempt) : Type 0 where
    pub before : List (Step W)
    pub step : Step W
    pub after : List (Step W)
    pub order : steps ≡ before ++ step ∷ after
    pub earlier : List Attempt
    pub passes : Passes before earlier
    pub last : Attempt
    pub all : ats ≡ earlier ++ last ∷ []
    pub halted : Halted p request step last

  abbrev pub Explained : List (Step W) → Fallible SearchResponse → Type 0
  Explained steps (ok r) = Answered steps r
  Explained steps (fail e) =
      (x : SearchError) × (as_search_error e ≡ some x)
      × (x.retryable ≡ true)
      × (Passes steps x.attempts ⊎ Stopped steps x.attempts)

  abbrev after_turn : Text → List (Step W) → Shared W × Turn → Shared W × Fallible SearchResponse
  after_turn id steps (s, next t) = search_steps p request id steps t s
  after_turn id steps (s, ended t) = (s, fail (as_error (build_search_error t)))
  after_turn id steps (s, answered r) = (s, ok r)

-- ===== src/Baidu/Building.antt =====
-- `NewStrategyChain` of `baidu/strategy.go`. The chain, which
-- nothing changes once it is made, is its steps and its policy; a nil transport, waiter or policy is
-- `none`.
use search_x.Prelude.Text.{Text, codes}
use search_x.Domain.{SearchRequest}
use search_x.Prelude.{none, some, [], false, true, ◌∷◌, if◌then◌else◌, List, Bool, Option}
use search_x.Baidu.Types.{Shared, Step, Fetched, FetchError}
use search_x.Domain.Attempts.{BaiduStrategyName, Classification, TransportName}
use search_x.Domain.Errors.{plain}
use search_x.Domain.Fallible.{Fallible, ok, fail, ◌>>=◌}
use search_x.Provider.Breaker.{conservative_allows}

pub record Transport (W : Type 0) : Type 0 where
  pub name : TransportName
  pub fetch : SearchRequest → Shared W → Shared W × Fetched × Option FetchError

abbrev pub Waiter : Type 0 → Type 0
Waiter W = Shared W → Shared W × Option Text

pub record GivenStep (W : Type 0) : Type 0 where
  pub name : BaiduStrategyName
  pub transport : Option (Transport W)
  pub waiters : List (Option (Waiter W))
  pub use_breaker : Bool

pub record StrategyChain (W : Type 0) : Type 0 where
  pub steps : List (Step W)
  pub policy : Classification → Bool

unfoldable pub is_unnamed : BaiduStrategyName → Bool
is_unnamed BaiduStrategyName.unset = true
is_unnamed _ = false

module _ {W : Type 0} where
  unfoldable pub check_waiters : List (Option (Waiter W)) → Fallible (List (Waiter W))
  check_waiters [] = ok []
  check_waiters (none ∷ ws) = fail (plain (codes "Baidu strategy step waiter is nil"))
  check_waiters (some wait ∷ ws) = do ws' ← check_waiters ws; ok (wait ∷ ws')

  unfoldable pub check_transport : Option (Transport W) → Fallible (Transport W)
  check_transport none = fail (plain (codes "Baidu strategy step transport is nil"))
  check_transport (some t) = ok t

  unfoldable pub check_step : GivenStep W → Fallible (Step W)
  unfolding check_waiters check_transport is_unnamed
  check_step g =
      if is_unnamed g.name then fail (plain (codes "Baidu strategy step name is empty")) else do
        t ← check_transport g.transport
        ws ← check_waiters g.waiters
        ok (record {
          name = g.name;
          transport = t.name;
          fetch = t.fetch;
          waiters = ws;
          use_breaker = g.use_breaker;
        })

  unfoldable pub check_steps : List (GivenStep W) → Fallible (List (Step W))
  unfolding check_step
  check_steps [] = ok []
  check_steps (g ∷ gs) = do step ← check_step g; steps ← check_steps gs; ok (step ∷ steps)

  unfoldable pub new_strategy_chain :
      Option (Classification → Bool) → List (GivenStep W) → Fallible (StrategyChain W)
  unfolding check_steps conservative_allows
  new_strategy_chain policy [] = fail (plain (codes "Baidu strategy chain is empty"))
  new_strategy_chain policy (g ∷ gs) = do
    steps ← check_steps (g ∷ gs)
    ok (record { steps = steps; policy = elim policy [ none ↦ conservative_allows | some f ↦ f ] })

-- ===== src/Routing/Building.antt =====
-- `New` of `routing/router.go`: a nil pool is `none`, and a limit that is not positive is 0.
use search_x.ProfilePool.Trust.{or_default}
use search_x.Prelude.{
  none, ◌||◌, some, ◌≡◌, [], ◌∷◌, ◌^◌, Option, if◌then◌else◌, arith, ◌<◌, ◌*◌, List,
}
use search_x.Domain.Attempts.{ProviderName, auto}
use search_x.Domain.Errors.{plain}
use search_x.Domain.Fallible.{◌>>=◌, >>=-eq-ok, Fallible, ok, fail}
use search_x.ProfilePool.Types.{Pool}
use search_x.Prelude.Strings.{is_member}
use search_x.Prelude.Text.{text_eq, codes}
use search_x.Routing.World.{Limits}

-- The defaults; a second is 10^9 nanoseconds.
unfoldable pub with_defaults : Limits → Limits
with_defaults c = record c {
  max_provider_attempts = or_default c.max_provider_attempts 3;
  max_agent_attempts = or_default c.max_agent_attempts 2;
  minimum_attempt_budget = or_default c.minimum_attempt_budget (3 * 10 ^ 9);
  auto_queue_max = or_default c.auto_queue_max 100;
}

with_defaults-positive : (c : Limits) → 0 < (with_defaults c).max_agent_attempts
unfolding with_defaults
with_defaults-positive c = ground arith

module _ {R : Type 0} where
  unfoldable pub check_pool : List ProviderName → Pool R → Fallible ProviderName
  check_pool seen p =
      if text_eq p.provider [] || text_eq p.provider auto
      then fail (plain (codes "provider router pool is invalid"))
      else if is_member p.provider seen
      then fail (plain (codes "duplicate provider router pool"))
      else ok p.provider

  unfoldable pub check_pools : List ProviderName → List (Option (Pool R)) → Fallible (List (Pool R))
  unfolding check_pool
  check_pools seen [] = ok []
  check_pools seen (none ∷ ps) = fail (plain (codes "provider router pool is invalid"))
  check_pools seen (some p ∷ ps) =
      check_pool seen p >>= λ name. check_pools (name ∷ seen) ps >>= λ rest. ok (p ∷ rest)

  unfoldable pub new_router : List (Option (Pool R)) → Limits → Fallible (List (Pool R) × Limits)
  unfolding check_pools with_defaults
  new_router [] c = fail (plain (codes "provider router pools are empty"))
  new_router (p ∷ ps) c = check_pools [] (p ∷ ps) >>= λ qs. ok (qs, with_defaults c)

  pub new_router-positive :
      (ps : List (Option (Pool R))) (c : Limits) (qs : List (Pool R)) (limits : Limits)
      → new_router ps c ≡ ok (qs, limits)
      → 0 < limits.max_agent_attempts
  unfolding new_router
  new_router-positive [] c qs limits h = absurd (cc)
  new_router-positive (p ∷ ps) c qs limits h =
      let (rs, a, b) = >>=-eq-ok _ (check_pools [] (p ∷ ps)) h in
      let same : with_defaults c ≡ limits = ground (arith, a) in
      rw (← same) (with_defaults-positive c)

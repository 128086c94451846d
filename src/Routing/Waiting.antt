-- ===== src/Routing/Waiting.antt =====
-- `acquireAnyAuto` of `routing/router.go`: a worker for each pool waits for a lease of it, the first
-- one wins, and a lease that comes too late is given back.
use search_x.Domain.Attempts.{ProviderName}
use search_x.ProfilePool.Acquire.{try_acquire_auto, wait_begin, wait_end}
use search_x.ProfilePool.Floats.{FloatOps}
use search_x.ProfilePool.Types.{Pool, Lease}
use search_x.Prelude.Strings.{is_member}
use search_x.Prelude.Text.{Text}
use search_x.Routing.World.{Shared, Env, Turn, wake, meanwhile, expire, release_at, network_error}
use search_x.Prelude.{
  ◌==◌, false, ◌||◌, Bool, ℕ, List, [], ◌∷◌, Option, none, some, get_elem?, update, map,
  if◌then◌else◌,
}

-- The state of the wait: nobody has won, a worker has, or the time was up first.
pub data Race : Type 0 where
  open_race : Race
  won : ℕ → Lease → Race
  expired : Race

-- `ended` are the workers that have got a lease.
pub record Wait (R W : Type 0) : Type 0 where
  pub race : Race
  pub ended : List ℕ
  pub shared : Shared R W

unfoldable pub has_ended : ℕ → List ℕ → Bool
has_ended i [] = false
has_ended i (j ∷ js) = j == i || has_ended i js

unfoldable pub winner : Race → Option (ℕ × Lease)
winner open_race = none
winner (won i l) = some (i, l)
winner expired = none

module _ {R W : Type 0} (fl : FloatOps R) (env : Env R W) (request_id : Text)
    (attempted : List ProviderName) where
  -- The counter of waiters of every pool that is not skipped.
  unfoldable pub at_waiting : (Pool R → Pool R) → Shared R W → Shared R W
  at_waiting f s = record s {
    pools = map (λ p. if is_member p.provider attempted then p else f p) s.pools;
  }

  -- A worker that holds a lease: `accepted` lets only the first one through. It ends here.
  unfoldable pub arrive : ℕ → Lease → Race → Shared R W → Race × Shared R W
  unfolding release_at
  arrive i l open_race s = (won i l, s)
  arrive i l (won j k) s = (won j k, (release_at fl env i l network_error s).0)
  arrive i l expired s = (expired, (release_at fl env i l network_error s).0)

  unfoldable pub join_race : ℕ → Wait R W → Shared R W → Option Lease → Wait R W
  unfolding arrive
  join_race i t s none = record t { shared = s }
  join_race i t s (some l) =
      let (c, s') = arrive i l t.race s in record { race = c; ended = i ∷ t.ended; shared = s' }

  -- A worker's call of `tryAcquire`; it goes on waiting if that fails.
  unfoldable pub woken : ℕ → Wait R W → Wait R W
  unfolding join_race try_acquire_auto
  woken i t = elim (get_elem? t.shared.pools i) [
    | none ↦ t
    | some p ↦
        if is_member p.provider attempted || has_ended i t.ended
        then t
        else let (q, got) = try_acquire_auto fl request_id (env.now t.shared.world) p in
          let s : Shared R W = record (t.shared) { pools = update t.shared.pools i (λ _. q) } in
          join_race i t s got
  ]

  -- The time is up: a result that has just come is given back.
  unfoldable pub give_up : Race → Shared R W → Race × Shared R W
  unfolding release_at
  give_up open_race s = (expired, s)
  give_up (won i l) s = (expired, (release_at fl env i l network_error s).0)
  give_up expired s = (expired, s)

  unfoldable pub turn : Turn → Wait R W → Wait R W
  unfolding woken give_up
  turn (wake i) t = woken i t
  turn meanwhile t = record t { shared = env.others t.shared }
  turn expire t = let (c, s) = give_up t.race t.shared in record t { race = c; shared = s }

  unfoldable pub take_turns : List Turn → Wait R W → Wait R W
  unfolding turn
  take_turns [] t = t
  take_turns (x ∷ xs) t = take_turns xs (turn x t)

  -- Where the turns end without a winner, the time is up.
  unfoldable pub acquire_any_auto : Shared R W → Shared R W × Option (ℕ × Lease)
  unfolding at_waiting take_turns winner
  acquire_any_auto s =
      let t =
        take_turns (env.turns s.world)
          (record { race = open_race; ended = []; shared = at_waiting wait_begin s }) in
      (at_waiting wait_end t.shared, winner t.race)

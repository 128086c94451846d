-- ===== src/Routing/Fresh.antt =====
-- A lease that the router gets, at once or after a wait, is one of a provider that it has not given up
-- on.
use search_x.Routing.Priority.{route-Routed}
use search_x.Routing.Router.{tried, route}
use search_x.ProfilePool.Acquire.{try_acquire_auto_except, try_acquire_auto, wait_end, wait_begin}
use search_x.Domain.{SearchRequest}
use search_x.Prelude.Text.{Text}
use search_x.ProfilePool.Types.{Lease, Pool}
use search_x.Domain.Attempts.{ProviderName}
use search_x.ProfilePool.Floats.{FloatOps}
use search_x.Prelude.{
  length, ◌++◌, refl, true, if◌then◌else◌, none, map, Option, zero, [], suc, arith, Bool-cases, ◌∷◌,
  inr, false, some, ◌∙◌, inl, get_elem?, Option-cases, ◌≡◌, List, ℕ,
}
use search_x.Routing.World.{expire, meanwhile, wake, Turn, network_error, Shared, Env, providers_of}
use search_x.Routing.Waiting.{
  give_up, turn, take_turns, winner, at_waiting, acquire_any_auto, join_race, Race, Wait, open_race,
  won, expired, arrive, woken, has_ended,
}
use search_x.Routing.Providers.{try_acquire-provider, providers_of-update, release_at-providers}
use search_x.Prelude.Strings.{is_member}

-- What the outside keeps: the pools are always those of the same providers.
pub record KeepsProviders {R W : Type 0} (env : Env R W) : Type 0 where
  pub search_keeps :
      (i : ℕ) (l : Lease) (r : SearchRequest) (s : Shared R W)
      → providers_of (env.search i l r s).0.pools ≡ providers_of s.pools
  pub others_keep : (s : Shared R W) → providers_of (env.others s).pools ≡ providers_of s.pools

-- Pool `i` is that of a provider which is not attempted yet.
pub record IsFresh (ns attempted : List ProviderName) (i : ℕ) : Type 0 where
  pub name : ProviderName
  pub at_index : get_elem? ns i ≡ some name
  pub unattempted : is_member name attempted ≡ false

providers_of-get_elem? :
    {R : Type 0} (ps : List (Pool R)) (i : ℕ) (p : Pool R)
    → get_elem? ps i ≡ some p
    → get_elem? (providers_of ps) i ≡ some p.provider
providers_of-get_elem? [] i p h = absurd (cc)
providers_of-get_elem? (c ∷ ps) zero p h = ground (arith, h)
providers_of-get_elem? (c ∷ ps) (suc i) p h = providers_of-get_elem? ps i p h

module _ {R W : Type 0} (fl : FloatOps R) (env : Env R W) (request_id : Text)
    (attempted ns : List ProviderName) (keeps : KeepsProviders env) where
  abbrev pub FreshRace : Race → Type 0
  FreshRace open_race = Unit
  FreshRace (won i l) = IsFresh ns attempted i
  FreshRace expired = Unit

  abbrev Raced : Race × Shared R W → Type 0
  Raced (c, s) = FreshRace c × (providers_of s.pools ≡ ns)

  abbrev FairWait : Wait R W → Type 0
  FairWait t = FreshRace t.race × (providers_of t.shared.pools ≡ ns)

  arrive_fair :
      (i : ℕ) (l : Lease) (c : Race) (s : Shared R W)
      → IsFresh ns attempted i
      → FreshRace c
      → providers_of s.pools ≡ ns
      → Raced (arrive fl env request_id attempted i l c s)
  unfolding arrive
  arrive_fair i l open_race s f c h = (f, h)
  arrive_fair i l (won j k) s f c h = (c, release_at-providers fl env i l network_error s ∙ h)
  arrive_fair i l expired s f c h = (tt, release_at-providers fl env i l network_error s ∙ h)

  join_race_fair :
      (i : ℕ) (t : Wait R W) (s : Shared R W) (got : Option Lease)
      → IsFresh ns attempted i
      → FairWait t
      → providers_of s.pools ≡ ns
      → FairWait (join_race fl env request_id attempted i t s got)
  unfolding join_race
  join_race_fair i t s none f h e = (h.0, e)
  join_race_fair i t s (some l) f h e = arrive_fair i l t.race s f h.0 e

  IsFresh-at :
      (i : ℕ) (p : Pool R) (ps : List (Pool R))
      → providers_of ps ≡ ns
      → get_elem? ps i ≡ some p
      → is_member p.provider attempted ≡ false
      → IsFresh ns attempted i
  IsFresh-at i p ps h a b = record {
    name = p.provider;
    at_index = rw (← h) (providers_of-get_elem? ps i p a);
    unattempted = b;
  }

  woken_fair :
      (i : ℕ) (t : Wait R W) → FairWait t → FairWait (woken fl env request_id attempted i t)
  unfolding woken try_acquire_auto
  woken_fair i t h = elim (Option-cases (get_elem? t.shared.pools i)) [
    | inl a ↦ rw (woken, a) h
    | inr (p, a) ↦ elim (Bool-cases (is_member p.provider attempted)) [
      | inl b ↦ rw (woken, a, b) h
      | inr b ↦ elim (Bool-cases (has_ended i t.ended)) [
        | inl c ↦ rw (woken, a, b, c) h
        | inr c ↦
            rw (woken, a, b, c)
              (join_race_fair i t _ _ (IsFresh-at i p t.shared.pools h.1 a b) h (
                providers_of-update t.shared.pools i p _ a
                  (try_acquire-provider fl request_id true false [] (env.now t.shared.world) p)
                ∙ h.1))
      ]
    ]
  ]

  give_up_fair :
      (c : Race) (s : Shared R W)
      → FreshRace c
      → providers_of s.pools ≡ ns
      → Raced (give_up fl env request_id attempted c s)
  unfolding give_up
  give_up_fair open_race s f h = (tt, h)
  give_up_fair (won i l) s f h = (tt, release_at-providers fl env i l network_error s ∙ h)
  give_up_fair expired s f h = (tt, h)

  turn_fair :
      (x : Turn) (t : Wait R W) → FairWait t → FairWait (turn fl env request_id attempted x t)
  unfolding turn
  turn_fair (wake i) t h = woken_fair i t h
  turn_fair meanwhile t h = (h.0, keeps.others_keep t.shared ∙ h.1)
  turn_fair expire t h = give_up_fair t.race t.shared h.0 h.1

  take_turns_fair :
      (xs : List Turn) (t : Wait R W)
      → FairWait t
      → FairWait (take_turns fl env request_id attempted xs t)
  unfolding take_turns
  take_turns_fair [] t h = h
  take_turns_fair (x ∷ xs) t h =
      take_turns_fair xs (turn fl env request_id attempted x t) (turn_fair x t h)

  winner-IsFresh :
      (c : Race) (i : ℕ) (l : Lease) → FreshRace c → winner c ≡ some (i, l) → IsFresh ns attempted i
  unfolding winner
  winner-IsFresh open_race i l f h = absurd (cc)
  winner-IsFresh (won j k) i l f h = let e : j ≡ i = cc in rw (← e) f
  winner-IsFresh expired i l f h = absurd (cc)

  at_waiting-providers :
      (f : Pool R → Pool R) (s : Shared R W)
      → ((p : Pool R) → (f p).provider ≡ p.provider)
      → providers_of (at_waiting fl env request_id attempted f s).pools ≡ providers_of s.pools
  unfolding at_waiting
  at_waiting-providers f s keep = go s.pools
    where
      go :
          (ps : List (Pool R))
          → providers_of (map (λ p. if is_member p.provider attempted then p else f p) ps)
            ≡ providers_of ps
      go [] = refl
      go (p ∷ ps) = ground (arith, go ps, keep p)

  -- After a wait the pools are those of the same providers, and a lease is a fresh provider's.
  pub acquire_any_auto_fair :
      (s : Shared R W)
      → providers_of s.pools ≡ ns
      → (providers_of (acquire_any_auto fl env request_id attempted s).0.pools ≡ ns)
        × ((i : ℕ) (l : Lease)
            → (acquire_any_auto fl env request_id attempted s).1 ≡ some (i, l)
            → IsFresh ns attempted i)
  unfolding acquire_any_auto wait_begin wait_end
  acquire_any_auto_fair s h =
      let begun = at_waiting fl env request_id attempted wait_begin s in
      let first : Wait R W = record { race = open_race; ended = []; shared = begun } in
      let t = take_turns fl env request_id attempted (env.turns s.world) first in
      let fair =
        take_turns_fair (env.turns s.world) first
          (tt, at_waiting-providers wait_begin s (λ p. refl) ∙ h) in
      (
        at_waiting-providers wait_end t.shared (λ p. refl) ∙ fair.1,
        λ i l e. winner-IsFresh t.race i l fair.0 e,
      )

providers_of-middle :
    {R : Type 0} (before : List (Pool R)) (p : Pool R) (after : List (Pool R))
    → get_elem? (providers_of (before ++ p ∷ after)) (length before) ≡ some p.provider
providers_of-middle [] p after = refl
providers_of-middle (b ∷ before) p after = providers_of-middle before p after

module _ {R : Type 0} (fl : FloatOps R) (request_id : Text) (attempted : List ProviderName)
    (excluded : ProviderName → Text) (now : ℕ) where
  tried-provider :
      (p : Pool R) → (tried fl request_id attempted excluded now p).0.provider ≡ p.provider
  unfolding tried try_acquire_auto_except
  tried-provider p = elim (Bool-cases (is_member p.provider attempted)) [
    | inl a ↦ rw (tried, a) refl
    | inr a ↦
        rw (tried, a) (try_acquire-provider fl request_id true false (excluded p.provider) now p)
  ]

  pub route-providers :
      (ps : List (Pool R))
      → providers_of (route fl request_id attempted excluded now ps).0 ≡ providers_of ps
  unfolding route
  route-providers [] = refl
  route-providers (p ∷ ps) = elim (Option-cases (tried fl request_id attempted excluded now p).1) [
    | inl a ↦ rw (route, a) (ground (arith, tried-provider p, route-providers ps))
    | inr (l, a) ↦ rw (route, a) (ground (arith, tried-provider p))
  ]

  pub route-IsFresh :
      (ps : List (Pool R)) (i : ℕ) (l : Lease)
      → (route fl request_id attempted excluded now ps).1 ≡ some (i, l)
      → IsFresh (providers_of ps) attempted i
  route-IsFresh ps i l h =
      let r =
        route-Routed fl request_id attempted excluded now ps
          (route fl request_id attempted excluded now ps).0 i l (ground (arith, h)) in
      record {
        name = r.chosen.provider;
        at_index = rw (r.order, r.index) (providers_of-middle r.before r.chosen r.after);
        unattempted = r.fresh;
      }

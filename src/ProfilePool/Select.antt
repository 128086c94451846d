-- ===== src/ProfilePool/Select.antt =====
-- `selectEntry` and `lessLoaded` in `pool.go`.
use search_x.Prelude.{
  ℕ, suc, Bool, not, ◌&&◌, List, [], ◌∷◌, Option, none, some, ltb, if◌then◌else◌,
}
use search_x.Prelude.Text.{Text, text_eq, text_lt}
use search_x.ProfilePool.Floats.{FloatOps}
use search_x.ProfilePool.Types.{State, state_eq, Entry}

module _ {R : Type 0} where
  -- The negation of the `continue` test.
  unfoldable pub eligible : State → Text → Entry R → Bool
  eligible state excluded c =
      not (text_eq c.profile.id excluded)
      && state_eq c.state state
      && ltb c.in_flight c.profile.capacity

module _ {R : Type 0} (fl : FloatOps R) where
  unfoldable pub relative_load : Entry R → R
  relative_load e = fl.div (fl.of_int e.in_flight) (fl.of_int e.profile.capacity)

  unfoldable pub less_loaded : Entry R → Entry R → Bool
  less_loaded left right =
      if not (fl.eq (relative_load left) (relative_load right))
      then fl.lt (relative_load left) (relative_load right)
      else text_lt left.profile.id right.profile.id

  -- `selected == nil || lessLoaded(candidate, selected)`
  unfoldable pub better : Entry R → Option (ℕ × Entry R) → Bool
  better c none = Bool.true
  better c (some (i, s)) = less_loaded c s

  unfoldable pub pick : State → Text → ℕ → Option (ℕ × Entry R) → Entry R → Option (ℕ × Entry R)
  pick state excluded i selected c =
      if eligible state excluded c && better c selected then some (i, c) else selected

  -- The loop, from index `i`, over the profiles that are left.
  unfoldable pub select_from :
      State → Text → ℕ → Option (ℕ × Entry R) → List (Entry R) → Option (ℕ × Entry R)
  select_from state excluded i selected [] = selected
  select_from state excluded i selected (c ∷ cs) =
      select_from state excluded (suc i) (pick state excluded i selected c) cs

  unfoldable pub select_entry : State → Text → List (Entry R) → Option (ℕ × Entry R)
  select_entry state excluded es = select_from state excluded 0 none es

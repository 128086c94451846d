-- ===== src/Baidu/Turns.antt =====
-- What one step of a Baidu search leaves behind.
use search_x.Baidu.Outcomes.{Fits, IsAttemptOf}
use search_x.Provider.Breaker.{allow}
use mathlib.Core.Path.{subst}
use search_x.Prelude.Text.{Text}
use search_x.Prelude.{
  arith, length-append, ◌-◌, Bool, none, refl, length, ◌∙◌, false, [], true, inr, Option-cases, ◌∷◌,
  ◌⊎◌, ◌++◌, inl, some, Bool-cases, ◌≡◌, Option, List,
}
use search_x.Baidu.Attempts.{
  attempt_of, fetched_attempt, note_saved, previewed, save_artifacts, save_one, wait_for,
}
use search_x.Baidu.Judging.{
  debug_store, judge_fetch, judge_page, respond, settle, settle_tripped, use_parsed,
}
use search_x.Baidu.Search.{fetch_step, try_allowed, try_guarded, try_step, wait_step, with_title}
use search_x.Baidu.Types.{
  Artifacts, Baidu, FetchError, Fetched, Parsed, Saved, Shared, Step, Tried, add_attempt,
}
use search_x.Domain.Attempts.{Attempt, Classification, TransportName}
use search_x.Domain.{SearchRequest}

module _ {W : Type 0} (p : Baidu W) (request : SearchRequest) where
  settle-Fits :
      (step : Step W) (a : Attempt) (t : Tried)
      → IsAttemptOf p request step a
      → Fits p request step t.attempts (settle p request a t)
  unfolding settle add_attempt
  settle-Fits step a t m = elim (Bool-cases (p.allows a.classification)) [
    | inl h ↦ rw (settle, h) (a, refl, record { made = m; reason = inr h })
    | inr h ↦ rw (settle, h) (a, refl, record { made = m; reason = inr h })
  ]

  length-snoc : (ats : List Attempt) (a : Attempt) → length (ats ++ a ∷ []) - 1 ≡ length ats
  length-snoc ats a = rw (length-append ats (a ∷ [])) (omega arith)

  use_parsed-Fits :
      (id : Text) (step : Step W) (a : Attempt) (t : Tried) (s : Shared W) (x : Parsed)
      → IsAttemptOf p request step a
      → (a.classification ≡ Classification.normal) ⊎ (a.classification ≡ Classification.empty)
      → Fits p request step t.attempts (use_parsed p request id step a t s x).1
  unfolding use_parsed respond add_attempt
  use_parsed-Fits id step a t s (Parsed.broken e) m c = settle-Fits step _ t m
  use_parsed-Fits id step a t s (Parsed.parsed [] warnings) m c = (
    record a { classification = Classification.empty },
    record {
      made = m;
      page = inr refl;
      strategy = refl;
      transport = refl;
      count = length-snoc _ _;
      artifacts = t.artifact_paths;
      debug = refl;
    },
  )
  use_parsed-Fits id step a t s (Parsed.parsed (r ∷ rs) warnings) m c = (
    a,
    record {
      made = m;
      page = elim c [ inl e ↦ inl (e, λ z. cc) | inr e ↦ inr e ];
      strategy = refl;
      transport = refl;
      count = length-snoc _ _;
      artifacts = t.artifact_paths;
      debug = refl;
    },
  )

  judge_page-Fits :
      (id : Text) (step : Step W) (r : Fetched) (a : Attempt) (t : Tried) (s : Shared W)
      (c : Classification)
      → IsAttemptOf p request step a
      → Fits p request step t.attempts (judge_page p request id step r a t s c).1
  unfolding judge_page settle_tripped
  judge_page-Fits id step r a t s Classification.normal m =
      use_parsed-Fits id step _ t s _ m (inl refl)
  judge_page-Fits id step r a t s Classification.empty m =
      use_parsed-Fits id step _ t s _ m (inr refl)
  judge_page-Fits id step r a t s Classification.unset m = settle-Fits step _ t m
  judge_page-Fits id step r a t s Classification.captcha m = settle-Fits step _ t m
  judge_page-Fits id step r a t s Classification.rate_limited m = settle-Fits step _ t m
  judge_page-Fits id step r a t s Classification.blocked m = settle-Fits step _ t m
  judge_page-Fits id step r a t s Classification.parse_changed m = settle-Fits step _ t m
  judge_page-Fits id step r a t s Classification.timeout m = settle-Fits step _ t m
  judge_page-Fits id step r a t s Classification.network_error m = settle-Fits step _ t m

  judge_fetch-Fits :
      (id : Text) (step : Step W) (r : Fetched) (a : Attempt) (t : Tried) (s : Shared W)
      (e : Option FetchError)
      → IsAttemptOf p request step a
      → Fits p request step t.attempts (judge_fetch p request id step r a t s e).1
  unfolding judge_fetch settle_tripped
  judge_fetch-Fits id step r a t s (some e) m = settle-Fits step _ t m
  judge_fetch-Fits id step r a t s none m = judge_page-Fits id step r a t s _ m

  note_saved-attempts : (x : Saved) (t : Tried) → (note_saved x t).attempts ≡ t.attempts
  unfolding note_saved
  note_saved-attempts (Saved.saved path) t = refl
  note_saved-attempts (Saved.not_saved m) t = refl

  save_one-attempts :
      (save : Text → Shared W → Shared W × Saved) (body : Text) (t : Tried) (s : Shared W)
      → (save_one save body t s).1.attempts ≡ t.attempts
  unfolding save_one
  save_one-attempts save [] t s = refl
  save_one-attempts save (c ∷ body) t s = note_saved-attempts _ t

  save_artifacts-attempts :
      (store : Option (Artifacts W)) (id : Text) (name : TransportName) (r : Fetched) (t : Tried)
      (s : Shared W)
      → (save_artifacts store id name r t s).1.attempts ≡ t.attempts
  unfolding save_artifacts
  save_artifacts-attempts none id name r t s = refl
  save_artifacts-attempts (some store) id name r t s =
      save_one-attempts (store.save_screenshot id name) r.screenshot
        (save_one (store.save_html id name) r.body t s).1
        (save_one (store.save_html id name) r.body t s).0
      ∙ save_one-attempts (store.save_html id name) r.body t s

  previewed-IsAttemptOf :
      (step : Step W) (store : Option (Artifacts W)) (r : Fetched)
      → IsAttemptOf p request step (previewed store r (fetched_attempt step r))
  unfolding previewed fetched_attempt attempt_of
  previewed-IsAttemptOf step none r = (refl, refl)
  previewed-IsAttemptOf step (some store) r = (refl, refl)

  fetch_step-Fits :
      (id : Text) (step : Step W) (t : Tried) (s : Shared W)
      → Fits p request step t.attempts (fetch_step p request id step t s).1
  unfolding fetch_step
  fetch_step-Fits id step t s =
      let (s', fetched, e) = step.fetch request s in
      let r = with_title p request fetched in
      let store = debug_store p request in
      let kept = save_artifacts store id step.transport r t s' in
      subst (λ earlier. Fits p request step earlier (fetch_step p request id step t s).1)
        (save_artifacts-attempts store id step.transport r t s')
        (judge_fetch-Fits id step r (previewed store r (fetched_attempt step r)) kept.1 kept.0 e
          (previewed-IsAttemptOf step store r))

  wait_step-Fits :
      (id : Text) (step : Step W) (t : Tried) (s : Shared W)
      → Fits p request step t.attempts (wait_step p request id step t s).1
  unfolding wait_step add_attempt attempt_of
  wait_step-Fits id step t s = elim (Option-cases (wait_for step.waiters s).1) [
    | inl h ↦ rw (wait_step, h) (fetch_step-Fits id step t _)
    | inr (m, h) ↦
        rw (wait_step, h)
          (
            _,
            refl,
            record {
              made = (refl, refl);
              reason = inl (record { state = s; message = m; ended = h; told = refl });
            },
          )
  ]

  -- What the breaker says of the step.
  abbrev IsAllowed : Bool → Step W → Type 0
  IsAllowed allowed step =
      (s : Shared W) × ((allow (p.now s.world) step.transport s.breaker).0 ≡ allowed)

  try_allowed-Fits :
      (allowed : Bool) (id : Text) (step : Step W) (t : Tried) (s : Shared W)
      → step.use_breaker ≡ true
      → IsAllowed allowed step
      → Fits p request step t.attempts (try_allowed p request allowed id step t s).1
  unfolding try_allowed add_attempt attempt_of
  try_allowed-Fits true id step t s h k = wait_step-Fits id step t s
  try_allowed-Fits false id step t s h (u, k) = (
    _,
    refl,
    record {
      made = (refl, refl);
      reason = inl (record { guarded = h; state = u; refused = k; told = refl });
    },
  )

  try_guarded-Fits :
      (guarded : Bool) (id : Text) (step : Step W) (t : Tried) (s : Shared W)
      → step.use_breaker ≡ guarded
      → Fits p request step t.attempts (try_guarded p request guarded id step t s).1
  unfolding try_guarded
  try_guarded-Fits true id step t s h = try_allowed-Fits _ id step t _ h (s, refl)
  try_guarded-Fits false id step t s h = wait_step-Fits id step t s

  pub try_step-Fits :
      (id : Text) (step : Step W) (t : Tried) (s : Shared W)
      → Fits p request step t.attempts (try_step p request id step t s).1
  unfolding try_step
  try_step-Fits id step t s = try_guarded-Fits step.use_breaker id step t s refl

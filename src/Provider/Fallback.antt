-- ===== src/Provider/Fallback.antt =====
-- The successful answers of `Chain.Search` in `provider/chain.go`.
use mathlib.Core.Path.{subst}
use search_x.Prelude.Text.{codes}
use mathlib.Core.List.{append_assoc, append-nil}
use search_x.Domain.Errors.{wrap, as_search_error, SearchError, Error}
use search_x.Domain.Attempts.{ProviderName}
use search_x.Provider.Chain.{
  started, stopped, Chain, search_chain, allows_fallback, judge_results, note, fallback_warning,
  search_from, prepare_success, Verdict, Progress, Provider, verdict,
}
use search_x.Prelude.{
  some, ltb, ◌∙◌, if◌then◌else◌, Bool-cases, ℕ, length-append, ◌⊎◌, ap, sym, refl, inl, ◌||◌, inr,
  arith, Option-cases, ◌==◌, true, length, [], ◌≢◌, ◌∷◌, map, ◌++◌, ◌≡◌, List, Option,
}
use search_x.Domain.Fallible.{Fallible, ok, fail}
use search_x.Domain.{SearchResult, SearchRequest, SearchResponse, Warning}

module _ {W : Type 0} where
  abbrev pub names : List (Provider W) → List ProviderName
  names = map (λ m. m.name)

  -- What the member makes of the request in the state `w`.
  abbrev pub ask : SearchRequest → Provider W → W → W × Fallible SearchResponse
  ask request m w = m.search (record request { provider = m.name }) w

  -- The members are asked one after the other, from the state `w` to the state `v`, and each of them
  -- fails, with an error after which the next one is asked; no results count as an error.
  abbrev pub Failed : SearchRequest → W → List (Provider W) → W → Type 0
  Failed request w [] v = w ≡ v
  Failed request w (m ∷ ms) v =
      (x : Error) × (e : SearchError) × (verdict (ask request m w).1 ≡ Verdict.failure x)
      × (as_search_error x ≡ some e)
      × (allows_fallback e ≡ true)
      × Failed request (ask request m w).0 ms v

  -- The member that answered, those that were asked and failed before it, and what the response says
  -- of them.
  pub record Answered (chain : ProviderName) (request : SearchRequest) (failed : List ProviderName)
      (ms : List (Provider W)) (w w' : W) (r : SearchResponse) : Type 0 where
    pub before : List (Provider W)
    pub member : Provider W
    pub after : List (Provider W)
    pub order : ms ≡ before ++ member ∷ after
    pub asked_in : W
    pub failures : Failed request w before asked_in
    pub upstream : SearchResponse
    pub answer : ask request member asked_in ≡ (w', ok upstream)
    pub results : r.results ≡ upstream.results
    pub nonempty : r.results ≢ []
    pub provider : r.provider ≡ member.name
    pub requested : r.meta.requested_provider ≡ chain
    pub count : r.meta.provider_fallback_count ≡ length (failed ++ names before)
    pub degraded : (r.meta.provider_fallback_count == 0 || r.meta.degraded) ≡ true
    pub warnings :
        r.warnings
        ≡ upstream.warnings ++ map (fallback_warning member.name) (failed ++ names before)

judge_results-success :
    (q : SearchResponse) (xs : List SearchResult) (r : SearchResponse)
    → judge_results q xs ≡ Verdict.success r
    → (r ≡ q) × (xs ≢ [])
unfolding judge_results
judge_results-success q [] r h = absurd (cc)
judge_results-success q (x ∷ xs) r h = (ground arith, λ e. cc)

verdict-success :
    (a : Fallible SearchResponse) (r : SearchResponse)
    → verdict a ≡ Verdict.success r
    → (a ≡ ok r) × (r.results ≢ [])
unfolding verdict
verdict-success (fail e) r h = absurd (cc)
verdict-success (ok q) r h =
    let (e, n) = judge_results-success q q.results r h in (ap ok (sym e), λ z. n (rw e at z))

module _ {W : Type 0} (ctx_err : W → Option Error) (chain : ProviderName)
    (request : SearchRequest) where
  -- The ways that one round can end.
  data Round (p : Progress) (m : Provider W) (ms : List (Provider W)) (w : W)
      (out : W × Fallible SearchResponse) : Type 0 where
    answered :
        (w' : W) (r : SearchResponse)
        → ask request m w ≡ (w', ok r)
        → r.results ≢ []
        → out ≡ (w', ok (prepare_success chain request.debug m.name p r))
        → Round p m ms w out
    ended : (w' : W) (e : Error) → out ≡ (w', fail e) → Round p m ms w out
    passed :
        (w' : W) (x : Error) (s : SearchError)
        → w' ≡ (ask request m w).0
        → verdict (ask request m w).1 ≡ Verdict.failure x
        → as_search_error x ≡ some s
        → allows_fallback s ≡ true
        → out ≡ search_from ctx_err chain request (note m.name s p) ms w'
        → Round p m ms w out

  verdict_cases :
      (v : Verdict)
      → ((r : SearchResponse) × (v ≡ Verdict.success r)) ⊎ ((e : Error) × (v ≡ Verdict.failure e))
  verdict_cases (Verdict.success r) = inl (r, refl)
  verdict_cases (Verdict.failure e) = inr (e, refl)

  round :
      (p : Progress) (m : Provider W) (ms : List (Provider W)) (w : W)
      → Round p m ms w (search_from ctx_err chain request p (m ∷ ms) w)
  unfolding search_from
  round p m ms w = elim (Option-cases (ctx_err w)) [
    | inr (e, a) ↦ Round.ended w e (rw (a, search_from))
    | inl a ↦
        let answer = m.search (record request { provider = m.name }) w in
        elim (verdict_cases (verdict answer.1)) [
          | inl (r, b) ↦
              let (given, some_results) = verdict-success answer.1 r b in
              Round.answered answer.0 r (ap (λ o. (answer.0, o)) given) some_results
                (rw (a, b, search_from))
          | inr (e, b) ↦ elim (Option-cases (ctx_err answer.0)) [
            | inr (x, c) ↦ Round.ended answer.0 x (rw (a, b, c, search_from))
            | inl c ↦ elim (Option-cases (as_search_error e)) [
              | inl d ↦
                  Round.ended answer.0 (wrap (codes "provider failed") e)
                    (rw (a, b, c, d, search_from))
              | inr (x, d) ↦ elim (Bool-cases (allows_fallback x)) [
                | inl g ↦ Round.passed answer.0 e x refl b d g (rw (a, b, c, d, g, search_from))
                | inr g ↦
                    Round.ended answer.0 (stopped x (note m.name x p))
                      (rw (a, b, c, d, g, search_from))
              ]
            ]
          ]
        ]
  ]

  prepared_warnings :
      (f : ProviderName → Warning) (ws : List Warning) (fs : List ProviderName) (n : ℕ)
      → n ≡ length fs
      → (if ltb 0 n then ws ++ map f fs else ws) ≡ ws ++ map f fs
  prepared_warnings f ws [] n h = rw (h, append-nil)
  prepared_warnings f ws (x ∷ fs) n h = ground arith

  note_counts :
      (name : ProviderName) (s : SearchError) (p : Progress)
      → p.index ≡ length p.failed
      → (note name s p).index ≡ length (note name s p).failed
  unfolding note
  note_counts name s p h = omega (arith, length-append p.failed (name ∷ []))

  Answered-later :
      (p : Progress) (m : Provider W) (ms : List (Provider W)) (s : SearchError)
      (r : SearchResponse) (x : Error) (w w' : W)
      → verdict (ask request m w).1 ≡ Verdict.failure x
      → as_search_error x ≡ some s
      → allows_fallback s ≡ true
      → Answered chain request (note m.name s p).failed ms (ask request m w).0 w' r
      → Answered chain request p.failed (m ∷ ms) w w' r
  unfolding note
  Answered-later p m ms s r x w w' failed error may a = record {
    before = m ∷ a.before;
    member = a.member;
    after = a.after;
    order = ap (◌∷◌ m) a.order;
    asked_in = a.asked_in;
    failures = (x, s, failed, error, may, a.failures);
    upstream = a.upstream;
    answer = a.answer;
    results = a.results;
    nonempty = a.nonempty;
    provider = a.provider;
    requested = a.requested;
    count = a.count ∙ ap length (append_assoc p.failed (m.name ∷ []) (names a.before));
    degraded = a.degraded;
    warnings =
        a.warnings
        ∙ ap (λ fs. a.upstream.warnings ++ map (fallback_warning a.member.name) fs)
            (append_assoc p.failed (m.name ∷ []) (names a.before));
  }

  -- What the prepared response says, for as many failures as there are names noted.
  prepared :
      (p : Progress) (m : Provider W) (ms : List (Provider W)) (r : SearchResponse) (w w' : W)
      → p.index ≡ length p.failed
      → ask request m w ≡ (w', ok r)
      → r.results ≢ []
      → Answered chain request p.failed
          (m ∷ ms)
          w
          w'
          (prepare_success chain request.debug m.name p r)
  unfolding prepare_success
  prepared p m ms r w w' h given n = record {
    before = [];
    member = m;
    after = ms;
    order = refl;
    asked_in = w;
    failures = refl;
    upstream = r;
    answer = given;
    results = refl;
    nonempty = n;
    provider = refl;
    requested = refl;
    count = rw append-nil h;
    degraded = ground arith;
    warnings =
        rw append-nil (prepared_warnings (fallback_warning m.name) r.warnings p.failed p.index h);
  }

  search_from-Answered :
      (p : Progress) (ms : List (Provider W)) (w w' : W) (r : SearchResponse)
      → p.index ≡ length p.failed
      → search_from ctx_err chain request p ms w ≡ (w', ok r)
      → Answered chain request p.failed ms w w' r
  unfolding search_from
  search_from-Answered p [] w w' r h k = absurd (cc)
  search_from-Answered p (m ∷ ms) w w' r h k = elim (round p m ms w) [
    | Round.ended v e a ↦ absurd (cc (k, a))
    | Round.answered v q given n a ↦
        let e : r ≡ prepare_success chain request.debug m.name p q = ground (arith, k, a) in
        let there : v ≡ w' = ap (λ z. z.0) (sym a ∙ k) in
        rw e (prepared p m ms q w w' h (given ∙ ap (λ y. (y, ok q)) there) n)
    | Round.passed v x s here failed error may a ↦
        Answered-later p m ms s r x w w' failed error may (
          subst (λ y. Answered chain request (note m.name s p).failed ms y w' r) here
            (search_from-Answered (note m.name s p) ms v w' r (note_counts m.name s p h)
              (sym a ∙ k)))
  ]

-- A successful answer of a chain has the results, at least one, with which one of its members answered
-- the request, after each of the members before it had been asked, in order, and had failed with an
-- error that allows a fallback or without results; the response names that member and the chain, counts
-- the members before it, is degraded if there are any, and ends in one fallback warning for each of
-- them, in order.
pub search_chain-Answered :
    {W : Type 0} (ctx_err : W → Option Error) (c : Chain W) (request : SearchRequest) (w w' : W)
    (r : SearchResponse)
    → search_chain ctx_err c request w ≡ (w', ok r)
    → Answered c.name request [] c.members w w' r
unfolding search_chain
search_chain-Answered ctx_err c request w w' r h =
    search_from-Answered ctx_err c.name request started c.members w w' r refl h

-- ===== src/Routing/Priority.antt =====
-- The order in which `tryAcquire` of `routing/router.go` goes through the pools, and the errors
-- after which another provider is asked.
use search_x.Prelude.Strings.{is_member}
use search_x.Domain.Attempts.{ProviderName}
use search_x.Routing.Router.{route, tried, further, reroutable}
use search_x.Domain.Errors.{Error, SearchError, as_search_error}
use search_x.Provider.Chain.{allows_fallback}
use search_x.ProfilePool.Types.{Pool, Lease}
use search_x.ProfilePool.Floats.{FloatOps}
use search_x.Prelude.Text.{Text}
use search_x.Prelude.{
  suc, refl, ap, sym, map, Bool-cases, All, [], inr, none, arith, length, some, inl, ◌∷◌, false,
  Option-cases, ℕ, ◌≡◌, Bool, List, Option, ◌++◌,
}

-- The policy of a chain, for an error that may not be one of the search.
abbrev pub chain_falls_back : Option SearchError → Bool
chain_falls_back none = false
chain_falls_back (some e) = allows_fallback e

-- The router asks another provider after exactly the errors after which a chain does.
pub reroutable-allows_fallback : (e : Error) → reroutable e ≡ chain_falls_back (as_search_error e)
unfolding reroutable allows_fallback
reroutable-allows_fallback e = elim (Option-cases (as_search_error e)) [
  | inl a ↦ rw (a, reroutable)
  | inr (s, a) ↦ rw (a, reroutable)
]

further-some :
    (r : Option (ℕ × Lease)) (i : ℕ) (l : Lease)
    → further r ≡ some (i, l)
    → (j : ℕ) × (r ≡ some (j, l)) × (i ≡ suc j)
unfolding further
further-some none i l h = absurd (cc)
further-some (some (j, k)) i l h = (j, ground (arith, h), ground (arith, h))

taken_first :
    (k : Lease) (i : ℕ) (l : Lease)
    → ◌≡◌ {A = Option (ℕ × Lease)} (some (0, k)) (some (i, l))
    → (i ≡ 0) × (l ≡ k)
taken_first k i l h = (cc h, cc h)

module _ {R : Type 0} (fl : FloatOps R) (request_id : Text) (attempted : List ProviderName)
    (excluded : ProviderName → Text) (now : ℕ) where
  abbrev pub outcome : Pool R → Pool R × Option Lease
  outcome = tried fl request_id attempted excluded now

  -- The pool that a lease comes from, those before it, and what becomes of them all.
  pub record Routed (ps qs : List (Pool R)) (i : ℕ) (l : Lease) : Type 0 where
    pub before : List (Pool R)
    pub chosen : Pool R
    pub after : List (Pool R)
    pub order : ps ≡ before ++ chosen ∷ after
    pub index : i ≡ length before
    pub skipped : All (λ p. (outcome p).1 ≡ none) before
    pub fresh : is_member chosen.provider attempted ≡ false
    pub grants : (outcome chosen).1 ≡ some l
    pub left : qs ≡ map (λ p. (outcome p).0) before ++ (outcome chosen).0 ∷ after

  tried_fresh :
      (p : Pool R) (l : Lease) → (outcome p).1 ≡ some l → is_member p.provider attempted ≡ false
  unfolding tried
  tried_fresh p l h = elim (Bool-cases (is_member p.provider attempted)) [
    | inl a ↦ absurd (cc (rw (tried, a) at h))
    | inr a ↦ a
  ]

  Routed-later :
      (p : Pool R) (ps rs : List (Pool R)) (j : ℕ) (l : Lease)
      → (outcome p).1 ≡ none
      → Routed ps rs j l
      → Routed (p ∷ ps) ((outcome p).0 ∷ rs) (suc j) l
  Routed-later p ps rs j l a r = record {
    before = p ∷ r.before;
    chosen = r.chosen;
    after = r.after;
    order = ap (◌∷◌ p) r.order;
    index = ap suc r.index;
    skipped = (a, r.skipped);
    fresh = r.fresh;
    grants = r.grants;
    left = ap (◌∷◌ (outcome p).0) r.left;
  }

  Routed-here :
      (p : Pool R) (ps : List (Pool R)) (l : Lease)
      → (outcome p).1 ≡ some l
      → Routed (p ∷ ps) ((outcome p).0 ∷ ps) 0 l
  Routed-here p ps l a = record {
    before = [];
    chosen = p;
    after = ps;
    order = refl;
    index = refl;
    skipped = tt;
    fresh = tried_fresh p l a;
    grants = a;
    left = refl;
  }

  -- The router takes the lease of the first pool that gives one: every pool before it was attempted
  -- already or gave none, the pool itself was not attempted, and the pools after it are untouched.
  pub route-Routed :
      (ps qs : List (Pool R)) (i : ℕ) (l : Lease)
      → route fl request_id attempted excluded now ps ≡ (qs, some (i, l))
      → Routed ps qs i l
  unfolding route
  route-Routed [] qs i l h = absurd (cc)
  route-Routed (p ∷ ps) qs i l h = elim (Option-cases (outcome p).1) [
    | inr (k, a) ↦
        let g = rw (route, a) at h in
        let e : qs ≡ (outcome p).0 ∷ ps = sym (ap (λ z. z.0) g) in
        let (c, d) = taken_first k i l (ap (λ z. z.1) g) in rw (e, c, d) (Routed-here p ps k a)
    | inl a ↦
        let g = rw (route, a) at h in
        let rest = route fl request_id attempted excluded now ps in
        let e : qs ≡ (outcome p).0 ∷ rest.0 = sym (ap (λ z. z.0) g) in
        let (j, b, c) = further-some rest.1 i l (ap (λ z. z.1) g) in
        rw (e, c) (Routed-later p ps rest.0 j l a (route-Routed ps rest.0 j l (cc b)))
  ]

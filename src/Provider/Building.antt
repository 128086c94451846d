-- ===== src/Provider/Building.antt =====
-- The chains that `NewChain` in `provider/chain.go` builds.
use mathlib.Core.Path.{subst}
use search_x.Prelude.Strings.{is_member}
use search_x.Prelude.{
  none, inr, inl, refl, Bool-cases, arith, ap, Distinct, some, ◌≢◌, map, false, ◌≡◌, ◌∷◌, Option,
  All, [], List,
}
use search_x.Domain.Attempts.{ProviderName}
use search_x.Domain.Fallible.{Fallible, ok, fail, >>=-eq-ok}
use search_x.Provider.Chain.{Provider, Chain, check_members, new_chain}
use search_x.Provider.Fallback.{names}
use search_x.Prelude.Text.{text_eq_refl, text_eq}

All-unseen :
    (name : ProviderName) (seen ns : List ProviderName)
    → All (λ n. is_member n (name ∷ seen) ≡ false) ns
    → All (λ n. n ≢ name) ns × All (λ n. is_member n seen ≡ false) ns
unfolding is_member
All-unseen name seen [] h = (tt, tt)
All-unseen name seen (n ∷ ns) h =
    let (a, b) = All-unseen name seen ns h.1 in
    let k = h.0 in ((λ e. ground (arith, k, e, text_eq_refl name), a), (ground (arith, k), b))

module _ {W : Type 0} where
  -- Members whose names are not empty, differ, and are not among `seen`.
  record AreDistinct (seen : List ProviderName) (ms : List (Provider W)) : Type 0 where
    unseen : All (λ n. is_member n seen ≡ false) (names ms)
    named : All (λ n. n ≢ []) (names ms)
    distinct : Distinct (names ms)

  members_of : Fallible (List (Provider W)) → List (Provider W)
  members_of (ok ms) = ms
  members_of (fail e) = []

  AreDistinct-cons :
      (seen : List ProviderName) (m : Provider W) (ms : List (Provider W))
      → text_eq m.name [] ≡ false
      → is_member m.name seen ≡ false
      → AreDistinct (m.name ∷ seen) ms
      → AreDistinct seen (m ∷ ms)
  AreDistinct-cons seen m ms n a h =
      let (d, u) = All-unseen m.name seen (names ms) h.unseen in
      record {
        unseen = (a, u);
        named = (λ e. cc (n, e, text_eq_refl []), h.named);
        distinct = (d, h.distinct);
      }

  check_members_lem :
      (seen : List ProviderName) (os : List (Option (Provider W))) (ms : List (Provider W))
      → check_members seen os ≡ ok ms
      → (map some ms ≡ os) × AreDistinct seen ms
  unfolding check_members members_of
  check_members_lem seen [] ms h =
      let e : [] ≡ ms = ap members_of h in
      subst (λ z. (map some z ≡ []) × AreDistinct seen z) e
        (refl, record { unseen = tt; named = tt; distinct = tt })
  check_members_lem seen (none ∷ os) ms h = absurd (cc)
  check_members_lem seen (some m ∷ os) ms h = elim (Bool-cases (text_eq m.name [])) [
    | inl a ↦ absurd (cc (rw a at h))
    | inr a ↦ elim (Bool-cases (is_member m.name seen)) [
      | inl b ↦ absurd (cc (rw (a, b) at h))
      | inr b ↦
          let (ms', k, g) =
            >>=-eq-ok (λ x. ok (m ∷ x)) (check_members (m.name ∷ seen) os) (rw (a, b) at h) in
          let (same, d) = check_members_lem (m.name ∷ seen) os ms' g in
          subst (λ z. (map some z ≡ some m ∷ os) × AreDistinct seen z) (ap members_of k)
            (ap (◌∷◌ (some m)) same, AreDistinct-cons seen m ms' a b d)
    ]
  ]

  chain_members : Fallible (Chain W) → Chain W → Chain W
  chain_members (ok c) d = c
  chain_members (fail e) d = d

-- A chain that `NewChain` returns has the given name and exactly the given members in their order,
-- none of them nil or without a name, and no two with the same name.
pub new_chain-members :
    {W : Type 0} (name : ProviderName) (os : List (Option (Provider W))) (c : Chain W)
    → new_chain name os ≡ ok c
    → (c.name ≡ name)
      × (map some c.members ≡ os)
      × All (λ n. n ≢ []) (names c.members)
      × Distinct (names c.members)
unfolding new_chain chain_members
new_chain-members [] os c h = absurd (cc)
new_chain-members (x ∷ name) [] c h = absurd (cc)
new_chain-members (x ∷ name) (o ∷ os) c h =
    let (ms, k, g) =
      >>=-eq-ok (λ ms. ok (record { name = x ∷ name; members = ms })) (check_members [] (o ∷ os))
        h in
    let (same, d) = check_members_lem [] (o ∷ os) ms g in
    let e : record { name = x ∷ name; members = ms } ≡ c = ap (λ z. chain_members z c) k in
    subst
      (λ z.
        (z.name ≡ x ∷ name)
        × (map some z.members ≡ o ∷ os)
        × All (λ n. n ≢ []) (names z.members)
        × Distinct (names z.members))
      e (refl, same, d.named, d.distinct)

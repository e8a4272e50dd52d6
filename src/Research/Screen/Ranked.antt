-- ===== src/Research/Screen/Ranked.antt =====
-- What the screen of treasuryforge/carry_screener.py ranks and promotes.
use mathlib.Core.List.{Perm}
use mathlib.Core.List.Perm
use treasuryforge.Base.{
  ◌≡◌, inl, inr, Bool, true, false, ◌||◌, Option, none, some, List, [], ◌∷◌, map, arith, Bool-cases,
  All,
}
use treasuryforge.Base.Float.{Float, IsOrdered, le, lt, whole, ◌≼◌}
use treasuryforge.Research.Screen.{
  Verdict, ScreenParams, CarryOpportunity, Candidate, gross, costs_too_much, by_evidence, classify,
  screen_coin, insert_edge, sort_edges, screen,
}

abbrev pub may_go_live : Verdict → Bool
may_go_live Verdict.micro_eligible = true
may_go_live Verdict.live_eligible = true
may_go_live _ = false

-- At least the number, where there is one.
abbrev pub at_least : {A : Type 0} ⦃F : Float A⦄ → A → Option A → Bool
at_least least none = false
at_least least (some a) = le least a

module _ {A : Type 0} ⦃F : Float A⦄ where
  insert_edge-perm :
      (o : CarryOpportunity A) (xs : List (CarryOpportunity A)) → Perm (insert_edge o xs) (o ∷ xs)
  unfolding insert_edge
  insert_edge-perm o [] = Perm.refl (o ∷ [])
  insert_edge-perm o (x ∷ xs) = elim (Bool-cases (lt o.net_edge x.net_edge)) [
    | inl below ↦ rw below (Perm.trans (Perm.cons x (insert_edge-perm o xs)) (Perm.swap o x xs))
    | inr above ↦ rw above (Perm.refl (o ∷ x ∷ xs))
  ]

  sort_edges-perm : (xs : List (CarryOpportunity A)) → Perm (sort_edges xs) xs
  unfolding sort_edges
  sort_edges-perm [] = Perm.refl []
  sort_edges-perm (x ∷ xs) =
      Perm.trans (insert_edge-perm x (sort_edges xs)) (Perm.cons x (sort_edges-perm xs))

  -- From the greatest net edge to the least.
  abbrev pub IsRanked : List (CarryOpportunity A) → Type 0
  IsRanked [] = Unit
  IsRanked (o ∷ os) = All (λ x. x.net_edge ≼ o.net_edge) os × IsRanked os

  abbrev Below : A → CarryOpportunity A → Type 0
  Below e x = x.net_edge ≼ e

  insert_edge-Below :
      (e : A) (o : CarryOpportunity A) (xs : List (CarryOpportunity A))
      → Below e o
      → All (Below e) xs
      → All (Below e) (insert_edge o xs)
  unfolding insert_edge
  insert_edge-Below e o [] h k = (h, tt)
  insert_edge-Below e o (x ∷ xs) h k = elim (Bool-cases (lt o.net_edge x.net_edge)) [
    | inl below ↦ rw below (k.0, insert_edge-Below e o xs h k.1)
    | inr above ↦ rw above (h, k)
  ]

  module _ (laws : IsOrdered A) where
    Below-trans :
        (a b : A) (xs : List (CarryOpportunity A)) → a ≼ b → All (Below a) xs → All (Below b) xs
    Below-trans a b [] h k = tt
    Below-trans a b (x ∷ xs) h k = (laws.le_trans x.net_edge a b k.0 h, Below-trans a b xs h k.1)

    insert_edge-IsRanked :
        (o : CarryOpportunity A) (xs : List (CarryOpportunity A))
        → IsRanked xs
        → IsRanked (insert_edge o xs)
    unfolding insert_edge
    insert_edge-IsRanked o [] h = (tt, tt)
    insert_edge-IsRanked o (x ∷ xs) h = elim (Bool-cases (lt o.net_edge x.net_edge)) [
      | inl below ↦
          let under : o.net_edge ≼ x.net_edge =
            ground (
              arith,
              laws.lt-eq-not-le o.net_edge x.net_edge,
              laws.le_total o.net_edge x.net_edge,
            ) in
          rw below (insert_edge-Below x.net_edge o xs under h.0, insert_edge-IsRanked o xs h.1)
      | inr above ↦
          let over : x.net_edge ≼ o.net_edge =
            ground (arith, laws.lt-eq-not-le o.net_edge x.net_edge) in
          rw above ((over, Below-trans x.net_edge o.net_edge xs over h.0), h)
    ]

    sort_edges-IsRanked : (xs : List (CarryOpportunity A)) → IsRanked (sort_edges xs)
    unfolding sort_edges
    sort_edges-IsRanked [] = tt
    sort_edges-IsRanked (x ∷ xs) = insert_edge-IsRanked x (sort_edges xs) (sort_edges-IsRanked xs)

  -- What stands behind an eligible verdict: a net edge above zero and not below the margin, costs
  -- within their share of the gross, and a record with a deflated Sharpe ratio of at least 0.60 over
  -- at least seven days.
  pub record Justified (p : ScreenParams A) (c : Candidate A) (o : CarryOpportunity A)
      : Type 0 where
    pub gains : le o.net_edge (whole 0) ≡ false
    pub thick : lt o.net_edge p.margin_bps ≡ false
    pub cheap : costs_too_much p.max_cost_ratio (gross o) o.net_edge ≡ false
    pub proven : at_least (F.lit 6 1) c.dsr ≡ true
    pub aged : (at_least (whole 7) c.shadow_days || at_least (whole 30) c.shadow_days) ≡ true

  classify-live :
      (net gross_edge : A) (p : ScreenParams A) (dsr days : Option A)
      → may_go_live (classify net gross_edge p dsr days) ≡ true
      → (le net (whole 0) ≡ false)
        × (lt net p.margin_bps ≡ false)
        × (costs_too_much p.max_cost_ratio gross_edge net ≡ false)
        × (at_least (F.lit 6 1) dsr ≡ true)
        × ((at_least (whole 7) days || at_least (whole 30) days) ≡ true)
  unfolding classify
  classify-live net gross_edge p dsr days h = elim (Bool-cases (le net (whole 0))) [
    | inl flat ↦ absurd (cc (rw flat at h))
    | inr gains ↦ elim (Bool-cases (lt net p.margin_bps)) [
      | inl thin ↦ absurd (cc (rw (gains, thin) at h))
      | inr thick ↦ elim (Bool-cases (costs_too_much p.max_cost_ratio gross_edge net)) [
        | inl costly ↦ absurd (cc (rw (gains, thick, costly) at h))
        | inr cheap ↦
            let (proven, aged) = evidence dsr days (rw (gains, thick, cheap) at h) in
            (gains, thick, cheap, proven, aged)
      ]
    ]
  ]
    where
      evidence :
          (d n : Option A)
          → may_go_live (by_evidence d n) ≡ true
          → (at_least (F.lit 6 1) d ≡ true)
            × ((at_least (whole 7) n || at_least (whole 30) n) ≡ true)
      evidence none n k = absurd (cc (k))
      evidence (some x) none k = absurd (cc (k))
      evidence (some x) (some y) k = ground arith

  -- The screen ranks the opportunities of all its candidates, none lost and none added, from the
  -- greatest net edge to the least, where the numbers are ordered; and it finds a candidate eligible
  -- for capital only where its edge, its costs and its record justify it.
  pub screen-IsRanked :
      (laws : IsOrdered A) (p : ScreenParams A) (candidates : List (Candidate A))
      → Perm (screen candidates p) (map (screen_coin p) candidates)
        × IsRanked (screen candidates p)
        × ((c : Candidate A)
            → may_go_live (screen_coin p c).verdict ≡ true
            → Justified p c (screen_coin p c))
  unfolding screen screen_coin
  screen-IsRanked laws p candidates = (
    sort_edges-perm (map (screen_coin p) candidates),
    sort_edges-IsRanked laws (map (screen_coin p) candidates),
    λ c h.
        let o = screen_coin p c in
        let (gains, thick, cheap, proven, aged) =
          classify-live o.net_edge (gross o) p c.dsr c.shadow_days h in
        record { gains = gains; thick = thick; cheap = cheap; proven = proven; aged = aged },
  )

-- ===== src/Capital/Sizing.antt =====
-- How large a position may be: treasuryforge/sizing.py, maturity.py and carry_portfolio_allocator.py.
use treasuryforge.Base.{
  ℕ, Bool, false, ◌&&◌, Option, none, some, List, [], ◌∷◌, ◌++◌, map, String, str_eq, arith,
  if◌then◌else◌, leb, keep, contains,
}
use mathlib.Core.Option
use treasuryforge.Base.Float.{
  Float, IsOrdered, ◌≼◌, ◌+◌ as ◌⊞◌, ◌-◌ as ◌⊟◌, ◌*◌ as ◌⊠◌, ◌/◌ as ◌⊘◌, le, lt, whole, sum, min,
  max, le-max_left, min-le_right,
}
use treasuryforge.Base.Dict.{Dict, get_or, insert}

pub record EwmaVol (A : Type 0) : Type 0 where
  pub lam : A
  pub floor : A
  pub var : Option A

pub record Tier (A : Type 0) : Type 0 where
  pub name : String
  pub max_position : A
  pub min_days_live : A
  pub min_events : ℕ

pub record AllocatorCaps (A : Type 0) : Type 0 where
  pub max_per_position : A
  pub max_per_cluster : A
  pub max_total : A

pub record Candidate (A : Type 0) : Type 0 where
  pub name : String
  pub cluster : String
  pub score : A
  pub max_position : Option A

pub record Allocation (A : Type 0) : Type 0 where
  pub name : String
  pub cluster : String
  pub weight : A

module _ {A : Type 0} ⦃F : Float A⦄ where
  abbrev pub next_var : EwmaVol A → A → A
  next_var v ret = elim v.var [
    | none ↦ ret ⊠ ret
    | some old ↦ (v.lam ⊠ old) ⊞ (((whole 1 ⊟ v.lam) ⊠ ret) ⊠ ret)
  ]

  -- `EwmaVol.vol`
  abbrev pub vol : (A → A) → EwmaVol A → A
  vol sqrt v = elim v.var [ none ↦ v.floor | some var ↦ max (sqrt var) v.floor ]

  -- `EwmaVol.update`
  unfoldable pub update : (A → A) → A → EwmaVol A → A × EwmaVol A
  update sqrt ret v = let w = record v { var = some (next_var v ret) } in (vol sqrt w, w)

  unfoldable pub vol_target_size : A → A → A → A → A → A
  vol_target_size base_size current_vol target_vol max_size vol_floor =
      let v = max current_vol vol_floor in
      max (whole 0) (min (base_size ⊠ (target_vol ⊘ v)) max_size)

  -- The size is not below zero, and no more than a cap that is not below zero, whatever the volatility.
  pub vol_target_size-bounds :
      IsOrdered A
      → (base_size current_vol target_vol max_size vol_floor : A) → whole 0 ≼ max_size
      → let size = vol_target_size base_size current_vol target_vol max_size vol_floor in
        (whole 0 ≼ size) × (size ≼ max_size)
  unfolding vol_target_size
  vol_target_size-bounds laws base_size current_vol target_vol max_size vol_floor h =
      let scaled = base_size ⊠ (target_vol ⊘ max current_vol vol_floor) in
      (
        le-max_left laws (whole 0) (min scaled max_size),
        ground (arith, min-le_right laws scaled max_size),
      )

  abbrev pub tiers : List (Tier A)
  tiers =
      record { name = "micro"; max_position = F.lit 2 2; min_days_live = whole 0; min_events = 0 }
      ∷ record {
        name = "small";
        max_position = F.lit 5 2;
        min_days_live = whole 14;
        min_events = 30;
      }
      ∷ record {
        name = "normal";
        max_position = F.lit 12 2;
        min_days_live = whole 60;
        min_events = 100;
      }
      ∷ record {
        name = "exceptional";
        max_position = F.lit 20 2;
        min_days_live = whole 120;
        min_events = 200;
      }
      ∷ record {
        name = "mature";
        max_position = F.lit 25 2;
        min_days_live = whole 240;
        min_events = 400;
      }
      ∷ []

  -- A tier by its name, and the one after it.
  abbrev pub tier_in : String → List (Tier A) → Option (Tier A × Option (Tier A))
  tier_in name [] = none
  tier_in name (t ∷ []) = if str_eq t.name name then some (t, none) else none
  tier_in name (t ∷ u ∷ rest) =
      let later = tier_in name (u ∷ rest) in if str_eq t.name name then some (t, some u) else later

  -- `tier`: `none` is the ValueError.
  unfoldable pub tier : String → Option (Tier A)
  tier name = Option.map (λ (t, u). t) (tier_in name tiers)

  unfoldable pub cap_for : String → Option A
  cap_for name = Option.map (λ t. t.max_position) (tier name)

  unfoldable pub next_tier : String → Option (Option (Tier A))
  next_tier name = Option.map (λ (t, u). u) (tier_in name tiers)

  abbrev pub earned : A → ℕ → Option (Tier A) → Bool
  earned days_live events none = false
  earned days_live events (some t) = le t.min_days_live days_live && leb t.min_events events

  unfoldable pub can_advance : String → A → ℕ → Option Bool
  can_advance name days_live events = Option.map (earned days_live events) (next_tier name)

  abbrev pub positive : List (Candidate A) → List (Candidate A)
  positive cs = keep (λ c. lt (whole 0) c.score) cs

  -- Steps 1 and 2 of `allocate`: the candidate's own cap stands in the place of the global one.
  unfoldable pub capped : AllocatorCaps A → A → List (Candidate A) → Dict A
  capped caps total [] = []
  capped caps total (c ∷ cs) =
      let own : A = elim c.max_position [ none ↦ caps.max_per_position | some m ↦ m ] in
      (c.name, min own ((caps.max_total ⊠ c.score) ⊘ total)) ∷ capped caps total cs

  abbrev pub weight_of : Dict A → Candidate A → A
  weight_of weights c = get_or c.name (whole 0) weights

  unfoldable pub scaled_by : A → List (Candidate A) → Dict A → Dict A
  scaled_by scale [] weights = weights
  scaled_by scale (c ∷ cs) weights =
      scaled_by scale cs (insert c.name (weight_of weights c ⊠ scale) weights)

  -- Step 3, for one cluster.
  abbrev pub within_cluster : AllocatorCaps A → List (Candidate A) → Dict A → Dict A
  within_cluster caps members weights =
      let csum = sum (map (weight_of weights) members) in
      if lt caps.max_per_cluster csum && lt (whole 0) csum
      then scaled_by (caps.max_per_cluster ⊘ csum) members weights
      else weights

  -- The clusters in the order of their first members.
  abbrev pub cluster_names : List String → List (Candidate A) → List String
  cluster_names seen [] = seen
  cluster_names seen (c ∷ cs) =
      cluster_names (if contains c.cluster seen then seen else seen ++ c.cluster ∷ []) cs

  unfoldable pub within_clusters :
      AllocatorCaps A → List (Candidate A) → List String → Dict A → Dict A
  within_clusters caps pos [] weights = weights
  within_clusters caps pos (k ∷ ks) weights =
      within_clusters caps pos ks (within_cluster caps (keep (λ c. str_eq c.cluster k) pos) weights)

  -- `allocate`, of candidates with names that differ.
  unfoldable pub allocate : List (Candidate A) → AllocatorCaps A → List (Allocation A)
  allocate candidates caps =
      let pos = positive candidates in
      let total = sum (map (λ c. c.score) pos) in
      let weights = within_clusters caps pos (cluster_names [] pos) (capped caps total pos) in
      map (λ c. record { name = c.name; cluster = c.cluster; weight = weight_of weights c }) pos

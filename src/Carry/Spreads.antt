-- ===== src/Carry/Spreads.antt =====
-- treasuryforge/relay_feed.py and venue_spread.py: the relayed funding with its test of freshness, and
-- the spreads between the venues that are reachable.
use treasuryforge.Base.{
  ℕ, ◌+◌, ◌<◌, ◌≡◌, refl, ap, ◌∙◌, Bool, false, Option, none, some, List, [], ◌∷◌, ◌++◌, String,
  arith, if◌then◌else◌, leb,
}
use treasuryforge.Base.Float.{Float, ◌-◌ as ◌⊟◌, le, lt}
use treasuryforge.Base.Dict.{Dict, lookup}

-- `load_snapshot`: the relayed APR of each venue's coins, where a venue that is no dict has none.
pub record Relay (A : Type 0) : Type 0 where
  pub ts : ℕ
  pub venues : Dict (Dict A)

pub record VenueSpread (A : Type 0) : Type 0 where
  pub short_venue : String
  pub long_venue : String
  pub spread_apr : A

pub record SpreadMatrix (A : Type 0) : Type 0 where
  pub funding_apr : List (String × A)
  pub pairwise : List (VenueSpread A)
  pub missing : List String

-- `load_snapshot`, by what the file reads as.
abbrev pub load_snapshot : {A : Type 0} → Option (Relay A) → Relay A
load_snapshot none = record { ts = 0; venues = [] }
load_snapshot (some r) = r

module _ {A : Type 0} where
  abbrev pub relayed : Bool → String → Dict (Dict A) → List (String × Option A)
  relayed fresh coin [] = []
  relayed fresh coin ((v, coins) ∷ rest) =
      (v, if fresh then lookup coin coins else none) ∷ relayed fresh coin rest

  -- `relay_funding`; `now - ts <= max_age` is written without the subtraction.
  unfoldable pub relay_funding : Relay A → String → ℕ → ℕ → List (String × Option A)
  relay_funding r coin now max_age = relayed (leb now (r.ts + max_age)) coin r.venues

  abbrev pub reachable : List (String × Option A) → List (String × A)
  reachable [] = []
  reachable ((v, none) ∷ rest) = reachable rest
  reachable ((v, some f) ∷ rest) = (v, f) ∷ reachable rest

  abbrev pub unreachable : List (String × Option A) → List String
  unreachable [] = []
  unreachable ((v, none) ∷ rest) = v ∷ unreachable rest
  unreachable ((v, some f) ∷ rest) = unreachable rest

-- `sorted`, by a test of which comes first.
module _ {ℓ} {B : Type ℓ} (first : B → B → Bool) where
  unfoldable pub put : B → List B → List B
  put x [] = x ∷ []
  put x (y ∷ ys) = let rest = put x ys in if first y x then y ∷ rest else x ∷ y ∷ ys

  unfoldable pub sort : List B → List B
  sort [] = []
  sort (x ∷ xs) = put x (sort xs)

module _ {A : Type 0} ⦃F : Float A⦄ (text_less : String → String → Bool) where
  abbrev pub spread_of : String × A → String × A → VenueSpread A
  spread_of (a, f) (b, g) =
      if le g f
      then record { short_venue = a; long_venue = b; spread_apr = F.magnitude (f ⊟ g) }
      else record { short_venue = b; long_venue = a; spread_apr = F.magnitude (f ⊟ g) }

  abbrev pub with_each : String × A → List (String × A) → List (VenueSpread A)
  with_each x [] = []
  with_each x (y ∷ ys) = spread_of x y ∷ with_each x ys

  -- `combinations(..., 2)`
  unfoldable pub pairs : List (String × A) → List (VenueSpread A)
  pairs [] = []
  pairs (x ∷ xs) = with_each x xs ++ pairs xs

  abbrev pub earlier : String × A → String × A → Bool
  earlier (a, f) (b, g) = text_less a b

  -- A stable sort by falling spread.
  abbrev pub wider : VenueSpread A → VenueSpread A → Bool
  wider s t = lt t.spread_apr s.spread_apr

  unfoldable pub pairwise_spreads : List (String × Option A) → SpreadMatrix A
  pairwise_spreads funding =
      let venues = reachable funding in
      record {
        funding_apr = venues;
        pairwise = sort wider (pairs (sort earlier venues));
        missing = sort text_less (unreachable funding);
      }

  reachable-relayed :
      (direct : List (String × Option A)) (coin : String) (venues : Dict (Dict A))
      → reachable (direct ++ relayed false coin venues) ≡ reachable direct
  reachable-relayed [] coin [] = refl
  reachable-relayed [] coin ((v, coins) ∷ rest) = reachable-relayed [] coin rest
  reachable-relayed ((v, none) ∷ direct) coin venues = reachable-relayed direct coin venues
  reachable-relayed ((v, some f) ∷ direct) coin venues =
      ap (◌∷◌ (v, f)) (reachable-relayed direct coin venues)

  -- A relay snapshot that is older than its greatest age is in no spread: the fundings and the spreads
  -- are those of the venues that are read directly.
  pub pairwise_spreads_stale :
      (direct : List (String × Option A)) (r : Relay A) (coin : String) (now max_age : ℕ)
      → r.ts + max_age < now
      → let with_relay = pairwise_spreads (direct ++ relay_funding r coin now max_age) in
        let without = pairwise_spreads direct in
        (with_relay.funding_apr ≡ without.funding_apr) × (with_relay.pairwise ≡ without.pairwise)
  unfolding pairwise_spreads relay_funding
  pairwise_spreads_stale direct r coin now max_age old =
      let stale : leb now (r.ts + max_age) ≡ false = ground arith in
      let same =
        ap (λ b. reachable (direct ++ relayed b coin r.venues)) stale
        ∙ reachable-relayed direct coin r.venues in
      (same, ap (λ (xs : List (String × A)). sort wider (pairs (sort earlier xs))) same)

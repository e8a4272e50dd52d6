-- ===== src/Capital/Committee.antt =====
-- treasuryforge/consultants.py: the six consultants whose votes must agree, with the variance ratio of
-- signals/regime.py.
use treasuryforge.Base.{
  ℕ, ◌+◌, ◌-◌, ◌≡◌, refl, ◌↔◌, inl, inr, Bool, true, false, not, ◌&&◌, ◌||◌, Option, none, some,
  List, [], ◌∷◌, map, arith, if◌then◌else◌, ltb, leb, ◌==◌, Bool-cases, length, all, keep, take,
  drop,
}
use treasuryforge.Base.{◌/◌ as ◌÷◌}
use treasuryforge.Base.Float.{
  Float, ◌+◌ as ◌⊞◌, ◌-◌ as ◌⊟◌, ◌*◌ as ◌⊠◌, ◌/◌ as ◌⊘◌, le, lt, whole, sum, min, max,
}

pub data Consultant : Type 0 where
  edge_voter concentration_voter consistency_voter drawdown_voter ruin_voter regime_voter :
      Consultant

pub record Vote : Type 0 where
  pub consultant : Consultant
  pub approve : Bool

pub record CommitteeVerdict : Type 0 where
  pub approved : Bool
  pub votes : List Vote

abbrev pub approves : Vote → Bool
approves v = v.approve

-- `CommitteeVerdict.vetoes`
abbrev pub vetoes : CommitteeVerdict → List Vote
vetoes c = keep (λ v. not v.approve) c.votes

module _ {A : Type 0} ⦃F : Float A⦄ where
  abbrev pub positive : A → Bool
  positive r = lt (whole 0) r

  abbrev pub greatest : A → List A → A
  greatest best [] = best
  greatest best (x ∷ xs) = greatest (max best x) xs

  abbrev pub share_of : List A → A
  share_of [] = whole 1
  share_of (w ∷ ws) =
      let gross = sum (w ∷ ws) in if lt (whole 0) gross then greatest w ws ⊘ gross else whole 1

  -- `_concentration`
  unfoldable pub concentration : List A → Bool
  concentration returns = le (share_of (keep positive returns)) (F.lit 40 2)

  -- `_consistency`
  unfoldable pub consistency : List A → Bool
  consistency returns =
      let n = length returns in
      let half = n ÷ 2 in
      let win = if n == 0 then whole 0 else whole (length (keep positive returns)) ⊘ whole n in
      leb 1 half
      && lt (whole 0) (sum (take half returns))
      && lt (whole 0) (sum (drop half returns))
      && le (F.lit 50 2) win

  -- The loop of `_drawdown`: the equity, its peak and the deepest fall.
  unfoldable pub deepest : A → A → A → List A → A
  deepest eq peak dd [] = dd
  deepest eq peak dd (r ∷ rest) =
      let eq' = eq ⊠ (whole 1 ⊞ r) in
      let peak' = max peak eq' in deepest eq' peak' (min dd ((eq' ⊘ peak') ⊟ whole 1)) rest

  unfoldable pub drawdown : List A → Bool
  drawdown returns = le (F.negate (F.lit 25 2)) (deepest (whole 1) (whole 1) (whole 0) returns)

  -- The values of the equity after each return, from a value on.
  unfoldable pub equity_from : A → List A → List A
  equity_from eq [] = []
  equity_from eq (r ∷ rest) = let eq' = eq ⊠ (whole 1 ⊞ r) in eq' ∷ equity_from eq' rest

  abbrev pub last_of : A → List A → A
  last_of x [] = x
  last_of x (y ∷ ys) = last_of y ys

  -- The deepest retreat from a peak, of the loop in `_regime`.
  unfoldable pub retreat : A → A → List A → A
  retreat peak dd [] = dd
  retreat peak dd (e ∷ rest) =
      let peak' = if lt peak e then e else peak in
      let fall = whole 1 ⊟ (e ⊘ peak') in retreat peak' (if lt dd fall then fall else dd) rest

  -- The differences of two series, entry by entry, as far as the shorter.
  unfoldable pub changes : List A → List A → List A
  changes [] ys = []
  changes (x ∷ xs) [] = []
  changes (x ∷ xs) (y ∷ ys) = (y ⊟ x) ∷ changes xs ys

  abbrev pub deviations : A → List A → A
  deviations mu ds = sum (map (λ d. (d ⊟ mu) ⊠ (d ⊟ mu)) ds) ⊘ whole (length ds)

  -- `variance_ratio`: `none` is a ValueError.
  unfoldable pub variance_ratio : List A → ℕ → Option A
  variance_ratio x k =
      let d1 = changes x (drop 1 x) in
      let mu = sum d1 ⊘ whole (length d1) in
      let var1 = deviations mu d1 in
      let vark = deviations (whole k ⊠ mu) (changes x (drop k x)) in
      if ltb k 2 || leb (length x) (k + 1)
      then none
      else if le var1 (F.lit 1 12)
      then some (whole 1)
      else some (vark ⊘ (whole k ⊠ var1))

  -- The second test of `_regime`.
  abbrev pub by_variance : List A → Bool
  by_variance equity =
      let is_steady =
        lt (whole 1) (last_of (whole 1) equity)
        && lt (retreat (whole 1) (whole 0) equity) (F.lit 5 2) in
      elim (variance_ratio equity 8) [
        | none ↦ true
        | some vr ↦ if lt vr (F.lit 9 1) && not is_steady then false else true
      ]

  -- `_regime`; `truncate` is `int` of a float that is not below zero.
  unfoldable pub regime : (A → ℕ) → List A → Bool
  regime truncate returns =
      let n = length returns in
      let part = truncate (whole n ⊠ (whole 1 ⊘ whole 3)) in
      let w = if ltb 1 part then part else 1 in
      let tail = drop (n - w) returns in
      let m = sum tail ⊘ whole (length tail) in
      if ltb n 1
      then true
      else if le m (whole 0)
      then false
      else if leb n 9
      then true
      else by_variance (whole 1 ∷ equity_from (whole 1) returns)

  module _ (deflated_sharpe_ratio : List A → A) (p_breach : List A → A) (truncate : A → ℕ) where
    unfoldable pub edge : List A → Bool
    edge returns = le (F.lit 60 2) (deflated_sharpe_ratio returns)

    -- `_ruin`, for the estimated probability of a drawdown of a fifth.
    unfoldable pub ruin : List A → Bool
    ruin returns = if ltb (length returns) 2 then true else le (p_breach returns) (F.lit 5 2)

    -- `Committee.review`
    unfoldable pub review : List A → CommitteeVerdict
    review returns =
        let votes =
          record { consultant = edge_voter; approve = edge returns }
          ∷ record { consultant = concentration_voter; approve = concentration returns }
          ∷ record { consultant = consistency_voter; approve = consistency returns }
          ∷ record { consultant = drawdown_voter; approve = drawdown returns }
          ∷ record { consultant = ruin_voter; approve = ruin returns }
          ∷ record { consultant = regime_voter; approve = regime truncate returns }
          ∷ [] in
        record { approved = all approves votes; votes = votes }

    vetoes-all :
        (votes : List Vote) → (all approves votes ≡ true) ↔ (keep (λ v. not v.approve) votes ≡ [])
    vetoes-all [] = (λ h. refl, λ h. refl)
    vetoes-all (v ∷ vs) =
        let (onward, back) = vetoes-all vs in
        elim (Bool-cases v.approve) [
          | inl yes_vote ↦ rw yes_vote (onward, back)
          | inr no_vote ↦ rw no_vote (λ h. cc, λ h. ground arith)
        ]

    -- The committee approves exactly when no consultant vetoes.
    pub review-vetoes :
        (returns : List A) → ((review returns).approved ≡ true) ↔ (vetoes (review returns) ≡ [])
    unfolding review
    review-vetoes returns = vetoes-all (review returns).votes

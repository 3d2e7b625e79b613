-- ===== src/Client/Percentiles.antt =====
-- Percentiles: between which values of the list they lie, and their order.
use mini_dynamo.Prelude.{
  ℤ, pos, pos_part, neg_part, ◌≤ℤ◌, ◌+ℤ◌, ◌-ℤ◌, ◌*ℤ◌, ℕ, zero, suc, ◌+◌, ◌-◌, ◌*◌, ◌/◌, ◌%◌, ◌≤◌,
  ◌<◌, ltb, ◌≡◌, refl, inl, inr, List, [], ◌∷◌, length, All, Bool-cases, arith,
}
use mini_dynamo.Client.{at_or, min_ℕ, between, pct}

times_lem : (d f : ℕ) → pos d *ℤ pos f ≡ pos (d * f)
unfolding ◌*ℤ◌
times_lem d f = ground arith

grows : (d f g : ℕ) → f ≤ g → d * f ≤ d * g
grows zero f g h = omega arith
grows (suc d) f g h = let rest = grows d f g h in omega arith

-- From the smaller of two values the way is a natural number.
way :
    (a b : ℤ)
    → a ≤ℤ b
    → (d : ℕ) × (b -ℤ a ≡ pos d) × (pos_part b + neg_part a ≡ pos_part a + neg_part b + d)
unfolding ◌-ℤ◌
way a b h = (pos_part b + neg_part a - (pos_part a + neg_part b), ground arith, omega arith)

hundred_mono : (a b : ℤ) → a ≤ℤ b → a *ℤ pos 100 ≤ℤ b *ℤ pos 100
unfolding ◌*ℤ◌
hundred_mono a b h = ground arith

between_low : (a b : ℤ) (f : ℕ) → a ≤ℤ b → a *ℤ pos 100 ≤ℤ between a b f
unfolding between ◌+ℤ◌
between_low a b f h = let (d, e, p) = way a b h in rw (e, times_lem d f) (ground arith)

between_high : (a b : ℤ) (f : ℕ) → a ≤ℤ b → f ≤ 100 → between a b f ≤ℤ b *ℤ pos 100
unfolding between ◌+ℤ◌ ◌*ℤ◌
between_high a b f h k =
    let (d, e, p) = way a b h in let most = grows d f 100 k in rw (e, times_lem d f) (ground arith)

between_mono : (a b : ℤ) (f g : ℕ) → a ≤ℤ b → f ≤ g → between a b f ≤ℤ between a b g
unfolding between ◌+ℤ◌
between_mono a b f g h k =
    let (d, e, p) = way a b h in
    let more = grows d f g k in rw (e, times_lem d f, times_lem d g) (ground arith)

pub ≤ℤ_trans : (a b c : ℤ) → a ≤ℤ b → b ≤ℤ c → a ≤ℤ c
≤ℤ_trans a b c h k = omega arith

pub ≤ℤ_refl : (a : ℤ) → a ≤ℤ a
≤ℤ_refl a = omega arith

-- The values rise along the list.
unfoldable pub IsRising : List ℤ → Type 0
IsRising [] = Unit
IsRising (x ∷ xs) = All (λ y. x ≤ℤ y) xs × IsRising xs

at-All :
    (P : ℤ → Type 0) (default : ℤ) (vals : List ℤ) (i : ℕ)
    → All P vals
    → i < length vals
    → P (at_or default vals i)
unfolding at_or
at-All P default [] i h k = absurd (omega arith)
at-All P default (x ∷ vals) zero h k = h.0
at-All P default (x ∷ vals) (suc i) h k = at-All P default vals i h.1 (omega arith)

at_mono :
    (default : ℤ) (vals : List ℤ) (i j : ℕ)
    → IsRising vals
    → i ≤ j
    → j < length vals
    → at_or default vals i ≤ℤ at_or default vals j
unfolding at_or IsRising
at_mono default [] i j r h k = absurd (omega arith)
at_mono default (x ∷ vals) zero zero r h k = ≤ℤ_refl x
at_mono default (x ∷ vals) zero (suc j) r h k =
    at-All (λ y. x ≤ℤ y) default vals j r.0 (omega arith)
at_mono default (x ∷ vals) (suc i) zero r h k = absurd (omega arith)
at_mono default (x ∷ vals) (suc i) (suc j) r h k =
    at_mono default vals i j r.1 (omega arith) (omega arith)

-- A percentile lies between the values at two neighbouring places.
module _ (vals : List ℤ) (rising : IsRising vals) (filled : 0 < length vals) where
  abbrev at : ℕ → ℤ
  at i = at_or (pos 0) vals i

  abbrev top : ℕ
  top = length vals - 1

  next : ℕ → ℕ
  next i = min_ℕ (i + 1) top

  next_lem : (i : ℕ) → i ≤ top → (i ≤ next i) × (next i < length vals)
  unfolding next min_ℕ
  next_lem i h = (ground arith, ground arith)

  next_up : (i j : ℕ) → i < j → j ≤ top → next i ≤ j
  unfolding next min_ℕ
  next_up i j h k = ground arith

  step : (i : ℕ) → i ≤ top → at i ≤ℤ at (next i)
  step i h = let (up, inside) = next_lem i h in at_mono (pos 0) vals i (next i) rising up inside

  place : (percent : ℕ) → percent ≤ 100 → top * percent / 100 ≤ top
  place percent h = let most = grows top percent 100 h in omega arith

  pct_unfold :
      (percent : ℕ)
      → pct vals percent
        ≡ between (at (top * percent / 100)) (at (next (top * percent / 100))) (top * percent % 100)
  unfolding pct next
  pct_unfold percent = refl

  -- The value at `k` hundredths of the way between places.
  abbrev reached : ℕ → ℤ
  reached k = between (at (k / 100)) (at (next (k / 100))) (k % 100)

  reached_mono : (k l : ℕ) → k ≤ l → l / 100 ≤ top → reached k ≤ℤ reached l
  reached_mono k l h m =
      let rest : k % 100 ≤ 100 = omega arith in
      let first : k / 100 ≤ top = omega arith in
      elim (Bool-cases (ltb (k / 100) (l / 100))) [
        | inl e ↦
            (let before : k / 100 < l / 100 = ground arith in
              let inside : l / 100 < length vals = omega arith in
              let to_next =
                between_high (at (k / 100)) (at (next (k / 100))) (k % 100) (step (k / 100) first)
                  rest in
              let onward = hundred_mono _ _ (
                at_mono (pos 0) vals (next (k / 100)) (l / 100) rising
                  (next_up (k / 100) (l / 100) before m) inside) in
              let from =
                between_low (at (l / 100)) (at (next (l / 100))) (l % 100) (step (l / 100) m) in
              ≤ℤ_trans (reached k) _ (reached l) to_next (≤ℤ_trans _ _ (reached l) onward from))
        | inr e ↦
            (let same : l / 100 ≡ k / 100 = ground arith in
              let less : k % 100 ≤ l % 100 = omega arith in
              rw same (
                between_mono (at (k / 100)) (at (next (k / 100))) (k % 100) (l % 100)
                  (step (k / 100) first) less))
      ]

  -- Percentiles of a larger percentage are larger.
  pub pct_mono : (p q : ℕ) → p ≤ q → q ≤ 100 → pct vals p ≤ℤ pct vals q
  pct_mono p q h k =
      rw (pct_unfold p, pct_unfold q)
        (reached_mono (top * p) (top * q) (grows top p q h) (place q k))

  -- A bound of all the values bounds their percentiles, a hundred times.
  pub pct_below :
      (q : ℕ) (bound : ℤ) → q ≤ 100 → All (λ v. v ≤ℤ bound) vals → pct vals q ≤ℤ bound *ℤ pos 100
  pct_below q bound h most =
      let i = top * q / 100 in
      let rest : top * q % 100 ≤ 100 = omega arith in
      rw (pct_unfold q) (
        ≤ℤ_trans _ _ (bound *ℤ pos 100)
          (between_high (at i) (at (next i)) (top * q % 100) (step i (place q h)) rest)
          (hundred_mono (at (next i)) bound
            (at-All (λ v. v ≤ℤ bound) (pos 0) vals (next i) most (next_lem i (place q h)).1)))

-- ===== src/Worker/Transfer.antt =====
-- common/kv_transfer.py: how the cost of a transfer depends on the size of the cache.
use mini_dynamo.Prelude.{◌≡◌, refl, inl, inr, true, false, Bool-cases}
use mini_dynamo.Worker.{Costs, transfer_ms}

-- What the order of the floats satisfies, where no sum overflows and there is no NaN.
pub record IsOrdered {F : Type 0} (costs : Costs F) (le : F → F → Type 0) : Type 0 where
  pub reflexive : (a : F) → le a a
  pub transitive : (a b c : F) → le a b → le b c → le a c
  pub at_most_zero_down :
      (a b : F) → le a b → costs.at_most_zero b ≡ true → costs.at_most_zero a ≡ true
  pub plus_mono : (c a b : F) → le a b → le (costs.plus c a) (costs.plus c b)
  pub plus_more : (c a : F) → le costs.zero a → le c (costs.plus c a)
  pub over_mono :
      (a b c : F) → le a b → costs.at_most_zero c ≡ false → le (costs.over a c) (costs.over b c)
  pub over_least :
      (a c : F)
      → costs.at_most_zero a ≡ false
      → costs.at_most_zero c ≡ false
      → le costs.zero (costs.over a c)

module _ {F : Type 0} (costs : Costs F) (le : F → F → Type 0) (ordered : IsOrdered costs le) where
  fixed_least :
      (size bandwidth fixed : F)
      → costs.at_most_zero size ≡ false
      → le fixed (transfer_ms costs size bandwidth fixed false)
  unfolding transfer_ms
  fixed_least size bandwidth fixed big =
      let speed = costs.times bandwidth costs.eighth in
      elim (Bool-cases (costs.at_most_zero speed)) [
        | inl slow ↦ rw (big, slow) (ordered.reflexive fixed)
        | inr fast ↦
            rw (big, fast)
              (ordered.plus_more fixed (costs.over size speed)
                (ordered.over_least size speed big fast))
      ]

  -- A larger cache takes no less time to transfer, and in a colocated deployment no time, whatever
  -- its size, when the fixed cost is not negative.
  pub transfer_ms_mono :
      (small large bandwidth fixed : F)
      → le costs.zero fixed
      → le small large
      → le
          (transfer_ms costs small bandwidth fixed false)
          (transfer_ms costs large bandwidth fixed false)
        × (transfer_ms costs large bandwidth fixed true ≡ costs.zero)
  unfolding transfer_ms
  transfer_ms_mono small large bandwidth fixed charge more =
      let speed = costs.times bandwidth costs.eighth in
      let rising : le (transfer_ms costs small bandwidth fixed false)
          (transfer_ms costs large bandwidth fixed false) =
        elim (Bool-cases (costs.at_most_zero large)) [
          | inl none_left ↦
              rw (ordered.at_most_zero_down small large more none_left, none_left)
                (ordered.reflexive costs.zero)
          | inr big ↦ elim (Bool-cases (costs.at_most_zero small)) [
            | inl tiny ↦
                rw tiny
                  (ordered.transitive _ fixed _ charge (fixed_least large bandwidth fixed big))
            | inr bigger ↦ elim (Bool-cases (costs.at_most_zero speed)) [
              | inl slow ↦ rw (big, bigger, slow) (ordered.reflexive fixed)
              | inr fast ↦
                  rw (big, bigger, fast)
                    (ordered.plus_mono fixed _ _ (ordered.over_mono small large speed more fast))
            ]
          ]
        ] in
      (rising, refl)

-- ===== src/Dict/Sums.antt =====
-- A sum over the values of a dictionary, and how a write changes it.
use mini_dynamo.Prelude.{ℤ, pos, ◌+ℤ◌, ◌≡◌, refl, none, some, [], ◌∷◌, arith, +ℤ_swap}
use mini_dynamo.Dict.{Dict, get, remove, put, IsUnique}
use mini_dynamo.Dict.Laws.{remove_absent}

module _ {ℓ} {K V : Type ℓ} where
  unfoldable pub total : (V → ℤ) → Dict K V → ℤ
  total w [] = pos 0
  total w (e ∷ d) = w e.1 +ℤ total w d

module _ {ℓ} {K V : Type ℓ} (dec : Discrete K) (w : V → ℤ) where
  pub total-remove :
      (k : K) (d : Dict K V) (v : V)
      → IsUnique dec d
      → get dec k d ≡ some v
      → total w d ≡ w v +ℤ total w (remove dec k d)
  unfolding total get remove
  total-remove k [] v u h = ground arith
  total-remove k (e ∷ d) v u h = ground (
    arith,
    total-remove k d v u.1,
    remove_absent dec k d,
    +ℤ_swap (w e.1) (w v) (total w (remove dec k d)),
  )

  pub total-put_absent :
      (k : K) (d : Dict K V) (v : V)
      → get dec k d ≡ none
      → total w (put dec k v d) ≡ w v +ℤ total w d
  unfolding total get put
  total-put_absent k [] v h = refl
  total-put_absent k (e ∷ d) v h =
      ground (arith, total-put_absent k d v, +ℤ_swap (w e.1) (w v) (total w d))

  -- A value replaced by one of the same weight.
  pub total-put_same :
      (k : K) (d : Dict K V) (v v' : V)
      → get dec k d ≡ some v
      → w v' ≡ w v
      → total w (put dec k v' d) ≡ total w d
  unfolding total get put
  total-put_same k [] v v' h e = cc
  total-put_same k (x ∷ d) v v' h e = ground (arith, total-put_same k d v v')

-- ===== src/Dict/Values.antt =====
-- A dictionary with a function applied to every value.
use mathlib.Core.Option
use mini_dynamo.Prelude.{ℤ, ◌+ℤ◌, ◌≡◌, refl, ap, [], ◌∷◌, ◌++◌, arith}
use mini_dynamo.Dict.{Dict, get, remove}
use mini_dynamo.Dict.Sums.{total}

module _ {K V W : Type 0} (f : V → W) where
  unfoldable pub map_values : Dict K V → Dict K W
  map_values [] = []
  map_values (e ∷ d) = (e.0, f e.1) ∷ map_values d

  pub map_values-append : (d d' : Dict K V) → map_values (d ++ d') ≡ map_values d ++ map_values d'
  unfolding map_values
  map_values-append [] d' = refl
  map_values-append (e ∷ d) d' = ap (◌∷◌ (e.0, f e.1)) (map_values-append d d')

  pub total-map_values :
      (w : W → ℤ) (d : Dict K V) → total w (map_values d) ≡ total (λ v. w (f v)) d
  unfolding map_values total
  total-map_values w [] = refl
  total-map_values w (e ∷ d) = ap (λ t. w (f e.1) +ℤ t) (total-map_values w d)

module _ {K V W : Type 0} (dec : Discrete K) (f : V → W) where
  pub remove-map_values :
      (k : K) (d : Dict K V) → remove dec k (map_values f d) ≡ map_values f (remove dec k d)
  unfolding map_values remove
  remove-map_values k [] = refl
  remove-map_values k (e ∷ d) = ground (arith, remove-map_values k d)

  pub get-map_values :
      (k : K) (d : Dict K V) → get dec k (map_values f d) ≡ Option.map f (get dec k d)
  unfolding map_values get
  get-map_values k [] = refl
  get-map_values k (e ∷ d) = ground (arith, get-map_values k d)

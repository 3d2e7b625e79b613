-- ===== src/Dict/Laws.antt =====
-- What a dictionary shows after a write, and that writes keep the keys distinct.
use mini_dynamo.Prelude.{◌+◌, ◌≡◌, refl, ite, none, some, [], ◌∷◌, ◌++◌, arith, length}
use mini_dynamo.Dict.{Dict, get, remove, put, IsUnique}

module _ {ℓ} {K V : Type ℓ} (dec : Discrete K) where
  pub get-remove :
      (k j : K) (d : Dict K V) → get dec j (remove dec k d) ≡ ite (dec k j) none (get dec j d)
  unfolding get remove
  get-remove k j [] = ground arith
  get-remove k j (e ∷ d) = ground (arith, get-remove k j d)

  pub get-put :
      (k j : K) (v : V) (d : Dict K V)
      → get dec j (put dec k v d) ≡ ite (dec k j) (some v) (get dec j d)
  unfolding get put
  get-put k j v [] = refl
  get-put k j v (e ∷ d) = ground (arith, get-put k j v d)

  pub remove_absent : (k : K) (d : Dict K V) → get dec k d ≡ none → remove dec k d ≡ d
  unfolding get remove
  remove_absent k [] h = refl
  remove_absent k (e ∷ d) h = ground (arith, remove_absent k d)

  pub put_absent :
      (k : K) (v : V) (d : Dict K V) → get dec k d ≡ none → put dec k v d ≡ d ++ (k, v) ∷ []
  unfolding get put
  put_absent k v [] h = refl
  put_absent k v (e ∷ d) h = ground (arith, put_absent k v d)

  pub remove-IsUnique : (k : K) (d : Dict K V) → IsUnique dec d → IsUnique dec (remove dec k d)
  unfolding remove
  remove-IsUnique k [] u = tt
  remove-IsUnique k (e ∷ d) u = ground (arith, remove-IsUnique k d u.1, get-remove k e.0 d)

  pub put-IsUnique : (k : K) (v : V) (d : Dict K V) → IsUnique dec d → IsUnique dec (put dec k v d)
  unfolding put get
  put-IsUnique k v [] u = (refl, tt)
  put-IsUnique k v (e ∷ d) u = ground (arith, put-IsUnique k v d u.1, get-put k e.0 v d)

  pub length-remove :
      (k : K) (d : Dict K V) (v : V)
      → IsUnique dec d
      → get dec k d ≡ some v
      → length (remove dec k d) + 1 ≡ length d
  unfolding get remove
  length-remove k [] v u h = ground arith
  length-remove k (e ∷ d) v u h = ground (arith, length-remove k d v u.1, remove_absent k d)

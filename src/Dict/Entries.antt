-- ===== src/Dict/Entries.antt =====
-- The entries of a dictionary with distinct keys are what it shows.
use mini_dynamo.Prelude.{
  ◌+◌, ◌≤◌, ◌≡◌, refl, if_pos, none, some, [], ◌∷◌, arith, length, All, All-map,
}
use mini_dynamo.Dict.{Dict, get, remove, put, IsUnique}

module _ {ℓ} {K V : Type ℓ} (dec : Discrete K) where
  -- The entry is what its key shows.
  abbrev pub Shows : Dict K V → K × V → Type ℓ
  Shows d e = get dec e.0 d ≡ some e.1

  Shows-cons :
      (k : K) (v : V) (d : Dict K V)
      → get dec k d ≡ none
      → (e : K × V) → Shows d e
      → Shows ((k, v) ∷ d) e
  unfolding get
  Shows-cons k v d absent e h = ground arith

  pub All-Shows : (d : Dict K V) → IsUnique dec d → All (Shows d) d
  unfolding get
  All-Shows [] u = tt
  All-Shows ((k, v) ∷ d) u =
      (if_pos (dec k k) refl _ _, All-map _ _ d (Shows-cons k v d u.0) (All-Shows d u.1))

  -- What holds of every entry holds of what a key shows.
  pub All-get :
      (P : K × V → Type ℓ) (k : K) (v : V) (d : Dict K V)
      → All P d
      → get dec k d ≡ some v
      → P (k, v)
  unfolding get
  All-get P k v [] h e = cc
  All-get P k v ((j, w) ∷ d) h e = elim (dec j k) [
    | yes hit ↦ (let same : w ≡ v = ground arith in rw (← hit, ← same) h.0)
    | no miss ↦ All-get P k v d h.1 (ground arith)
  ]

  pub All-remove : (P : K × V → Type ℓ) (k : K) (d : Dict K V) → All P d → All P (remove dec k d)
  unfolding remove
  All-remove P k [] h = tt
  All-remove P k (e ∷ d) h = ground (arith, All-remove P k d h.1)

  pub All-put :
      (P : K × V → Type ℓ) (k : K) (v : V) (d : Dict K V)
      → P (k, v)
      → All P d
      → All P (put dec k v d)
  unfolding put
  All-put P k v [] p h = (p, tt)
  All-put P k v (e ∷ d) p h = ground (arith, All-put P k v d p h.1)

  pub length-remove-le : (k : K) (d : Dict K V) → length (remove dec k d) ≤ length d
  unfolding remove
  length-remove-le k [] = omega arith
  length-remove-le k (e ∷ d) = ground (arith, length-remove-le k d)

  pub length-put-le : (k : K) (v : V) (d : Dict K V) → length (put dec k v d) ≤ length d + 1
  unfolding put
  length-put-le k v [] = omega arith
  length-put-le k v (e ∷ d) = ground (arith, length-put-le k v d)

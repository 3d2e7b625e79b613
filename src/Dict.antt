-- ===== src/Dict.antt =====
-- Python's `dict`: an insertion-ordered association list whose keys have a decidable equality.
-- `put` keeps the place of a key that is present and appends a new one, as CPython does.
pub mod Laws
pub mod Sums
pub mod Entries
pub mod Aging
pub mod Values
use mini_dynamo.Prelude.{ℕ, ◌≡◌, ite, Bool, true, false, Option, none, some, List, [], ◌∷◌, map}

abbrev pub Dict {ℓ} : Type ℓ → Type ℓ → Type ℓ
Dict K V = List (K × V)

abbrev pub keys {ℓ} : {K V : Type ℓ} → Dict K V → List K
keys = map (λ e. e.0)

abbrev pub values {ℓ} : {K V : Type ℓ} → Dict K V → List V
values = map (λ e. e.1)

module _ {ℓ} {K V : Type ℓ} (dec : Discrete K) where
  -- d.get(k)
  unfoldable pub get : K → Dict K V → Option V
  get k [] = none
  get k ((j, v) ∷ d) = ite (dec j k) (some v) (get k d)

  -- k in d
  unfoldable pub contains : K → Dict K V → Bool
  contains k d = elim (get k d) [ none ↦ false | some v ↦ true ]

  -- d.pop(k, None) and del d[k]
  unfoldable pub remove : K → Dict K V → Dict K V
  remove k [] = []
  remove k ((j, v) ∷ d) = ite (dec j k) (remove k d) ((j, v) ∷ remove k d)

  -- d[k] = v
  unfoldable pub put : K → V → Dict K V → Dict K V
  put k v [] = (k, v) ∷ []
  put k v ((j, w) ∷ d) = ite (dec j k) ((k, v) ∷ d) ((j, w) ∷ put k v d)

  -- No key stands twice.
  abbrev pub IsUnique : Dict K V → Type ℓ
  IsUnique [] = Unit
  IsUnique ((k, v) ∷ d) = (get k d ≡ none) × IsUnique d

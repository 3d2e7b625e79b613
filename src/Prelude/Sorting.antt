-- ===== src/Prelude/Sorting.antt =====
-- `list.sort(key=...)`: a stable sort, as insertion.
use mathlib.Core.Path.{◌≡◌, refl, ap}
use mathlib.Core.Bool.{Bool, true, false, not, ◌&&◌}
use mathlib.Core.List.{List, [], ◌∷◌}
use mathlib.Core.Logic.{inl, inr}
use native.Mathlib.Omega.{arith}
use mini_dynamo.Prelude.Tests.{if◌then◌else◌, Bool-cases}
use mini_dynamo.Prelude.Lists.{All, All-map, In}
use mini_dynamo.Prelude.Minimum.{IsOrder, IsFirstMin, IsFirstMin-least}

unfoldable pub filter {ℓ} : {A : Type ℓ} → (A → Bool) → List A → List A
filter p [] = []
filter p (x ∷ xs) = let rest = filter p xs in if p x then x ∷ rest else rest

pub filter-In :
    {A : Type 0} (p : A → Bool) (xs : List A) {x : A} → In x (filter p xs) → In x xs × (p x ≡ true)
unfolding filter
filter-In p [] h = absurd h
filter-In p (y ∷ xs) {x} h = elim (Bool-cases (p y)) [
  | inl e ↦ elim (rw e at h) [
    | inl here ↦ (inl here, rw here e)
    | inr there ↦ (let k = filter-In p xs there in (inr k.0, k.1))
  ]
  | inr e ↦ (let k = filter-In p xs (rw e at h) in (inr k.0, k.1))
]

pub filter_empty-All :
    {A : Type 0} (p : A → Bool) (xs : List A) → filter p xs ≡ [] → All (λ x. p x ≡ false) xs
unfolding filter
filter_empty-All p [] e = tt
filter_empty-All p (y ∷ xs) e = elim (Bool-cases (p y)) [
  | inl passes ↦ cc (rw passes at e)
  | inr fails ↦ (fails, filter_empty-All p xs (rw fails at e))
]

-- The converse: what passes the test stays.
pub In-filter :
    {A : Type 0} (p : A → Bool) (xs : List A) {x : A} → In x xs → p x ≡ true → In x (filter p xs)
unfolding filter
In-filter p [] h e = absurd h
In-filter p (y ∷ xs) (inl here) e = rw (rw here at e) (inl here)
In-filter p (y ∷ xs) (inr there) e = elim (Bool-cases (p y)) [
  | inl passes ↦ rw passes (inr (In-filter p xs there e))
  | inr fails ↦ rw fails (In-filter p xs there e)
]

module _ {ℓ} {A B : Type ℓ} (lt : B → B → Bool) (key : A → B) where
  -- Before the first element that is not smaller.
  unfoldable pub insert : A → List A → List A
  insert x [] = x ∷ []
  insert x (y ∷ ys) = let rest = insert x ys in if lt (key y) (key x) then y ∷ rest else x ∷ y ∷ ys

  unfoldable pub sort : List A → List A
  unfolding insert
  sort [] = []
  sort (x ∷ xs) = insert x (sort xs)

  -- Neither key is smaller than the other.
  unfoldable pub ties : A → A → Bool
  ties m x = not (lt (key m) (key x)) && not (lt (key x) (key m))

module _ {ℓ} {A B : Type ℓ} (lt : B → B → Bool) (key : A → B) (order : IsOrder lt) where
  single : (x : A) → IsFirstMin lt key x (x ∷ [])
  single x = record { before = []; after = []; split = refl; strict = tt; least = tt }

  -- A new first element comes before the least one, or is the least one.
  behind :
      (x y : A) (xs : List A)
      → IsFirstMin lt key y xs
      → lt (key y) (key x) ≡ true
      → IsFirstMin lt key y (x ∷ xs)
  behind x y xs f h = record {
    before = x ∷ f.before;
    after = f.after;
    split = ap (◌∷◌ x) f.split;
    strict = (h, f.strict);
    least = f.least;
  }

  ahead :
      (x y : A) (xs : List A)
      → IsFirstMin lt key y xs
      → lt (key y) (key x) ≡ false
      → IsFirstMin lt key x (x ∷ xs)
  ahead x y xs f h = record {
    before = [];
    after = xs;
    split = refl;
    strict = tt;
    least =
        All-map _ _ xs (λ z k. order.trans (key z) (key y) (key x) k h)
          (IsFirstMin-least lt key order f);
  }

  unfoldable HasFirstMin : List A → List A → Type ℓ
  HasFirstMin xs [] = xs ≡ []
  HasFirstMin xs (m ∷ rest) = IsFirstMin lt key m xs

  insert-HasFirstMin :
      (x : A) (xs ys : List A) → HasFirstMin xs ys → HasFirstMin (x ∷ xs) (insert lt key x ys)
  unfolding insert HasFirstMin
  insert-HasFirstMin x xs [] h = rw h (single x)
  insert-HasFirstMin x xs (y ∷ ys) h = elim (Bool-cases (lt (key y) (key x))) [
    | inl e ↦ rw e (behind x y xs h e)
    | inr e ↦ rw e (ahead x y xs h e)
  ]

  sort-HasFirstMin : (xs : List A) → HasFirstMin xs (sort lt key xs)
  unfolding sort HasFirstMin
  sort-HasFirstMin [] = refl
  sort-HasFirstMin (x ∷ xs) = insert-HasFirstMin x xs (sort lt key xs) (sort-HasFirstMin xs)

  -- The sorted list is empty when the list is, and its head is the first least element.
  pub sort-IsFirstMin :
      (xs : List A) {m : A} {rest : List A} → sort lt key xs ≡ m ∷ rest → IsFirstMin lt key m xs
  unfolding HasFirstMin
  sort-IsFirstMin xs e = rw e at (sort-HasFirstMin xs)

  pub sort_nil : (xs : List A) → sort lt key xs ≡ [] → xs ≡ []
  unfolding HasFirstMin
  sort_nil xs e = rw e at (sort-HasFirstMin xs)

  -- Elements that tie with the same one tie with each other.
  ties_apart :
      (m x y : A) → lt (key y) (key x) ≡ true → ties lt key m x ≡ true → ties lt key m y ≡ false
  unfolding ties
  ties_apart m x y h k = ground (arith, order.trans (key y) (key m) (key x))

  insert-filter :
      (m x : A) (ys : List A)
      → filter (ties lt key m) (insert lt key x ys) ≡ filter (ties lt key m) (x ∷ ys)
  unfolding insert filter
  insert-filter m x [] = refl
  insert-filter m x (y ∷ ys) = ground (arith, insert-filter m x ys, ties_apart m x y)

  -- Sorting keeps the elements of one key in their order.
  pub sort-filter :
      (m : A) (xs : List A) → filter (ties lt key m) (sort lt key xs) ≡ filter (ties lt key m) xs
  unfolding sort filter
  sort-filter m [] = refl
  sort-filter m (x ∷ xs) = ground (arith, sort-filter m xs, insert-filter m x (sort lt key xs))

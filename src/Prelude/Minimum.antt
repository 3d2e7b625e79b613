-- ===== src/Prelude/Minimum.antt =====
-- The first least element of a list under a key, as `min(items, key=...)` and as the head of a
-- stable sort return it.
use mathlib.Core.Path.{◌≡◌, refl, ap}
use mathlib.Core.Bool.{Bool, true, false}
use mathlib.Core.List.{List, [], ◌∷◌, ◌++◌}
use mathlib.Core.Option.{Option, none, some}
use mathlib.Core.Logic.{inl, inr}
use mini_dynamo.Prelude.Tests.{if◌then◌else◌, Bool-cases}
use mini_dynamo.Prelude.Lists.{All, All-append, All-map}

-- What a total preorder's strict test satisfies.
pub record IsOrder {ℓ} {B : Type ℓ} (lt : B → B → Bool) : Type ℓ where
  pub irreflexive : (a : B) → lt a a ≡ false
  pub asymmetric : (a b : B) → lt a b ≡ true → lt b a ≡ false
  -- from `b ≤ a` and `c ≤ b` to `c ≤ a`
  pub trans : (a b c : B) → lt a b ≡ false → lt b c ≡ false → lt a c ≡ false

module _ {ℓ} {A B : Type ℓ} (lt : B → B → Bool) (key : A → B) where
  -- One pass that replaces the best so far only by a strictly smaller element.
  unfoldable pub first_min : A → List A → A
  first_min best [] = best
  first_min best (x ∷ xs) = first_min (if lt (key x) (key best) then x else best) xs

  unfoldable pub first_min? : List A → Option A
  unfolding first_min
  first_min? [] = none
  first_min? (x ∷ xs) = some (first_min x xs)

  -- `m` is in the list, nothing before it is as small, and nothing after it is smaller.
  pub record IsFirstMin (m : A) (xs : List A) : Type ℓ where
    pub before : List A
    pub after : List A
    pub split : xs ≡ before ++ m ∷ after
    pub strict : All (λ x. lt (key m) (key x) ≡ true) before
    pub least : All (λ x. lt (key x) (key m) ≡ false) after

module _ {ℓ} {A B : Type ℓ} (lt : B → B → Bool) (key : A → B) (order : IsOrder lt) where
  under : (a b c : B) → lt a b ≡ true → lt c b ≡ false → lt a c ≡ true
  under a b c h k = elim (Bool-cases (lt a c)) [ inl e ↦ e | inr e ↦ cc (order.trans a c b e k) ]

  below : (a b c : B) → lt a b ≡ true → lt a c ≡ false → lt c b ≡ true
  below a b c h k = elim (Bool-cases (lt c b)) [ inl e ↦ e | inr e ↦ cc (order.trans a c b k e) ]

  first_min-le : (best : A) (xs : List A) → lt (key best) (key (first_min lt key best xs)) ≡ false
  unfolding first_min
  first_min-le best [] = order.irreflexive (key best)
  first_min-le best (x ∷ xs) = elim (Bool-cases (lt (key x) (key best))) [
    | inl e ↦ rw e (order.trans _ _ _ (order.asymmetric (key x) (key best) e) (first_min-le x xs))
    | inr e ↦ rw e (first_min-le best xs)
  ]

  -- An element that does not beat the first keeps the least element where it is.
  insert_second :
      (best x m : A) (xs before after : List A)
      → best ∷ xs ≡ before ++ m ∷ after
      → lt (key x) (key best) ≡ false
      → All (λ y. lt (key m) (key y) ≡ true) before
      → All (λ y. lt (key y) (key m) ≡ false) after
      → IsFirstMin lt key m (best ∷ x ∷ xs)
  insert_second best x m xs [] after e h s l = record {
    before = [];
    after = x ∷ after;
    split = cc;
    strict = tt;
    least = ((let e' : best ≡ m = cc in rw (← e') h), l);
  }
  insert_second best x m xs (b ∷ bs) after e h s l = record {
    before = b ∷ x ∷ bs;
    after = after;
    split = cc;
    strict = (s.0, ((let e' : best ≡ b = cc in under _ (key b) _ s.0 (rw (← e') h)), s.1));
    least = l;
  }

  first_min-IsFirstMin :
      (best : A) (xs : List A) → IsFirstMin lt key (first_min lt key best xs) (best ∷ xs)
  unfolding first_min
  first_min-IsFirstMin best [] = record {
    before = [];
    after = [];
    split = refl;
    strict = tt;
    least = tt;
  }
  first_min-IsFirstMin best (x ∷ xs) = elim (Bool-cases (lt (key x) (key best))) [
    | inl e ↦
        (let f = first_min-IsFirstMin x xs in
          rw e (record {
            before = best ∷ f.before;
            after = f.after;
            split = ap (◌∷◌ best) f.split;
            strict = (below (key x) (key best) _ e (first_min-le x xs), f.strict);
            least = f.least;
          }))
    | inr e ↦
        (let f = first_min-IsFirstMin best xs in
          rw e (insert_second best x _ xs f.before f.after f.split e f.strict f.least))
  ]

  -- The search finds nothing in the empty list only, and otherwise the first least element.
  pub first_min?-IsFirstMin :
      (xs : List A) {m : A} → first_min? lt key xs ≡ some m → IsFirstMin lt key m xs
  unfolding first_min?
  first_min?-IsFirstMin [] e = cc
  first_min?-IsFirstMin (x ∷ xs) {m} e =
      let e' : first_min lt key x xs ≡ m = cc in rw (← e') (first_min-IsFirstMin x xs)

  pub first_min?-empty : (xs : List A) → first_min? lt key xs ≡ none → xs ≡ []
  unfolding first_min?
  first_min?-empty [] e = refl
  first_min?-empty (x ∷ xs) e = cc

  -- What holds of every element holds of the least one.
  pub IsFirstMin-All :
      (P : A → Type ℓ) {m : A} {xs : List A} → IsFirstMin lt key m xs → All P xs → P m
  IsFirstMin-All P {m} f h = middle f.before (rw f.split at h)
    where
      middle : (before : List A) → All P (before ++ m ∷ f.after) → P m
      middle [] a = a.0
      middle (b ∷ bs) a = middle bs a.1

  -- No element of the list is smaller.
  pub IsFirstMin-least :
      {m : A} {xs : List A} → IsFirstMin lt key m xs → All (λ x. lt (key x) (key m) ≡ false) xs
  IsFirstMin-least {m} f = rw f.split (
      All-append _ f.before (m ∷ f.after)
        (All-map _ _ f.before (λ x. order.asymmetric (key m) (key x)) f.strict)
        (order.irreflexive (key m), f.least))

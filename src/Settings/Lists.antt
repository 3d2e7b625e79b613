-- ===== src/Settings/Lists.antt =====
-- Lists in environment variables.
use mini_dynamo.Prelude.{
  ◌==◌, ◌≡◌, refl, ap, ◌∙◌, false, not, Option, some, List, [], ◌∷◌, ◌++◌, map, Text, is_empty,
  filter, All,
}
use mini_dynamo.Sse.{strip}
use mini_dynamo.Settings.{Numbers, begin_with, split_on, items, get_list}

-- The texts with a comma between them.
unfoldable pub join : Text → List Text → Text
join x [] = x
join x (y ∷ ys) = x ++ b',' ∷ join y ys

-- A text that survives: it is not empty, has no space around it, and has no comma.
abbrev pub IsItem : Text → Type 0
IsItem x = (is_empty x ≡ false) × (strip x ≡ x) × All (λ c. (c == b',') ≡ false) x

split_on-one : (x : Text) → All (λ c. (c == b',') ≡ false) x → split_on b',' x ≡ x ∷ []
unfolding split_on begin_with
split_on-one [] h = refl
split_on-one (c ∷ x) h = rw (h.0, split_on-one x h.1) refl

split_on-append :
    (x s : Text)
    → All (λ c. (c == b',') ≡ false) x
    → split_on b',' (x ++ b',' ∷ s) ≡ x ∷ split_on b',' s
unfolding split_on begin_with
split_on-append [] s h = refl
split_on-append (c ∷ x) s h = rw (h.0, split_on-append x s h.1) refl

split_on-join :
    (x : Text) (xs : List Text) → All IsItem (x ∷ xs) → split_on b',' (join x xs) ≡ x ∷ xs
unfolding join
split_on-join x [] h = split_on-one x h.0.2
split_on-join x (y ∷ ys) h =
    split_on-append x (join y ys) h.0.2 ∙ ap (◌∷◌ x) (split_on-join y ys h.1)

kept : (xs : List Text) → All IsItem xs → filter (λ item. not (is_empty item)) (map strip xs) ≡ xs
unfolding filter
kept [] h = refl
kept (x ∷ xs) h = rw (h.0.1, h.0.0) (ap (◌∷◌ x) (kept xs h.1))

join-filled : (x : Text) (xs : List Text) → is_empty x ≡ false → is_empty (join x xs) ≡ false
unfolding join
join-filled [] xs h = cc
join-filled (c ∷ x) [] h = refl
join-filled (c ∷ x) (y ∷ ys) h = refl

module _ {F : Type 0} (numbers : Numbers F) (getenv : Text → Option Text) where
  -- A variable that holds texts with a comma between them is read as these texts, when each is not
  -- empty, has no white space around it and no comma in it.
  pub get_list-join :
      (key x : Text) (xs default : List Text)
      → getenv key ≡ some (join x xs)
      → All IsItem (x ∷ xs)
      → get_list numbers getenv key default ≡ x ∷ xs
  unfolding get_list items
  get_list-join key x xs default e h =
      rw (get_list, e, join-filled x xs h.0.0, split_on-join x xs h) (kept (x ∷ xs) h)

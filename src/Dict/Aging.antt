-- ===== src/Dict/Aging.antt =====
-- A dictionary in the order of its values' ages: what a write does to that order.
use mini_dynamo.Prelude.{
  ℤ, ◌+ℤ◌, +ℤ_swap, ℕ, ltb, ◌≡◌, refl, sym, ap, subst, ◌∙◌, inl, inr, ite, if_pos, if_neg, true,
  false, Option, none, some, [], ◌∷◌, ◌++◌, arith, All, All-map, Bool-cases, sort, if◌then◌else◌,
}
use mini_dynamo.Prelude.Minimum.{first_min, first_min?}
use mini_dynamo.Prelude.Sorting.{insert}
use mini_dynamo.Dict.{Dict, get, remove, put, IsUnique}
use mini_dynamo.Dict.Laws.{remove_absent}
use mini_dynamo.Dict.Sums.{total}

module _ {K V : Type 0} (age : V → ℕ) where
  -- The oldest entry first; of equal ages the one that stands first in the dictionary.
  abbrev pub by_age : Dict K V → Dict K V
  by_age = sort ltb (λ e. age e.1)

  abbrev place : K × V → Dict K V → Dict K V
  place = insert ltb (λ e. age e.1)

  -- Ages rise along the list.
  abbrev IsRising : Dict K V → Type 0
  IsRising [] = Unit
  IsRising (e ∷ d) = All (λ x. ltb (age x.1) (age e.1) ≡ false) d × IsRising d

  place-All : (P : K × V → Type 0) (e : K × V) (d : Dict K V) → P e → All P d → All P (place e d)
  unfolding insert
  place-All P e [] h k = (h, tt)
  place-All P e (x ∷ d) h k = elim (Bool-cases (ltb (age x.1) (age e.1))) [
    | inl b ↦ rw b (k.0, place-All P e d h k.1)
    | inr b ↦ rw b (h, k)
  ]

  pub by_age-All : (P : K × V → Type 0) (d : Dict K V) → All P d → All P (by_age d)
  unfolding sort
  by_age-All P [] h = tt
  by_age-All P (e ∷ d) h = place-All P e (by_age d) h.0 (by_age-All P d h.1)

  place-IsRising : (e : K × V) (d : Dict K V) → IsRising d → IsRising (place e d)
  unfolding insert
  place-IsRising e [] h = (tt, tt)
  place-IsRising e (x ∷ d) h = elim (Bool-cases (ltb (age x.1) (age e.1))) [
    | inl b ↦ rw b (place-All _ e d (ground arith) h.0, place-IsRising e d h.1)
    | inr b ↦ rw b ((b, All-map _ _ d (λ z k. ground arith) h.0), h)
  ]

  by_age-IsRising : (d : Dict K V) → IsRising (by_age d)
  unfolding sort
  by_age-IsRising [] = tt
  by_age-IsRising (e ∷ d) = place-IsRising e (by_age d) (by_age-IsRising d)

  -- An entry that nothing is older than goes to the front, and one that is younger than all to the
  -- end.
  place_front :
      (e : K × V) (d : Dict K V) → All (λ x. ltb (age x.1) (age e.1) ≡ false) d → place e d ≡ e ∷ d
  unfolding insert
  place_front e [] h = refl
  place_front e (x ∷ d) h = rw h.0 refl

  place_last :
      (e : K × V) (d : Dict K V)
      → All (λ x. ltb (age x.1) (age e.1) ≡ true) d
      → place e d ≡ d ++ e ∷ []
  unfolding insert
  place_last e [] h = refl
  place_last e (x ∷ d) h = rw h.0 (ap (◌∷◌ x) (place_last e d h.1))

  place-append :
      (e x : K × V) (d : Dict K V)
      → ltb (age x.1) (age e.1) ≡ false
      → place e (d ++ x ∷ []) ≡ place e d ++ x ∷ []
  unfolding insert
  place-append e x [] h = rw h refl
  place-append e x (y ∷ d) h = ground (arith, place-append e x d h)

  -- An entry at the end of the dictionary that is no older than the others stays at the end.
  pub by_age-append :
      (x : K × V) (d : Dict K V)
      → All (λ e. ltb (age x.1) (age e.1) ≡ false) d
      → by_age (d ++ x ∷ []) ≡ by_age d ++ x ∷ []
  unfolding sort insert
  by_age-append x [] h = refl
  by_age-append x (e ∷ d) h = ap (place e) (by_age-append x d h.1) ∙ place-append e x (by_age d) h.0

  -- The search for the least age finds the head.
  abbrev pub head : Dict K V → Option (K × V)
  head [] = none
  head (e ∷ d) = some e

  head-place :
      (b x : K × V) (d : Dict K V)
      → head (place b (place x d)) ≡ head (place (if ltb (age x.1) (age b.1) then x else b) d)
  unfolding insert
  head-place b x [] = ground arith
  head-place b x (y ∷ d) = ground arith

  first_min-head :
      (b : K × V) (d : Dict K V)
      → some (first_min ltb (λ e. age e.1) b d) ≡ head (place b (by_age d))
  unfolding first_min sort insert
  first_min-head b [] = refl
  first_min-head b (x ∷ d) =
      first_min-head (if ltb (age x.1) (age b.1) then x else b) d ∙ sym (head-place b x (by_age d))

  pub first_min?-head : (d : Dict K V) → first_min? ltb (λ e. age e.1) d ≡ head (by_age d)
  unfolding first_min? sort
  first_min?-head [] = refl
  first_min?-head (e ∷ d) = first_min-head e d

  total-place : (w : V → ℤ) (e : K × V) (d : Dict K V) → total w (place e d) ≡ w e.1 +ℤ total w d
  unfolding total insert
  total-place w e [] = refl
  total-place w e (x ∷ d) = ground (arith, total-place w e d, +ℤ_swap (w e.1) (w x.1) (total w d))

  pub total-by_age : (w : V → ℤ) (d : Dict K V) → total w (by_age d) ≡ total w d
  unfolding total sort
  total-by_age w [] = refl
  total-by_age w (e ∷ d) = total-place w e (by_age d) ∙ ap (λ t. w e.1 +ℤ t) (total-by_age w d)

module _ {K V : Type 0} (dec : Discrete K) (age : V → ℕ) where
  get-place :
      (j k : K) (v : V) (d : Dict K V)
      → get dec k d ≡ none
      → get dec j (place age (k, v) d) ≡ ite (dec k j) (some v) (get dec j d)
  unfolding get insert
  get-place j k v [] h = refl
  get-place j k v (x ∷ d) h = ground (arith, get-place j k v d)

  pub get-by_age : (j : K) (d : Dict K V) → IsUnique dec d → get dec j (by_age age d) ≡ get dec j d
  unfolding get sort
  get-by_age j [] u = refl
  get-by_age j ((k, v) ∷ d) u =
      get-place j k v (by_age age d) (get-by_age k d u.1 ∙ u.0)
      ∙ ap (ite (dec k j) (some v)) (get-by_age j d u.1)

  place-IsUnique :
      (k : K) (v : V) (d : Dict K V)
      → get dec k d ≡ none
      → IsUnique dec d
      → IsUnique dec (place age (k, v) d)
  unfolding insert get
  place-IsUnique k v [] h u = (refl, tt)
  place-IsUnique k v (x ∷ d) h u = ground (arith, place-IsUnique k v d, get-place x.0 k v d)

  pub by_age-IsUnique : (d : Dict K V) → IsUnique dec d → IsUnique dec (by_age age d)
  unfolding sort
  by_age-IsUnique [] u = tt
  by_age-IsUnique ((k, v) ∷ d) u =
      place-IsUnique k v (by_age age d) (get-by_age k d u.1 ∙ u.0) (by_age-IsUnique d u.1)

  remove-All : (P : K × V → Type 0) (k : K) (d : Dict K V) → All P d → All P (remove dec k d)
  unfolding remove
  remove-All P k [] h = tt
  remove-All P k (e ∷ d) h = ground (arith, remove-All P k d h.1)

  remove-place :
      (k : K) (e : K × V) (d : Dict K V)
      → IsRising age d
      → remove dec k (place age e d)
        ≡ ite (dec e.0 k) (remove dec k d) (place age e (remove dec k d))
  unfolding remove insert
  remove-place k e [] h = ground arith
  remove-place k e (x ∷ d) h = elim (Bool-cases (ltb (age x.1) (age e.1))) [
    | inl b ↦ ground (arith, b, remove-place k e d h.1)
    | inr b ↦
        (let older =
            remove-All (λ z. ltb (age z.1) (age e.1) ≡ false) k (x ∷ d)
              (b, All-map _ _ d (λ z q. ground arith) h.0) in
          rw b (after_first (place_front age e (remove dec k (x ∷ d)) older)))
  ]
    where
      after_first :
          place age e (remove dec k (x ∷ d)) ≡ e ∷ remove dec k (x ∷ d)
          → remove dec k (e ∷ x ∷ d)
            ≡ ite (dec e.0 k) (remove dec k (x ∷ d)) (place age e (remove dec k (x ∷ d)))
      after_first front = elim (dec e.0 k) [
        | yes same ↦ if_pos (dec e.0 k) same _ _ ∙ sym (if_pos (dec e.0 k) same _ _)
        | no ne ↦ if_neg (dec e.0 k) ne _ _ ∙ (sym front ∙ sym (if_neg (dec e.0 k) ne _ _))
      ]

  -- Removal keeps the order of the rest.
  pub remove-by_age :
      (k : K) (d : Dict K V) → remove dec k (by_age age d) ≡ by_age age (remove dec k d)
  unfolding remove sort
  remove-by_age k [] = refl
  remove-by_age k (e ∷ d) =
      remove-place k e (by_age age d) (by_age-IsRising age d) ∙ (elim (dec e.0 k) [
        | yes same ↦
            if_pos (dec e.0 k) same _ _
            ∙ (remove-by_age k d ∙ ap (by_age age) (sym (if_pos (dec e.0 k) same _ _)))
        | no ne ↦
            if_neg (dec e.0 k) ne _ _
            ∙ (ap (place age e) (remove-by_age k d)
                ∙ ap (by_age age) (sym (if_neg (dec e.0 k) ne _ _)))
      ])

  -- A value that is put under its key with a younger age than all others moves to the end.
  pub by_age-put :
      (k : K) (v : V) (d : Dict K V) (old : V)
      → IsUnique dec d
      → get dec k d ≡ some old
      → All (λ e. ltb (age e.1) (age v) ≡ true) (remove dec k d)
      → by_age age (put dec k v d) ≡ by_age age (remove dec k d) ++ (k, v) ∷ []
  unfolding get put remove sort
  by_age-put k v [] old u e h = cc
  by_age-put k v ((j, w) ∷ d) old u e h = elim (dec j k) [
    | yes same ↦
        (let gone : remove dec k d ≡ d = remove_absent dec k d (rw same at u.0) in
          let rest = sym (if_pos (dec j k) same (remove dec k d) ((j, w) ∷ remove dec k d)) in
          let young : All (λ e. ltb (age e.1) (age v) ≡ true) d =
            subst (All (λ e. ltb (age e.1) (age v) ≡ true)) (sym rest ∙ gone) h in
          ap (by_age age) (if_pos (dec j k) same _ _)
          ∙ (place_last age (k, v) (by_age age d) (by_age-All age _ d young)
              ∙ ap (λ q. by_age age q ++ (k, v) ∷ []) (sym gone ∙ rest)))
    | no ne ↦
        (let rest = if_neg (dec j k) ne (remove dec k d) ((j, w) ∷ remove dec k d) in
          let young = subst (All (λ e. ltb (age e.1) (age v) ≡ true)) rest h in
          ap (by_age age) (if_neg (dec j k) ne _ _)
          ∙ (ap (place age (j, w)) (by_age-put k v d old u.1 (ground (arith, e)) young.1)
              ∙ (place-append age (j, w) (k, v) (by_age age (remove dec k d))
                    (ground (arith, young.0))
                  ∙ ap (λ q. by_age age q ++ (k, v) ∷ []) (sym rest))))
  ]

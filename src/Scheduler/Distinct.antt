-- ===== src/Scheduler/Distinct.antt =====
-- The sequences of a scheduler differ in their request ids and in their queues.
use mini_dynamo.Prelude.{
  ◌≡◌, ◌≢◌, refl, sym, none, some, List, [], ◌∷◌, ◌++◌, Text, Text_discrete, All, All-append,
  All-append_left, All-append_right, All-map, All-zip, arith,
}
use mini_dynamo.Dict.{Dict, get, remove, put, values}
use mini_dynamo.Scheduler.{Seq, advance, advance_all}

pub record Apart (x y : Seq) : Type 0 where
  pub ids : x.req_id ≢ y.req_id
  pub queues : x.out_queue ≢ y.out_queue

pub Apart-sym : (x y : Seq) → Apart x y → Apart y x
Apart-sym x y a = record { ids = λ e. a.ids (sym e); queues = λ e. a.queues (sym e) }

abbrev pub Distinct : List Seq → Type 0
Distinct [] = Unit
Distinct (x ∷ xs) = All (Apart x) xs × Distinct xs

pub Distinct-append_left : (xs ys : List Seq) → Distinct (xs ++ ys) → Distinct xs
Distinct-append_left [] ys d = tt
Distinct-append_left (x ∷ xs) ys d =
    (All-append_left (Apart x) xs ys d.0, Distinct-append_left xs ys d.1)

pub Distinct-append_right : (xs ys : List Seq) → Distinct (xs ++ ys) → Distinct ys
Distinct-append_right [] ys d = d
Distinct-append_right (x ∷ xs) ys d = Distinct-append_right xs ys d.1

-- Each sequence of the second part is apart from all of the first.
pub Distinct-across :
    (xs ys : List Seq) (P : Seq → Type 0)
    → Distinct (xs ++ ys)
    → All P ys
    → All (λ y. All (λ x. Apart x y) xs × P y) ys
Distinct-across [] ys P d h = All-map P _ ys (λ y p. (tt, p)) h
Distinct-across (x ∷ xs) ys P d h =
    All-zip (λ y. All (λ z. Apart z y) xs × P y) (Apart x) _ ys (λ y p a. ((a, p.0), p.1))
      (Distinct-across xs ys P d.1 h) (All-append_right (Apart x) xs ys d.0)

pub drop-All :
    (P : Seq → Type 0) (xs : List Seq) (y : Seq) (ys : List Seq)
    → All P (xs ++ y ∷ ys)
    → All P (xs ++ ys)
drop-All P xs y ys h =
    All-append P xs ys (All-append_left P xs (y ∷ ys) h) (All-append_right P xs (y ∷ ys) h).1

pub Distinct-drop :
    (xs : List Seq) (y : Seq) (ys : List Seq) → Distinct (xs ++ y ∷ ys) → Distinct (xs ++ ys)
Distinct-drop [] y ys d = d.1
Distinct-drop (x ∷ xs) y ys d = (drop-All (Apart x) xs y ys d.0, Distinct-drop xs y ys d.1)

pub Distinct-last :
    (xs : List Seq) (y : Seq) → Distinct xs → All (λ x. Apart x y) xs → Distinct (xs ++ y ∷ [])
Distinct-last [] y d h = (tt, tt)
Distinct-last (x ∷ xs) y d h =
    (All-append (Apart x) xs (y ∷ []) d.0 (h.0, tt), Distinct-last xs y d.1 h.1)

-- Predicates that see only the id and the queue of a sequence pass through `advance_all`.
pub All-advance_all :
    (P : Seq → Type 0) (d : Dict Text Seq) (ws : List Seq)
    → ((x : Seq) → P x → P (advance x))
    → All P (values d ++ ws)
    → All P (values (advance_all d) ++ ws)
unfolding advance_all
All-advance_all P [] ws f h = h
All-advance_all P (e ∷ d) ws f h = (f e.1 h.0, All-advance_all P d ws f h.1)

Apart-advance : (x y : Seq) → Apart x y → Apart x (advance y)
unfolding advance
Apart-advance x y a = record { ids = a.ids; queues = a.queues }

Apart-advance_left : (x y : Seq) → Apart x y → Apart (advance x) y
unfolding advance
Apart-advance_left x y a = record { ids = a.ids; queues = a.queues }

pub Distinct-advance_all :
    (d : Dict Text Seq) (ws : List Seq)
    → Distinct (values d ++ ws)
    → Distinct (values (advance_all d) ++ ws)
unfolding advance_all
Distinct-advance_all [] ws h = h
Distinct-advance_all (e ∷ d) ws h = (
  All-map _ _ (values (advance_all d) ++ ws) (λ y. Apart-advance_left e.1 y)
      (All-advance_all (Apart e.1) d ws (λ y. Apart-advance e.1 y) h.0),
  Distinct-advance_all d ws h.1,
)

pub All-remove-values :
    (P : Seq → Type 0) (k : Text) (d : Dict Text Seq) (ws : List Seq)
    → All P (values d ++ ws)
    → All P (values (remove Text_discrete k d) ++ ws)
unfolding remove
All-remove-values P k [] ws h = h
All-remove-values P k (e ∷ d) ws h = ground (arith, All-remove-values P k d ws h.1)

pub Distinct-remove :
    (k : Text) (d : Dict Text Seq) (ws : List Seq)
    → Distinct (values d ++ ws)
    → Distinct (values (remove Text_discrete k d) ++ ws)
unfolding remove
Distinct-remove k [] ws h = h
Distinct-remove k (e ∷ d) ws h =
    ground (arith, Distinct-remove k d ws h.1, All-remove-values (Apart e.1) k d ws h.0)

-- What holds of every sequence of the batch holds of the one that an id shows.
pub All-values_get :
    (P : Seq → Type 0) (k : Text) (x : Seq) (d : Dict Text Seq)
    → All P (values d)
    → get Text_discrete k d ≡ some x
    → P x
unfolding get
All-values_get P k x [] h e = cc
All-values_get P k x ((j, y) ∷ d) h e = elim (Text_discrete j k) [
  | yes hit ↦ (let same : y ≡ x = ground arith in rw (← same) h.0)
  | no miss ↦ All-values_get P k x d h.1 (ground arith)
]

-- A new id goes to the end of the batch.
pub values-put_absent :
    (k : Text) (x : Seq) (d : Dict Text Seq) (ws : List Seq)
    → get Text_discrete k d ≡ none
    → values (put Text_discrete k x d) ++ ws ≡ values d ++ x ∷ ws
unfolding get put
values-put_absent k x [] ws h = refl
values-put_absent k x (e ∷ d) ws h = ground (arith, values-put_absent k x d ws)

-- ===== src/Client/Hearing.antt =====
-- What the client makes of a stream of the router.
use mini_dynamo.Prelude.{
  ℤ, ℕ, suc, ◌+◌, ◌≡◌, ◌≢◌, refl, ◌∙◌, ite, if_neg, Bool, true, false, ◌&&◌, not, Option, some,
  List, [], ◌∷◌, ◌++◌, Text, codes, Text_discrete, All, Bool-cases, inl, inr, if◌then◌else◌, arith,
}
use mini_dynamo.Sse.{Frames, strip, strip_left, strip_right, after_prefix, is_space}
use mini_dynamo.Router.{Effect, passed, failure, done, requests, routing, first_token, latency}
use mini_dynamo.Router.Ending.{IsOpen}
use mini_dynamo.Client.{Result, other, frame, hear_data, hear, count_token, listen}

-- The number of frames with a token that a stream passes on.
unfoldable pub tokens_of : {J : Type 0} → Frames J → List (Effect J) → ℕ
tokens_of frames [] = 0
tokens_of frames (passed j ∷ es) =
    if frames.has_token j then suc (tokens_of frames es) else tokens_of frames es
tokens_of frames (e ∷ es) = tokens_of frames es

-- Whether the stream counts a request under the label.
unfoldable pub counts : {J : Type 0} → Text → List (Effect J) → Bool
counts label [] = false
counts label (requests l ∷ es) = let rest = counts label es in ite (Text_discrete l label) true rest
counts label (e ∷ es) = counts label es

module _ {J : Type 0} (frames : Frames J) (has_error : J → Bool) (error_frame : Text → J) where
  -- The line of a frame, which an empty line follows.
  abbrev line_of : J → Text
  line_of j = codes "data: " ++ frames.dumps j

  unfoldable pub lines_of : List (Effect J) → List Text
  lines_of [] = []
  lines_of (passed j ∷ es) = line_of j ∷ [] ∷ lines_of es
  lines_of (failure m ∷ es) = line_of (error_frame m) ∷ [] ∷ lines_of es
  lines_of (done ∷ es) = codes "data: [DONE]" ∷ [] ∷ lines_of es
  lines_of (e ∷ es) = lines_of es

  -- The JSON printed for an object has no white space around it, is no end marker, and is parsed
  -- back.
  unfoldable pub IsClean : J → Type 0
  IsClean j =
      (strip (frames.dumps j) ≡ frames.dumps j)
      × (frames.dumps j ≢ codes "[DONE]")
      × (frames.loads (frames.dumps j) ≡ some j)
      × (frames.is_object j ≡ true)

  -- A frame of a node carries no error, and one of the router does.
  unfoldable pub IsSound : Effect J → Type 0
  IsSound (passed j) = IsClean j × (has_error j ≡ false)
  IsSound (failure m) = IsClean (error_frame m) × (has_error (error_frame m) ≡ true)
  IsSound e = Unit

  hear-line_of : (j : J) → IsClean j → hear frames has_error (line_of j) ≡ frame j
  unfolding hear hear_data after_prefix is_space strip strip_left IsClean
  hear-line_of j (trimmed, other_text, back, object) =
      rw trimmed
        (if_neg (Text_discrete (frames.dumps j) (codes "[DONE]")) other_text _ _ ∙ rw back refl)

  IsClean-object : (j : J) → IsClean j → frames.is_object j ≡ true
  unfolding IsClean
  IsClean-object j (trimmed, other_text, back, object) = object

  and_not-true : (b : Bool) → (b && not true) ≡ false
  and_not-true true = refl
  and_not-true false = refl

  and_not-false : (b : Bool) → (b && not false) ≡ b
  and_not-false true = refl
  and_not-false false = refl

  skip_empty : hear frames has_error [] ≡ other
  unfolding hear after_prefix
  skip_empty = refl

  module _ (elapsed : ℕ → ℤ) where
    -- One frame without an error.
    unfoldable pub noted : Bool → ℕ → J → Result → Result
    noted first i j r = if frames.has_token j then count_token first (elapsed i) r else r

    pub listen_frame :
        (i : ℕ) (first : Bool) (j : J) (lines : List Text) (broken : Option Text) (r : Result)
        → IsClean j
        → has_error j ≡ false
        → listen frames has_error elapsed i first (line_of j ∷ [] ∷ lines) broken r
          ≡ listen frames has_error elapsed
              (suc (suc i))
              (first && not (frames.has_token j))
              lines
              broken
              (noted first i j r)
    unfolding noted listen
    listen_frame i first j lines broken r clean fine =
        let heard = hear-line_of j clean in
        let object : frames.is_object j ≡ true = IsClean-object j clean in
        elim (Bool-cases (frames.has_token j)) [
          | inl e ↦ rw (listen, heard, object, fine, e, listen, skip_empty, and_not-true first) refl
          | inr e ↦
              rw (listen, heard, object, fine, e, listen, skip_empty, and_not-false first) refl
        ]

    pub listen_error :
        (i : ℕ) (first : Bool) (j : J) (lines : List Text) (broken : Option Text) (r : Result)
        → IsClean j
        → has_error j ≡ true
        → listen frames has_error elapsed i first (line_of j ∷ lines) broken r
          ≡ record r { ok = false }
    unfolding listen
    listen_error i first j lines broken r clean bad =
        rw (listen, hear-line_of j clean, IsClean-object j clean, bad) refl

    pub listen_done :
        (i : ℕ) (first : Bool) (lines : List Text) (broken : Option Text) (r : Result)
        → listen frames has_error elapsed i first (codes "data: [DONE]" ∷ lines) broken r ≡ r
    unfolding listen hear hear_data after_prefix is_space strip strip_left Text_discrete strip_right
    listen_done i first lines broken r = refl

    pub noted-ok : (first : Bool) (i : ℕ) (j : J) (r : Result) → (noted first i j r).ok ≡ r.ok
    unfolding noted count_token
    noted-ok first i j r = elim (Bool-cases (frames.has_token j)) [
      | inl e ↦ elim (Bool-cases first) [ inl f ↦ rw (e, f) refl | inr f ↦ rw (e, f) refl ]
      | inr e ↦ rw e refl
    ]

    pub noted-tokens :
        (first : Bool) (i : ℕ) (j : J) (r : Result) (es : List (Effect J))
        → (noted first i j r).tokens + tokens_of frames es
          ≡ r.tokens + tokens_of frames (passed j ∷ es)
    unfolding noted count_token tokens_of
    noted-tokens first i j r es = elim (Bool-cases (frames.has_token j)) [
      | inl e ↦ elim (Bool-cases first) [
        | inl f ↦ rw (e, f) (omega arith)
        | inr f ↦ rw (e, f) (omega arith)
      ]
      | inr e ↦ rw e refl
    ]

    -- The client at the end of a part of a stream: where it reads on, and with which result.
    unfoldable pub Passes :
        List (Effect J) → List (Effect J) → ℕ → Bool → Option Text → Result → Type 0
    Passes body rest i first broken r =
        (i' : ℕ) × (first' : Bool) × (r' : Result) × (listen frames has_error elapsed i first
            (lines_of (body ++ rest)) broken r
          ≡ listen frames has_error elapsed i' first' (lines_of rest) broken r')
        × (r'.ok ≡ r.ok)
        × (r'.tokens ≡ r.tokens + tokens_of frames body)

    pub listen-Passes :
        (body rest : List (Effect J)) (i : ℕ) (first : Bool) (broken : Option Text) (r : Result)
        → All (IsOpen frames) body
        → All IsSound body
        → Passes body rest i first broken r
    unfolding Passes IsSound lines_of tokens_of
    listen-Passes [] rest i first broken r open_ sound = (i, first, r, refl, refl, omega arith)
    listen-Passes (passed j ∷ body) rest i first broken r open_ sound =
        let (i', first', r', eq, ok, tokens) =
          listen-Passes body rest (suc (suc i)) (first && not (frames.has_token j)) broken
            (noted first i j r) open_.1 sound.1 in
        (
          i',
          first',
          r',
          listen_frame i first j (lines_of (body ++ rest)) broken r sound.0.0 sound.0.1 ∙ eq,
          ok ∙ noted-ok first i j r,
          tokens ∙ noted-tokens first i j r body,
        )
    listen-Passes (failure m ∷ body) rest i first broken r open_ sound = absurd open_.0
    listen-Passes (done ∷ body) rest i first broken r open_ sound = absurd open_.0
    listen-Passes (requests l ∷ body) rest i first broken r open_ sound =
        listen-Passes body rest i first broken r open_.1 sound.1
    listen-Passes (routing l ∷ body) rest i first broken r open_ sound =
        listen-Passes body rest i first broken r open_.1 sound.1
    listen-Passes (first_token ∷ body) rest i first broken r open_ sound =
        listen-Passes body rest i first broken r open_.1 sound.1
    listen-Passes (latency ∷ body) rest i first broken r open_ sound =
        listen-Passes body rest i first broken r open_.1 sound.1

-- ===== src/Client/Endings.antt =====
-- The client and the router at the end of a stream.
use mini_dynamo.Prelude.{
  ℤ, ℕ, suc, ◌+◌, ◌≡◌, refl, sym, ap, subst, ◌∙◌, Bool, true, ◌&&◌, not, Option, List, [], ◌∷◌,
  ◌++◌, Text, codes, Text_discrete, All, All-append_left, All-append_right, Bool-cases, inl, inr,
  arith,
}
use mini_dynamo.Sse.{Frames}
use mini_dynamo.Router.{Effect, passed, failure, done, requests, routing, first_token, latency}
use mini_dynamo.Router.Ending.{IsOpen, Ended, served, failed}
use mini_dynamo.Client.{Result, fresh, listen, one_request}
use mini_dynamo.Client.Hearing.{
  tokens_of, counts, lines_of, IsSound, Passes, listen-Passes, listen_error, listen_frame,
  listen_done, noted, noted-ok, noted-tokens,
}

module _ {J : Type 0} (frames : Frames J) where
  pub tokens_of-append :
      (xs ys : List (Effect J))
      → tokens_of frames (xs ++ ys) ≡ tokens_of frames xs + tokens_of frames ys
  unfolding tokens_of
  tokens_of-append [] ys = omega arith
  tokens_of-append (passed j ∷ xs) ys =
      let rest = tokens_of-append xs ys in
      elim (Bool-cases (frames.has_token j)) [
        | inl e ↦ rw (e, rest) (omega arith)
        | inr e ↦ rw (e, rest) refl
      ]
  tokens_of-append (failure m ∷ xs) ys = tokens_of-append xs ys
  tokens_of-append (done ∷ xs) ys = tokens_of-append xs ys
  tokens_of-append (requests l ∷ xs) ys = tokens_of-append xs ys
  tokens_of-append (routing l ∷ xs) ys = tokens_of-append xs ys
  tokens_of-append (first_token ∷ xs) ys = tokens_of-append xs ys
  tokens_of-append (latency ∷ xs) ys = tokens_of-append xs ys

  -- An open part of a stream counts no request as ok.
  pub counts-append :
      (body rest : List (Effect J))
      → All (IsOpen frames) body
      → counts (codes "ok") (body ++ rest) ≡ counts (codes "ok") rest
  unfolding counts Text_discrete
  counts-append [] rest h = refl
  counts-append (passed j ∷ body) rest h = counts-append body rest h.1
  counts-append (failure m ∷ body) rest h = absurd h.0
  counts-append (done ∷ body) rest h = absurd h.0
  counts-append (requests l ∷ body) rest h = rw h.0 (counts-append body rest h.1)
  counts-append (routing l ∷ body) rest h = counts-append body rest h.1
  counts-append (first_token ∷ body) rest h = counts-append body rest h.1
  counts-append (latency ∷ body) rest h = counts-append body rest h.1

  zero_+ : (n : ℕ) → n ≡ n + 0
  zero_+ n = omega arith

  module _ (has_error : J → Bool) (error_frame : Text → J) where
    -- What the client hears agrees with what the router counts.
    Agrees : Result → List (Effect J) → Type 0
    Agrees r es = (r.ok ≡ counts (codes "ok") es) × (r.tokens ≡ tokens_of frames es)

    module _ (elapsed : ℕ → ℤ) (broken : Option Text) where
      heard : List (Effect J) → ℕ → Bool → Result → Result
      heard es i first r =
          listen frames has_error elapsed i first (lines_of frames has_error error_frame es) broken
            r

      -- Wherever the client reads the rest of a stream, its result becomes that of the rest.
      Settles : List (Effect J) → Type 0
      Settles rest =
          (i : ℕ) (first : Bool) (r : Result)
          → r.ok ≡ true
          → ((heard rest i first r).ok ≡ counts (codes "ok") rest)
            × ((heard rest i first r).tokens ≡ r.tokens + tokens_of frames rest)

      heard-Agrees :
          (body rest : List (Effect J))
          → All (IsOpen frames) body
          → All (IsSound frames has_error error_frame) body
          → Settles rest
          → Agrees (heard (body ++ rest) 0 true fresh) (body ++ rest)
      unfolding Agrees Settles Passes heard fresh
      heard-Agrees body rest opens sound settles =
          let (i, first, r, eq, ok, tokens) =
            listen-Passes frames has_error error_frame elapsed body rest 0 true broken fresh opens
              sound in
          let (rest_ok, rest_tokens) = settles i first r ok in
          (
            ap (λ x. x.ok) eq ∙ rest_ok ∙ sym (counts-append body rest opens),
            ap (λ x. x.tokens) eq
                ∙ rest_tokens
                ∙ (let parts = tokens_of-append body rest in omega arith),
          )

      served-Settles :
          (j : J)
          → IsSound frames has_error error_frame (passed j)
          → Settles (passed j ∷ latency ∷ requests (codes "ok") ∷ done ∷ [])
      unfolding Settles heard lines_of IsSound counts tokens_of Text_discrete
      served-Settles j sound i first r ok =
          let eq =
            listen_frame frames has_error error_frame elapsed i first j
              (codes "data: [DONE]" ∷ [] ∷ []) broken r sound.0 sound.1
            ∙ listen_done frames has_error error_frame elapsed (suc (suc i))
                (first && not (frames.has_token j)) ([] ∷ []) broken
                (noted frames has_error error_frame elapsed first i j r) in
          (
            ap (λ x. x.ok) eq ∙ noted-ok frames has_error error_frame elapsed first i j r ∙ ok,
            ap (λ x. x.tokens) eq
                ∙ zero_+ (noted frames has_error error_frame elapsed first i j r).tokens
                ∙ noted-tokens frames has_error error_frame elapsed first i j r [],
          )

      failed-Settles :
          (message : Text)
          → IsSound frames has_error error_frame (failure message)
          → Settles (requests (codes "error") ∷ failure message ∷ done ∷ [])
      unfolding Settles heard lines_of IsSound counts tokens_of Text_discrete
      failed-Settles message sound i first r ok =
          let eq =
            listen_error frames has_error error_frame elapsed i first (error_frame message)
              ([] ∷ codes "data: [DONE]" ∷ [] ∷ []) broken r sound.0 sound.1 in
          (ap (λ x. x.ok) eq, ap (λ x. x.tokens) eq ∙ zero_+ r.tokens)

    -- The client at the end of a stream that ends as `Ended` says.
    pub one_request-Ended :
        (elapsed : ℕ → ℤ) (total : ℤ) (broken : Option Text) (es : List (Effect J))
        → Ended frames es
        → All (IsSound frames has_error error_frame) es
        → let r =
            one_request frames has_error elapsed total
              (record { lines = lines_of frames has_error error_frame es; broken = broken }) in
          (r.ok ≡ counts (codes "ok") es) × (r.tokens ≡ tokens_of frames es)
    unfolding one_request Agrees heard
    one_request-Ended elapsed total broken es (served body j eq finish opens) sound =
        let all = subst (All (IsSound frames has_error error_frame)) eq sound in
        rw eq (
          heard-Agrees elapsed broken body _ opens (All-append_left _ body _ all) (
            served-Settles elapsed broken j
              (All-append_right (IsSound frames has_error error_frame) body _ all).0))
    one_request-Ended elapsed total broken es (failed body message eq opens) sound =
        let all = subst (All (IsSound frames has_error error_frame)) eq sound in
        rw eq (
          heard-Agrees elapsed broken body _ opens (All-append_left _ body _ all) (
            failed-Settles elapsed broken message
              (All-append_right (IsSound frames has_error error_frame) body _ all).1.0))

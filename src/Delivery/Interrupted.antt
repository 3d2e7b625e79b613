-- ===== src/Delivery/Interrupted.antt =====
-- What the router passes on of an attempt that breaks off.
use mini_dynamo.Prelude.{
  suc, ◌≡◌, refl, ap, subst, ◌∙◌, Bool, true, ◌&&◌, not, Option, none, some, List, [], ◌∷◌, ◌++◌,
  Text, codes, length, All, if◌then◌else◌,
}
use mini_dynamo.Sse.{Frames}
use mini_dynamo.Router.{Effect, passed, mark_first, relay}
use mini_dynamo.Router.Ending.{IsOpen, Attempted-some, relay-Attempted}
use mini_dynamo.Client.Hearing.{IsSound, tokens_of}
use mini_dynamo.Delivery.Relayed.{IsTokenFrame, Sound-mark, tokens_of-mark}

module _ {J : Type 0} (frames : Frames J) (has_error : J → Bool) (error_frame : Text → J) where
  -- What the router passes on of frames without a last one.
  unfoldable pub passed_on : Bool → List J → List (Effect J)
  passed_on first [] = []
  passed_on first (j ∷ js) =
      mark_first frames first j ++ passed j ∷ passed_on (first && not (frames.has_token j)) js

  -- The exception that ends an attempt without a last frame.
  unfoldable pub cause : Option Text → Text
  cause none = codes "decode stream ended unexpectedly"
  cause (some e) = e

  pub relay-passed_on :
      (first : Bool) (js : List J) (broken : Option Text)
      → All (IsTokenFrame frames has_error error_frame) js
      → relay frames first js broken ≡ (passed_on first js, some (cause broken))
  unfolding relay passed_on cause
  relay-passed_on first [] none h = refl
  relay-passed_on first [] (some e) h = refl
  relay-passed_on first (j ∷ js) broken h =
      let rest = relay-passed_on (first && not (frames.has_token j)) js broken h.1 in
      rw (relay, h.0.object, h.0.unfinished)
        (ap (λ p. (mark_first frames first j ++ passed j ∷ p.0, p.1)) rest)

  pub passed_on-Sound :
      (first : Bool) (js : List J)
      → All (IsTokenFrame frames has_error error_frame) js
      → All (IsSound frames has_error error_frame) (passed_on first js)
  unfolding passed_on IsSound
  passed_on-Sound first [] h = tt
  passed_on-Sound first (j ∷ js) h =
      Sound-mark frames has_error error_frame first j _
        ((h.0.clean, h.0.no_error), passed_on-Sound (first && not (frames.has_token j)) js h.1)

  pub tokens_of-passed_on :
      (first : Bool) (js : List J)
      → All (IsTokenFrame frames has_error error_frame) js
      → tokens_of frames (passed_on first js) ≡ length js
  unfolding passed_on tokens_of
  tokens_of-passed_on first [] h = refl
  tokens_of-passed_on first (j ∷ js) h =
      let n = tokens_of frames (passed_on (first && not (frames.has_token j)) js) in
      tokens_of-mark frames has_error error_frame first j _
      ∙ ap (λ b. if b then suc n else n) h.0.token
      ∙ ap suc (tokens_of-passed_on (first && not (frames.has_token j)) js h.1)

  pub passed_on-IsOpen :
      (js : List J)
      → All (IsTokenFrame frames has_error error_frame) js
      → All (IsOpen frames) (passed_on true js)
  passed_on-IsOpen js h =
      let eq = relay-passed_on true js none h in
      subst (All (IsOpen frames)) (ap (λ p. p.0) eq) (
        Attempted-some frames (relay frames true js none) (ap (λ p. p.1) eq)
          (relay-Attempted frames true js none))

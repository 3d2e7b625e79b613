-- ===== src/Delivery/Relayed.antt =====
-- The router passes on a node's frames.
use mini_dynamo.Prelude.{
  suc, ◌≡◌, refl, ap, subst, ◌∙◌, Bool, true, false, ◌&&◌, not, Option, none, List, [], ◌∷◌, ◌++◌,
  Text, codes, Text_discrete, length, if◌then◌else◌, All, Bool-cases, inl, inr,
}
use mini_dynamo.Sse.{Frames}
use mini_dynamo.Router.{Effect, passed, done, requests, latency, mark_first, relay}
use mini_dynamo.Router.Ending.{Ended, relay-Attempted, Attempted-none}
use mini_dynamo.Client.Hearing.{IsClean, IsSound, tokens_of, counts}

module _ {J : Type 0} (frames : Frames J) (has_error : J → Bool) (error_frame : Text → J) where
  -- A frame with a token, and one with a finish reason.
  pub record IsTokenFrame (j : J) : Type 0 where
    pub clean : IsClean frames has_error error_frame j
    pub object : frames.is_object j ≡ true
    pub no_error : has_error j ≡ false
    pub token : frames.has_token j ≡ true
    pub unfinished : frames.has_finish j ≡ false

  pub record IsFinalFrame (j : J) : Type 0 where
    pub clean : IsClean frames has_error error_frame j
    pub object : frames.is_object j ≡ true
    pub no_error : has_error j ≡ false
    pub no_token : frames.has_token j ≡ false
    pub finished : frames.has_finish j ≡ true

  -- The stream of the router for the frames `js` and the last one, `z`.
  unfoldable pub relayed : Bool → List J → J → List (Effect J)
  relayed first [] z =
      mark_first frames first z ++ passed z ∷ latency ∷ requests (codes "ok") ∷ done ∷ []
  relayed first (j ∷ js) z =
      mark_first frames first j ++ passed j ∷ relayed (first && not (frames.has_token j)) js z

  pub relay-relayed :
      (first : Bool) (js : List J) (z : J) (broken : Option Text)
      → All IsTokenFrame js
      → IsFinalFrame z
      → relay frames first (js ++ z ∷ []) broken ≡ (relayed first js z, none)
  unfolding relay relayed
  relay-relayed first [] z broken h k = rw (relay, k.object, k.finished) refl
  relay-relayed first (j ∷ js) z broken h k =
      let rest = relay-relayed (first && not (frames.has_token j)) js z broken h.1 k in
      rw (relay, h.0.object, h.0.unfinished)
        (ap (λ p. (mark_first frames first j ++ passed j ∷ p.0, p.1)) rest)

  abbrev Sound : List (Effect J) → Type 0
  Sound es = All (IsSound frames has_error error_frame) es

  pub Sound-mark :
      (first : Bool) (j : J) (es : List (Effect J))
      → Sound es
      → Sound (mark_first frames first j ++ es)
  unfolding mark_first IsSound
  Sound-mark first j es h = elim (Bool-cases (first && frames.has_token j)) [
    | inl e ↦ rw e (tt, h)
    | inr e ↦ rw e h
  ]

  pub relayed-Sound :
      (first : Bool) (js : List J) (z : J)
      → All IsTokenFrame js
      → IsFinalFrame z
      → All (IsSound frames has_error error_frame) (relayed first js z)
  unfolding relayed IsSound
  relayed-Sound first [] z h k = Sound-mark first z _ ((k.clean, k.no_error), (tt, (tt, (tt, tt))))
  relayed-Sound first (j ∷ js) z h k =
      Sound-mark first j _
        ((h.0.clean, h.0.no_error), relayed-Sound (first && not (frames.has_token j)) js z h.1 k)

  pub tokens_of-mark :
      (first : Bool) (j : J) (es : List (Effect J))
      → tokens_of frames (mark_first frames first j ++ es) ≡ tokens_of frames es
  unfolding mark_first tokens_of
  tokens_of-mark first j es = elim (Bool-cases (first && frames.has_token j)) [
    | inl e ↦ rw e refl
    | inr e ↦ rw e refl
  ]

  pub tokens_of-relayed :
      (first : Bool) (js : List J) (z : J)
      → All IsTokenFrame js
      → IsFinalFrame z
      → tokens_of frames (relayed first js z) ≡ length js
  unfolding relayed tokens_of
  tokens_of-relayed first [] z h k = tokens_of-mark first z _ ∙ rw k.no_token refl
  tokens_of-relayed first (j ∷ js) z h k =
      let n = tokens_of frames (relayed (first && not (frames.has_token j)) js z) in
      tokens_of-mark first j _
      ∙ ap (λ b. if b then suc n else n) h.0.token
      ∙ ap suc (tokens_of-relayed (first && not (frames.has_token j)) js z h.1 k)

  counts-mark :
      (first : Bool) (j : J) (es : List (Effect J))
      → counts (codes "ok") (mark_first frames first j ++ es) ≡ counts (codes "ok") es
  unfolding mark_first counts
  counts-mark first j es = elim (Bool-cases (first && frames.has_token j)) [
    | inl e ↦ rw e refl
    | inr e ↦ rw e refl
  ]

  pub counts-relayed :
      (first : Bool) (js : List J) (z : J) → counts (codes "ok") (relayed first js z) ≡ true
  unfolding relayed counts Text_discrete
  counts-relayed first [] z = counts-mark first z _
  counts-relayed first (j ∷ js) z =
      counts-mark first j _ ∙ counts-relayed (first && not (frames.has_token j)) js z

  pub relayed-Ended :
      (first : Bool) (js : List J) (z : J)
      → All IsTokenFrame js
      → IsFinalFrame z
      → Ended frames (relayed first js z)
  relayed-Ended first js z h k =
      let eq = relay-relayed first js z none h k in
      subst (Ended frames) (ap (λ p. p.0) eq) (
        Attempted-none frames (relay frames first (js ++ z ∷ []) none) (ap (λ p. p.1) eq)
          (relay-Attempted frames first (js ++ z ∷ []) none))

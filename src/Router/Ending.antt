-- ===== src/Router/Ending.antt =====
-- How the streams of the router end.
use mini_dynamo.Prelude.{
  ◌≡◌, inl, inr, refl, ap, Bool, true, false, ◌&&◌, not, Option, none, some, List, [], ◌∷◌, ◌++◌,
  Text, codes, All, All-append, Bool-cases,
}
use mini_dynamo.Sse.{Frames}
use mini_dynamo.Router.{
  Effect, passed, failure, done, requests, routing, first_token, latency, mark_first, relay,
}

module _ {J : Type 0} (frames : Frames J) where
  -- Effects that do not end a stream: no frame of a finished generation, no error, no end marker,
  -- and no count of a request but that of a fallback.
  abbrev pub IsOpen : Effect J → Type 0
  IsOpen (passed j) = (frames.is_object j && frames.has_finish j) ≡ false
  IsOpen (failure m) = ⊥
  IsOpen done = ⊥
  IsOpen (requests label) = label ≡ codes "fallback"
  IsOpen (routing label) = Unit
  IsOpen first_token = Unit
  IsOpen latency = Unit

  -- A stream ends in one of two ways, each with the end marker and with one count: by a frame with a
  -- finish reason, counted as ok, or by an error frame, counted as an error.
  pub data Ended (es : List (Effect J)) : Type 0 where
    served :
        (body : List (Effect J)) (j : J)
        → es ≡ body ++ passed j ∷ latency ∷ requests (codes "ok") ∷ done ∷ []
        → frames.has_finish j ≡ true
        → All IsOpen body
        → Ended es
    failed :
        (body : List (Effect J)) (message : Text)
        → es ≡ body ++ requests (codes "error") ∷ failure message ∷ done ∷ []
        → All IsOpen body
        → Ended es

  Ended-cons : (e : Effect J) (es : List (Effect J)) → IsOpen e → Ended es → Ended (e ∷ es)
  Ended-cons e es h (served body j eq fin opens) =
      served (e ∷ body) j (ap (◌∷◌ e) eq) fin (h, opens)
  Ended-cons e es h (failed body m eq opens) = failed (e ∷ body) m (ap (◌∷◌ e) eq) (h, opens)

  pub Ended-append :
      (front es : List (Effect J)) → All IsOpen front → Ended es → Ended (front ++ es)
  Ended-append [] es h k = k
  Ended-append (e ∷ front) es h k = Ended-cons e (front ++ es) h.0 (Ended-append front es h.1 k)

  mark_first-IsOpen : (first : Bool) (j : J) → All IsOpen (mark_first frames first j)
  unfolding mark_first
  mark_first-IsOpen first j = elim (Bool-cases (first && frames.has_token j)) [
    | inl e ↦ rw e (tt, tt)
    | inr e ↦ rw e tt
  ]

  -- An attempt either ends the stream, or leaves it open with an exception.
  pub Attempted : List (Effect J) × Option Text → Type 0
  Attempted (es, none) = Ended es
  Attempted (es, some exn) = All IsOpen es

  Attempted-append :
      (front : List (Effect J)) (r : List (Effect J) × Option Text)
      → All IsOpen front
      → Attempted r
      → Attempted (front ++ r.0, r.1)
  unfolding Attempted
  Attempted-append front (es, none) h k = Ended-append front es h k
  Attempted-append front (es, some exn) h k = All-append IsOpen front es h k

  pub relay-Attempted :
      (first : Bool) (js : List J) (broken : Option Text) → Attempted (relay frames first js broken)
  unfolding relay Attempted
  relay-Attempted first [] none = tt
  relay-Attempted first [] (some e) = tt
  relay-Attempted first (j ∷ js) broken = elim (Bool-cases (frames.is_object j)) [
    | inr plain ↦ elim (Bool-cases first) [
      | inl e ↦ rw (relay, plain, e) tt
      | inr e ↦ rw (relay, plain, e) (rw plain refl, tt)
    ]
    | inl dict ↦ elim (Bool-cases (frames.has_finish j)) [
      | inl fin ↦
          rw (relay, dict, fin)
            (Ended-append (mark_first frames first j) _ (mark_first-IsOpen first j)
              (served [] j refl fin tt))
      | inr more ↦
          rw (relay, dict, more)
            (Attempted-append (mark_first frames first j) _ (mark_first-IsOpen first j) (
              Attempted-append (passed j ∷ []) _ (rw (dict, more) refl, tt)
                (relay-Attempted (first && not (frames.has_token j)) js broken)))
    ]
  ]

  pub Attempted-none : (r : List (Effect J) × Option Text) → r.1 ≡ none → Attempted r → Ended r.0
  unfolding Attempted
  Attempted-none (es, none) e h = h
  Attempted-none (es, some exn) e h = cc

  pub Attempted-some :
      (r : List (Effect J) × Option Text) {exn : Text}
      → r.1 ≡ some exn
      → Attempted r
      → All IsOpen r.0
  unfolding Attempted
  Attempted-some (es, none) e h = cc
  Attempted-some (es, some exn) e h = h

-- ===== src/Delivery/Heard.antt =====
-- Every stream of the disaggregated path, as the client reads it.
use mini_dynamo.Prelude.{
  ℤ, ℕ, suc, zero, ◌<◌, ◌≡◌, refl, ap, Bool, true, false, ◌&&◌, not, Option, none, some, List, [],
  ◌∷◌, ◌++◌, Text, codes, Text_discrete, length, All, All-append, In, Bool-cases, Option-cases, inl,
  inr,
}
use mini_dynamo.Models.{GenerateRequest, PrefillResponse, DecodeRequest, BackendInfo}
use mini_dynamo.Redis.{Redis, Json, set_session_backend}
use mini_dynamo.Sse.{Frames, stream_decode}
use mini_dynamo.Routing.{
  Floats, Nodes, Selected, selected, no_backend, Decision, candidates, select_decode,
  fallback_decode,
}
use mini_dynamo.Router.{
  Effect, failure, done, requests, routing, Reply, Answer, raised, answered, decision_label, member,
  preceded, relay, give_up, retried, refuse, attempts, stream_disaggregated,
}
use mini_dynamo.Router.Ending.{failed}
use mini_dynamo.Router.Attempts.{stream_disaggregated-ends}
use mini_dynamo.Client.{one_request}
use mini_dynamo.Client.Hearing.{IsClean, IsSound, lines_of, tokens_of, counts}
use mini_dynamo.Client.Endings.{one_request-Ended}
use mini_dynamo.Delivery.Relayed.{Sound-mark}

module _ {J : Type 0} (frames : Frames J) (has_error : J → Bool) (error_frame : Text → J) where
  -- The JSON printed for the frame reads back as an object, and the frame has no error.
  unfoldable pub IsNodeFrame : J → Type 0
  IsNodeFrame j = IsClean frames has_error error_frame j × (has_error j ≡ false)

  -- The router's error frames read back as objects with an error.
  unfoldable pub IsErrorFrame : Type 0
  IsErrorFrame =
      (message : Text)
      → IsClean frames has_error error_frame (error_frame message)
        × (has_error (error_frame message) ≡ true)

  abbrev Sound : List (Effect J) → Type 0
  Sound es = All (IsSound frames has_error error_frame) es

  relay-Sound :
      (first : Bool) (js : List J) (broken : Option Text)
      → All IsNodeFrame js
      → Sound (relay frames first js broken).0
  unfolding relay IsSound IsNodeFrame
  relay-Sound first [] broken h = tt
  relay-Sound first (j ∷ js) broken h = elim (Bool-cases (frames.is_object j)) [
    | inr plain ↦ elim (Bool-cases first) [
      | inl e ↦ rw (relay, plain, e) tt
      | inr e ↦ rw (relay, plain, e) (h.0, tt)
    ]
    | inl dict ↦ elim (Bool-cases (frames.has_finish j)) [
      | inl fin ↦
          rw (relay, dict, fin)
            (Sound-mark frames has_error error_frame first j _ (h.0, (tt, (tt, (tt, tt)))))
      | inr more ↦
          rw (relay, dict, more)
            (Sound-mark frames has_error error_frame first j _
              (h.0, relay-Sound (first && not (frames.has_token j)) js broken h.1))
    ]
  ]

  -- A refused stream, whose only frame is the error.
  one_request-refused :
      (errors : IsErrorFrame) (elapsed : ℕ → ℤ) (total : ℤ) (broken : Option Text) (message : Text)
      → let es = failure message ∷ done ∷ [] in
        let r =
          one_request frames has_error elapsed total
            (record { lines = lines_of frames has_error error_frame es; broken = broken }) in
        (r.ok ≡ counts (codes "ok") es) × (r.tokens ≡ tokens_of frames es)
  unfolding lines_of counts tokens_of Text_discrete IsSound IsErrorFrame
  one_request-refused errors elapsed total broken message =
      one_request-Ended frames has_error error_frame elapsed total broken
        (requests (codes "error") ∷ failure message ∷ done ∷ []) (failed [] message refl tt)
        (tt, (errors message, (tt, tt)))

  module _ {F : Type 0} (floats : Floats F) (redis : Redis) (json : Json F) (nodes : Nodes)
      (decode : ℕ → BackendInfo F → DecodeRequest → Reply) (listed read written : ℕ → ℕ)
      (errors : IsErrorFrame)
      (sound : (n : ℕ) (b : BackendInfo F) (payload : DecodeRequest)
        → All IsNodeFrame
            (stream_decode frames (decode n b payload).lines (decode n b payload).broken).0) where
    open redis use {Store}

    unfoldable SoundIn : Option (List (Effect J) × Store) → Type 0
    SoundIn none = Unit
    SoundIn (some r) = Sound r.0

    SoundIn-preceded :
        (front : List (Effect J)) (o : Option (List (Effect J) × Store))
        → Sound front
        → SoundIn o
        → SoundIn (preceded front o)
    unfolding SoundIn preceded
    SoundIn-preceded front none h k = tt
    SoundIn-preceded front (some r) h k =
        All-append (IsSound frames has_error error_frame) front r.0 h k

    gives_up-Sound :
        (effects : List (Effect J)) (exn : Text)
        → Sound effects
        → Sound (effects ++ give_up frames exn)
    unfolding give_up IsSound IsErrorFrame
    gives_up-Sound effects exn h =
        All-append (IsSound frames has_error error_frame) effects _ h (tt, (errors _, (tt, tt)))

    attempts-SoundIn :
        (fuel n : ℕ) (session_id : Text) (payload : DecodeRequest) (attempted : List Text)
        (b : BackendInfo F) (s : Store)
        → SoundIn (
            attempts floats redis json nodes frames decode listed read written fuel n session_id
              payload attempted b s)
    unfolding SoundIn attempts retried IsSound
    attempts-SoundIn zero n session_id payload attempted b s = tt
    attempts-SoundIn (suc fuel) n session_id payload attempted b s =
        let reply = decode n b payload in
        let heard = stream_decode frames reply.lines reply.broken in
        let r = relay frames true heard.0 heard.1 in
        let fb =
          fallback_decode floats redis json nodes session_id b.name (listed n) (written n) s in
        let passes = relay-Sound true heard.0 heard.1 (sound n b payload) in
        elim (Option-cases r.1) [
          | inl e ↦ rw (attempts, e) passes
          | inr (exn, e) ↦ elim (Option-cases fb.0) [
            | inl k ↦ rw (attempts, e, k) (gives_up-Sound r.0 exn passes)
            | inr (b', k) ↦ elim (Bool-cases (member b'.name (b.name ∷ attempted))) [
              | inl m ↦ rw (attempts, e, k, m) (gives_up-Sound r.0 exn passes)
              | inr m ↦
                  rw (attempts, e, k, m)
                    (SoundIn-preceded (r.0 ++ retried frames) _
                      (All-append (IsSound frames has_error error_frame) r.0 (retried frames) passes
                        (tt, (tt, tt)))
                      (attempts-SoundIn fuel (suc n) session_id payload (b.name ∷ attempted) b'
                        fb.1))
            ]
          ]
        ]

    stream_disaggregated-SoundIn :
        (fuel : ℕ) (req : GenerateRequest) (max_tokens : ℤ) (answer : Answer (PrefillResponse F))
        (s : Store)
        → SoundIn (
            stream_disaggregated floats redis json nodes frames decode listed read written fuel req
              max_tokens answer s)
    unfolding SoundIn stream_disaggregated refuse IsSound IsErrorFrame
    stream_disaggregated-SoundIn fuel req max_tokens (raised exn) s = (tt, (errors _, (tt, tt)))
    stream_disaggregated-SoundIn fuel req max_tokens (answered pf) s =
        decided
          (select_decode floats redis json nodes req.session_id (listed 0) (read 0) (written 0) s)
          refl
      where
        decided :
            (r : Selected (BackendInfo F × Decision) × Store)
            → select_decode floats redis json nodes req.session_id (listed 0) (read 0) (written 0) s
              ≡ r
            → SoundIn (
                stream_disaggregated floats redis json nodes frames decode listed read written fuel
                  req max_tokens
                  (answered pf)
                  s)
        decided (no_backend message, s') e =
            rw (stream_disaggregated, ap (λ q. q.0) e) (errors _, (tt, tt))
        decided (selected (b, decision), s') e =
            rw (stream_disaggregated, ap (λ q. q.0) e, ap (λ q. q.1) e)
              (SoundIn-preceded (routing (decision_label decision) ∷ []) _ (tt, tt)
                (attempts-SoundIn fuel 1 req.session_id _ [] b s'))

    SoundIn-Sound :
        (o : Option (List (Effect J) × Store)) {es : List (Effect J)} {s' : Store}
        → SoundIn o
        → o ≡ some (es, s')
        → Sound es
    unfolding SoundIn
    SoundIn-Sound o h e = rw e at h

    module _ (Holds : Store → Type 0) (names : List Text)
        (pinning : (session_id name : Text) (now : ℕ) (s : Store)
          → Holds s
          → Holds (set_session_backend redis json nodes.ttls session_id name now s))
        (deployed : (n : ℕ) (s : Store)
          → Holds s
          → All
              (λ c. In c.name names)
              (candidates floats redis json nodes (codes "decode") (listed n) s)) where
      -- When every candidate for decoding has one of `names`, in all stores of a property that
      -- holds of the first store and that pins keep, then with one more unit of fuel than there are
      -- names the disaggregated stream comes to its end; and a client that reads it, however its
      -- own connection ends, holds the request for ok exactly if the router counts it as ok, and has
      -- counted each frame with a token that the router has passed on. The frames of the nodes are
      -- as `IsNodeFrame` says and those of the router as `IsErrorFrame` says.
      pub stream_disaggregated-one_request :
          (fuel : ℕ) (req : GenerateRequest) (max_tokens : ℤ) (answer : Answer (PrefillResponse F))
          (s : Store) (elapsed : ℕ → ℤ) (total : ℤ) (broken : Option Text)
          → Holds s
          → length names < fuel
          → (es : List (Effect J)) × (s' : Store) × (stream_disaggregated floats redis json nodes
                frames decode listed read written fuel req max_tokens answer s
              ≡ some (es, s'))
            × (let r =
                  one_request frames has_error elapsed total (record {
                    lines = lines_of frames has_error error_frame es;
                    broken = broken;
                  }) in
                (r.ok ≡ counts (codes "ok") es) × (r.tokens ≡ tokens_of frames es))
      stream_disaggregated-one_request fuel req max_tokens answer s elapsed total broken holds h =
          let (es, s', e, ending) =
            stream_disaggregated-ends floats redis json nodes frames decode listed read written
              Holds names pinning deployed fuel req max_tokens answer s holds h in
          let all = SoundIn-Sound _ (stream_disaggregated-SoundIn fuel req max_tokens answer s) e in
          (
            es,
            s',
            e,
            elim ending [
              | inl ended ↦
                  one_request-Ended frames has_error error_frame elapsed total broken es ended all
              | inr (message, same, refused) ↦
                  rw same (one_request-refused errors elapsed total broken message)
            ],
          )

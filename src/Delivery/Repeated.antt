-- ===== src/Delivery/Repeated.antt =====
-- A request whose first decode node breaks off and whose second one serves it.
use mini_dynamo.Prelude.{
  ℤ, ℕ, suc, ◌+◌, ◌≡◌, refl, ap, ◌∙◌, Bool, true, false, Option, some, List, [], ◌∷◌, ◌++◌, Text,
  length, All, All-append, arith,
}
use mini_dynamo.Models.{GenerateRequest, PrefillResponse, DecodeRequest, BackendInfo}
use mini_dynamo.Redis.{Redis, Json}
use mini_dynamo.Sse.{Frames, stream_decode}
use mini_dynamo.Routing.{Floats, Nodes, Decision, selected, select_decode, fallback_decode}
use mini_dynamo.Router.{
  Effect, routing, Reply, preceded, relay, retried, member, attempts, answered, decision_label,
  decode_payload, stream_disaggregated,
}
use mini_dynamo.Router.Ending.{IsOpen, Ended-append}
use mini_dynamo.Client.{one_request}
use mini_dynamo.Client.Hearing.{IsSound, lines_of, tokens_of, counts}
use mini_dynamo.Client.Endings.{one_request-Ended, tokens_of-append, counts-append}
use mini_dynamo.Delivery.Relayed.{
  IsTokenFrame, IsFinalFrame, relayed, relay-relayed, relayed-Sound, relayed-Ended,
  tokens_of-relayed, counts-relayed,
}
use mini_dynamo.Delivery.Interrupted.{
  passed_on, relay-passed_on, passed_on-Sound, tokens_of-passed_on, passed_on-IsOpen,
}

module _ {J : Type 0} (frames : Frames J) (has_error : J → Bool) (error_frame : Text → J) where
  -- The effects of both attempts.
  abbrev twice : List J → List J → J → List (Effect J)
  twice js js' z =
      passed_on frames has_error error_frame true js
      ++ retried frames
      ++ relayed frames has_error error_frame true js' z

  front-IsOpen :
      (label : Text) (js : List J)
      → All (IsTokenFrame frames has_error error_frame) js
      → All
          (IsOpen frames)
          (routing label ∷ (passed_on frames has_error error_frame true js ++ retried frames))
  unfolding retried
  front-IsOpen label js h = (
    tt,
    All-append (IsOpen frames) (passed_on frames has_error error_frame true js) (retried frames)
        (passed_on-IsOpen frames has_error error_frame js h) (tt, (refl, tt)),
  )

  -- The client's result for the two attempts.
  hears_twice :
      (elapsed : ℕ → ℤ) (total : ℤ) (broken : Option Text) (label : Text) (js js' : List J) (z : J)
      → All (IsTokenFrame frames has_error error_frame) js
      → All (IsTokenFrame frames has_error error_frame) js'
      → IsFinalFrame frames has_error error_frame z
      → let r = one_request frames has_error elapsed total (record {
        lines = lines_of frames has_error error_frame (routing label ∷ twice js js' z);
        broken = broken;
      }) in
        (r.ok ≡ true) × (r.tokens ≡ length js + length js')
  unfolding IsSound counts tokens_of retried
  hears_twice elapsed total broken label js js' z h h' final =
      let front =
        routing label ∷ (passed_on frames has_error error_frame true js ++ retried frames) in
      let back = relayed frames has_error error_frame true js' z in
      let sound : All (IsSound frames has_error error_frame) front = (
        tt,
        All-append _ (passed_on frames has_error error_frame true js) (retried frames)
            (passed_on-Sound frames has_error error_frame true js h) (tt, (tt, tt)),
      ) in
      let (ok, tokens) =
        one_request-Ended frames has_error error_frame elapsed total broken (front ++ back)
          (Ended-append frames front back (front-IsOpen label js h)
            (relayed-Ended frames has_error error_frame true js' z h' final))
          (All-append _ front back sound
            (relayed-Sound frames has_error error_frame true js' z h' final)) in
      let first_part =
        tokens_of-append frames (passed_on frames has_error error_frame true js) (retried frames) in
      let parts = tokens_of-append frames front back in
      let before = tokens_of-passed_on frames has_error error_frame true js h in
      let after = tokens_of-relayed frames has_error error_frame true js' z h' final in
      (
        ok
            ∙ counts-append frames front back (front-IsOpen label js h)
            ∙ counts-relayed frames has_error error_frame true js' z,
        tokens ∙ omega arith,
      )

  module _ {F : Type 0} (floats : Floats F) (redis : Redis) (json : Json F) (nodes : Nodes)
      (decode : ℕ → BackendInfo F → DecodeRequest → Reply) (listed read written : ℕ → ℕ) where
    open redis use {Store}

    -- What the router reads of the attempt `n` at a node.
    abbrev heard : ℕ → BackendInfo F → DecodeRequest → List J × Option Text
    heard n b payload = stream_decode frames (decode n b payload).lines (decode n b payload).broken

    attempts-last :
        (fuel n : ℕ) (session_id : Text) (payload : DecodeRequest) (attempted : List Text)
        (b : BackendInfo F) (s : Store) (js : List J) (z : J) (broken : Option Text)
        → heard n b payload ≡ (js ++ z ∷ [], broken)
        → All (IsTokenFrame frames has_error error_frame) js
        → IsFinalFrame frames has_error error_frame z
        → attempts floats redis json nodes frames decode listed read written
            (suc fuel)
            n
            session_id
            payload
            attempted
            b
            s
          ≡ some (relayed frames has_error error_frame true js z, s)
    unfolding attempts
    attempts-last fuel n session_id payload attempted b s js z broken e h final =
        let served =
          ap (λ p. relay frames true p.0 p.1) e
          ∙ relay-relayed frames has_error error_frame true js z broken h final in
        rw (attempts, ap (λ p. p.1) served, ap (λ p. p.0) served) refl

    attempts-twice :
        (fuel n : ℕ) (session_id : Text) (payload : DecodeRequest) (b b' : BackendInfo F)
        (s s' : Store) (js js' : List J) (z : J) (broken broken' : Option Text)
        → heard n b payload ≡ (js, broken)
        → All (IsTokenFrame frames has_error error_frame) js
        → fallback_decode floats redis json nodes session_id b.name (listed n) (written n) s
          ≡ (some b', s')
        → member b'.name (b.name ∷ []) ≡ false
        → heard (suc n) b' payload ≡ (js' ++ z ∷ [], broken')
        → All (IsTokenFrame frames has_error error_frame) js'
        → IsFinalFrame frames has_error error_frame z
        → attempts floats redis json nodes frames decode listed read written
            (suc (suc fuel))
            n
            session_id
            payload
            []
            b
            s
          ≡ some (twice js js' z, s')
    unfolding attempts preceded
    attempts-twice fuel n session_id payload b b' s s' js js' z broken broken' e h fb fresh e' h'
          final =
        let cut =
          ap (λ p. relay frames true p.0 p.1) e
          ∙ relay-passed_on frames has_error error_frame true js broken h in
        let after =
          (fallback_decode floats redis json nodes session_id b.name (listed n) (written n) s).1 in
        rw (attempts, ap (λ p. p.1) cut, ap (λ p. p.0) fb, fresh, ap (λ p. p.0) cut)
          (ap (preceded (passed_on frames has_error error_frame true js ++ retried frames)) (
              attempts-last fuel (suc n) session_id payload (b.name ∷ []) b' after js' z broken' e'
                h' final)
            ∙ ap (λ x. some (twice js js' z, x)) (ap (λ p. p.1) fb))

    -- When the selected decode node breaks off after some tokens, and the fallback to another node
    -- serves the request from its beginning, the client holds the request for ok, and has heard the
    -- tokens of the first node as well as all those of the second.
    pub repeats :
        (fuel : ℕ) (req : GenerateRequest) (max_tokens : ℤ) (pf : PrefillResponse F)
        (s s' s'' : Store) (b b' : BackendInfo F) (decision : Decision) (js js' : List J) (z : J)
        (broken broken' cut : Option Text) (elapsed : ℕ → ℤ) (total : ℤ)
        → select_decode floats redis json nodes req.session_id (listed 0) (read 0) (written 0) s
          ≡ (selected (b, decision), s')
        → (let payload =
              decode_payload floats redis json nodes frames decode listed read written req
                max_tokens pf in
            (heard 1 b payload ≡ (js, broken)) × (heard 2 b' payload ≡ (js' ++ z ∷ [], broken')))
        → All (IsTokenFrame frames has_error error_frame) js
        → fallback_decode floats redis json nodes req.session_id b.name (listed 1) (written 1) s'
          ≡ (some b', s'')
        → member b'.name (b.name ∷ []) ≡ false
        → All (IsTokenFrame frames has_error error_frame) js'
        → IsFinalFrame frames has_error error_frame z
        → (es : List (Effect J)) × (stream_disaggregated floats redis json nodes frames decode
              listed read written
              (suc (suc fuel))
              req
              max_tokens
              (answered pf)
              s
            ≡ some (es, s''))
          × (let r =
                one_request frames has_error elapsed total
                  (record { lines = lines_of frames has_error error_frame es; broken = cut }) in
              (r.ok ≡ true) × (r.tokens ≡ length js + length js'))
    unfolding stream_disaggregated preceded
    repeats fuel req max_tokens pf s s' s'' b b' decision js js' z broken broken' cut elapsed total
          choice replies h fb fresh h' final =
        let payload =
          decode_payload floats redis json nodes frames decode listed read written req max_tokens
            pf in
        let label = decision_label decision in
        let (ok, tokens) = hears_twice elapsed total cut label js js' z h h' final in
        (
          routing label ∷ twice js js' z,
          rw
              (
                stream_disaggregated,
                ap (λ p. p.0) choice,
                ap (λ p. p.1) choice,
                attempts-twice fuel 1 req.session_id payload b b' s' s'' js js' z broken broken'
                    replies.0 h fb fresh replies.1 h' final,
              )
              refl,
          (ok, tokens),
        )

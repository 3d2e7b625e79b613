-- ===== src/Delivery/Delivered.antt =====
-- A request from the router's stream to the client, when its decode node serves it.
use mini_dynamo.Prelude.{
  ℤ, pos, ℕ, suc, ◌+◌, ◌≡◌, refl, sym, ap, ◌∙◌, Bool, true, Option, none, some, List, [], ◌∷◌, ◌++◌,
  map, Text, codes, Text_discrete, length, All,
}
use mini_dynamo.Dict.{get}
use mini_dynamo.Models.{TokenChunk, GenerateRequest, PrefillResponse, DecodeRequest, BackendInfo}
use mini_dynamo.Redis.{Redis, Json}
use mini_dynamo.Sse.{Frames, stream_decode}
use mini_dynamo.Routing.{Floats, Nodes, selected, Decision, select_decode}
use mini_dynamo.Router.{
  Effect, routing, Reply, answered, decision_label, preceded, relay, attempts, decode_payload,
  stream_disaggregated,
}
use mini_dynamo.Router.Ending.{Ended-append}
use mini_dynamo.Scheduler.{Seq, Scheduler, Arrival, finish_chunk, run}
use mini_dynamo.Scheduler.Streaming.{stream, IsStreaming}
use mini_dynamo.Scheduler.Rounds.{AllNew}
use mini_dynamo.Worker.{Costs}
use mini_dynamo.Worker.Serving.{run_served}
use mini_dynamo.Worker.Streams.{decode_stream, node_lines}
use mini_dynamo.Worker.Vocabulary.{next_token}
use mini_dynamo.Client.{one_request}
use mini_dynamo.Client.Hearing.{IsSound, lines_of, tokens_of, counts}
use mini_dynamo.Client.Endings.{one_request-Ended}
use mini_dynamo.Delivery.Relayed.{
  IsTokenFrame, IsFinalFrame, relayed, relay-relayed, relayed-Sound, relayed-Ended,
  tokens_of-relayed, counts-relayed,
}
use mini_dynamo.Delivery.Served.{IsDump, read_transcript, stream-IsTokenFrame, length-stream}

module _ {F J : Type 0} (floats : Floats F) (redis : Redis) (json : Json F) (nodes : Nodes)
    (frames : Frames J) (decode : ℕ → BackendInfo F → DecodeRequest → Reply)
    (listed read written : ℕ → ℕ) (has_error : J → Bool) (error_frame : Text → J) where
  open redis use {Store}

  attempts-relayed :
      (fuel n : ℕ) (session_id : Text) (payload : DecodeRequest) (attempted : List Text)
      (b : BackendInfo F) (s : Store) (js : List J) (z : J)
      → stream_decode frames (decode n b payload).lines (decode n b payload).broken
        ≡ (js ++ z ∷ [], none)
      → All (IsTokenFrame frames has_error error_frame) js
      → IsFinalFrame frames has_error error_frame z
      → attempts floats redis json nodes frames decode listed read written
          (suc fuel)
          n
          session_id
          payload
          attempted
          b
          s
        ≡ some (relayed frames has_error error_frame true js z, s)
  unfolding attempts
  attempts-relayed fuel n session_id payload attempted b s js z heard tokens final =
      let passed_on =
        ap (λ h. relay frames true h.0 h.1) heard
        ∙ relay-relayed frames has_error error_frame true js z none tokens final in
      rw (attempts, ap (λ p. p.1) passed_on, ap (λ p. p.0) passed_on) refl

  -- The client's result for a stream of frames with tokens and a last one.
  hears :
      (elapsed : ℕ → ℤ) (total : ℤ) (broken : Option Text) (label : Text) (js : List J) (z : J)
      → All (IsTokenFrame frames has_error error_frame) js
      → IsFinalFrame frames has_error error_frame z
      → let r = one_request frames has_error elapsed total (record {
        lines =
            lines_of frames has_error error_frame
              (routing label ∷ relayed frames has_error error_frame true js z);
        broken = broken;
      }) in
        (r.ok ≡ true) × (r.tokens ≡ length js)
  unfolding counts tokens_of IsSound
  hears elapsed total broken label js z tokens final =
      let es = relayed frames has_error error_frame true js z in
      let (ok, count) =
        one_request-Ended frames has_error error_frame elapsed total broken (routing label ∷ es)
          (Ended-append frames (routing label ∷ []) es (tt, tt)
            (relayed-Ended frames has_error error_frame true js z tokens final))
          (tt, relayed-Sound frames has_error error_frame true js z tokens final) in
      (
        ok ∙ counts-relayed frames has_error error_frame true js z,
        count ∙ tokens_of-relayed frames has_error error_frame true js z tokens final,
      )

  -- A request whose decode node answers with frames of tokens and a last frame.
  pub stream_disaggregated-relayed :
      (fuel : ℕ) (req : GenerateRequest) (max_tokens : ℤ) (pf : PrefillResponse F) (s s' : Store)
      (b : BackendInfo F) (decision : Decision) (js : List J) (z : J)
      → select_decode floats redis json nodes req.session_id (listed 0) (read 0) (written 0) s
        ≡ (selected (b, decision), s')
      → (let reply = decode 1 b (
            decode_payload floats redis json nodes frames decode listed read written req max_tokens
              pf) in
          stream_decode frames reply.lines reply.broken ≡ (js ++ z ∷ [], none))
      → All (IsTokenFrame frames has_error error_frame) js
      → IsFinalFrame frames has_error error_frame z
      → stream_disaggregated floats redis json nodes frames decode listed read written
          (suc fuel)
          req
          max_tokens
          (answered pf)
          s
        ≡ some
            (routing (decision_label decision) ∷ relayed frames has_error error_frame true js z, s')
  unfolding stream_disaggregated preceded
  stream_disaggregated-relayed fuel req max_tokens pf s s' b decision js z choice heard tokens
        final =
      let payload =
        decode_payload floats redis json nodes frames decode listed read written req max_tokens
          pf in
      rw
        (
          stream_disaggregated,
          ap (λ p. p.0) choice,
          ap (λ p. p.1) choice,
          attempts-relayed fuel 1 req.session_id payload [] b s' js z heard tokens final,
        )
        refl

  pub delivers :
      (fuel : ℕ) (req : GenerateRequest) (max_tokens : ℤ) (pf : PrefillResponse F) (s s' : Store)
      (b : BackendInfo F) (decision : Decision) (js : List J) (z : J) (cut : Option Text)
      (elapsed : ℕ → ℤ) (total : ℤ)
      → select_decode floats redis json nodes req.session_id (listed 0) (read 0) (written 0) s
        ≡ (selected (b, decision), s')
      → (let reply = decode 1 b (
            decode_payload floats redis json nodes frames decode listed read written req max_tokens
              pf) in
          stream_decode frames reply.lines reply.broken ≡ (js ++ z ∷ [], none))
      → All (IsTokenFrame frames has_error error_frame) js
      → IsFinalFrame frames has_error error_frame z
      → (es : List (Effect J)) × (stream_disaggregated floats redis json nodes frames decode listed
            read written
            (suc fuel)
            req
            max_tokens
            (answered pf)
            s
          ≡ some (es, s'))
        × (let r =
              one_request frames has_error elapsed total
                (record { lines = lines_of frames has_error error_frame es; broken = cut }) in
            (r.ok ≡ true) × (r.tokens ≡ length js))
  delivers fuel req max_tokens pf s s' b decision js z cut elapsed total choice heard tokens final =
      let label = decision_label decision in
      (
        routing label ∷ relayed frames has_error error_frame true js z,
        stream_disaggregated-relayed fuel req max_tokens pf s s' b decision js z choice heard tokens
            final,
        hears elapsed total cut label js z tokens final,
      )

  module _ (dump : TokenChunk → J) (dumps : IsDump frames has_error error_frame dump)
      (md5 : Text → ℕ) {C : Type 0} (costs : Costs C) (megabytes : ℤ → C)
      (bandwidth_gbps fixed_ms : C) (is_colocated : Bool) (clock : ℕ → ℕ) where
    -- A request whose prefill has been answered, for which the router selects a decode node where
    -- the sequence that answers it is active with `n + 1` tokens to go: after `n + 1` rounds of that
    -- node's scheduler, from a state with the streaming invariant, the router has a stream for the
    -- client, whatever becomes of the connections afterwards, and a client that reads it holds the
    -- request for ok and has heard as many tokens as the sequence was to generate. The JSON of the
    -- chunks is as `IsDump` says, and the tokens are those of `next_token`.
    pub delivered :
        (fuel : ℕ) (req : GenerateRequest) (max_tokens : ℤ) (pf : PrefillResponse F) (s s' : Store)
        (b : BackendInfo F) (decision : Decision) (n : ℕ) (rounds : List (List Arrival)) (k : Text)
        (x : Seq) (scheduler : Scheduler) (broken cut : Option Text) (elapsed : ℕ → ℤ) (total : ℤ)
        → length rounds ≡ suc n
        → AllNew clock (next_token md5) rounds scheduler
        → IsStreaming (next_token md5) scheduler.waiting scheduler
        → get Text_discrete k scheduler.active ≡ some x
        → x.max_tokens ≡ pos (x.generated + suc n)
        → select_decode floats redis json nodes req.session_id (listed 0) (read 0) (written 0) s
          ≡ (selected (b, decision), s')
        → (let payload =
              decode_payload floats redis json nodes frames decode listed read written req
                max_tokens pf in
            decode 1 b payload ≡ record {
              lines =
                  node_lines frames dump
                    (decode_stream costs megabytes bandwidth_gbps fixed_ms is_colocated payload
                      ((run clock (next_token md5) rounds scheduler).queues x.out_queue)).0;
              broken = broken;
            })
        → (es : List (Effect J)) × (stream_disaggregated floats redis json nodes frames decode
              listed read written
              (suc fuel)
              req
              max_tokens
              (answered pf)
              s
            ≡ some (es, s'))
          × (let r =
                one_request frames has_error elapsed total
                  (record { lines = lines_of frames has_error error_frame es; broken = cut }) in
              (r.ok ≡ true) × (pos r.tokens ≡ x.max_tokens))
    delivered fuel req max_tokens pf s s' b decision n rounds k x scheduler broken cut elapsed total
          len new v e m choice reply =
        let payload =
          decode_payload floats redis json nodes frames decode listed read written req max_tokens
            pf in
        let many = x.generated + suc n in
        let js = map dump (stream (next_token md5) x.session_id x.num_prompt_tokens many) in
        let heard =
          ap (λ r. stream_decode frames r.lines r.broken) reply
          ∙ read_transcript frames has_error error_frame dump dumps md5 costs megabytes
              bandwidth_gbps fixed_ms is_colocated payload _ x.session_id x.num_prompt_tokens many
              broken (run_served clock (next_token md5) n rounds k x scheduler len new v e m) in
        let (es, streams, (ok, count)) =
          delivers fuel req max_tokens pf s s' b decision js
            (dump (finish_chunk many (codes "length"))) cut elapsed total choice heard
            (stream-IsTokenFrame frames has_error error_frame dump dumps md5 x.session_id
              x.num_prompt_tokens many)
            (dumps.finals many (codes "length")) in
        (
          es,
          streams,
          (
            ok,
            ap pos (
                  count
                  ∙ length-stream frames has_error error_frame dump dumps md5 x.session_id
                      x.num_prompt_tokens many)
                ∙ sym m,
          ),
        )

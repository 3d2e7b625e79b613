-- ===== src/Delivery/Colocated.antt =====
-- The colocated deployment beside the disaggregated one.
use mini_dynamo.Prelude.{
  ℤ, ℕ, suc, ◌≡◌, refl, sym, ap, ◌∙◌, Bool, true, false, Option, none, some, List, [], ◌∷◌, ◌++◌,
  map, Text, codes, All,
}
use mini_dynamo.Models.{TokenChunk, GenerateRequest, PrefillResponse, DecodeRequest, BackendInfo}
use mini_dynamo.Redis.{Redis, Json}
use mini_dynamo.Sse.{Frames, stream_decode}
use mini_dynamo.Routing.{Floats, Nodes, selected, Decision, select_decode}
use mini_dynamo.Router.{
  Effect, passed, done, requests, routing, latency, first_token, mark_first, Reply, answered,
  decision_label, decode_payload, forward_frames, stream_colocated, stream_disaggregated,
}
use mini_dynamo.Scheduler.{finish_chunk}
use mini_dynamo.Scheduler.Streaming.{stream, transcript}
use mini_dynamo.Worker.{Costs, pass_on}
use mini_dynamo.Worker.Frames.{generate_chunks-forward_chunks}
use mini_dynamo.Worker.Streams.{decode_stream, generate_stream, node_lines}
use mini_dynamo.Worker.Vocabulary.{next_token}
use mini_dynamo.Delivery.Relayed.{IsTokenFrame, IsFinalFrame, relayed}
use mini_dynamo.Delivery.Served.{IsDump, read_transcript, stream-IsTokenFrame}
use mini_dynamo.Delivery.Delivered.{stream_disaggregated-relayed}

module _ {J : Type 0} (frames : Frames J) (has_error : J → Bool) (error_frame : Text → J) where
  abbrev ending : List (Effect J)
  ending = latency ∷ requests (codes "ok") ∷ done ∷ []

  forward_frames-relayed :
      (first : Bool) (js : List J) (z : J)
      → All (IsTokenFrame frames has_error error_frame) js
      → IsFinalFrame frames has_error error_frame z
      → forward_frames frames first (js ++ z ∷ []) none ++ ending
        ≡ relayed frames has_error error_frame first js z
  unfolding forward_frames relayed mark_first
  forward_frames-relayed true [] z h k = rw (k.object, k.no_token) refl
  forward_frames-relayed false [] z h k = refl
  forward_frames-relayed true (j ∷ js) z h k =
      let rest = forward_frames-relayed false js z h.1 k in
      rw (h.0.object, h.0.token) (ap (λ es. first_token ∷ passed j ∷ es) rest)
  forward_frames-relayed false (j ∷ js) z h k =
      ap (◌∷◌ (passed j)) (forward_frames-relayed false js z h.1 k)

  module _ (dump : TokenChunk → J) (dumps : IsDump frames has_error error_frame dump)
      (md5 : Text → ℕ) {C : Type 0} where
    stream_colocated-relayed :
        (costs : Costs C) (megabytes : ℤ → C) (bandwidth_gbps fixed_ms : C) (is_colocated : Bool)
        (req : DecodeRequest) (chunks : List TokenChunk) (session : Text) (base : ℤ) (n : ℕ)
        (prefill_ms : C) (broken : Option Text)
        → pass_on chunks ≡ (transcript (next_token md5) session base n, true)
        → stream_colocated frames (record {
          lines = node_lines frames dump (generate_stream prefill_ms chunks).0;
          broken = broken;
        })
          ≡ relayed frames has_error error_frame true
              (map dump (stream (next_token md5) session base n))
              (dump (finish_chunk n (codes "length")))
    unfolding stream_colocated generate_stream decode_stream node_lines
    stream_colocated-relayed costs megabytes bandwidth_gbps fixed_ms is_colocated req chunks session
          base n prefill_ms broken e =
        let same =
          ap (λ p. stream_decode frames (node_lines frames dump p.0) broken)
            (generate_chunks-forward_chunks {F = C} true chunks) in
        let read =
          read_transcript frames has_error error_frame dump dumps md5 costs megabytes bandwidth_gbps
            fixed_ms is_colocated req chunks session base n broken e in
        ap (λ p. forward_frames frames true p.0 p.1 ++ ending) (same ∙ read)
        ∙ forward_frames-relayed true _ _
            (stream-IsTokenFrame frames has_error error_frame dump dumps md5 session base n)
            (dumps.finals n (codes "length"))

    module _ {F : Type 0} (floats : Floats F) (redis : Redis) (json : Json F) (nodes : Nodes)
        (decode : ℕ → BackendInfo F → DecodeRequest → Reply) (listed read written : ℕ → ℕ)
        (costs : Costs C) (megabytes : ℤ → C) (bandwidth_gbps fixed_ms : C)
        (is_colocated : Bool) where
      open redis use {Store}

      -- When the prefill has been answered, the router can select a decode node, and the queue there
      -- holds a whole generation of `next_token`, then the disaggregated stream has the routing
      -- decision counted first, and is from there on the stream of a request that one worker serves
      -- alone with the same generation in its queue: the same frames and the same counts in the same
      -- order, however the two nodes' connections end. The JSON of the chunks is as `IsDump` says.
      pub stream_disaggregated-stream_colocated :
          (fuel : ℕ) (req : GenerateRequest) (max_tokens : ℤ) (pf : PrefillResponse F)
          (s s' : Store) (b : BackendInfo F) (decision : Decision)
          (chunks chunks' : List TokenChunk) (session : Text) (base : ℤ) (n : ℕ) (prefill_ms : C)
          (broken broken' : Option Text)
          → pass_on chunks ≡ (transcript (next_token md5) session base n, true)
          → pass_on chunks' ≡ (transcript (next_token md5) session base n, true)
          → select_decode floats redis json nodes req.session_id (listed 0) (read 0) (written 0) s
            ≡ (selected (b, decision), s')
          → (let payload =
                decode_payload floats redis json nodes frames decode listed read written req
                  max_tokens pf in
              decode 1 b payload ≡ record {
                lines =
                    node_lines frames dump
                      (decode_stream costs megabytes bandwidth_gbps fixed_ms is_colocated payload
                        chunks).0;
                broken = broken;
              })
          → stream_disaggregated floats redis json nodes frames decode listed read written
              (suc fuel)
              req
              max_tokens
              (answered pf)
              s
            ≡ some (
              routing (decision_label decision)
                  ∷ stream_colocated frames (record {
                    lines = node_lines frames dump (generate_stream prefill_ms chunks').0;
                    broken = broken';
                  }),
              s',
            )
      stream_disaggregated-stream_colocated fuel req max_tokens pf s s' b decision chunks chunks'
            session base n prefill_ms broken broken' e e' choice reply =
          let payload =
            decode_payload floats redis json nodes frames decode listed read written req max_tokens
              pf in
          let heard =
            ap (λ r. stream_decode frames r.lines r.broken) reply
            ∙ read_transcript frames has_error error_frame dump dumps md5 costs megabytes
                bandwidth_gbps fixed_ms is_colocated payload chunks session base n broken e in
          let alone =
            stream_colocated-relayed costs megabytes bandwidth_gbps fixed_ms is_colocated payload
              chunks' session base n prefill_ms broken' e' in
          stream_disaggregated-relayed floats redis json nodes frames decode listed read written
            has_error error_frame fuel req max_tokens pf s s' b decision _ _ choice heard
            (stream-IsTokenFrame frames has_error error_frame dump dumps md5 session base n)
            (dumps.finals n (codes "length"))
          ∙ ap (λ es. some (routing (decision_label decision) ∷ es, s')) (sym alone)

-- ===== src/Delivery/Refused.antt =====
-- A request whose sequence the scheduler refuses.
use mini_dynamo.Prelude.{
  ℤ, ℕ, suc, ◌≡◌, ap, ◌∙◌, Bool, true, Option, none, some, List, [], ◌∷◌, ◌++◌, Text, codes, ◌==◌,
  arith,
}
use mini_dynamo.Models.{TokenChunk, GenerateRequest, PrefillResponse, DecodeRequest, BackendInfo}
use mini_dynamo.Memory.{MemorySimulator, Error, raise, allocate}
use mini_dynamo.Redis.{Redis, Json}
use mini_dynamo.Sse.{Frames, stream_decode}
use mini_dynamo.Routing.{Floats, Nodes, selected, Decision, select_decode}
use mini_dynamo.Router.{Effect, Reply, answered, decode_payload, stream_disaggregated}
use mini_dynamo.Scheduler.{Seq, Scheduler, put_chunk, finish_chunk, block_of, admitted, admit_one}
use mini_dynamo.Worker.{Costs, pass_on}
use mini_dynamo.Worker.Frames.{stream_decode-forward_chunks}
use mini_dynamo.Worker.Streams.{decode_stream, node_lines}
use mini_dynamo.Client.{one_request}
use mini_dynamo.Client.Hearing.{lines_of}
use mini_dynamo.Delivery.Served.{IsDump, final-IsPrinted}
use mini_dynamo.Delivery.Delivered.{delivers}

-- The queue of a refused sequence.
refused_queue :
    (clock : ℕ → ℕ) (seq : Seq) (e : Error) (memory : MemorySimulator) (scheduler : Scheduler)
    → scheduler.queues seq.out_queue ≡ []
    → allocate (block_of clock seq scheduler) scheduler.memory ≡ (raise e, memory)
    → (admit_one clock seq scheduler).queues seq.out_queue ≡ finish_chunk 0 (codes "oom") ∷ []
unfolding admit_one admitted put_chunk
refused_queue clock seq e memory scheduler fresh no_room =
    let same : (seq.out_queue == seq.out_queue) ≡ true = ground arith in
    ap (λ o. (admitted clock seq o scheduler).queues seq.out_queue) no_room
    ∙ rw same (ap (λ cs. cs ++ finish_chunk 0 (codes "oom") ∷ []) fresh)

module _ {F J : Type 0} (floats : Floats F) (redis : Redis) (json : Json F) (nodes : Nodes)
    (frames : Frames J) (decode : ℕ → BackendInfo F → DecodeRequest → Reply)
    (listed read written : ℕ → ℕ) (has_error : J → Bool) (error_frame : Text → J)
    (dump : TokenChunk → J) (dumps : IsDump frames has_error error_frame dump) {C : Type 0}
    (costs : Costs C) (megabytes : ℤ → C) (bandwidth_gbps fixed_ms : C) (is_colocated : Bool)
    (clock : ℕ → ℕ) where
  open redis use {Store}

  read_refusal :
      (req : DecodeRequest) (chunks : List TokenChunk) (broken : Option Text)
      → chunks ≡ finish_chunk 0 (codes "oom") ∷ []
      → stream_decode frames
          (node_lines frames dump
            (decode_stream costs megabytes bandwidth_gbps fixed_ms is_colocated req chunks).0)
          broken
        ≡ (dump (finish_chunk 0 (codes "oom")) ∷ [], none)
  unfolding decode_stream node_lines pass_on finish_chunk
  read_refusal req chunks broken e = rw e (
      stream_decode-forward_chunks frames dump C true (finish_chunk 0 (codes "oom") ∷ []) broken
        (final-IsPrinted frames has_error error_frame dump dumps (λ s. 0) 0 (codes "oom"), tt))

  -- A request whose sequence, with its queue still empty, `allocate` refuses when it is admitted at
  -- the selected decode node, comes to an end, and the client holds it for ok, although it has heard
  -- no token.
  pub refusal-ok :
      (fuel : ℕ) (req : GenerateRequest) (max_tokens : ℤ) (pf : PrefillResponse F) (s s' : Store)
      (b : BackendInfo F) (decision : Decision) (seq : Seq) (e : Error) (memory : MemorySimulator)
      (scheduler : Scheduler) (broken cut : Option Text) (elapsed : ℕ → ℤ) (total : ℤ)
      → scheduler.queues seq.out_queue ≡ []
      → allocate (block_of clock seq scheduler) scheduler.memory ≡ (raise e, memory)
      → select_decode floats redis json nodes req.session_id (listed 0) (read 0) (written 0) s
        ≡ (selected (b, decision), s')
      → (let payload =
            decode_payload floats redis json nodes frames decode listed read written req max_tokens
              pf in
          decode 1 b payload ≡ record {
            lines =
                node_lines frames dump
                  (decode_stream costs megabytes bandwidth_gbps fixed_ms is_colocated payload
                    ((admit_one clock seq scheduler).queues seq.out_queue)).0;
            broken = broken;
          })
      → (es : List (Effect J)) × (stream_disaggregated floats redis json nodes frames decode listed
            read written
            (suc fuel)
            req
            max_tokens
            (answered pf)
            s
          ≡ some (es, s'))
        × (let r =
              one_request frames has_error elapsed total
                (record { lines = lines_of frames has_error error_frame es; broken = cut }) in
            (r.ok ≡ true) × (r.tokens ≡ 0))
  refusal-ok fuel req max_tokens pf s s' b decision seq e memory scheduler broken cut elapsed total
        fresh no_room choice reply =
      let payload =
        decode_payload floats redis json nodes frames decode listed read written req max_tokens
          pf in
      delivers floats redis json nodes frames decode listed read written has_error error_frame fuel
        req max_tokens pf s s' b decision [] (dump (finish_chunk 0 (codes "oom"))) cut elapsed total
        choice
        (ap (λ r. stream_decode frames r.lines r.broken) reply
          ∙ read_refusal payload _ broken
              (refused_queue clock seq e memory scheduler fresh no_room))
        tt (dumps.finals 0 (codes "oom"))

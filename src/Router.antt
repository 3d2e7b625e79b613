-- ===== src/Router.antt =====
-- services/router/main.py: a generation request through prefill and decode, with the fallback to
-- other decode nodes, and the request that one worker serves alone. The nodes' replies and the
-- readings of the clock, by the number of the attempt, are arguments. A stream is the list of its effects in order: the frames to the client and the
-- counters. Spans and log lines are not modelled.
pub mod Ending
pub mod Attempts
pub mod Tests
use mini_dynamo.Prelude.{
  ℤ, ℕ, suc, zero, ◌+◌, ◌≡◌, ite, Bool, true, false, ◌&&◌, not, Option, none, some, List, [], ◌∷◌,
  ◌++◌, Text, codes, Text_discrete, if◌then◌else◌,
}
use mini_dynamo.Models.{
  GenerateRequest, PrefillResponse, DecodeRequest, BackendInfo, option_or_default,
}
use mini_dynamo.Redis.{Redis, Json}
use mini_dynamo.Sse.{Frames, stream_decode}
use mini_dynamo.Routing.{
  Floats, Nodes, RoutingPolicy, Selected, selected, no_backend, Decision, cache_hit, cache_miss,
  select_prefill, select_decode, fallback_decode,
}

-- A frame of a node passed on, an error frame with its message, the end marker, and the metrics:
-- `REQUESTS_TOTAL` and `ROUTING_DECISIONS` by label, the first token's time, the whole latency.
pub data Effect (J : Type 0) : Type 0 where
  passed : J → Effect J
  failure : Text → Effect J
  done : Effect J
  requests : Text → Effect J
  routing : Text → Effect J
  first_token : Effect J
  latency : Effect J

-- A reply to a streaming request: its lines, and the exception that breaks it off or keeps it from
-- starting.
pub record Reply : Type 0 where
  pub lines : List Text
  pub broken : Option Text

-- The answer to the prefill request: its fields, or an exception.
pub data Answer (A : Type 0) : Type 0 where
  answered : A → Answer A
  raised : Text → Answer A

unfoldable pub decision_label : Decision → Text
decision_label cache_hit = codes "cache_hit"
decision_label cache_miss = codes "cache_miss"

unfoldable pub member : Text → List Text → Bool
member n [] = false
member n (m ∷ ms) = let rest = member n ms in ite (Text_discrete m n) true rest

-- What comes before the effects of the rest of a stream.
unfoldable pub preceded :
    {J S : Type 0} → List (Effect J) → Option (List (Effect J) × S) → Option (List (Effect J) × S)
preceded front none = none
preceded front (some r) = some (front ++ r.0, r.1)

module _ {J : Type 0} (frames : Frames J) where
  -- The message that `.get` of a frame that is not an object raises, less the name of the frame's
  -- type in front.
  unfoldable pub no_get : Text
  no_get = codes "object has no attribute 'get'"

  -- The effect of the test for the first token.
  unfoldable pub mark_first : Bool → J → List (Effect J)
  mark_first first j = if first && frames.has_token j then first_token ∷ [] else []

  -- The loop over a decode node's frames: its effects, and the exception that ends the attempt, if
  -- no frame had a finish reason.
  unfoldable pub relay : Bool → List J → Option Text → List (Effect J) × Option Text
  relay first [] broken =
      ([], elim broken [ none ↦ some (codes "decode stream ended unexpectedly") | some e ↦ some e ])
  relay first (j ∷ js) broken =
      let rest = relay (first && not (frames.has_token j)) js broken in
      elim (frames.is_object j) [
        | false ↦ if first then ([], some no_get) else (passed j ∷ [], some no_get)
        | true ↦
            if frames.has_finish j
            then (
              mark_first first j ++ passed j ∷ latency ∷ requests (codes "ok") ∷ done ∷ [],
              none,
            )
            else (mark_first first j ++ passed j ∷ rest.0, rest.1)
      ]

  -- The end of a request that no further node can serve.
  unfoldable pub give_up : Text → List (Effect J)
  give_up exn = requests (codes "error") ∷ failure (codes "decode failed: " ++ exn) ∷ done ∷ []

  unfoldable pub retried : List (Effect J)
  retried = routing (codes "fallback") ∷ requests (codes "fallback") ∷ []

  -- The frames that follow an error before decoding has started.
  unfoldable pub refuse : Text → List (Effect J)
  refuse message = failure message ∷ done ∷ []

  -- The loop of the colocated path over the worker's frames: nothing but the end of the reply, its marker
  -- or an exception ends it.
  unfoldable pub forward_frames : Bool → List J → Option Text → List (Effect J)
  forward_frames first [] broken = elim broken [ none ↦ [] | some e ↦ failure e ∷ [] ]
  forward_frames first (j ∷ js) broken =
      let rest = forward_frames (first && not (frames.has_token j)) js broken in
      if first && not (frames.is_object j)
      then failure no_get ∷ []
      else mark_first first j ++ passed j ∷ rest

  -- The stream of the colocated path.
  unfoldable pub stream_colocated : Reply → List (Effect J)
  stream_colocated reply =
      let (js, broken) = stream_decode frames reply.lines reply.broken in
      forward_frames true js broken ++ latency ∷ requests (codes "ok") ∷ done ∷ []

-- The response to a client: status 503 with its message, or a stream.
pub data Response (J : Type 0) : Type 0 where
  unavailable : Text → List (Effect J) → Response J
  streaming : List (Effect J) → Response J

module _ {F J : Type 0} (floats : Floats F) (redis : Redis) (json : Json F) (nodes : Nodes)
    (frames : Frames J) (decode : ℕ → BackendInfo F → DecodeRequest → Reply)
    (listed read written : ℕ → ℕ) where
  open redis use {Store}

  -- The attempt `n` at the node `b`, and the further ones. No fuel is left where the
  -- result is none.
  unfoldable pub attempts :
      ℕ
      → ℕ
      → Text
      → DecodeRequest
      → List Text
      → BackendInfo F
      → Store
      → Option (List (Effect J) × Store)
  attempts zero n session_id payload attempted b s = none
  attempts (suc fuel) n session_id payload attempted b s =
      let reply = decode n b payload in
      let (js, broken) = stream_decode frames reply.lines reply.broken in
      let (effects, failed) = relay frames true js broken in
      elim failed [
        | none ↦ some (effects, s)
        | some exn ↦
            (let (other, s') =
                fallback_decode floats redis json nodes session_id b.name (listed n) (written n)
                  s in
              elim other [
                | none ↦ some (effects ++ give_up frames exn, s')
                | some b' ↦ elim (member b'.name (b.name ∷ attempted)) [
                  | true ↦ some (effects ++ give_up frames exn, s')
                  | false ↦
                      preceded (effects ++ retried frames)
                        (attempts fuel (suc n) session_id payload (b.name ∷ attempted) b' s')
                ]
              ])
      ]

  unfoldable pub decode_payload : GenerateRequest → ℤ → PrefillResponse F → DecodeRequest
  decode_payload req max_tokens pf = record {
    session_id = req.session_id;
    kv_cache_id = pf.kv_cache_id;
    prompt = [];
    num_prompt_tokens = pf.num_prompt_tokens;
    kv_size_mb = pf.kv_size_mb;
    max_tokens = max_tokens;
    prefill_backend = pf.backend;
  }

  -- The stream of the disaggregated path, once a prefill node has been chosen and has answered.
  unfoldable pub stream_disaggregated :
      ℕ
      → GenerateRequest
      → ℤ
      → Answer (PrefillResponse F)
      → Store
      → Option (List (Effect J) × Store)
  stream_disaggregated fuel req max_tokens (raised exn) s =
      some (requests (codes "error") ∷ refuse frames (codes "prefill failed: " ++ exn), s)
  stream_disaggregated fuel req max_tokens (answered pf) s =
      let (choice, s') =
        select_decode floats redis json nodes req.session_id (listed 0) (read 0) (written 0) s in
      elim choice [
        | no_backend message ↦ some (refuse frames message, s')
        | selected (b, decision) ↦
            preceded (routing (decision_label decision) ∷ [])
              (attempts fuel 1 req.session_id (decode_payload req max_tokens pf) [] b s')
      ]

  module _ (prefill : BackendInfo F → GenerateRequest → ℤ → Answer (PrefillResponse F))
      (work : BackendInfo F → GenerateRequest → ℤ → Reply) (max_tokens_default : ℤ)
      (is_colocated : Bool) where
    unfoldable pub generate_disaggregated :
        ℕ
        → GenerateRequest
        → RoutingPolicy
        → ℕ
        → Store
        → Option (Response J × RoutingPolicy × Store)
    generate_disaggregated fuel req p now s =
        let max_tokens = option_or_default req.max_tokens max_tokens_default in
        let (choice, p') = select_prefill floats redis json nodes p now s in
        elim choice [
          | no_backend message ↦ some (unavailable message (requests (codes "error") ∷ []), p', s)
          | selected b ↦
              elim (stream_disaggregated fuel req max_tokens (prefill b req max_tokens) s) [
                | none ↦ none
                | some r ↦ some (streaming r.0, p', r.1)
              ]
        ]

    unfoldable pub generate_colocated :
        GenerateRequest → RoutingPolicy → ℕ → Store → Response J × RoutingPolicy × Store
    generate_colocated req p now s =
        let max_tokens = option_or_default req.max_tokens max_tokens_default in
        let (choice, p') = select_prefill floats redis json nodes p now s in
        elim choice [
          | no_backend message ↦ (unavailable message [], p', s)
          | selected b ↦ (streaming (stream_colocated frames (work b req max_tokens)), p', s)
        ]

    unfoldable pub generate :
        ℕ
        → GenerateRequest
        → RoutingPolicy
        → ℕ
        → Store
        → Option (Response J × RoutingPolicy × Store)
    generate fuel req p now s =
        let alone = generate_colocated req p now s in
        let split = generate_disaggregated fuel req p now s in
        if is_colocated then some alone else split

-- ===== src/Worker/Streams.antt =====
-- The streams of the two handlers that generate: `decode` of services/decode/main.py and
-- `generate_colocated` of services/prefill/main.py, as the list of their effects.
use mini_dynamo.Prelude.{
  ℤ, ℕ, Bool, true, false, ◌&&◌, not, none, some, List, [], ◌∷◌, ◌++◌, Text, codes, is_empty,
  if◌then◌else◌,
}
use mini_dynamo.Models.{GenerateRequest, TokenChunk, DecodeRequest, option_or_default}
use mini_dynamo.Redis.{Redis, Json, Ttls}
use mini_dynamo.Scheduler.{Scheduler, submit}
use mini_dynamo.Sse.{Frames, sse}
use mini_dynamo.Worker.{Costs, transfer_ms, PrefillResult, resolve}

-- A chunk and the end marker that go to the client; the time of the transfer, of the prefill and of
-- the first token, the whole latency, and the count of a request as ok.
pub data NodeEffect (F : Type 0) : Type 0 where
  chunk : TokenChunk → NodeEffect F
  done : NodeEffect F
  transfer : F → NodeEffect F
  prefill : F → NodeEffect F
  first_token : NodeEffect F
  latency : NodeEffect F
  requests_ok : NodeEffect F

-- `chunk.model_dump()` is a parameter.
unfoldable pub sse_chunk : {J : Type 0} → Frames J → (TokenChunk → J) → TokenChunk → Text
sse_chunk frames dump c = sse frames (dump c)

module _ {F : Type 0} where
  unfoldable pub mark_token : Bool → TokenChunk → List (NodeEffect F)
  mark_token first c = if first && not (is_empty c.token) then first_token ∷ [] else []

  -- The loop over the chunks of the queue, and whether it has ended; without a chunk the handler
  -- waits.
  unfoldable pub forward_chunks : Bool → List TokenChunk → List (NodeEffect F) × Bool
  unfolding mark_token
  forward_chunks first [] = ([], false)
  forward_chunks first (c ∷ cs) =
      let rest = forward_chunks (first && is_empty c.token) cs in
      elim c.finish_reason [
        | some reason ↦ (mark_token first c ++ chunk c ∷ latency ∷ requests_ok ∷ done ∷ [], true)
        | none ↦ (mark_token first c ++ chunk c ∷ rest.0, rest.1)
      ]

  -- The decode handler's stream: the transfer comes first. `megabytes` is the size as a float.
  unfoldable pub decode_stream :
      Costs F
      → (ℤ → F)
      → F
      → F
      → Bool
      → DecodeRequest
      → List TokenChunk
      → List (NodeEffect F) × Bool
  unfolding forward_chunks
  decode_stream costs megabytes bandwidth_gbps fixed_ms is_colocated req chunks =
      let (effects, ended) = forward_chunks true chunks in
      (
        transfer (transfer_ms costs (megabytes req.kv_size_mb) bandwidth_gbps fixed_ms is_colocated)
            ∷ effects,
        ended,
      )

  -- The colocated handler's own loop over the chunks of its queue.
  unfoldable pub generate_chunks : Bool → List TokenChunk → List (NodeEffect F) × Bool
  unfolding mark_token
  generate_chunks first [] = ([], false)
  generate_chunks first (c ∷ cs) =
      let (effects, ended) = generate_chunks (first && is_empty c.token) cs in
      elim c.finish_reason [
        | none ↦ (mark_token first c ++ chunk c ∷ effects, ended)
        | some reason ↦ (mark_token first c ++ chunk c ∷ latency ∷ requests_ok ∷ done ∷ [], true)
      ]

  -- The colocated handler's stream: the prefill comes first.
  unfoldable pub generate_stream : F → List TokenChunk → List (NodeEffect F) × Bool
  unfolding generate_chunks
  generate_stream prefill_ms chunks =
      let (effects, ended) = generate_chunks true chunks in (prefill prefill_ms ∷ effects, ended)

  -- The request that the colocated handler submits.
  unfoldable pub colocated_request : GenerateRequest → ℤ → PrefillResult F → Text → DecodeRequest
  colocated_request req max_tokens_default result node_name = record {
    session_id = req.session_id;
    kv_cache_id = result.kv_cache_id;
    prompt = [];
    num_prompt_tokens = result.num_prompt_tokens;
    kv_size_mb = result.kv_size_mb;
    max_tokens = option_or_default req.max_tokens max_tokens_default;
    prefill_backend = node_name;
  }

-- The decode handler up to its stream: the resolved request is submitted.
module _ {F : Type 0} (redis : Redis) (json : Json F) (settings : Ttls) (clock : ℕ → ℕ) where
  open redis use {Store}

  unfoldable pub decode : DecodeRequest → ℤ → Text → ℕ → Store → Scheduler → ℕ × Scheduler
  decode req max_tokens_default req_id now s scheduler =
      submit clock (resolve redis json settings req max_tokens_default now s) req_id scheduler

-- The lines of the response.
unfoldable pub node_lines :
    {F J : Type 0} → Frames J → (TokenChunk → J) → List (NodeEffect F) → List Text
node_lines frames dump [] = []
node_lines frames dump (chunk c ∷ es) =
    (codes "data: " ++ frames.dumps (dump c)) ∷ [] ∷ node_lines frames dump es
node_lines frames dump (done ∷ es) = codes "data: [DONE]" ∷ [] ∷ node_lines frames dump es
node_lines frames dump (e ∷ es) = node_lines frames dump es

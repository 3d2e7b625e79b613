-- ===== src/Worker.antt =====
-- services/prefill/main.py, services/decode/main.py, common/mock_model.py and
-- common/kv_transfer.py: what a node does with a request. The random part of a latency, the
-- characters of a new UUID and the readings of the clock are arguments. Spans and gauges are not
-- modelled.
pub mod Frames
pub mod Vocabulary
pub mod Handover
pub mod Latency
pub mod Serving
pub mod Streams
pub mod Transfer
pub mod Tests
use mini_dynamo.Prelude.{
  ℤ, pos, ◌*ℤ◌, leb_ℤ, ℕ, zero, suc, ◌+◌, ◌≡◌, Bool, true, false, ◌&&◌, ◌||◌, not, Option, none,
  some, List, [], ◌∷◌, ◌++◌, Text, codes, is_empty, if◌then◌else◌, length,
}
use mini_dynamo.Models.{
  GenerateRequest, TokenChunk, PrefillResponse, DecodeRequest, option_or_default, or_default,
}
use mini_dynamo.Memory.{KvBlock, MemorySimulator, Error, Outcome, ok, raise, allocate}
use mini_dynamo.Redis.{Redis, Json, KvMeta, Ttls, register_kv, get_kv}
use mini_dynamo.Sse.{is_space}

-- The number of words in a text; `inside` tells whether a word has begun.
unfoldable pub count_words : Bool → Text → ℕ
count_words inside [] = 0
count_words inside (c ∷ s) =
    let outer = count_words false s in
    let inner = count_words true s in
    if is_space c then outer else if inside then inner else suc inner

-- max(1, n)
unfoldable pub count_tokens : Text → ℤ
unfolding count_words
count_tokens text = elim (count_words false text) [ zero ↦ pos 1 | suc k ↦ pos (suc k) ]

-- s[:n]
unfoldable pub first_chars : ℕ → Text → Text
first_chars zero s = []
first_chars (suc n) [] = []
first_chars (suc n) (c ∷ s) = c ∷ first_chars n s

unfoldable pub new_kv_cache_id : Text → Text → Text
unfolding first_chars
new_kv_cache_id session_id hex =
    codes "kv-" ++ first_chars 8 session_id ++ codes "-" ++ first_chars 8 hex

-- What the transfer's cost asks of floats: whether one is at most zero, and the arithmetic.
pub record Costs (F : Type 0) : Type 0 where
  pub zero : F
  pub eighth : F
  pub at_most_zero : F → Bool
  pub plus : F → F → F
  pub times : F → F → F
  pub over : F → F → F

unfoldable pub transfer_ms : {F : Type 0} → Costs F → F → F → F → Bool → F
transfer_ms costs size_mb bandwidth_gbps fixed_ms colocated =
    let mb_per_ms = costs.times bandwidth_gbps costs.eighth in
    if colocated || costs.at_most_zero size_mb
    then costs.zero
    else if costs.at_most_zero mb_per_ms
    then fixed_ms
    else costs.plus fixed_ms (costs.over size_mb mb_per_ms)

pub record PrefillResult (F : Type 0) : Type 0 where
  pub kv_cache_id : Text
  pub num_prompt_tokens : ℤ
  pub kv_size_mb : ℤ
  pub prefill_ms : F

unfoldable pub kv_size_mb : ℤ → ℤ → ℤ
kv_size_mb kv_mb_per_token num_tokens = num_tokens *ℤ kv_mb_per_token

unfoldable pub compute : {F : Type 0} → ℤ → Text → F → Text → Text → PrefillResult F
unfolding count_tokens new_kv_cache_id kv_size_mb
compute kv_mb_per_token hex latency_ms session_id prompt =
    let num_tokens = count_tokens prompt in
    record {
      kv_cache_id = new_kv_cache_id session_id hex;
      num_prompt_tokens = num_tokens;
      kv_size_mb = kv_size_mb kv_mb_per_token num_tokens;
      prefill_ms = latency_ms;
    }

-- The counters that a node's handlers step.
pub record Counts : Type 0 where
  pub ok : ℕ
  pub error : ℕ
  pub evictions : ℕ

-- The handler's result: a response, or the exception that `allocate` raised.
pub data Prefilled (F : Type 0) : Type 0 where
  response : PrefillResponse F → Prefilled F
  failed : Error → Prefilled F

-- The chunks that a stream passes on up to the first with a finish reason, and whether there was
-- one; without it the handler waits on.
unfoldable pub pass_on : List TokenChunk → List TokenChunk × Bool
pass_on [] = ([], false)
pass_on (chunk ∷ chunks) =
    let rest = pass_on chunks in
    elim chunk.finish_reason [ some reason ↦ (chunk ∷ [], true) | none ↦ (chunk ∷ rest.0, rest.1) ]

module _ {F : Type 0} (redis : Redis) (json : Json F) (settings : Ttls) (node_name : Text) where
  open redis use {Store}

  -- The handler from the allocation on; `made` and `used` are the block's instants, `noted` the
  -- metadata's, and `now` the server's.
  unfoldable pub prefill_with :
      PrefillResult F
      → Text
      → ℕ
      → ℕ
      → ℕ
      → ℕ
      → MemorySimulator
      → Store
      → Counts
      → Prefilled F × MemorySimulator × Store × Counts
  prefill_with result session_id made used noted now m s counts =
      let (outcome, m') =
        allocate
          (record {
            kv_cache_id = result.kv_cache_id;
            session_id = session_id;
            num_tokens = result.num_prompt_tokens;
            size_mb = result.kv_size_mb;
            created_at = made;
            last_access = used;
          })
          m in
      elim outcome [
        | raise e ↦ (failed e, m', s, record counts { error = counts.error + 1 })
        | ok evicted ↦ (
          response (record {
            session_id = session_id;
            kv_cache_id = result.kv_cache_id;
            num_prompt_tokens = result.num_prompt_tokens;
            kv_size_mb = result.kv_size_mb;
            prefill_ms = result.prefill_ms;
            backend = node_name;
            evicted = length evicted;
          }),
          m',
          register_kv redis json settings
              (record {
                kv_cache_id = result.kv_cache_id;
                session_id = session_id;
                num_tokens = result.num_prompt_tokens;
                size_mb = result.kv_size_mb;
                backend = node_name;
                created_at = noted;
              })
              now s,
          record counts { ok = counts.ok + 1; evictions = counts.evictions + length evicted },
        )
      ]

module _ {F : Type 0} (redis : Redis) (json : Json F) (settings : Ttls) where
  open redis use {Store}

  -- The request that the decode handler submits: a size that is not given is taken from the
  -- metadata, where there is any.
  unfoldable pub resolve : DecodeRequest → ℤ → ℕ → Store → DecodeRequest
  resolve req max_tokens_default now s =
      let max_tokens = or_default req.max_tokens max_tokens_default in
      let given = record req { prompt = []; max_tokens = max_tokens } in
      if leb_ℤ req.kv_size_mb (pos 0)
      then elim (get_kv redis json settings req.kv_cache_id now s) [
        | none ↦ given
        | some meta ↦ record given {
          num_prompt_tokens = meta.num_tokens;
          kv_size_mb = meta.size_mb;
        }
      ]
      else given

-- ===== src/Scheduler.antt =====
-- common/batching.py: the continuous-batching scheduler of the decode stage.
pub mod Queues
pub mod Batch
pub mod Distinct
pub mod Streaming
pub mod Forward
pub mod Admission
pub mod Joining
pub mod Rounds
pub mod Ownership
pub mod Lifecycle
pub mod Tests
use mini_dynamo.Prelude.{
  ℤ, pos, ◌+ℤ◌, leb_ℤ, ltb, ℕ, zero, suc, ◌+◌, ◌==◌, Bool, true, false, ◌&&◌, Option, none, some,
  List, [], ◌∷◌, ◌++◌, Text, codes, Text_discrete, if◌then◌else◌, length,
}
use mini_dynamo.Dict.{Dict, get, remove, put}
use mini_dynamo.Models.{TokenChunk, DecodeRequest, or_default}
use mini_dynamo.Memory.{KvBlock, MemorySimulator, Outcome, ok, raise, allocate, touch, free}

-- `_Seq`. The queue that a sequence writes to is an object of its own, named by a number.
pub record Seq : Type 0 where
  pub req_id : Text
  pub session_id : Text
  pub kv_cache_id : Text
  pub max_tokens : ℤ
  pub kv_size_mb : ℤ
  pub num_prompt_tokens : ℤ
  pub out_queue : ℕ
  pub generated : ℕ
  pub started_at : ℕ

-- The scheduler with the pool that it shares with its node, what every queue has been given, the
-- two counters that it exports, and how often it has read the clock.
pub record Scheduler : Type 0 where
  pub max_batch_size : ℕ
  pub max_tokens_default : ℤ
  pub waiting : List Seq
  pub active : Dict Text Seq
  pub memory : MemorySimulator
  pub queues : ℕ → List TokenChunk
  pub next_queue : ℕ
  pub tokens_total : ℕ
  pub evictions_total : ℕ
  pub readings : ℕ

unfoldable pub queue_depth : Scheduler → ℕ
queue_depth s = length s.waiting

unfoldable pub active_batch : Scheduler → ℕ
active_batch s = length s.active

-- queue.put(chunk), on a queue without a bound.
unfoldable pub put_chunk : ℕ → TokenChunk → (ℕ → List TokenChunk) → ℕ → List TokenChunk
put_chunk q chunk queues i = if q == i then queues i ++ chunk ∷ [] else queues i

unfoldable pub token_chunk : Text → ℕ → TokenChunk
token_chunk token index = record { token = token; index = index; finish_reason = none }

unfoldable pub finish_chunk : ℕ → Text → TokenChunk
finish_chunk index reason = record { token = []; index = index; finish_reason = some reason }

-- seq.generated += 1
unfoldable pub advance : Seq → Seq
advance seq = record seq { generated = seq.generated + 1 }

-- seq.generated >= seq.max_tokens, after the token
unfoldable pub is_done : Seq → Bool
is_done seq = leb_ℤ seq.max_tokens (pos (seq.generated + 1))

pub put_all : ℕ → List TokenChunk → (ℕ → List TokenChunk) → ℕ → List TokenChunk
unfolding put_chunk
put_all q [] queues = queues
put_all q (chunk ∷ chunks) queues = put_all q chunks (put_chunk q chunk queues)

-- The list `finished`.
unfoldable pub finished : Dict Text Seq → List Text
unfolding is_done
finished [] = []
finished ((req_id, seq) ∷ rest) = if is_done seq then req_id ∷ finished rest else finished rest

unfoldable pub advance_all : Dict Text Seq → Dict Text Seq
unfolding advance
advance_all [] = []
advance_all ((req_id, seq) ∷ rest) = (req_id, advance seq) ∷ advance_all rest

-- The loop that retires the finished. (An id that is not active would be a `KeyError`.)
unfoldable pub retire : List Text → Scheduler → Scheduler
retire [] s = s
retire (req_id ∷ ids) s = elim (get Text_discrete req_id s.active) [
  | none ↦ retire ids s
  | some seq ↦ retire ids (record s {
    active = remove Text_discrete req_id s.active;
    memory = (free seq.kv_cache_id s.memory).1;
  })
]

-- What other tasks do while the scheduler sleeps: a request comes in, or a handler of the same
-- node allocates a block, which carries its
-- own readings of the clock, in the shared pool.
pub data Arrival : Type 0 where
  submits : DecodeRequest → Text → Arrival
  allocates : KvBlock → Arrival

-- The clock as its successive readings.
module _ (clock : ℕ → ℕ) where
  -- `submit`: the request's queue is new, and `req_id` is the fresh uuid.
  unfoldable pub submit : DecodeRequest → Text → Scheduler → ℕ × Scheduler
  unfolding or_default
  submit req req_id s = (
    s.next_queue,
    record s {
      waiting =
          s.waiting
          ++ record {
            req_id = req_id;
            session_id = req.session_id;
            kv_cache_id = req.kv_cache_id;
            max_tokens = or_default req.max_tokens s.max_tokens_default;
            kv_size_mb = req.kv_size_mb;
            num_prompt_tokens = req.num_prompt_tokens;
            out_queue = s.next_queue;
            generated = 0;
            started_at = clock s.readings;
          }
            ∷ [];
      next_queue = s.next_queue + 1;
      readings = s.readings + 1;
    },
  )

  -- The arguments of `allocate` for a sequence, with the clock's next two readings.
  unfoldable pub block_of : Seq → Scheduler → KvBlock
  block_of seq s = record {
    kv_cache_id = seq.kv_cache_id;
    session_id = seq.session_id;
    num_tokens = seq.num_prompt_tokens;
    size_mb = seq.kv_size_mb;
    created_at = clock s.readings;
    last_access = clock (s.readings + 1);
  }

  -- What `_admit` does with the outcome of `allocate`. (`allocate` raises nothing but
  -- `OutOfMemoryError`: `Memory/Capacity.antt`.)
  unfoldable pub admitted : Seq → Outcome × MemorySimulator → Scheduler → Scheduler
  unfolding put_chunk finish_chunk
  admitted seq (ok evicted, memory) s = record s {
    active = put Text_discrete seq.req_id seq s.active;
    memory = memory;
    evictions_total = s.evictions_total + length evicted;
    readings = s.readings + 2;
  }
  admitted seq (raise e, memory) s = record s {
    memory = memory;
    queues = put_chunk seq.out_queue (finish_chunk 0 (codes "oom")) s.queues;
  }

  unfoldable pub admit_one : Seq → Scheduler → Scheduler
  unfolding block_of admitted
  admit_one seq s = admitted seq (allocate (block_of seq s) s.memory) s

  -- The loop of `_admit`; its first argument is the queue of waiting sequences.
  unfoldable pub admit_from : List Seq → Scheduler → Scheduler
  unfolding admit_one
  admit_from [] s = record s { waiting = [] }
  admit_from (seq ∷ rest) s = elim (ltb (length s.active) s.max_batch_size) [
    | true ↦ admit_from rest (admit_one seq s)
    | false ↦ record s { waiting = seq ∷ rest }
  ]

  unfoldable pub admit : Scheduler → Scheduler
  unfolding admit_from
  admit s = admit_from s.waiting s

  unfoldable pub arrive : Arrival → Scheduler → Scheduler
  unfolding submit
  arrive (submits req req_id) s = (submit req req_id s).1
  arrive (allocates b) s = record s { memory = (allocate b s.memory).1 }

  unfoldable pub arrive_all : List Arrival → Scheduler → Scheduler
  unfolding arrive
  arrive_all [] s = s
  arrive_all (a ∷ arrivals) s = arrive_all arrivals (arrive a s)

-- `model.next_token` beside the clock.
module _ (clock : ℕ → ℕ) (next_token : Text → ℤ → Text) where
  -- What one step puts on a sequence's queue.
  unfoldable pub emitted : Seq → List TokenChunk
  unfolding is_done token_chunk finish_chunk
  emitted seq =
      token_chunk (next_token seq.session_id (seq.num_prompt_tokens +ℤ pos seq.generated))
        seq.generated
      ∷ (if is_done seq then finish_chunk (seq.generated + 1) (codes "length") ∷ [] else [])

  -- The body of the loop over the active sequences. `touch` reads the clock if it finds the block.
  unfoldable pub emit_one : Seq → Scheduler → Scheduler
  unfolding put_all emitted
  emit_one seq s =
      let (present, memory) = touch seq.kv_cache_id (clock s.readings) s.memory in
      record s {
        memory = memory;
        queues = put_all seq.out_queue (emitted seq) s.queues;
        tokens_total = s.tokens_total + 1;
        readings = if present then s.readings + 1 else s.readings;
      }

  unfoldable pub emit_all : Dict Text Seq → Scheduler → Scheduler
  unfolding emit_one
  emit_all [] s = s
  emit_all ((req_id, seq) ∷ rest) s = emit_all rest (emit_one seq s)

  -- One forward pass for the whole batch.
  unfoldable pub forward : Scheduler → Scheduler
  unfolding emit_all finished advance_all retire
  forward s =
      retire (finished s.active) (record (emit_all s.active s) { active = advance_all s.active })

  -- One round of `_run`: the batch is fixed before the sleep, and what arrives during the sleep
  -- waits for the next round.
  unfoldable pub round : List Arrival → Scheduler → Scheduler
  round arrivals s =
      let s' = admit clock s in
      if length s'.active == 0
      then arrive_all clock arrivals s'
      else forward (arrive_all clock arrivals s')

  -- The loop of `_run`, a round for each list of arrivals.
  unfoldable pub run : List (List Arrival) → Scheduler → Scheduler
  run [] s = s
  run (arrivals ∷ rounds) s = run rounds (round arrivals s)

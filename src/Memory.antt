-- ===== src/Memory.antt =====
-- common/memory_sim.py: the simulated GPU memory and its eviction policies.
pub mod Victim
pub mod Loop
pub mod Outcomes
pub mod Accounting
pub mod Capacity
pub mod Bounds
pub mod Contents
pub mod Refusal
pub mod Eviction
pub mod Touch
pub mod Origin
pub mod Queue
pub mod View
pub mod Agreement
pub mod Refinement
mod Tests
use mini_dynamo.Prelude.{
  ℤ, pos, ◌+ℤ◌, ◌-ℤ◌, ltb_ℤ, ltb, ℕ, zero, suc, ◌+◌, ite, Bool, true, false, Option, none, some,
  List, [], ◌∷◌, ◌++◌, Text, codes, lower, Text_discrete, if◌then◌else◌, length,
}
use mini_dynamo.Prelude.Minimum.{first_min?}
use mini_dynamo.Dict.{Dict, get, contains, remove, put}
use mathlib.Core.Option

-- Amounts of memory are integers in a fixed unit of a megabyte; instants are readings of the clock.
pub record KvBlock : Type 0 where
  pub kv_cache_id : Text
  pub session_id : Text
  pub num_tokens : ℤ
  pub size_mb : ℤ
  pub created_at : ℕ
  pub last_access : ℕ

pub record MemorySimulator : Type 0 where
  pub total_mb : ℤ
  pub eviction_policy : Text
  pub blocks : Dict Text KvBlock
  pub used_mb : ℤ
  pub evictions : ℕ
  pub oom_events : ℕ
  pub allocations : ℕ

-- `out_of_memory` is `OutOfMemoryError`. The other two are the `KeyError` of a `pop` that misses
-- and the end of the loop's fuel.
pub data Error : Type 0 where
  out_of_memory key_error out_of_fuel : Error

pub data Outcome : Type 0 where
  ok : List Text → Outcome
  raise : Error → Outcome

unfoldable pub init : ℤ → Text → MemorySimulator
unfolding lower
init total_mb eviction_policy = record {
  total_mb = total_mb;
  eviction_policy = lower eviction_policy;
  blocks = [];
  used_mb = pos 0;
  evictions = 0;
  oom_events = 0;
  allocations = 0;
}

unfoldable pub free_mb : MemorySimulator → ℤ
free_mb m = m.total_mb -ℤ m.used_mb

unfoldable pub num_blocks : MemorySimulator → ℕ
num_blocks m = length m.blocks

unfoldable pub holds : Text → MemorySimulator → Bool
unfolding contains
holds k m = contains Text_discrete k m.blocks

unfoldable pub lookup : Text → MemorySimulator → Option KvBlock
lookup k m = get Text_discrete k m.blocks

-- `min(self._blocks.items(), key=...)[0]`; on an empty pool there is no victim.
unfoldable pub oldest_by : (KvBlock → ℕ) → Dict Text KvBlock → Option Text
unfolding first_min?
oldest_by key blocks = Option.map (λ e. e.0) (first_min? ltb (λ e. key e.1) blocks)

unfoldable pub pick_victim : MemorySimulator → Option Text
unfolding oldest_by
pick_victim m = ite (Text_discrete m.eviction_policy (codes "none")) none (
    ite (Text_discrete m.eviction_policy (codes "fifo")) (oldest_by (λ b. b.created_at) m.blocks)
      (oldest_by (λ b. b.last_access) m.blocks))

-- `self._used_mb -= self._blocks.pop(k).size_mb`; `none` where `pop` raises.
unfoldable pub pop_block : Text → MemorySimulator → Option MemorySimulator
pop_block k m =
    Option.map
      (λ b. record m { blocks = remove Text_discrete k m.blocks; used_mb = m.used_mb -ℤ b.size_mb })
      (get Text_discrete k m.blocks)

-- The `while` loop of `allocate`, with the list of the evicted so far.
unfoldable pub make_room : ℕ → ℤ → List Text → MemorySimulator → Outcome × MemorySimulator
make_room zero size_mb evicted m = (raise out_of_fuel, m)
make_room (suc fuel) size_mb evicted m = elim (ltb_ℤ m.total_mb (m.used_mb +ℤ size_mb)) [
  | false ↦ (ok evicted, m)
  | true ↦ elim (pick_victim m) [
    | none ↦ (raise out_of_memory, record m { oom_events = m.oom_events + 1 })
    | some victim ↦ elim (pop_block victim m) [
      | none ↦ (raise key_error, m)
      | some m' ↦
          make_room fuel size_mb (evicted ++ victim ∷ [])
            (record m' { evictions = m'.evictions + 1 })
    ]
  ]
]

-- The end of `allocate`, past the loop.
unfoldable pub insert : KvBlock → Outcome × MemorySimulator → Outcome × MemorySimulator
insert b (ok evicted, m) = (
  ok evicted,
  record m {
    blocks = put Text_discrete b.kv_cache_id b m.blocks;
    used_mb = m.used_mb +ℤ b.size_mb;
    allocations = m.allocations + 1;
  },
)
insert b (raise e, m) = (raise e, m)

-- Frees the old footprint of an id that is allocated again.
unfoldable pub forget : Text → MemorySimulator → MemorySimulator
forget k m = Option.get_or (pop_block k m) m

-- The block carries the arguments of `allocate` and the two readings of its clock. The loop drops
-- a block in each round, so one round more than there are blocks is enough.
unfoldable pub allocate : KvBlock → MemorySimulator → Outcome × MemorySimulator
unfolding make_room insert forget pop_block pick_victim
allocate b m =
    if ltb_ℤ m.total_mb b.size_mb
    then (raise out_of_memory, record m { oom_events = m.oom_events + 1 })
    else (let m' = forget b.kv_cache_id m in
        insert b (make_room (suc (length m'.blocks)) b.size_mb [] m'))

unfoldable pub touch : Text → ℕ → MemorySimulator → Bool × MemorySimulator
touch k now m = elim (get Text_discrete k m.blocks) [
  | none ↦ (false, m)
  | some b ↦
      (true, record m { blocks = put Text_discrete k (record b { last_access = now }) m.blocks })
]

unfoldable pub free : Text → MemorySimulator → Bool × MemorySimulator
unfolding pop_block
free k m = elim (pop_block k m) [ none ↦ (false, m) | some m' ↦ (true, m') ]

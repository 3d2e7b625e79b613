-- ===== src/Memory/Tests.antt =====
-- Runs of common/memory_sim.py's own test cases, and the theorems at concrete pools.
use mini_dynamo.Prelude.{
  true, pos, ◌+ℤ◌, ◌-ℤ◌, ◌≤ℤ◌, ◌<ℤ◌, ◌≡◌, ◌≢◌, ◌⊎◌, ℕ, ◌+◌, refl, List, [], ◌∷◌, none, some, Text,
  Text_discrete, codes, false, ite, if◌then◌else◌, ltb_ℤ, arith, All,
}
use mini_dynamo.Dict.{get, put, remove}
use mini_dynamo.Dict.Sums.{total}
use mini_dynamo.Memory.{
  KvBlock, MemorySimulator, ok, raise, out_of_memory, init, allocate, touch, free, lookup,
  pick_victim, forget,
}
use mini_dynamo.Memory.Outcomes.{stored}
use mini_dynamo.Memory.Accounting.{IsValid, allocate-IsValid}
use mini_dynamo.Memory.Capacity.{allocate_total, allocate_evicting}
use mini_dynamo.Memory.Refusal.{used_by_others, allocate_without_eviction}
use mini_dynamo.Memory.Bounds.{IsBounded, allocate-IsBounded}
use mini_dynamo.Memory.Contents.{elem, lookup-allocate}
use mini_dynamo.Memory.Eviction.{IsStale, allocate_evicts_oldest}
use mini_dynamo.Memory.Queue.{
  touches, allocates, frees, Call, answer_all, answer, shed, answered, evicted,
}
use mini_dynamo.Memory.View.{IsLru, view}
use mini_dynamo.Memory.Refinement.{perform_all, perform_all-refines}
use mini_dynamo.Memory.Touch.{touch_protects}

abbrev block : Text → ℕ → ℕ → KvBlock
block k size t = record {
  kv_cache_id = k;
  session_id = codes "s";
  num_tokens = pos 10;
  size_mb = pos size;
  created_at = t;
  last_access = t;
}

-- "a" and "b" of 40 each in a pool of 100, "a" touched last.
abbrev block_a : KvBlock
block_a = record (block (codes "a") 40 1) { last_access = 3 }

abbrev block_b : KvBlock
block_b = block (codes "b") 40 2

abbrev block_c : KvBlock
block_c = block (codes "c") 40 4

abbrev pool : Text → MemorySimulator
pool policy = record {
  total_mb = pos 100;
  eviction_policy = policy;
  blocks = (codes "a", block_a) ∷ (codes "b", block_b) ∷ [];
  used_mb = pos 80;
  evictions = 0;
  oom_events = 0;
  allocations = 2;
}

pool_made :
    (let m = (allocate (block (codes "a") 40 1) (init (pos 100) (codes "LRU"))).1 in
      (touch (codes "a") 3 (allocate block_b m).1).1)
    ≡ pool (codes "lru")
unfolding init allocate touch get put Text_discrete ◌+ℤ◌
pool_made = refl

lru_eviction : (allocate block_c (pool (codes "lru"))).0 ≡ ok (codes "b" ∷ [])
unfolding allocate get put remove Text_discrete ◌+ℤ◌ ◌-ℤ◌
lru_eviction = refl

fifo_eviction : (allocate block_c (pool (codes "fifo"))).0 ≡ ok (codes "a" ∷ [])
unfolding allocate get put remove Text_discrete ◌+ℤ◌ ◌-ℤ◌
fifo_eviction = refl

no_eviction : (allocate block_c (pool (codes "none"))).0 ≡ raise out_of_memory
unfolding allocate get put remove Text_discrete ◌+ℤ◌ ◌-ℤ◌
no_eviction = refl

free_missing : (free (codes "missing") (pool (codes "lru"))).0 ≡ false
unfolding free get Text_discrete
free_missing = refl

pool-IsValid : (policy : Text) → IsValid (pool policy)
unfolding total get Text_discrete ◌+ℤ◌
pool-IsValid policy = record {
  unique = (refl, (refl, tt));
  keyed = (refl, (refl, tt));
  accounted = refl;
}

pool-IsBounded : (policy : Text) → IsBounded (pool policy)
pool-IsBounded policy = record {
  valid = pool-IsValid policy;
  sizes = omega arith;
  within = omega arith;
}

abbrev lru_pool : MemorySimulator
lru_pool = pool (codes "lru")

abbrev after_c : MemorySimulator
after_c = record lru_pool {
  blocks = (codes "a", block_a) ∷ (codes "c", block_c) ∷ [];
  evictions = 1;
  allocations = 3;
}

allocate_c : allocate block_c lru_pool ≡ (ok (codes "b" ∷ []), after_c)
unfolding allocate get put remove Text_discrete ◌+ℤ◌ ◌-ℤ◌
allocate_c = refl

allocate-IsValid_example : IsValid (allocate block_c lru_pool).1
allocate-IsValid_example = allocate-IsValid block_c lru_pool (pool-IsValid (codes "lru"))

allocate_total_example :
    ((ids : List Text) × ((allocate block_c lru_pool).0 ≡ ok ids))
    ⊎ ((allocate block_c lru_pool).0 ≡ raise out_of_memory)
allocate_total_example = allocate_total block_c lru_pool (pool-IsValid (codes "lru"))

lru_evicts : lru_pool.eviction_policy ≢ codes "none"
lru_evicts = λ e. ground arith

allocate_evicting_example : (ids : List Text) × ((allocate block_c lru_pool).0 ≡ ok ids)
allocate_evicting_example =
    allocate_evicting block_c lru_pool (pool-IsValid (codes "lru")) lru_evicts (omega arith)

abbrev none_pool : MemorySimulator
none_pool = pool (codes "none")

-- A block that grows past the room left.
abbrev bigger_a : KvBlock
bigger_a = block (codes "a") 70 5

allocate_without_eviction_example :
    let others = used_by_others (codes "a") none_pool in
    let m' = (allocate bigger_a none_pool).1 in
    ((others +ℤ pos 70 ≤ℤ pos 100)
      × ((allocate bigger_a none_pool).0 ≡ ok [])
      × (m'.used_mb ≡ others +ℤ pos 70)
      × ((j : Text)
          → lookup j m' ≡ ite (Text_discrete (codes "a") j) (some bigger_a) (lookup j none_pool)))
    ⊎ ((pos 100 <ℤ others +ℤ pos 70)
        × ((allocate bigger_a none_pool).0 ≡ raise out_of_memory)
        × (m'.used_mb ≡ others)
        × ((j : Text) → lookup j m' ≡ ite (Text_discrete (codes "a") j) none (lookup j none_pool)))
allocate_without_eviction_example =
    allocate_without_eviction bigger_a none_pool (pool-IsValid (codes "none")) refl (omega arith)

allocate-IsBounded_example : IsBounded (allocate block_c lru_pool).1
allocate-IsBounded_example =
    allocate-IsBounded block_c lru_pool (omega arith) (pool-IsBounded (codes "lru"))

lookup-allocate_example :
    lookup (codes "b") after_c
    ≡ ite
        (Text_discrete (codes "c") (codes "b"))
        (some block_c)
        (if elem (codes "b") (codes "b" ∷ []) then none else lookup (codes "b") lru_pool)
lookup-allocate_example =
    lookup-allocate block_c lru_pool (codes "b") (pool-IsValid (codes "lru")) allocate_c

allocate_evicts_oldest_example :
    (last : MemorySimulator) × All (IsStale (forget (codes "c") lru_pool) last) (codes "b" ∷ [])
    × (after_c ≡ stored block_c last)
    × (ltb_ℤ (pos 100) ((forget (codes "c") lru_pool).used_mb +ℤ pos 40) ≡ false
        → ◌≡◌ {A = List Text} (codes "b" ∷ []) [])
allocate_evicts_oldest_example =
    allocate_evicts_oldest block_c lru_pool (pool-IsValid (codes "lru")) allocate_c

abbrev fifo_pool : MemorySimulator
fifo_pool = pool (codes "fifo")

touch_protects_example : pick_victim (touch (codes "b") 9 lru_pool).1 ≢ some (codes "b")
unfolding lookup get Text_discrete
touch_protects_example =
    touch_protects (codes "b") (codes "a") 9 lru_pool block_b block_a (pool-IsValid (codes "lru"))
      refl refl refl (λ e. ground arith) (omega arith)

-- "b" is touched, so that "a" makes room for "c".
abbrev some_calls : List Call
some_calls =
    touches (codes "b")
    ∷ allocates (codes "c") (codes "s") (pos 10) (pos 40)
    ∷ frees (codes "x")
    ∷ []

abbrev from_ten : ℕ → ℕ
from_ten i = i + 10

replies_of_calls :
    (answer_all (pos 100) some_calls ((codes "b", pos 40) ∷ (codes "a", pos 40) ∷ [])).0
    ≡ answered true ∷ evicted (codes "a" ∷ []) ∷ answered false ∷ []
unfolding answer_all answer shed total get remove Text_discrete ◌+ℤ◌
replies_of_calls = refl

lru_pool-IsLru : IsLru lru_pool
lru_pool-IsLru = record { evicting = λ e. cc; by_use = λ e. cc }

perform_all-refines_example :
    ((perform_all from_ten from_ten 0 some_calls lru_pool).0
      ≡ (answer_all (pos 100) some_calls (view lru_pool)).0)
    × (view (perform_all from_ten from_ten 0 some_calls lru_pool).1
        ≡ (answer_all (pos 100) some_calls (view lru_pool)).1)
perform_all-refines_example =
    perform_all-refines from_ten from_ten 0 some_calls lru_pool (λ j. omega arith)
      (pool-IsValid (codes "lru")) lru_pool-IsLru (omega arith, (omega arith, tt))

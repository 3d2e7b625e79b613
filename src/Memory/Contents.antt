-- ===== src/Memory/Contents.antt =====
-- What the pool holds after `allocate`, and what the counters show.
use mini_dynamo.Prelude.{
  ℤ, ◌≡◌, ℕ, ◌+◌, ◌⊎◌, refl, sym, ◌∙◌, ap, inl, inr, ite, [], ◌∷◌, none, some, List, Text,
  Text_discrete, Bool, true, false, arith, length, if◌then◌else◌, ◌≤◌,
}
use mini_dynamo.Dict.{get}
use mini_dynamo.Dict.Laws.{get-remove, get-put}
use mini_dynamo.Memory.{
  KvBlock, MemorySimulator, ok, raise, out_of_memory, allocate, lookup, forget, pop_block,
}
use mini_dynamo.Memory.Loop.{Evicts, stop, round}
use mini_dynamo.Memory.Outcomes.{too_big, stuck, made, stored, allocate-Allocated}
use mini_dynamo.Memory.Accounting.{IsValid}

-- id in evicted
unfoldable pub elem : Text → List Text → Bool
elem j [] = false
elem j (k ∷ ks) = ite (Text_discrete k j) true (elem j ks)

pub get-Evicts :
    {size_mb : ℤ} {m m' : MemorySimulator} {ids : List Text} (j : Text)
    → Evicts size_mb m ids m'
    → get Text_discrete j m'.blocks ≡ (if elem j ids then none else get Text_discrete j m.blocks)
unfolding elem
get-Evicts j (stop m) = refl
get-Evicts j (round {m = m} k b r run) =
    ground (arith, get-Evicts j run, get-remove Text_discrete k j m.blocks)

pub get-forget :
    (k j : Text) (m : MemorySimulator)
    → get Text_discrete j (forget k m).blocks
      ≡ ite (Text_discrete k j) none (get Text_discrete j m.blocks)
unfolding forget pop_block
get-forget k j m = ground (arith, get-remove Text_discrete k j m.blocks)

-- After a successful call on a valid pool the new block is stored under its id, the other ids
-- reported as evicted are gone, and every other id shows what it showed before.
pub lookup-allocate :
    (b : KvBlock) (m : MemorySimulator) (j : Text) {ids : List Text} {m' : MemorySimulator}
    → IsValid m
    → allocate b m ≡ (ok ids, m')
    → lookup j m'
      ≡ ite (Text_discrete b.kv_cache_id j) (some b) (if elem j ids then none else lookup j m)
unfolding lookup
lookup-allocate b m j {ids = ids'} {m' = m'} v e = elim (allocate-Allocated b m v.unique) [
  | too_big big r ↦ cc
  | stuck ids last small run end r ↦ cc
  | made ids last small run enough r ↦
      (let same : m' ≡ stored b last = ap (λ x. x.1) (sym e ∙ r) in
        let same_ids : ids' ≡ ids = cc in
        rw (same, same_ids)
          (ground (
            arith,
            get-put Text_discrete b.kv_cache_id j b last.blocks,
            get-Evicts j run,
            get-forget b.kv_cache_id j m,
          )))
]

ok-injective : {ids ids' : List Text} → ok ids ≡ ok ids' → ids ≡ ids'
ok-injective e = cc

record Counts (n : ℕ) (m m' : MemorySimulator) : Type 0 where
  evictions : m'.evictions ≡ m.evictions + n
  oom_events : m'.oom_events ≡ m.oom_events
  allocations : m'.allocations ≡ m.allocations

counts-Evicts :
    {size_mb : ℤ} {m m' : MemorySimulator} {ids : List Text}
    → Evicts size_mb m ids m'
    → Counts (length ids) m m'
counts-Evicts (stop m) = record { evictions = omega arith; oom_events = refl; allocations = refl }
counts-Evicts (round k b r run) =
    let c = counts-Evicts run in
    record { evictions = omega arith; oom_events = c.oom_events; allocations = c.allocations }

counts-forget : (k : Text) (m : MemorySimulator) → Counts 0 m (forget k m)
unfolding forget pop_block
counts-forget k m = record {
  evictions = ground arith;
  oom_events = ground arith;
  allocations = ground arith;
}

-- The counters of a valid pool tell the call: when it returns, each id evicted is counted, the
-- stored block is one allocation and there is no out-of-memory event; when it raises, there is one
-- such event, no allocation, and the count of evictions does not fall.
pub allocate_counters :
    (b : KvBlock) (m : MemorySimulator)
    → IsValid m
    → let m' = (allocate b m).1 in
      ((ids : List Text) × ((allocate b m).0 ≡ ok ids)
        × (m'.evictions ≡ m.evictions + length ids)
        × (m'.allocations ≡ m.allocations + 1)
        × (m'.oom_events ≡ m.oom_events))
      ⊎ (((allocate b m).0 ≡ raise out_of_memory)
          × (m'.allocations ≡ m.allocations)
          × (m'.oom_events ≡ m.oom_events + 1)
          × (m.evictions ≤ m'.evictions))
allocate_counters b m v = elim (allocate-Allocated b m v.unique) [
  | too_big big r ↦ inr (rw r (refl, refl, refl, omega arith))
  | stuck ids last small run end r ↦
      (let c = counts-Evicts run in
        let f = counts-forget b.kv_cache_id m in
        inr (rw r (refl, omega arith, omega arith, omega arith)))
  | made ids last small run enough r ↦
      (let c = counts-Evicts run in
        let f = counts-forget b.kv_cache_id m in
        inl (ids, ap (λ x. x.0) r, rw r (omega arith), rw r (omega arith), rw r (omega arith)))
]

pub allocate_ok-evictions :
    (b : KvBlock) (m : MemorySimulator) {ids : List Text}
    → IsValid m
    → (allocate b m).0 ≡ ok ids
    → (allocate b m).1.evictions ≡ m.evictions + length ids
allocate_ok-evictions b m v e = elim (allocate_counters b m v) [
  | inl (ids', k, evictions, allocations, oom_events) ↦
      evictions ∙ ap (λ n. m.evictions + n) (ap length (ok-injective (sym k ∙ e)))
  | inr (k, allocations, oom_events, evictions) ↦ cc
]

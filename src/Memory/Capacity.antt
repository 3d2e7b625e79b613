-- ===== src/Memory/Capacity.antt =====
-- When `allocate` succeeds, and that the pool never holds more than its size.
use mini_dynamo.Prelude.{
  ℤ, pos, ◌+ℤ◌, ◌≤ℤ◌, ◌<ℤ◌, ltb_ℤ, ltb_ℤ→lt, ltb_ℤ_false→le, zero-+ℤ, sym, ◌∙◌, ◌≡◌, refl, ◌≢◌, ◌⊎◌,
  inl, inr, [], List, Text, codes, arith, ap, true, if◌then◌else◌,
}
use mini_dynamo.Dict.Sums.{total}
use mini_dynamo.Memory.{
  KvBlock, MemorySimulator, ok, raise, out_of_memory, allocate, forget, pop_block,
}
use mini_dynamo.Memory.Victim.{pick_victim-none, pick_victim_off}
use mini_dynamo.Memory.Loop.{Evicts, stop, round, count_oom}
use mini_dynamo.Memory.Outcomes.{too_big, stuck, made, stored, allocate-Allocated}
use mini_dynamo.Memory.Accounting.{IsValid, size_of, forget-IsValid, Evicts-IsValid}

-- What neither the loop nor `forget` touches.
pub record SameSetup (m m' : MemorySimulator) : Type 0 where
  pub total_mb : m'.total_mb ≡ m.total_mb
  pub eviction_policy : m'.eviction_policy ≡ m.eviction_policy

pub Evicts-SameSetup :
    {size_mb : ℤ} {m m' : MemorySimulator} {ids : List Text}
    → Evicts size_mb m ids m'
    → SameSetup m m'
Evicts-SameSetup (stop m) = record { total_mb = refl; eviction_policy = refl }
Evicts-SameSetup (round k b r run) =
    let s = Evicts-SameSetup run in
    record { total_mb = s.total_mb; eviction_policy = s.eviction_policy }

pub forget-SameSetup : (k : Text) (m : MemorySimulator) → SameSetup m (forget k m)
unfolding forget pop_block
forget-SameSetup k m = record { total_mb = ground arith; eviction_policy = ground arith }

pub allocate-SameSetup :
    (b : KvBlock) (m : MemorySimulator) → IsValid m → SameSetup m (allocate b m).1
allocate-SameSetup b m v = elim (allocate-Allocated b m v.unique) [
  | too_big big r ↦ rw r (record { total_mb = refl; eviction_policy = refl })
  | stuck ids last small run end r ↦
      (let s = Evicts-SameSetup run in
        let f = forget-SameSetup b.kv_cache_id m in
        rw r (record {
          total_mb = s.total_mb ∙ f.total_mb;
          eviction_policy = s.eviction_policy ∙ f.eviction_policy;
        }))
  | made ids last small run enough r ↦
      (let s = Evicts-SameSetup run in
        let f = forget-SameSetup b.kv_cache_id m in
        rw r (record {
          total_mb = s.total_mb ∙ f.total_mb;
          eviction_policy = s.eviction_policy ∙ f.eviction_policy;
        }))
]

pub allocate_too_big :
    (b : KvBlock) (m : MemorySimulator)
    → ltb_ℤ m.total_mb b.size_mb ≡ true
    → allocate b m ≡ (raise out_of_memory, count_oom m)
unfolding allocate
allocate_too_big b m e = rw (allocate, e) refl

-- A successful call on a valid pool leaves at most `total_mb` in use, whatever was there before,
-- and keeps `total_mb`.
pub allocate_ok-fits :
    (b : KvBlock) (m : MemorySimulator) {ids : List Text} {m' : MemorySimulator}
    → IsValid m
    → allocate b m ≡ (ok ids, m')
    → (m'.used_mb ≤ℤ m'.total_mb) × (m'.total_mb ≡ m.total_mb)
allocate_ok-fits b m {m' = m'} v e = elim (allocate-Allocated b m v.unique) [
  | too_big big r ↦ cc
  | stuck ids last small run end r ↦ cc
  | made ids last small run enough r ↦
      (let s = Evicts-SameSetup run in
        let f = forget-SameSetup b.kv_cache_id m in
        let same : m' ≡ stored b last = ap (λ x. x.1) (sym e ∙ r) in
        rw same (
          ltb_ℤ_false→le last.total_mb (last.used_mb +ℤ b.size_mb) enough,
          s.total_mb ∙ f.total_mb,
        ))
]

-- On a valid pool the call returns or raises `OutOfMemoryError`: no `pop` misses, and the loop
-- ends.
pub allocate_total :
    (b : KvBlock) (m : MemorySimulator)
    → IsValid m
    → ((ids : List Text) × ((allocate b m).0 ≡ ok ids)) ⊎ ((allocate b m).0 ≡ raise out_of_memory)
allocate_total b m v = elim (allocate-Allocated b m v.unique) [
  | too_big big r ↦ inr (ap (λ x. x.0) r)
  | stuck ids last small run end r ↦ inr (ap (λ x. x.0) r)
  | made ids last small run enough r ↦ inl (ids, ap (λ x. x.0) r)
]

-- A valid pool whose policy is not "none" takes every block that is no larger than the pool.
pub allocate_evicting :
    (b : KvBlock) (m : MemorySimulator)
    → IsValid m
    → m.eviction_policy ≢ codes "none"
    → b.size_mb ≤ℤ m.total_mb
    → (ids : List Text) × ((allocate b m).0 ≡ ok ids)
unfolding total
allocate_evicting b m v on small = elim (allocate-Allocated b m v.unique) [
  | too_big big r ↦ absurd (ground arith)
  | stuck ids last fits run end r ↦
      (let s = Evicts-SameSetup run in
        let f = forget-SameSetup b.kv_cache_id m in
        let v' = Evicts-IsValid run (forget-IsValid b.kv_cache_id m v) in
        let still_on = λ (h : last.eviction_policy ≡ codes "none").
          on (sym (s.eviction_policy ∙ f.eviction_policy) ∙ h) in
        let empty = pick_victim-none last still_on end.no_victim in
        let unused : last.used_mb ≡ pos 0 = v'.accounted ∙ ap (total size_of) empty in
        let full = ltb_ℤ→lt last.total_mb (last.used_mb +ℤ b.size_mb) end.full in
        let over : m.total_mb <ℤ b.size_mb =
          rw (unused, zero-+ℤ b.size_mb, s.total_mb, f.total_mb) at full in
        absurd (omega arith))
  | made ids last fits run enough r ↦ (ids, ap (λ x. x.0) r)
]

Evicts_none :
    {size_mb : ℤ} {m m' : MemorySimulator} {ids : List Text}
    → m.eviction_policy ≡ codes "none"
    → Evicts size_mb m ids m'
    → (ids ≡ []) × (m' ≡ m)
Evicts_none off (stop m) = (refl, refl)
Evicts_none off (round {m = m} k b r run) = cc (pick_victim_off m off, r.victim)

-- The call as one of two equations.
pub allocate_none_lem :
    (b : KvBlock) (m : MemorySimulator)
    → IsValid m
    → m.eviction_policy ≡ codes "none"
    → b.size_mb ≤ℤ m.total_mb
    → let m' = forget b.kv_cache_id m in
      allocate b m ≡ (
        if ltb_ℤ m.total_mb (m'.used_mb +ℤ b.size_mb)
        then (raise out_of_memory, count_oom m')
        else (ok [], stored b m'))
allocate_none_lem b m v off small = elim (allocate-Allocated b m v.unique) [
  | too_big big r ↦ absurd (ground arith)
  | stuck ids last fits run end r ↦
      (let f = forget-SameSetup b.kv_cache_id m in
        let (none_gone, same) = Evicts_none (f.eviction_policy ∙ off) run in
        let full = rw (same, f.total_mb) at (end.full) in rw (full, r, same) refl)
  | made ids last fits run enough r ↦
      (let f = forget-SameSetup b.kv_cache_id m in
        let (none_gone, same) = Evicts_none (f.eviction_policy ∙ off) run in
        let room = rw (same, f.total_mb) at enough in rw (room, r, same, none_gone) refl)
]

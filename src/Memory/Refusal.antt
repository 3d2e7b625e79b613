-- ===== src/Memory/Refusal.antt =====
-- A call of `allocate` on a pool that evicts nothing.
use mini_dynamo.Prelude.{
  ℤ, ◌+ℤ◌, ◌≤ℤ◌, ◌<ℤ◌, ltb_ℤ, ltb_ℤ→lt, ltb_ℤ_false→le, ◌≡◌, ◌⊎◌, refl, sym, ap, ◌∙◌, inl, inr, ite,
  none, some, [], Text, Text_discrete, codes, Bool-cases, Option-cases, arith,
}
use mini_dynamo.Dict.{get, remove}
use mini_dynamo.Dict.Laws.{get-put, remove_absent}
use mini_dynamo.Dict.Sums.{total}
use mini_dynamo.Memory.{
  KvBlock, MemorySimulator, ok, raise, out_of_memory, allocate, lookup, forget, pop_block,
}
use mini_dynamo.Memory.Loop.{count_oom}
use mini_dynamo.Memory.Outcomes.{stored}
use mini_dynamo.Memory.Accounting.{IsValid, size_of, forget-IsValid}
use mini_dynamo.Memory.Capacity.{allocate_none_lem}
use mini_dynamo.Memory.Contents.{get-forget}

-- The megabytes of the blocks of the other ids.
pub used_by_others : Text → MemorySimulator → ℤ
used_by_others k m = total size_of (remove Text_discrete k m.blocks)

blocks-forget :
    (k : Text) (m : MemorySimulator) → (forget k m).blocks ≡ remove Text_discrete k m.blocks
unfolding forget pop_block
blocks-forget k m = elim (Option-cases (get Text_discrete k m.blocks)) [
  | inl e ↦ rw (forget, e) (sym (remove_absent Text_discrete k m.blocks e))
  | inr (b, e) ↦ rw (forget, e) refl
]

used-forget :
    (k : Text) (m : MemorySimulator) → IsValid m → (forget k m).used_mb ≡ used_by_others k m
unfolding used_by_others
used-forget k m v = (forget-IsValid k m v).accounted ∙ ap (total size_of) (blocks-forget k m)

-- On a valid pool under "none" a call for a block that is no larger than the pool either finds room
-- for it beside the blocks of the other ids and stores it, or there is no such room and it raises.
-- It evicts nothing, and every other id shows what it showed before. When it raises, the block that
-- its own id had is gone all the same, and its megabytes are free.
pub allocate_without_eviction :
    (b : KvBlock) (m : MemorySimulator)
    → IsValid m
    → m.eviction_policy ≡ codes "none"
    → b.size_mb ≤ℤ m.total_mb
    → let others = used_by_others b.kv_cache_id m in
      let m' = (allocate b m).1 in
      ((others +ℤ b.size_mb ≤ℤ m.total_mb)
        × ((allocate b m).0 ≡ ok [])
        × (m'.used_mb ≡ others +ℤ b.size_mb)
        × ((j : Text) → lookup j m' ≡ ite (Text_discrete b.kv_cache_id j) (some b) (lookup j m)))
      ⊎ ((m.total_mb <ℤ others +ℤ b.size_mb)
          × ((allocate b m).0 ≡ raise out_of_memory)
          × (m'.used_mb ≡ others)
          × ((j : Text) → lookup j m' ≡ ite (Text_discrete b.kv_cache_id j) none (lookup j m)))
unfolding lookup
allocate_without_eviction b m v off small =
    let k = b.kv_cache_id in
    let used = used-forget k m v in
    let call = allocate_none_lem b m v off small in
    elim (Bool-cases (ltb_ℤ m.total_mb ((forget k m).used_mb +ℤ b.size_mb))) [
      | inr e ↦
          (let r : allocate b m ≡ (ok [], stored b (forget k m)) = rw e at call in
            inl (
              rw (← used) (ltb_ℤ_false→le m.total_mb ((forget k m).used_mb +ℤ b.size_mb) e),
              ap (λ p. p.0) r,
              ap (λ p. p.1.used_mb) r ∙ ap (λ x. x +ℤ b.size_mb) used,
              λ j.
                  ap (λ p. get Text_discrete j p.1.blocks) r
                  ∙ ground
                      (arith, get-put Text_discrete k j b (forget k m).blocks, get-forget k j m),
            ))
      | inl e ↦
          (let r : allocate b m ≡ (raise out_of_memory, count_oom (forget k m)) = rw e at call in
            inr (
              rw (← used) (ltb_ℤ→lt m.total_mb ((forget k m).used_mb +ℤ b.size_mb) e),
              ap (λ p. p.0) r,
              ap (λ p. p.1.used_mb) r ∙ used,
              λ j. ap (λ p. get Text_discrete j p.1.blocks) r ∙ get-forget k j m,
            ))
    ]

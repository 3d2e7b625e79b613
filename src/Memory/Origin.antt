-- ===== src/Memory/Origin.antt =====
-- Where the blocks of a pool come from: what an operation leaves was there, or is the block stored.
use mini_dynamo.Prelude.{
  ◌≡◌, ◌≢◌, ◌⊎◌, sym, ap, ◌∙◌, inl, inr, ite, none, some, List, Text, Text_discrete, arith, ℕ,
  Option-cases,
}
use mini_dynamo.Dict.{get, IsUnique}
use mini_dynamo.Dict.Laws.{get-remove, get-put}
use mini_dynamo.Memory.{KvBlock, MemorySimulator, ok, allocate, touch, free, pop_block}
use mini_dynamo.Memory.Contents.{get-Evicts, get-forget}
use mini_dynamo.Memory.Outcomes.{too_big, stuck, made, allocate-Allocated}

-- A block of the pool after `allocate`.
pub allocate-origin :
    (b : KvBlock) (m : MemorySimulator) (j : Text) (v : KvBlock)
    → IsUnique Text_discrete m.blocks
    → get Text_discrete j (allocate b m).1.blocks ≡ some v
    → ((ids : List Text) × ((allocate b m).0 ≡ ok ids) × (b.kv_cache_id ≡ j))
      ⊎ (get Text_discrete j m.blocks ≡ some v)
allocate-origin b m j v u e = elim (allocate-Allocated b m u) [
  | too_big big r ↦ inr (rw r at e)
  | stuck ids last small run end r ↦ inr (
      ground (
        arith,
        get-Evicts j run,
        get-forget b.kv_cache_id j m,
        ap (λ x. get Text_discrete j x.1.blocks) r,
        e,
      ))
  | made ids last small run enough r ↦ elim (Text_discrete b.kv_cache_id j) [
    | yes same ↦ inl (ids, ap (λ x. x.0) r, same)
    | no other ↦ inr (
        ground (
          arith,
          get-put Text_discrete b.kv_cache_id j b last.blocks,
          get-Evicts j run,
          get-forget b.kv_cache_id j m,
          ap (λ x. get Text_discrete j x.1.blocks) r,
          e,
        ))
  ]
]

pub touch-origin :
    (k : Text) (now : ℕ) (m : MemorySimulator) (j : Text) (v : KvBlock)
    → get Text_discrete j (touch k now m).1.blocks ≡ some v
    → (w : KvBlock) × (get Text_discrete j m.blocks ≡ some w)
unfolding touch
touch-origin k now m j v e = elim (Option-cases (get Text_discrete k m.blocks)) [
  | inl absent ↦ (v, ground (arith, absent, e))
  | inr (b, present) ↦ elim (Text_discrete k j) [
    | yes same ↦ (b, ap (λ i. get Text_discrete i m.blocks) (sym same) ∙ present)
    | no other ↦ (
      v,
      ground
          (arith, present, e, get-put Text_discrete k j (record b { last_access = now }) m.blocks),
    )
  ]
]

pub free-origin :
    (k : Text) (m : MemorySimulator) (j : Text) (v : KvBlock)
    → get Text_discrete j (free k m).1.blocks ≡ some v
    → (k ≢ j) × (get Text_discrete j m.blocks ≡ some v)
unfolding free pop_block
free-origin k m j v e = elim (Option-cases (get Text_discrete k m.blocks)) [
  | inl absent ↦
      (let same : get Text_discrete j m.blocks ≡ some v = ground (arith, absent, e) in
        ((λ q. cc (ap (λ i. get Text_discrete i m.blocks) q, absent, same)), same))
  | inr (b, present) ↦
      (let gone : ite (Text_discrete k j) none (get Text_discrete j m.blocks) ≡ some v =
          sym (get-remove Text_discrete k j m.blocks) ∙ ground (arith, present, e) in
        elim (Text_discrete k j) [
          | yes same ↦ absurd (ground (arith, gone, same))
          | no other ↦ (other, ground (arith, gone, other))
        ])
]

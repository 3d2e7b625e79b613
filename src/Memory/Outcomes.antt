-- ===== src/Memory/Outcomes.antt =====
-- Every way a call of `allocate` can go.
use mini_dynamo.Prelude.{
  ◌+ℤ◌, ltb_ℤ, suc, ◌+◌, ◌≡◌, ap, ◌∙◌, [], inl, inr, true, false, none, List, Text, Text_discrete,
  arith, length, Bool-cases,
}
use mini_dynamo.Dict.{get, put, IsUnique}
use mini_dynamo.Dict.Laws.{remove-IsUnique, get-remove}
use mini_dynamo.Memory.{
  KvBlock, MemorySimulator, Outcome, ok, raise, out_of_memory, forget, allocate, pop_block, insert,
  make_room,
}
use mini_dynamo.Memory.Loop.{Evicts, IsStuck, count_oom, make_room-Ran}

-- The pool after the new block is stored.
abbrev pub stored : KvBlock → MemorySimulator → MemorySimulator
stored b m = record m {
  blocks = put Text_discrete b.kv_cache_id b m.blocks;
  used_mb = m.used_mb +ℤ b.size_mb;
  allocations = m.allocations + 1;
}

-- A block that exceeds the pool is refused at once. Otherwise an old block under the same id is
-- dropped and the loop runs; then either there is room and the block is stored, or the loop is
-- stuck and the call raises.
pub data Allocated (b : KvBlock) (m : MemorySimulator) (r : Outcome × MemorySimulator)
    : Type 0 where
  too_big :
      ltb_ℤ m.total_mb b.size_mb ≡ true → r ≡ (raise out_of_memory, count_oom m) → Allocated b m r
  stuck :
      (ids : List Text) (last : MemorySimulator)
      → ltb_ℤ m.total_mb b.size_mb ≡ false
      → Evicts b.size_mb (forget b.kv_cache_id m) ids last
      → IsStuck b.size_mb last
      → r ≡ (raise out_of_memory, count_oom last)
      → Allocated b m r
  made :
      (ids : List Text) (last : MemorySimulator)
      → ltb_ℤ m.total_mb b.size_mb ≡ false
      → Evicts b.size_mb (forget b.kv_cache_id m) ids last
      → ltb_ℤ last.total_mb (last.used_mb +ℤ b.size_mb) ≡ false
      → r ≡ (ok ids, stored b last)
      → Allocated b m r

-- After `forget` the id is free, and the keys stay distinct.
pub forget-IsUnique :
    (k : Text) (m : MemorySimulator)
    → IsUnique Text_discrete m.blocks
    → IsUnique Text_discrete (forget k m).blocks
unfolding forget pop_block
forget-IsUnique k m u = ground (arith, remove-IsUnique Text_discrete k m.blocks u)

pub forget-absent :
    (k : Text) (m : MemorySimulator) → get Text_discrete k (forget k m).blocks ≡ none
unfolding forget pop_block
forget-absent k m = ground (arith, get-remove Text_discrete k k m.blocks)

allocate_big :
    (b : KvBlock) (m : MemorySimulator)
    → ltb_ℤ m.total_mb b.size_mb ≡ true
    → allocate b m ≡ (raise out_of_memory, count_oom m)
unfolding allocate
allocate_big b m h = rw h

total-forget : (k : Text) (m : MemorySimulator) → (forget k m).total_mb ≡ m.total_mb
unfolding forget pop_block
total-forget k m = ground arith

abbrev room : KvBlock → MemorySimulator → Outcome × MemorySimulator
room b m =
    make_room (suc (length (forget b.kv_cache_id m).blocks)) b.size_mb [] (forget b.kv_cache_id m)

allocate_rest :
    (b : KvBlock) (m : MemorySimulator)
    → ltb_ℤ m.total_mb b.size_mb ≡ false
    → allocate b m ≡ insert b (room b m)
unfolding allocate
allocate_rest b m h = rw h

-- On a pool with distinct ids a call does one of three things: it refuses a block that exceeds the
-- pool; or it drops the id's old block and evicts victims of the policy while there is no room,
-- and then stores the block; or it is stuck there without a victim and raises.
pub allocate-Allocated :
    (b : KvBlock) (m : MemorySimulator)
    → IsUnique Text_discrete m.blocks
    → Allocated b m (allocate b m)
unfolding insert
allocate-Allocated b m u = elim (Bool-cases (ltb_ℤ m.total_mb b.size_mb)) [
  | inl big ↦ too_big big (allocate_big b m big)
  | inr fits ↦
      (let m' = forget b.kv_cache_id m in
        let ran =
          make_room-Ran (suc (length m'.blocks)) b.size_mb [] m' (forget-IsUnique b.kv_cache_id m u)
            (omega arith) in
        elim ran.ends [
          | inl (enough, e) ↦
              made ran.ids ran.last fits ran.run enough (allocate_rest b m fits ∙ ap (insert b) e)
          | inr (end, e) ↦
              stuck ran.ids ran.last fits ran.run end (allocate_rest b m fits ∙ ap (insert b) e)
        ])
]

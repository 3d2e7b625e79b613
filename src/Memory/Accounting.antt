-- ===== src/Memory/Accounting.antt =====
-- The pool's account: distinct ids, each block under its own id, and `_used_mb` the sum of the
-- sizes.
use mini_dynamo.Prelude.{
  ℤ, ◌-ℤ◌, ◌≡◌, refl, sym, ◌∙◌, inl, inr, Option-cases, none, some, List, Text, ℕ, Text_discrete,
  arith, All, +ℤ_sub_self, +ℤ_comm,
}
use mini_dynamo.Dict.{get, remove, IsUnique}
use mini_dynamo.Dict.Laws.{remove-IsUnique, put-IsUnique, get-remove}
use mini_dynamo.Dict.Entries.{All-remove, All-put, All-get}
use mini_dynamo.Dict.Sums.{total, total-remove, total-put_absent, total-put_same}
use mini_dynamo.Memory.{KvBlock, MemorySimulator, init, allocate, touch, free, forget, pop_block}
use mini_dynamo.Memory.Loop.{Evicts, stop, round}
use mini_dynamo.Memory.Outcomes.{too_big, stuck, made, stored, allocate-Allocated, forget-absent}

abbrev pub size_of : KvBlock → ℤ
size_of b = b.size_mb

pub record IsValid (m : MemorySimulator) : Type 0 where
  pub unique : IsUnique Text_discrete m.blocks
  pub keyed : All (λ e. e.1.kv_cache_id ≡ e.0) m.blocks
  pub accounted : m.used_mb ≡ total size_of m.blocks

pub drop-IsValid :
    (k : Text) (b : KvBlock) (m : MemorySimulator)
    → get Text_discrete k m.blocks ≡ some b
    → IsValid m
    → IsValid
        (record m { blocks = remove Text_discrete k m.blocks; used_mb = m.used_mb -ℤ b.size_mb })
drop-IsValid k b m e v = record {
  unique = remove-IsUnique Text_discrete k m.blocks v.unique;
  keyed = All-remove Text_discrete _ k m.blocks v.keyed;
  accounted =
      rw (v.accounted, total-remove Text_discrete size_of k m.blocks b v.unique e)
        (+ℤ_sub_self b.size_mb _);
}

pub forget-IsValid : (k : Text) (m : MemorySimulator) → IsValid m → IsValid (forget k m)
unfolding forget pop_block
forget-IsValid k m v = elim (Option-cases (get Text_discrete k m.blocks)) [
  | inl e ↦ rw (e, forget) v
  | inr (b, e) ↦ rw (e, forget) (drop-IsValid k b m e v)
]

pub Evicts-IsValid :
    {size_mb : ℤ} {m m' : MemorySimulator} {ids : List Text}
    → Evicts size_mb m ids m'
    → IsValid m
    → IsValid m'
Evicts-IsValid (stop m) v = v
Evicts-IsValid (round {m = m} k b r run) v =
    let v' = drop-IsValid k b m r.found v in
    Evicts-IsValid run (record { unique = v'.unique; keyed = v'.keyed; accounted = v'.accounted })

pub Evicts-absent :
    {size_mb : ℤ} {m m' : MemorySimulator} {ids : List Text} (j : Text)
    → Evicts size_mb m ids m'
    → get Text_discrete j m.blocks ≡ none
    → get Text_discrete j m'.blocks ≡ none
Evicts-absent j (stop m) e = e
Evicts-absent j (round {m = m} k b r run) e =
    Evicts-absent j run (ground (arith, get-remove Text_discrete k j m.blocks))

pub stored-IsValid :
    (b : KvBlock) (m : MemorySimulator)
    → get Text_discrete b.kv_cache_id m.blocks ≡ none
    → IsValid m
    → IsValid (stored b m)
stored-IsValid b m absent v = record {
  unique = put-IsUnique Text_discrete b.kv_cache_id b m.blocks v.unique;
  keyed = All-put Text_discrete _ b.kv_cache_id b m.blocks refl v.keyed;
  accounted =
      rw (v.accounted, total-put_absent Text_discrete size_of b.kv_cache_id m.blocks b absent)
        (+ℤ_comm _ b.size_mb);
}

-- In a pool with distinct ids, each block under its own id and `used_mb` the sum of the blocks'
-- sizes, `allocate` keeps all three, whether it returns or raises.
pub allocate-IsValid : (b : KvBlock) (m : MemorySimulator) → IsValid m → IsValid (allocate b m).1
allocate-IsValid b m v = elim (allocate-Allocated b m v.unique) [
  | too_big big e ↦ rw e (record { unique = v.unique; keyed = v.keyed; accounted = v.accounted })
  | stuck ids last _ run end e ↦
      (let v' = Evicts-IsValid run (forget-IsValid b.kv_cache_id m v) in
        rw e (record { unique = v'.unique; keyed = v'.keyed; accounted = v'.accounted }))
  | made ids last _ run enough e ↦ rw e (
      stored-IsValid b last (Evicts-absent b.kv_cache_id run (forget-absent b.kv_cache_id m))
        (Evicts-IsValid run (forget-IsValid b.kv_cache_id m v)))
]

-- `free` keeps the ids distinct, each block under its own id and `used_mb` the sum of the blocks'
-- sizes.
pub free-IsValid : (k : Text) (m : MemorySimulator) → IsValid m → IsValid (free k m).1
unfolding free
free-IsValid k m v = elim (Option-cases (get Text_discrete k m.blocks)) [
  | inl e ↦ rw (e, free) v
  | inr (b, e) ↦ rw (e, free) (drop-IsValid k b m e v)
]

-- `touch` keeps the ids distinct, each block under its own id and `used_mb` the sum of the blocks'
-- sizes.
pub touch-IsValid :
    (k : Text) (now : ℕ) (m : MemorySimulator) → IsValid m → IsValid (touch k now m).1
unfolding touch
touch-IsValid k now m v = elim (Option-cases (get Text_discrete k m.blocks)) [
  | inl e ↦ rw (e, touch) v
  | inr (b, e) ↦
      rw (e, touch)
        (record {
          unique = put-IsUnique Text_discrete k _ m.blocks v.unique;
          keyed =
              All-put Text_discrete _ k _ m.blocks
                (All-get Text_discrete (λ x. x.1.kv_cache_id ≡ x.0) k b m.blocks v.keyed e) v.keyed;
          accounted =
              v.accounted ∙ sym (total-put_same Text_discrete size_of k m.blocks b _ e refl);
        })
]

pub init-IsValid : (total_mb : ℤ) (policy : Text) → IsValid (init total_mb policy)
unfolding init total
init-IsValid total_mb policy = record { unique = tt; keyed = tt; accounted = refl }

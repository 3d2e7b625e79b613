-- ===== src/Memory/Bounds.antt =====
-- The pool stays within its size when every block asked for has a size of at least zero.
use mini_dynamo.Prelude.{
  ℤ, pos, ◌-ℤ◌, ◌≤ℤ◌, ◌≡◌, inl, inr, Option-cases, [], ◌∷◌, some, List, Text, ℕ, Text_discrete,
  arith, int_laws, All,
}
use mini_dynamo.Dict.{Dict, get, remove}
use mini_dynamo.Dict.Sums.{total}
use mini_dynamo.Dict.Entries.{All-remove, All-put, All-get}
use mini_dynamo.Memory.{KvBlock, MemorySimulator, allocate, forget, pop_block, touch, free}
use mini_dynamo.Memory.Loop.{Evicts, stop, round}
use mini_dynamo.Memory.Outcomes.{too_big, stuck, made, allocate-Allocated}
use mini_dynamo.Memory.Accounting.{IsValid, size_of, drop-IsValid, allocate-IsValid, touch-IsValid}
use mini_dynamo.Memory.Capacity.{allocate_ok-fits}

-- The sizes are not negative, and their sum is within the pool.
pub record IsBounded (m : MemorySimulator) : Type 0 where
  pub valid : IsValid m
  pub sizes : All (λ e. pos 0 ≤ℤ e.1.size_mb) m.blocks
  pub within : m.used_mb ≤ℤ m.total_mb

total_nonneg :
    (d : Dict Text KvBlock) → All (λ e. pos 0 ≤ℤ e.1.size_mb) d → pos 0 ≤ℤ total size_of d
unfolding total
total_nonneg [] h = omega arith
total_nonneg (e ∷ d) h = omega (int_laws, total_nonneg d h.1, h.0)

pub IsBounded_nonneg : {m : MemorySimulator} → IsBounded m → pos 0 ≤ℤ m.used_mb
IsBounded_nonneg {m} w = rw w.valid.accounted (total_nonneg m.blocks w.sizes)

drop-IsBounded :
    (k : Text) (b : KvBlock) (m : MemorySimulator)
    → get Text_discrete k m.blocks ≡ some b
    → IsBounded m
    → IsBounded
        (record m { blocks = remove Text_discrete k m.blocks; used_mb = m.used_mb -ℤ b.size_mb })
drop-IsBounded k b m e w = record {
  valid = drop-IsValid k b m e w.valid;
  sizes = All-remove Text_discrete _ k m.blocks w.sizes;
  within =
      (let size = All-get Text_discrete (λ x. pos 0 ≤ℤ x.1.size_mb) k b m.blocks w.sizes e in
        let before = w.within in omega (int_laws, size, before));
}

forget-IsBounded : (k : Text) (m : MemorySimulator) → IsBounded m → IsBounded (forget k m)
unfolding forget pop_block
forget-IsBounded k m w = elim (Option-cases (get Text_discrete k m.blocks)) [
  | inl e ↦ rw (e, forget) w
  | inr (b, e) ↦ rw (e, forget) (drop-IsBounded k b m e w)
]

Evicts-IsBounded :
    {size_mb : ℤ} {m m' : MemorySimulator} {ids : List Text}
    → Evicts size_mb m ids m'
    → IsBounded m
    → IsBounded m'
Evicts-IsBounded (stop m) w = w
Evicts-IsBounded (round {m = m} k b r run) w =
    let w' = drop-IsBounded k b m r.found w in
    let v' = w'.valid in
    Evicts-IsBounded run (record {
      valid = record { unique = v'.unique; keyed = v'.keyed; accounted = v'.accounted };
      sizes = w'.sizes;
      within = w'.within;
    })

-- In a valid pool whose blocks' sizes are at least zero and whose `used_mb` is at most `total_mb`,
-- `allocate` of a block with a size of at least zero keeps these bounds, whether it returns or
-- raises.
pub allocate-IsBounded :
    (b : KvBlock) (m : MemorySimulator)
    → pos 0 ≤ℤ b.size_mb
    → IsBounded m
    → IsBounded (allocate b m).1
allocate-IsBounded b m size w = elim (allocate-Allocated b m w.valid.unique) [
  | too_big big e ↦
      (let v = w.valid in
        rw e (record {
          valid = record { unique = v.unique; keyed = v.keyed; accounted = v.accounted };
          sizes = w.sizes;
          within = w.within;
        }))
  | stuck ids last small run end e ↦
      (let w' = Evicts-IsBounded run (forget-IsBounded b.kv_cache_id m w) in
        let v = w'.valid in
        rw e (record {
          valid = record { unique = v.unique; keyed = v.keyed; accounted = v.accounted };
          sizes = w'.sizes;
          within = w'.within;
        }))
  | made ids last small run enough e ↦
      (let w' = Evicts-IsBounded run (forget-IsBounded b.kv_cache_id m w) in
        record {
          valid = allocate-IsValid b m w.valid;
          sizes = rw e (All-put Text_discrete _ b.kv_cache_id b last.blocks size w'.sizes);
          within = rw e (allocate_ok-fits b m w.valid e).0;
        })
]

pub free-IsBounded : (k : Text) (m : MemorySimulator) → IsBounded m → IsBounded (free k m).1
unfolding free
free-IsBounded k m w = elim (Option-cases (get Text_discrete k m.blocks)) [
  | inl e ↦ rw (e, free) w
  | inr (b, e) ↦ rw (e, free) (drop-IsBounded k b m e w)
]

pub touch-IsBounded :
    (k : Text) (now : ℕ) (m : MemorySimulator) → IsBounded m → IsBounded (touch k now m).1
unfolding touch
touch-IsBounded k now m w = record {
  valid = touch-IsValid k now m w.valid;
  sizes = elim (Option-cases (get Text_discrete k m.blocks)) [
    | inl e ↦ rw (e, touch) w.sizes
    | inr (b, e) ↦
        rw (e, touch)
          (All-put Text_discrete _ k _ m.blocks
            (All-get Text_discrete (λ x. pos 0 ≤ℤ x.1.size_mb) k b m.blocks w.sizes e) w.sizes)
  ];
  within = ground arith;
}

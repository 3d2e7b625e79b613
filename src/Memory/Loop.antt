-- ===== src/Memory/Loop.antt =====
-- The eviction loop of `allocate`, as a relation between the pool at its start and at its end.
use mathlib.Core.List.{append-nil, append_assoc}
use mini_dynamo.Prelude.{
  ℤ, ◌+ℤ◌, ◌-ℤ◌, ltb_ℤ, ℕ, zero, suc, ◌+◌, ◌<◌, ◌≡◌, ◌⊎◌, inl, inr, true, false, none, some, List,
  [], ◌∷◌, ◌++◌, Text, Text_discrete, arith, length, Bool-cases, Option-cases,
}
use mini_dynamo.Dict.{get, remove, IsUnique}
use mini_dynamo.Dict.Laws.{length-remove, remove-IsUnique}
use mini_dynamo.Memory.{
  KvBlock, MemorySimulator, Outcome, ok, raise, out_of_memory, pick_victim, pop_block, make_room,
}
use mini_dynamo.Memory.Victim.{pick_victim-IsOldest}

-- The pool after a round that evicts the block `b` under the id `k`.
abbrev pub evict : Text → KvBlock → MemorySimulator → MemorySimulator
evict k b m = record m {
  blocks = remove Text_discrete k m.blocks;
  used_mb = m.used_mb -ℤ b.size_mb;
  evictions = m.evictions + 1;
}

abbrev pub count_oom : MemorySimulator → MemorySimulator
count_oom m = record m { oom_events = m.oom_events + 1 }

-- A pool that cannot take `size_mb` more.
abbrev pub IsFull : ℤ → MemorySimulator → Type 0
IsFull size_mb m = ltb_ℤ m.total_mb (m.used_mb +ℤ size_mb) ≡ true

-- One round: the pool is full, and the victim of the policy is there to be evicted.
pub record Round (size_mb : ℤ) (k : Text) (b : KvBlock) (m : MemorySimulator) : Type 0 where
  pub full : IsFull size_mb m
  pub victim : pick_victim m ≡ some k
  pub found : get Text_discrete k m.blocks ≡ some b

-- The runs of the loop: the ids it evicts, in order, and the pool at its end.
pub data Evicts (size_mb : ℤ) : MemorySimulator → List Text → MemorySimulator → Type 0 where
  stop : (m : MemorySimulator) → Evicts size_mb m [] m
  round :
      {m m' : MemorySimulator} {ks : List Text} (k : Text) (b : KvBlock)
      → Round size_mb k b m
      → Evicts size_mb (evict k b m) ks m'
      → Evicts size_mb m (k ∷ ks) m'

-- A pool in which the loop gives up.
pub record IsStuck (size_mb : ℤ) (m : MemorySimulator) : Type 0 where
  pub full : IsFull size_mb m
  pub no_victim : pick_victim m ≡ none

-- A run of the loop with the result `r`, and how it ends: with room, or with nothing to evict.
pub record Ran (size_mb : ℤ) (evicted : List Text) (m : MemorySimulator)
    (r : Outcome × MemorySimulator) : Type 0 where
  pub ids : List Text
  pub last : MemorySimulator
  pub run : Evicts size_mb m ids last
  pub ends :
      (ltb_ℤ last.total_mb (last.used_mb +ℤ size_mb) ≡ false) × (r ≡ (ok (evicted ++ ids), last))
      ⊎ IsStuck size_mb last × (r ≡ (raise out_of_memory, count_oom last))

module _ (fuel : ℕ) (size_mb : ℤ) (evicted : List Text) (m : MemorySimulator) where
  make_room-Round :
      (k : Text) (b : KvBlock)
      → Round size_mb k b m
      → make_room (suc fuel) size_mb evicted m
        ≡ make_room fuel size_mb (evicted ++ k ∷ []) (evict k b m)
  unfolding make_room pop_block
  make_room-Round k b r =
      rw (r.full, make_room) (rw (r.victim, make_room) (rw (r.found, make_room)))

  make_room_fits :
      ltb_ℤ m.total_mb (m.used_mb +ℤ size_mb) ≡ false
      → make_room (suc fuel) size_mb evicted m ≡ (ok (evicted ++ []), m)
  unfolding make_room
  make_room_fits h = rw (h, make_room) (simp append-nil)

  make_room_stuck :
      IsStuck size_mb m
      → make_room (suc fuel) size_mb evicted m ≡ (raise out_of_memory, count_oom m)
  unfolding make_room
  make_room_stuck h = rw (h.full, make_room) (rw (h.no_victim, make_room))

-- With more fuel than blocks the loop runs to its end; it neither misses a block nor runs dry.
pub make_room-Ran :
    (fuel : ℕ) (size_mb : ℤ) (evicted : List Text) (m : MemorySimulator)
    → IsUnique Text_discrete m.blocks
    → length m.blocks < fuel
    → Ran size_mb evicted m (make_room fuel size_mb evicted m)
make_room-Ran zero size_mb evicted m u h = absurd (omega arith)
make_room-Ran (suc fuel) size_mb evicted m u h =
    elim (Bool-cases (ltb_ℤ m.total_mb (m.used_mb +ℤ size_mb))) [
      | inr room ↦ record {
        ids = [];
        last = m;
        run = stop m;
        ends = inl (room, make_room_fits fuel size_mb evicted m room);
      }
      | inl full ↦ elim (Option-cases (pick_victim m)) [
        | inl off ↦
            (let stuck : IsStuck size_mb m = record { full = full; no_victim = off } in
              record {
                ids = [];
                last = m;
                run = stop m;
                ends = inr (stuck, make_room_stuck fuel size_mb evicted m stuck);
              })
        | inr (k, e) ↦
            (let (b, oldest) = pick_victim-IsOldest m k u e in
              let r : Round size_mb k b m = record {
                full = full;
                victim = e;
                found = oldest.found;
              } in
              let rest =
                make_room-Ran fuel size_mb (evicted ++ k ∷ []) (evict k b m)
                  (remove-IsUnique Text_discrete k m.blocks u)
                  (omega (arith, length-remove Text_discrete k m.blocks b u oldest.found)) in
              record {
                ids = k ∷ rest.ids;
                last = rest.last;
                run = round k b r rest.run;
                ends =
                    rw
                      (
                        make_room-Round fuel size_mb evicted m k b r,
                        ← append_assoc evicted (k ∷ []) rest.ids,
                      )
                      rest.ends;
              })
      ]
    ]

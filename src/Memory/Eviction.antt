-- ===== src/Memory/Eviction.antt =====
-- The order of eviction: what goes is never younger, by the policy's reading, than what stays.
use mini_dynamo.Prelude.{
  ℤ, ◌+ℤ◌, ltb_ℤ, ltb, ◌≡◌, ◌≤◌, refl, sym, ◌∙◌, ap, subst, [], some, List, Text, Text_discrete,
  false, arith, All, All-map, ltb_false→le,
}
use mini_dynamo.Prelude.Minimum.{IsFirstMin-least}
use mini_dynamo.Dict.{get}
use mini_dynamo.Dict.Laws.{get-remove}
use mini_dynamo.Dict.Entries.{All-remove}
use mini_dynamo.Memory.{KvBlock, MemorySimulator, ok, allocate, forget}
use mini_dynamo.Memory.Victim.{age_of, pick_victim-IsOldest, ltb-IsOrder}
use mini_dynamo.Memory.Loop.{Evicts, stop, round, evict}
use mini_dynamo.Memory.Outcomes.{too_big, stuck, made, stored, allocate-Allocated}
use mini_dynamo.Memory.Accounting.{IsValid, forget-IsValid, drop-IsValid}
use mini_dynamo.Memory.Capacity.{forget-SameSetup}

-- An id of the pool `m` whose block is at least as old as every block of the pool `last`.
pub record IsStale (m last : MemorySimulator) (k : Text) : Type 0 where
  pub block : KvBlock
  pub found : get Text_discrete k m.blocks ≡ some block
  pub oldest : All (λ e. age_of m block ≤ age_of m e.1) last.blocks

pub Evicts-All :
    (P : Text × KvBlock → Type 0) {size_mb : ℤ} {m m' : MemorySimulator} {ids : List Text}
    → Evicts size_mb m ids m'
    → All P m.blocks
    → All P m'.blocks
Evicts-All P (stop m) h = h
Evicts-All P (round {m = m} k b r run) h =
    Evicts-All P run (All-remove Text_discrete P k m.blocks h)

IsStale-evict :
    (k : Text) (b : KvBlock) (m last : MemorySimulator) (j : Text)
    → IsStale (evict k b m) last j
    → IsStale m last j
unfolding age_of
IsStale-evict k b m last j s = record {
  block = s.block;
  found = ground (arith, get-remove Text_discrete k j m.blocks, s.found);
  oldest = s.oldest;
}

Evicts-IsStale :
    {size_mb : ℤ} {m m' : MemorySimulator} {ids : List Text}
    → Evicts size_mb m ids m'
    → IsValid m
    → All (IsStale m m') ids
unfolding age_of
Evicts-IsStale (stop m) v = tt
Evicts-IsStale {m' = m'} (round {m = m} {ks = ks} k b r run) v =
    let (b', oldest) = pick_victim-IsOldest m k v.unique r.victim in
    let v' = drop-IsValid k b m r.found v in
    let least =
      All-map _ (λ e. age_of m b' ≤ age_of m e.1) m.blocks
        (λ e. ltb_false→le (age_of m e.1) (age_of m b'))
        (IsFirstMin-least ltb (λ (e : Text × KvBlock). age_of m e.1) ltb-IsOrder oldest.first) in
    let rest =
      Evicts-IsStale run
        (record { unique = v'.unique; keyed = v'.keyed; accounted = v'.accounted }) in
    (
      record {
        block = b';
        found = oldest.found;
        oldest = Evicts-All _ run (All-remove Text_discrete _ k m.blocks least);
      },
      All-map _ _ ks (λ j. IsStale-evict k b m m' j) rest,
    )

Evicts_room :
    {size_mb : ℤ} {m m' : MemorySimulator} {ids : List Text}
    → Evicts size_mb m ids m'
    → ltb_ℤ m.total_mb (m.used_mb +ℤ size_mb) ≡ false
    → ids ≡ []
Evicts_room (stop m) h = refl
Evicts_room (round k b r run) h = cc (r.full)

-- In a valid pool no block that a successful call evicts is younger than one of the blocks that
-- stay beside the new one, by the creation time under "fifo" and by the last access under the
-- other policies; and a call that finds room evicts nothing.
pub allocate_evicts_oldest :
    (b : KvBlock) (m : MemorySimulator) {ids : List Text} {m' : MemorySimulator}
    → IsValid m
    → allocate b m ≡ (ok ids, m')
    → (last : MemorySimulator) × All (IsStale (forget b.kv_cache_id m) last) ids
      × (m' ≡ stored b last)
      × (ltb_ℤ m.total_mb ((forget b.kv_cache_id m).used_mb +ℤ b.size_mb) ≡ false → ids ≡ [])
allocate_evicts_oldest b m {ids = ids'} {m' = m'} v e = elim (allocate-Allocated b m v.unique) [
  | too_big big r ↦ cc
  | stuck ids last small run end r ↦ cc
  | made ids last small run enough r ↦
      (let same : m' ≡ stored b last = ap (λ x. x.1) (sym e ∙ r) in
        let same_ids : ids' ≡ ids = cc in
        (
          last,
          rw same_ids (Evicts-IsStale run (forget-IsValid b.kv_cache_id m v)),
          same,
          λ room.
              same_ids
              ∙ Evicts_room run (
                  subst (λ t. ltb_ℤ t ((forget b.kv_cache_id m).used_mb +ℤ b.size_mb) ≡ false)
                    (sym (forget-SameSetup b.kv_cache_id m).total_mb) room),
        ))
]

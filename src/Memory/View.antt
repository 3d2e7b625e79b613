-- ===== src/Memory/View.antt =====
-- The queue that a pool stands for under the default policy, and the eviction loop on it.
use mathlib.Core.Option
use mini_dynamo.Prelude.{
  ℤ, ◌+ℤ◌, ltb_ℤ, ℕ, ◌≡◌, ◌≢◌, refl, sym, ap, subst, ◌∙◌, false, some, List, [], ◌∷◌, Text,
  Text_discrete, codes, if_neg, arith,
}
use mini_dynamo.Dict.{Dict, get, remove, IsUnique}
use mini_dynamo.Dict.Laws.{remove_absent}
use mini_dynamo.Dict.Aging.{
  by_age, first_min?-head, get-by_age, remove-by_age, total-by_age, by_age-IsUnique, head,
}
use mini_dynamo.Dict.Values.{map_values, total-map_values, remove-map_values, get-map_values}
use mini_dynamo.Memory.{KvBlock, MemorySimulator, oldest_by, pick_victim, pop_block, forget}
use mini_dynamo.Memory.Loop.{Evicts, stop, round, evict}
use mini_dynamo.Memory.Accounting.{IsValid, size_of, drop-IsValid}
use mini_dynamo.Memory.Queue.{Queue, used, shed}

abbrev pub age : KvBlock → ℕ
age b = b.last_access

-- The policy is neither "none" nor "fifo".
pub record IsLru (m : MemorySimulator) : Type 0 where
  pub evicting : m.eviction_policy ≢ codes "none"
  pub by_use : m.eviction_policy ≢ codes "fifo"

-- The queue that the pool stands for.
unfoldable pub view : MemorySimulator → Queue
view m = map_values size_of (by_age age m.blocks)

used-view : (m : MemorySimulator) → IsValid m → used (view m) ≡ m.used_mb
unfolding view
used-view m v =
    total-map_values size_of (λ n. n) (by_age age m.blocks)
    ∙ (total-by_age age size_of m.blocks ∙ sym v.accounted)

pub view-remove :
    (k : Text) (m m' : MemorySimulator)
    → m'.blocks ≡ remove Text_discrete k m.blocks
    → view m' ≡ remove Text_discrete k (view m)
unfolding view
view-remove k m m' e =
    ap (λ d. map_values size_of (by_age age d)) e
    ∙ (ap (map_values size_of) (sym (remove-by_age Text_discrete age k m.blocks))
        ∙ sym (remove-map_values Text_discrete size_of k (by_age age m.blocks)))

pub get-view :
    (k : Text) (m : MemorySimulator)
    → IsValid m
    → get Text_discrete k (view m) ≡ Option.map size_of (get Text_discrete k m.blocks)
unfolding view
get-view k m v =
    get-map_values Text_discrete size_of k (by_age age m.blocks)
    ∙ ap (Option.map size_of) (get-by_age Text_discrete age k m.blocks v.unique)

pub forget_lem :
    (k : Text) (m : MemorySimulator) → (forget k m).blocks ≡ remove Text_discrete k m.blocks
unfolding forget pop_block
forget_lem k m = ground (arith, remove_absent Text_discrete k m.blocks)

pub view-forget :
    (k : Text) (m : MemorySimulator) → view (forget k m) ≡ remove Text_discrete k (view m)
unfolding forget
view-forget k m = view-remove k m (forget k m) (forget_lem k m)

-- The entry that the search finds is the front, and removing it leaves the rest.
front :
    (k : Text) (b : KvBlock) (d : Dict Text KvBlock)
    → IsUnique Text_discrete d
    → oldest_by age d ≡ some k
    → get Text_discrete k d ≡ some b
    → by_age age d ≡ (k, b) ∷ by_age age (remove Text_discrete k d)
unfolding oldest_by get remove
front k b d u e found = sorted (by_age age d) refl
  where
    sorted :
        (q : Dict Text KvBlock)
        → by_age age d ≡ q
        → by_age age d ≡ (k, b) ∷ by_age age (remove Text_discrete k d)
    sorted [] s = cc (ap (Option.map (λ x. x.0)) (first_min?-head age d ∙ ap (head age) s))
    sorted ((j, c) ∷ q) s =
        (let hit : some j ≡ some k =
            sym (ap (Option.map (λ x. x.0)) (first_min?-head age d ∙ ap (head age) s)) ∙ e in
          let same : j ≡ k = cc in
          let shown =
            sym (ap (get Text_discrete k) s) ∙ (get-by_age Text_discrete age k d u ∙ found) in
          let value : c ≡ b = ground (arith, shown, same) in
          let unique = subst (IsUnique Text_discrete) s (by_age-IsUnique Text_discrete age d u) in
          let rest : by_age age (remove Text_discrete k d) ≡ q =
            sym (remove-by_age Text_discrete age k d)
            ∙ (ap (remove Text_discrete k) s
                ∙ ground (arith, same, remove_absent Text_discrete k q, unique.0)) in
          rw (s, same, value, rest) refl)

by_use :
    (k : Text) (m : MemorySimulator)
    → IsLru m
    → pick_victim m ≡ some k
    → oldest_by age m.blocks ≡ some k
unfolding pick_victim
by_use k m lru e =
    sym (if_neg (Text_discrete m.eviction_policy (codes "fifo")) lru.by_use _ _)
    ∙ (sym (if_neg (Text_discrete m.eviction_policy (codes "none")) lru.evicting _ _) ∙ e)

-- The victim is the front of the queue.
view-victim :
    (k : Text) (b : KvBlock) (m : MemorySimulator)
    → IsLru m
    → IsValid m
    → pick_victim m ≡ some k
    → get Text_discrete k m.blocks ≡ some b
    → view m ≡ (k, b.size_mb) ∷ view (evict k b m)
unfolding view map_values
view-victim k b m lru v e found =
    ap (map_values size_of) (front k b m.blocks v.unique (by_use k m lru e) found)

pub Evicts-shed :
    {size_mb : ℤ} {m last : MemorySimulator} {ids : List Text}
    → Evicts size_mb m ids last
    → IsLru m
    → IsValid m
    → ltb_ℤ last.total_mb (last.used_mb +ℤ size_mb) ≡ false
    → shed m.total_mb size_mb (view m) ≡ (ids, view last)
unfolding shed
Evicts-shed {size_mb} (stop m) lru v room = stays (view m) (used-view m v)
  where
    stays : (q : Queue) → used q ≡ m.used_mb → shed m.total_mb size_mb q ≡ ([], q)
    stays [] e = refl
    stays (x ∷ q) e = rw (e, room) refl
Evicts-shed {size_mb} (round {m = m} k b r run) lru v room =
    let v' = drop-IsValid k b m r.found v in
    let v'' : IsValid (evict k b m) = record {
      unique = v'.unique;
      keyed = v'.keyed;
      accounted = v'.accounted;
    } in
    let lru' : IsLru (evict k b m) = record { evicting = lru.evicting; by_use = lru.by_use } in
    let split = view-victim k b m lru v r.victim r.found in
    let full =
      ap (λ u. ltb_ℤ m.total_mb (u +ℤ size_mb)) (ap used (sym split) ∙ used-view m v) ∙ r.full in
    ap (shed m.total_mb size_mb) split
    ∙ rw full (ap (λ p. (k ∷ p.0, p.1)) (Evicts-shed run lru' v'' room))

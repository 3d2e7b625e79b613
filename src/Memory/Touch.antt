-- ===== src/Memory/Touch.antt =====
-- What `touch` changes for the choice of a victim.
use mathlib.Core.Option
use mini_dynamo.Prelude.{
  ltb, ◌≡◌, ◌≢◌, ℕ, ◌<◌, refl, sym, ◌∙◌, ap, inl, inr, [], ◌∷◌, none, some, map, Text,
  Text_discrete, codes, arith, Option-cases, false,
}
use mini_dynamo.Prelude.Minimum.{first_min, first_min?, IsFirstMin-least}
use mini_dynamo.Dict.{Dict, get, put}
use mini_dynamo.Dict.Laws.{get-put}
use mini_dynamo.Dict.Laws.{put-IsUnique}
use mini_dynamo.Dict.Entries.{All-get}
use mini_dynamo.Memory.{KvBlock, MemorySimulator, oldest_by, pick_victim, touch, lookup}
use mini_dynamo.Memory.Victim.{age_of, pick_victim-IsOldest, ltb-IsOrder}
use mini_dynamo.Memory.Accounting.{IsValid}

abbrev readings : (KvBlock → ℕ) → Dict Text KvBlock → Dict Text ℕ
readings age = map (λ e. (e.0, age e.1))

-- The search sees a block's id and its reading only.
first_min-map :
    (age : KvBlock → ℕ) (x : Text × KvBlock) (d : Dict Text KvBlock)
    → (let y = first_min ltb (λ (e : Text × KvBlock). age e.1) x d in (y.0, age y.1))
      ≡ first_min ltb (λ (e : Text × ℕ). e.1) (x.0, age x.1) (readings age d)
unfolding first_min
first_min-map age x [] = refl
first_min-map age x (y ∷ d) = ground (arith, first_min-map age x d, first_min-map age y d)

oldest_by-map :
    (age : KvBlock → ℕ) (d : Dict Text KvBlock)
    → oldest_by age d
      ≡ Option.map (λ e. e.0) (first_min? ltb (λ (e : Text × ℕ). e.1) (readings age d))
unfolding oldest_by
oldest_by-map age [] = refl
oldest_by-map age (x ∷ d) = ap (λ y. some y.0) (first_min-map age x d)

map-put_same :
    (age : KvBlock → ℕ) (k : Text) (b b' : KvBlock) (d : Dict Text KvBlock)
    → get Text_discrete k d ≡ some b
    → age b' ≡ age b
    → readings age (put Text_discrete k b' d) ≡ readings age d
unfolding get put
map-put_same age k b b' [] h e = cc
map-put_same age k b b' (x ∷ d) h e = ground (arith, map-put_same age k b b' d)

touch_present :
    (k : Text) (now : ℕ) (m : MemorySimulator) (b : KvBlock)
    → get Text_discrete k m.blocks ≡ some b
    → (touch k now m).1
      ≡ record m { blocks = put Text_discrete k (record b { last_access = now }) m.blocks }
unfolding touch
touch_present k now m b e = rw (e, touch)

touch_absent :
    (k : Text) (now : ℕ) (m : MemorySimulator)
    → get Text_discrete k m.blocks ≡ none
    → (touch k now m).1 ≡ m
unfolding touch
touch_absent k now m e = rw (e, touch)

pick_victim_fifo :
    (m : MemorySimulator)
    → m.eviction_policy ≡ codes "fifo"
    → pick_victim m ≡ oldest_by (λ b. b.created_at) m.blocks
unfolding pick_victim
pick_victim_fifo m fifo = ground arith

-- Under "fifo" a touch changes no choice: the victim is the one that it was.
pub pick_victim-touch_fifo :
    (k : Text) (now : ℕ) (m : MemorySimulator)
    → m.eviction_policy ≡ codes "fifo"
    → pick_victim (touch k now m).1 ≡ pick_victim m
pick_victim-touch_fifo k now m fifo = elim (Option-cases (get Text_discrete k m.blocks)) [
  | inl e ↦ ap pick_victim (touch_absent k now m e)
  | inr (b, e) ↦
      (let b' = record b { last_access = now } in
        let m' = record m { blocks = put Text_discrete k b' m.blocks } in
        let age : KvBlock → ℕ = λ x. x.created_at in
        let same =
          oldest_by-map age m'.blocks
          ∙ rw (map-put_same age k b b' m.blocks e refl) (sym (oldest_by-map age m.blocks)) in
        ap pick_victim (touch_present k now m b e)
        ∙ (pick_victim_fifo m' fifo ∙ (same ∙ sym (pick_victim_fifo m fifo))))
]

age_of_lru :
    (m : MemorySimulator) (b : KvBlock)
    → m.eviction_policy ≡ codes "lru"
    → age_of m b ≡ b.last_access
unfolding age_of
age_of_lru m b lru = ground arith

-- In a valid pool under "lru" a touched block is not the next victim while another block was last
-- used before the touch.
pub touch_protects :
    (k j : Text) (now : ℕ) (m : MemorySimulator) (b c : KvBlock)
    → IsValid m
    → m.eviction_policy ≡ codes "lru"
    → lookup k m ≡ some b
    → lookup j m ≡ some c
    → j ≢ k
    → c.last_access < now
    → pick_victim (touch k now m).1 ≢ some k
unfolding lookup
touch_protects k j now m b c v lru hk hj other older e =
    let b' = record b { last_access = now } in
    let m' = record m { blocks = put Text_discrete k b' m.blocks } in
    let e' : pick_victim m' ≡ some k = sym (ap pick_victim (touch_present k now m b hk)) ∙ e in
    let u = put-IsUnique Text_discrete k b' m.blocks v.unique in
    let (b'', oldest) = pick_victim-IsOldest m' k u e' in
    let least =
      IsFirstMin-least ltb (λ (x : Text × KvBlock). age_of m' x.1) ltb-IsOrder oldest.first in
    let at_j : get Text_discrete j m'.blocks ≡ some c =
      ground (arith, get-put Text_discrete k j b' m.blocks) in
    let at_k : b'' ≡ b' = ground (arith, get-put Text_discrete k k b' m.blocks, oldest.found) in
    let no_younger =
      All-get Text_discrete (λ x. ltb (age_of m' x.1) (age_of m' b'') ≡ false) j c m'.blocks least
        at_j in
    ground (arith, no_younger, at_k, age_of_lru m' c lru, age_of_lru m' b'' lru)

-- ===== src/Memory/Victim.antt =====
-- Which block each policy evicts.
use mini_dynamo.Prelude.{
  ltb, ℕ, ◌≡◌, sym, subst, ◌≢◌, inl, inr, ite, if_pos, if_neg, none, some, [], Text, Text_discrete,
  codes, arith, Option-cases,
}
use mini_dynamo.Prelude.Minimum.{
  IsOrder, IsFirstMin, first_min?, first_min?-IsFirstMin, first_min?-empty, IsFirstMin-All,
}
use mini_dynamo.Dict.{get, IsUnique}
use mini_dynamo.Dict.Entries.{Shows, All-Shows}
use mini_dynamo.Memory.{KvBlock, MemorySimulator, oldest_by, pick_victim}

-- The victim of a policy is an entry of the pool, and none is as old before it or older after it.
pub record IsOldest (age : KvBlock → ℕ) (k : Text) (b : KvBlock) (m : MemorySimulator)
    : Type 0 where
  pub found : get Text_discrete k m.blocks ≡ some b
  pub first : IsFirstMin ltb (λ (e : Text × KvBlock). age e.1) (k, b) m.blocks

pub ltb-IsOrder : IsOrder ltb
ltb-IsOrder = record {
  irreflexive = λ a. ground arith;
  asymmetric = λ a b h. ground arith;
  trans = λ a b c h k. ground arith;
}

oldest_by-IsOldest :
    (age : KvBlock → ℕ) (m : MemorySimulator) (k : Text)
    → IsUnique Text_discrete m.blocks
    → oldest_by age m.blocks ≡ some k
    → (b : KvBlock) × IsOldest age k b m
unfolding oldest_by
oldest_by-IsOldest age m k u e =
    elim (Option-cases (first_min? ltb (λ (x : Text × KvBlock). age x.1) m.blocks)) [
      | inl n ↦ cc n
      | inr (x, h) ↦
          (let first =
              first_min?-IsFirstMin ltb (λ (y : Text × KvBlock). age y.1) ltb-IsOrder m.blocks h in
            let same : x.0 ≡ k = ground arith in
            let shown =
              IsFirstMin-All ltb _ ltb-IsOrder (Shows Text_discrete m.blocks) first
                (All-Shows Text_discrete m.blocks u) in
            (x.1, rw (← same) (record { found = shown; first = first })))
    ]

-- The reading by which a policy other than "none" ranks the blocks.
unfoldable pub age_of : MemorySimulator → KvBlock → ℕ
age_of m =
    ite (Text_discrete m.eviction_policy (codes "fifo")) (λ b. b.created_at) (λ b. b.last_access)

pub pick_victim-IsOldest :
    (m : MemorySimulator) (k : Text)
    → IsUnique Text_discrete m.blocks
    → pick_victim m ≡ some k
    → (b : KvBlock) × IsOldest (age_of m) k b m
unfolding pick_victim age_of
pick_victim-IsOldest m k u e = elim (Text_discrete m.eviction_policy (codes "none")) [
  | yes off ↦ absurd (ground arith)
  | no on ↦ elim (Text_discrete m.eviction_policy (codes "fifo")) [
    | yes fifo ↦
        subst (λ age. (b : KvBlock) × IsOldest age k b m)
          (sym (
            if_pos (Text_discrete m.eviction_policy (codes "fifo")) fifo (λ b. b.created_at)
              (λ b. b.last_access)))
          (oldest_by-IsOldest _ m k u (ground arith))
    | no lru ↦
        subst (λ age. (b : KvBlock) × IsOldest age k b m)
          (sym (
            if_neg (Text_discrete m.eviction_policy (codes "fifo")) lru (λ b. b.created_at)
              (λ b. b.last_access)))
          (oldest_by-IsOldest _ m k u (ground arith))
  ]
]

pub pick_victim-none :
    (m : MemorySimulator) → m.eviction_policy ≢ codes "none" → pick_victim m ≡ none → m.blocks ≡ []
unfolding pick_victim oldest_by
pick_victim-none m on e = ground (
  arith,
  first_min?-empty ltb (λ (x : Text × KvBlock). x.1.created_at) ltb-IsOrder m.blocks,
  first_min?-empty ltb (λ (x : Text × KvBlock). x.1.last_access) ltb-IsOrder m.blocks,
)

pub pick_victim_off :
    (m : MemorySimulator) → m.eviction_policy ≡ codes "none" → pick_victim m ≡ none
unfolding pick_victim
pick_victim_off m off = ground arith

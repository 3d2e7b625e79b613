-- ===== src/Memory/Agreement.antt =====
-- A pool and the queue that it stands for, and an allocation on both.
use mini_dynamo.Prelude.{
  ℤ, ◌+ℤ◌, ltb_ℤ, ℕ, suc, ◌<◌, ◌≤◌, ◌≡◌, refl, sym, ap, subst, ◌∙◌, true, false, none, List, [],
  ◌∷◌, ◌++◌, Text, Text_discrete, arith, All, All-map, ltb_ℤ_false→le,
}
use mini_dynamo.Dict.{Dict, get, remove}
use mini_dynamo.Dict.Laws.{put_absent}
use mini_dynamo.Dict.Aging.{by_age, by_age-append}
use mini_dynamo.Dict.Values.{map_values, map_values-append}
use mini_dynamo.Memory.{
  KvBlock, MemorySimulator, out_of_memory, key_error, out_of_fuel, Outcome, ok, raise, forget,
  allocate, touch, free,
}
use mini_dynamo.Memory.Loop.{Evicts}
use mini_dynamo.Dict.Entries.{All-remove, All-put}
use mini_dynamo.Memory.Eviction.{Evicts-All}
use mini_dynamo.Memory.Outcomes.{too_big, stuck, made, stored, allocate-Allocated, forget-absent}
use mini_dynamo.Memory.Accounting.{
  IsValid, size_of, forget-IsValid, Evicts-absent, allocate-IsValid,
}
use mini_dynamo.Memory.Capacity.{allocate_evicting, SameSetup, Evicts-SameSetup, forget-SameSetup}
use mini_dynamo.Memory.Queue.{
  Queue, Call, allocates, touches, frees, Reply, evicted, refused, answered, crashed, shed, answer,
}
use mini_dynamo.Memory.View.{age, IsLru, view, view-forget, forget_lem, Evicts-shed}

-- A call on the pool with its readings of the clock.
unfoldable pub reply_to : Outcome → Reply
reply_to (ok ids) = evicted ids
reply_to (raise out_of_memory) = refused
reply_to (raise key_error) = crashed
reply_to (raise out_of_fuel) = crashed

unfoldable pub perform : ℕ → ℕ → Call → MemorySimulator → Reply × MemorySimulator
perform created now (allocates k session_id num_tokens size_mb) m =
    let r =
      allocate
        (record {
          kv_cache_id = k;
          session_id = session_id;
          num_tokens = num_tokens;
          size_mb = size_mb;
          created_at = created;
          last_access = now;
        })
        m in
    (reply_to r.0, r.1)
perform created now (touches k) m = let r = touch k now m in (answered r.0, r.1)
perform created now (frees k) m = let r = free k m in (answered r.0, r.1)

-- The pool at a time from `t` on, and the queue that it stands for.
pub record Agrees (t : ℕ) (total_mb : ℤ) (m : MemorySimulator) (q : Queue) : Type 0 where
  pub valid : IsValid m
  pub lru : IsLru m
  pub size : m.total_mb ≡ total_mb
  pub same : view m ≡ q
  pub past : All (λ e. e.1.last_access < t) m.blocks

IsLru-SameSetup : {m m' : MemorySimulator} → SameSetup m m' → IsLru m → IsLru m'
IsLru-SameSetup s lru = record {
  evicting = λ e. lru.evicting (sym s.eviction_policy ∙ e);
  by_use = λ e. lru.by_use (sym s.eviction_policy ∙ e);
}

view-stored :
    (b : KvBlock) (m : MemorySimulator) (t : ℕ)
    → get Text_discrete b.kv_cache_id m.blocks ≡ none
    → All (λ e. e.1.last_access < t) m.blocks
    → t ≤ b.last_access
    → view (stored b m) ≡ view m ++ (b.kv_cache_id, b.size_mb) ∷ []
unfolding view map_values
view-stored b m t absent past later =
    ap (λ d. map_values size_of (by_age age d))
      (put_absent Text_discrete b.kv_cache_id b m.blocks absent)
    ∙ (ap (map_values size_of) (
          by_age-append age (b.kv_cache_id, b) m.blocks
            (All-map _ _ m.blocks (λ e h. ground (arith, later)) past))
        ∙ map_values-append size_of (by_age age m.blocks) ((b.kv_cache_id, b) ∷ []))

-- One call on the pool and on its queue: the replies are equal, and what is left agrees again.
unfoldable pub Answers : ℕ → ℤ → Reply × MemorySimulator → Reply × Queue → Type 0
Answers t total_mb r a = (r.0 ≡ a.0) × Agrees t total_mb r.1 a.1

pub Answers-by :
    (t : ℕ) (total_mb : ℤ) {r r' : Reply × MemorySimulator} {a a' : Reply × Queue}
    → r ≡ r'
    → a ≡ a'
    → Answers t total_mb r' a'
    → Answers t total_mb r a
Answers-by t total_mb e f h = rw (e, f) h

answer-refused :
    (total_mb : ℤ) (b : KvBlock) (q : Queue)
    → ltb_ℤ total_mb b.size_mb ≡ true
    → answer total_mb (allocates b.kv_cache_id b.session_id b.num_tokens b.size_mb) q ≡ (refused, q)
unfolding answer
answer-refused total_mb b q h = rw h refl

answer-evicted :
    (total_mb : ℤ) (b : KvBlock) (q rest : Queue) (ids : List Text)
    → ltb_ℤ total_mb b.size_mb ≡ false
    → shed total_mb b.size_mb (remove Text_discrete b.kv_cache_id q) ≡ (ids, rest)
    → answer total_mb (allocates b.kv_cache_id b.session_id b.num_tokens b.size_mb) q
      ≡ (evicted ids, rest ++ (b.kv_cache_id, b.size_mb) ∷ [])
unfolding answer
answer-evicted total_mb b q rest ids h e = rw (h, e) refl

-- The reading of a call lies after all accesses so far.
pub later :
    (t t' : ℕ) (d : Dict Text KvBlock)
    → t ≤ t'
    → All (λ e. e.1.last_access < t) d
    → All (λ e. e.1.last_access < suc t') d
later t t' d h past = All-map _ _ d (λ e k. omega (arith, h, k)) past

forget-shed :
    (b : KvBlock) (m last : MemorySimulator) (ids : List Text)
    → IsValid m
    → IsLru m
    → Evicts b.size_mb (forget b.kv_cache_id m) ids last
    → ltb_ℤ last.total_mb (last.used_mb +ℤ b.size_mb) ≡ false
    → shed m.total_mb b.size_mb (remove Text_discrete b.kv_cache_id (view m)) ≡ (ids, view last)
forget-shed b m last ids v lru run room =
    let setup = forget-SameSetup b.kv_cache_id m in
    ap (λ t. shed t b.size_mb (remove Text_discrete b.kv_cache_id (view m))) (sym setup.total_mb)
    ∙ (ap (shed (forget b.kv_cache_id m).total_mb b.size_mb) (sym (view-forget b.kv_cache_id m))
        ∙ Evicts-shed run (IsLru-SameSetup setup lru) (forget-IsValid b.kv_cache_id m v) room)

stored-Agrees :
    (b : KvBlock) (t : ℕ) (m last : MemorySimulator) (ids : List Text)
    → IsValid m
    → IsLru m
    → All (λ e. e.1.last_access < t) m.blocks
    → t ≤ b.last_access
    → Evicts b.size_mb (forget b.kv_cache_id m) ids last
    → IsValid (stored b last)
    → Agrees
        (suc b.last_access)
        m.total_mb
        (stored b last)
        (view last ++ (b.kv_cache_id, b.size_mb) ∷ [])
stored-Agrees b t m last ids v lru past now run valid =
    let setup = forget-SameSetup b.kv_cache_id m in
    let setup' = Evicts-SameSetup run in
    let kept : All (λ e. e.1.last_access < t) last.blocks =
      Evicts-All _ run (
        rw (forget_lem b.kv_cache_id m) (All-remove Text_discrete _ b.kv_cache_id m.blocks past)) in
    let lru' = IsLru-SameSetup setup' (IsLru-SameSetup setup lru) in
    record {
      valid = valid;
      lru = record { evicting = lru'.evicting; by_use = lru'.by_use };
      size = setup'.total_mb ∙ setup.total_mb;
      same =
          view-stored b last t (Evicts-absent b.kv_cache_id run (forget-absent b.kv_cache_id m))
            kept now;
      past =
          All-put Text_discrete _ b.kv_cache_id b last.blocks (omega arith)
            (later t b.last_access last.blocks now kept);
    }

pub allocate-Answers :
    (b : KvBlock) (t : ℕ) (m : MemorySimulator)
    → IsValid m
    → IsLru m
    → All (λ e. e.1.last_access < t) m.blocks
    → t ≤ b.last_access
    → Answers
        (suc b.last_access)
        m.total_mb
        (reply_to (allocate b m).0, (allocate b m).1)
        (answer m.total_mb (allocates b.kv_cache_id b.session_id b.num_tokens b.size_mb) (view m))
unfolding Answers reply_to view
allocate-Answers b t m v lru past now = elim (allocate-Allocated b m v.unique) [
  | too_big big r ↦
      Answers-by (suc b.last_access) m.total_mb (ap (λ x. (reply_to x.0, x.1)) r)
        (answer-refused m.total_mb b (view m) big)
        (
          refl,
          record {
            valid = record { unique = v.unique; keyed = v.keyed; accounted = v.accounted };
            lru = record { evicting = lru.evicting; by_use = lru.by_use };
            size = refl;
            same = refl;
            past = later t b.last_access m.blocks now past;
          },
        )
  | stuck ids last small run end r ↦
      (let (ids', e) =
          allocate_evicting b m v lru.evicting (ltb_ℤ_false→le m.total_mb b.size_mb small) in
        cc)
  | made ids last small run enough r ↦
      Answers-by (suc b.last_access) m.total_mb (ap (λ x. (reply_to x.0, x.1)) r)
        (answer-evicted m.total_mb b (view m) (view last) ids small
          (forget-shed b m last ids v lru run enough))
        (
          refl,
          stored-Agrees b t m last ids v lru past now run
              (subst (λ x. IsValid x.1) r (allocate-IsValid b m v)),
        )
]

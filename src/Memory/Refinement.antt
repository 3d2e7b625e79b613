-- ===== src/Memory/Refinement.antt =====
-- Under the default policy the pool is a queue in the order of use.
use mathlib.Core.Option
use mini_dynamo.Prelude.{
  ℤ, ◌-ℤ◌, ℕ, suc, ◌<◌, ◌≤◌, ltb, ◌≡◌, inl, inr, refl, ap, subst, ◌∙◌, true, false, Option, none,
  some, List, [], ◌∷◌, ◌++◌, Text, Text_discrete, arith, All, All-map, Option-cases,
}
use mini_dynamo.Dict.{get, remove, put}
use mini_dynamo.Dict.Aging.{by_age, by_age-put}
use mini_dynamo.Dict.Values.{map_values, map_values-append}
use mini_dynamo.Memory.{KvBlock, MemorySimulator, pop_block, touch, free}
use mini_dynamo.Dict.Entries.{All-remove, All-put}
use mini_dynamo.Memory.Accounting.{IsValid, size_of, free-IsValid, touch-IsValid}
use mini_dynamo.Memory.Queue.{
  Queue, used, Call, allocates, touches, frees, Reply, answered, answer, answer_all,
}
use mini_dynamo.Memory.View.{age, IsLru, view, get-view, view-remove}
use mini_dynamo.Memory.Agreement.{perform, Agrees, Answers, Answers-by, later, allocate-Answers}

touch_miss :
    (k : Text) (now : ℕ) (m : MemorySimulator)
    → get Text_discrete k m.blocks ≡ none
    → touch k now m ≡ (false, m)
unfolding touch
touch_miss k now m e = rw (touch, e) refl

abbrev touched : Text → KvBlock → ℕ → MemorySimulator → MemorySimulator
touched k b now m = record m {
  blocks = put Text_discrete k (record b { last_access = now }) m.blocks;
}

touch_hit :
    (k : Text) (now : ℕ) (m : MemorySimulator) (b : KvBlock)
    → get Text_discrete k m.blocks ≡ some b
    → touch k now m ≡ (true, touched k b now m)
unfolding touch
touch_hit k now m b e = rw (touch, e) refl

view-touched :
    (k : Text) (b : KvBlock) (t now : ℕ) (m : MemorySimulator)
    → IsValid m
    → get Text_discrete k m.blocks ≡ some b
    → All (λ e. e.1.last_access < t) m.blocks
    → t ≤ now
    → view (touched k b now m) ≡ remove Text_discrete k (view m) ++ (k, b.size_mb) ∷ []
unfolding view map_values
view-touched k b t now m v e past ahead =
    let b' = record b { last_access = now } in
    let others = All-remove Text_discrete (λ x. x.1.last_access < t) k m.blocks past in
    let young : All (λ x. ltb (age x.1) (age b') ≡ true) (remove Text_discrete k m.blocks) =
      All-map _ _ (remove Text_discrete k m.blocks) (λ x h. ground (arith, h, ahead)) others in
    ap (map_values size_of) (by_age-put Text_discrete age k b' m.blocks b v.unique e young)
    ∙ (map_values-append size_of (by_age age (remove Text_discrete k m.blocks)) ((k, b') ∷ [])
        ∙ ap (λ q. q ++ (k, b.size_mb) ∷ [])
            (view-remove k m (record m { blocks = remove Text_discrete k m.blocks }) refl))

answer-touch :
    (total_mb : ℤ) (k : Text) (q : Queue) (o : Option ℤ)
    → get Text_discrete k q ≡ o
    → answer total_mb (touches k) q ≡ elim o [
      | none ↦ (answered false, q)
      | some n ↦ (answered true, remove Text_discrete k q ++ (k, n) ∷ [])
    ]
unfolding answer
answer-touch total_mb k q o e = rw (answer, e) refl

answer-free :
    (total_mb : ℤ) (k : Text) (q : Queue) (o : Option ℤ)
    → get Text_discrete k q ≡ o
    → answer total_mb (frees k) q
      ≡ elim o [ none ↦ (answered false, q) | some n ↦ (answered true, remove Text_discrete k q) ]
unfolding answer
answer-free total_mb k q o e = rw (answer, e) refl

touch-Answers :
    (k : Text) (t now : ℕ) (m : MemorySimulator)
    → IsValid m
    → IsLru m
    → All (λ e. e.1.last_access < t) m.blocks
    → t ≤ now
    → Answers
        (suc now)
        m.total_mb
        (answered (touch k now m).0, (touch k now m).1)
        (answer m.total_mb (touches k) (view m))
unfolding Answers
touch-Answers k t now m v lru past ahead = elim (Option-cases (get Text_discrete k m.blocks)) [
  | inl e ↦
      Answers-by (suc now) m.total_mb (ap (λ r. (answered r.0, r.1)) (touch_miss k now m e))
        (answer-touch m.total_mb k (view m) none (get-view k m v ∙ ap (Option.map size_of) e))
        (
          refl,
          record {
            valid = v;
            lru = lru;
            size = refl;
            same = refl;
            past = later t now m.blocks ahead past;
          },
        )
  | inr (b, e) ↦
      Answers-by (suc now) m.total_mb (ap (λ r. (answered r.0, r.1)) (touch_hit k now m b e))
        (answer-touch m.total_mb k (view m) (some b.size_mb)
          (get-view k m v ∙ ap (Option.map size_of) e))
        (
          refl,
          record {
            valid = subst (λ r. IsValid r.1) (touch_hit k now m b e) (touch-IsValid k now m v);
            lru = record { evicting = lru.evicting; by_use = lru.by_use };
            size = refl;
            same = view-touched k b t now m v e past ahead;
            past =
                All-put Text_discrete _ k (record b { last_access = now }) m.blocks (omega arith)
                  (later t now m.blocks ahead past);
          },
        )
]

abbrev freed : Text → KvBlock → MemorySimulator → MemorySimulator
freed k b m = record m {
  blocks = remove Text_discrete k m.blocks;
  used_mb = m.used_mb -ℤ b.size_mb;
}

free_miss :
    (k : Text) (m : MemorySimulator) → get Text_discrete k m.blocks ≡ none → free k m ≡ (false, m)
unfolding free pop_block
free_miss k m e = rw (free, e) refl

free_hit :
    (k : Text) (m : MemorySimulator) (b : KvBlock)
    → get Text_discrete k m.blocks ≡ some b
    → free k m ≡ (true, freed k b m)
unfolding free pop_block
free_hit k m b e = rw (free, e) refl

free-Answers :
    (k : Text) (t now : ℕ) (m : MemorySimulator)
    → IsValid m
    → IsLru m
    → All (λ e. e.1.last_access < t) m.blocks
    → t ≤ now
    → Answers
        (suc now)
        m.total_mb
        (answered (free k m).0, (free k m).1)
        (answer m.total_mb (frees k) (view m))
unfolding Answers
free-Answers k t now m v lru past ahead = elim (Option-cases (get Text_discrete k m.blocks)) [
  | inl e ↦
      Answers-by (suc now) m.total_mb (ap (λ r. (answered r.0, r.1)) (free_miss k m e))
        (answer-free m.total_mb k (view m) none (get-view k m v ∙ ap (Option.map size_of) e))
        (
          refl,
          record {
            valid = v;
            lru = lru;
            size = refl;
            same = refl;
            past = later t now m.blocks ahead past;
          },
        )
  | inr (b, e) ↦
      Answers-by (suc now) m.total_mb (ap (λ r. (answered r.0, r.1)) (free_hit k m b e))
        (answer-free m.total_mb k (view m) (some b.size_mb)
          (get-view k m v ∙ ap (Option.map size_of) e))
        (
          refl,
          record {
            valid = subst (λ r. IsValid r.1) (free_hit k m b e) (free-IsValid k m v);
            lru = record { evicting = lru.evicting; by_use = lru.by_use };
            size = refl;
            same = view-remove k m (freed k b m) refl;
            past = later t now _ ahead (All-remove Text_discrete _ k m.blocks past);
          },
        )
]

-- One call, of any kind, on a pool and its queue.
pub perform-Answers :
    (call : Call) (created now t : ℕ) (total_mb : ℤ) (m : MemorySimulator) (q : Queue)
    → Agrees t total_mb m q
    → t ≤ now
    → ((perform created now call m).0 ≡ (answer total_mb call q).0)
      × Agrees (suc now) total_mb (perform created now call m).1 (answer total_mb call q).1
unfolding perform Answers
perform-Answers (allocates k session_id num_tokens size_mb) created now t total_mb m q a ahead =
    let b : KvBlock = record {
      kv_cache_id = k;
      session_id = session_id;
      num_tokens = num_tokens;
      size_mb = size_mb;
      created_at = created;
      last_access = now;
    } in
    rw (← a.size, ← a.same) (allocate-Answers b t m a.valid a.lru a.past ahead)
perform-Answers (touches k) created now t total_mb m q a ahead =
    rw (← a.size, ← a.same) (touch-Answers k t now m a.valid a.lru a.past ahead)
perform-Answers (frees k) created now t total_mb m q a ahead =
    rw (← a.size, ← a.same) (free-Answers k t now m a.valid a.lru a.past ahead)

-- The calls of a client one after the other; `used` is read in every one, at rising instants.
unfoldable pub perform_all :
    (ℕ → ℕ) → (ℕ → ℕ) → ℕ → List Call → MemorySimulator → List Reply × MemorySimulator
perform_all created used i [] m = ([], m)
perform_all created used i (call ∷ calls) m =
    let first = perform (created i) (used i) call m in
    let rest = perform_all created used (suc i) calls first.1 in (first.0 ∷ rest.0, rest.1)

answer_all-refined :
    (created used : ℕ → ℕ) (i t : ℕ) (calls : List Call) (total_mb : ℤ) (m : MemorySimulator)
    (q : Queue)
    → ((j : ℕ) → used j < used (suc j))
    → Agrees t total_mb m q
    → t ≤ used i
    → ((perform_all created used i calls m).0 ≡ (answer_all total_mb calls q).0)
      × (view (perform_all created used i calls m).1 ≡ (answer_all total_mb calls q).1)
unfolding perform_all answer_all
answer_all-refined created used i t [] total_mb m q rises a ahead = (refl, a.same)
answer_all-refined created used i t (call ∷ calls) total_mb m q rises a ahead =
    let (reply, next) = perform-Answers call (created i) (used i) t total_mb m q a ahead in
    let (replies, last) =
      answer_all-refined created used (suc i) (suc (used i)) calls total_mb
        (perform (created i) (used i) call m).1 (answer total_mb call q).1 rises next
        (omega (arith, rises i)) in
    (ap2 reply replies, last)
  where
    ap2 : {x x' : Reply} {xs xs' : List Reply} → x ≡ x' → xs ≡ xs' → x ∷ xs ≡ x' ∷ xs'
    ap2 e f = cc

-- Under a policy other than "none" and "fifo", a valid pool whose blocks were last used before the
-- first reading answers every sequence of calls, with rising readings of the clock, as the queue
-- that it stands for does: the same ids evicted in the same order, the same refusals and flags,
-- and in the end it stands for the queue's last state.
pub perform_all-refines :
    (created used : ℕ → ℕ) (i : ℕ) (calls : List Call) (m : MemorySimulator)
    → ((j : ℕ) → used j < used (suc j))
    → IsValid m
    → IsLru m
    → All (λ e. e.1.last_access < used i) m.blocks
    → ((perform_all created used i calls m).0 ≡ (answer_all m.total_mb calls (view m)).0)
      × (view (perform_all created used i calls m).1 ≡ (answer_all m.total_mb calls (view m)).1)
perform_all-refines created used i calls m rises v lru past =
    answer_all-refined created used i (used i) calls m.total_mb m (view m) rises
      (record { valid = v; lru = lru; size = refl; same = refl; past = past }) (omega arith)

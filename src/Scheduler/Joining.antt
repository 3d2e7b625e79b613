-- ===== src/Scheduler/Joining.antt =====
-- What becomes of the sequences that `_admit` takes, where the pool evicts.
use mini_dynamo.Prelude.{
  ℤ, ◌≤ℤ◌, ◌<ℤ◌, ltb_ℤ, ltb_ℤ→lt, ltb_ℤ_false→le, ltb, ℕ, ◌≤◌, ◌≡◌, ◌≢◌, ◌⊎◌, inl, inr, refl, sym,
  ap, subst, ◌∙◌, if_pos, some, List, [], ◌∷◌, ◌++◌, Text, Text_discrete, codes, All, All-map,
  Bool-cases, length, arith,
}
use mini_dynamo.Dict.{get, values}
use mini_dynamo.Dict.Laws.{get-put}
use mini_dynamo.Memory.{MemorySimulator, Outcome, ok, raise, allocate}
use mini_dynamo.Memory.Accounting.{IsValid, allocate-IsValid}
use mini_dynamo.Memory.Capacity.{allocate_evicting, allocate-SameSetup, allocate_too_big}
use mini_dynamo.Scheduler.{
  Seq, Scheduler, put_chunk, finish_chunk, admitted, admit_one, admit_from, admit, block_of,
}
use mini_dynamo.Scheduler.Batch.{admit-Admits}
use mini_dynamo.Scheduler.Distinct.{Apart, Distinct-append_right}
use mini_dynamo.Scheduler.Streaming.{IsStreaming}
use mini_dynamo.Scheduler.Admission.{Keeps, admit_one_lem, admit_from_lem, admit-IsStreaming}

-- A valid pool that evicts.
pub record IsEvicting (m : MemorySimulator) : Type 0 where
  pub valid : IsValid m
  pub on : m.eviction_policy ≢ codes "none"

-- A sequence that the pool has room for is in the batch and has been sent nothing; one that is
-- larger than the pool has been told so.
abbrev pub Settled : ℤ → Scheduler → Seq → Type 0
Settled total_mb s x =
    ((x.kv_size_mb ≤ℤ total_mb)
      × (get Text_discrete x.req_id s.active ≡ some x)
      × (s.queues x.out_queue ≡ []))
    ⊎ ((total_mb <ℤ x.kv_size_mb) × (s.queues x.out_queue ≡ finish_chunk 0 (codes "oom") ∷ []))

module _ (clock : ℕ → ℕ) where
  admitted-other :
      (seq : Seq) (r : Outcome × MemorySimulator) (s : Scheduler) (q : ℕ)
      → seq.out_queue ≢ q
      → (admitted clock seq r s).queues q ≡ s.queues q
  unfolding admitted put_chunk
  admitted-other seq (ok ids, m) s q h = refl
  admitted-other seq (raise e, m) s q h = ground arith

  -- A queue of none of the waiting sequences is left alone.
  admit_from-other :
      (ws : List Seq) (s : Scheduler) (q : ℕ)
      → All (λ y. y.out_queue ≢ q) ws
      → (admit_from clock ws s).queues q ≡ s.queues q
  unfolding admit_from admit_one
  admit_from-other [] s q h = refl
  admit_from-other (seq ∷ ws) s q h = elim (Bool-cases (ltb (length s.active) s.max_batch_size)) [
    | inr full ↦ rw (full, admit_from) refl
    | inl room ↦
        rw (room, admit_from)
          (admit_from-other ws (admit_one clock seq s) q h.1
            ∙ admitted-other seq (allocate (block_of clock seq s) s.memory) s q h.0)
  ]

  memory-admitted :
      (seq : Seq) (r : Outcome × MemorySimulator) (s : Scheduler)
      → (admitted clock seq r s).memory ≡ r.1
  unfolding admitted
  memory-admitted seq (ok ids, m) s = refl
  memory-admitted seq (raise e, m) s = refl

  memory-admit_one :
      (seq : Seq) (s : Scheduler)
      → (admit_one clock seq s).memory ≡ (allocate (block_of clock seq s) s.memory).1
  unfolding admit_one
  memory-admit_one seq s = memory-admitted seq (allocate (block_of clock seq s) s.memory) s

  admit_one-IsEvicting :
      (seq : Seq) (s : Scheduler)
      → IsEvicting s.memory
      → IsEvicting (admit_one clock seq s).memory
        × ((admit_one clock seq s).memory.total_mb ≡ s.memory.total_mb)
  admit_one-IsEvicting seq s p =
      let same = allocate-SameSetup (block_of clock seq s) s.memory p.valid in
      rw (memory-admit_one seq s) (
        record {
          valid = allocate-IsValid (block_of clock seq s) s.memory p.valid;
          on = λ e. p.on (sym same.eviction_policy ∙ e);
        },
        same.total_mb,
      )

  admit_one-Settled :
      (seq : Seq) (s : Scheduler)
      → IsEvicting s.memory
      → s.queues seq.out_queue ≡ []
      → Settled s.memory.total_mb (admit_one clock seq s) seq
  unfolding admit_one admitted put_chunk block_of
  admit_one-Settled seq s p idle =
      let b = block_of clock seq s in
      let r = allocate b s.memory in
      elim (Bool-cases (ltb_ℤ s.memory.total_mb seq.kv_size_mb)) [
        | inr e ↦
            (let small = ltb_ℤ_false→le s.memory.total_mb seq.kv_size_mb e in
              let (ids, k) = allocate_evicting b s.memory p.valid p.on small in
              let joined = ap (λ o. admitted clock seq (o, r.1) s) k in
              inl (
                small,
                ap (λ t. get Text_discrete seq.req_id t.active) joined
                    ∙ get-put Text_discrete seq.req_id seq.req_id seq s.active
                    ∙ if_pos (Text_discrete seq.req_id seq.req_id) refl _ _,
                ap (λ t. t.queues seq.out_queue) joined ∙ idle,
              ))
        | inl e ↦
            (let k = allocate_too_big b s.memory e in
              let told = ap (λ o. admitted clock seq o s) k in
              inr (
                ltb_ℤ→lt s.memory.total_mb seq.kv_size_mb e,
                ap (λ t. t.queues seq.out_queue) told ∙ ground (arith, idle),
              ))
      ]

  module _ (next_token : Text → ℤ → Text) where
    -- The sequences taken from the queue, each of them settled.
    abbrev Taken : List Seq → Scheduler → Scheduler → Type 0
    Taken ws s s' =
        (taken : List Seq) × (ws ≡ taken ++ s'.waiting) × All (Settled s.memory.total_mb s') taken

    Settled-later :
        (total_mb : ℤ) (x : Seq) (s s' : Scheduler)
        → Keeps s s'
        → s'.queues x.out_queue ≡ s.queues x.out_queue
        → Settled total_mb s x
        → Settled total_mb s' x
    Settled-later total_mb x s s' keeps quiet (inl (small, joined, silent)) =
        inl (small, keeps.stays x.req_id x joined, quiet ∙ silent)
    Settled-later total_mb x s s' keeps quiet (inr (large, told)) = inr (large, quiet ∙ told)

    admit_from-Taken :
        (ws : List Seq) (s : Scheduler)
        → IsStreaming next_token ws s
        → IsEvicting s.memory
        → Taken ws s (admit_from clock ws s)
    unfolding admit_from
    admit_from-Taken [] s v p = ([], refl, tt)
    admit_from-Taken (seq ∷ ws) s v p = elim (Bool-cases (ltb (length s.active) s.max_batch_size)) [
      | inr full ↦ rw (full, admit_from) ([], refl, tt)
      | inl room ↦
          (let t = admit_one clock seq s in
            let (v', keeps) = admit_one_lem clock next_token seq ws s v in
            let (p', same) = admit_one-IsEvicting seq s p in
            let (taken, order, settled) = admit_from-Taken ws t v' p' in
            let (v'', keeps') = admit_from_lem clock next_token ws t v' in
            let apart = (Distinct-append_right (values s.active) (seq ∷ ws) v.distinct).0 in
            let quiet =
              admit_from-other ws t seq.out_queue
                (All-map (Apart seq) _ ws (λ y a e. a.queues (sym e)) apart) in
            let first =
              Settled-later s.memory.total_mb seq t (admit_from clock ws t) keeps' quiet
                (admit_one-Settled seq s p v.idle.0.1) in
            let later =
              subst (λ total_mb. All (Settled total_mb (admit_from clock ws t)) taken) same
                settled in
            rw (room, admit_from) (seq ∷ taken, ap (◌∷◌ seq) order, (first, later)))
    ]

    -- From a state with the streaming invariant, with a valid pool that evicts and a batch within its
    -- limit, `_admit` takes sequences in the order of their arrival. Each that it takes is in the
    -- batch at the end, with nothing sent to it, if its block is no larger than the pool, and
    -- otherwise its queue holds the one chunk with the finish reason oom. The batch stays within its
    -- limit, taking ends only with the queue empty or the batch full, and the sequences that were in
    -- the batch stay in it with their queues untouched.
    pub admit-Settled :
        (s : Scheduler)
        → IsStreaming next_token s.waiting s
        → IsEvicting s.memory
        → length s.active ≤ s.max_batch_size
        → let s' = admit clock s in
          ((taken : List Seq) × (s.waiting ≡ taken ++ s'.waiting)
            × All (Settled s.memory.total_mb s') taken)
          × (length s'.active ≤ s.max_batch_size)
          × ((s'.waiting ≡ []) ⊎ (length s'.active ≡ s.max_batch_size))
          × Keeps s s'
    unfolding admit
    admit-Settled s v p h =
        let a = admit-Admits clock s h in
        (
          admit_from-Taken s.waiting s v p,
          a.bound,
          a.busy,
          (admit-IsStreaming clock next_token s v).1,
        )

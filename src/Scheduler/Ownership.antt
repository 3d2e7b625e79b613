-- ===== src/Scheduler/Ownership.antt =====
-- The pool of a decode node: every block belongs to an active sequence.
use mini_dynamo.Prelude.{
  ℤ, ltb, ℕ, ◌==◌, ◌≡◌, ◌≢◌, refl, sym, ap, subst, if_neg, if_pos, pos, All, ◌∙◌, inl, inr, some,
  List, [], ◌∷◌, Text, Text_discrete, arith, Bool-cases, Option-cases, length,
}
use mini_dynamo.Dict.{Dict, get, remove}
use mini_dynamo.Dict.Sums.{total}
use mini_dynamo.Dict.Laws.{get-remove, get-put}
use mini_dynamo.Memory.{KvBlock, MemorySimulator, Outcome, ok, raise, allocate, free}
use mini_dynamo.Memory.Accounting.{IsValid, size_of, allocate-IsValid, touch-IsValid, free-IsValid}
use mini_dynamo.Memory.Origin.{allocate-origin, touch-origin, free-origin}
use mini_dynamo.Scheduler.{
  Seq, Scheduler, Arrival, submits, allocates, advance, advance_all, finished, retire, block_of,
  admitted, admit_one, admit_from, admit, arrive, arrive_all, submit, emit_one, emit_all, forward,
  round, run,
}
use mini_dynamo.Scheduler.Admission.{admit_one_lem}
use mini_dynamo.Scheduler.Streaming.{IsStreaming}
use mini_dynamo.Scheduler.Rounds.{AllNew, round-IsStreaming}

some_injective : {A : Type 0} {x y : A} → some x ≡ some y → x ≡ y
some_injective e = cc

-- Nobody but the scheduler allocates.
unfoldable pub OnlySubmits : List Arrival → Type 0
OnlySubmits [] = Unit
OnlySubmits (submits req req_id ∷ arrivals) = OnlySubmits arrivals
OnlySubmits (allocates b ∷ arrivals) = ⊥

-- The pool is valid, and each of its blocks is that of an active sequence.
pub record Owns (active : Dict Text Seq) (m : MemorySimulator) : Type 0 where
  pub valid : IsValid m
  pub held :
      (j : Text) (b : KvBlock)
      → get Text_discrete j m.blocks ≡ some b
      → (r : Text) × (x : Seq) × (get Text_discrete r active ≡ some x) × (x.kv_cache_id ≡ j)

module _ (clock : ℕ → ℕ) (next_token : Text → ℤ → Text) where
  admit_one-Owns :
      (seq : Seq) (ws : List Seq) (s : Scheduler)
      → IsStreaming next_token (seq ∷ ws) s
      → Owns s.active s.memory
      → Owns (admit_one clock seq s).active (admit_one clock seq s).memory
  unfolding admit_one admitted block_of
  admit_one-Owns seq ws s v owns =
      let b = block_of clock seq s in
      let keeps = (admit_one_lem clock next_token seq ws s v).1 in
      go (allocate b s.memory) refl keeps.stays
    where
      go :
          (r : Outcome × MemorySimulator)
          → allocate (block_of clock seq s) s.memory ≡ r
          → ((k : Text) (x : Seq)
              → get Text_discrete k s.active ≡ some x
              → get Text_discrete k (admitted clock seq r s).active ≡ some x)
          → Owns (admitted clock seq r s).active (admitted clock seq r s).memory
      go (ok ids, m) e stays = record {
        valid =
            subst IsValid (ap (λ p. p.1) e)
              (allocate-IsValid (block_of clock seq s) s.memory owns.valid);
        held = λ j b h.
            elim (allocate-origin (block_of clock seq s) s.memory j b owns.valid.unique
              (ap (λ p. get Text_discrete j p.1.blocks) e ∙ h)) [
                | inl (ids', called, same) ↦ (
                  seq.req_id,
                  seq,
                  ground (arith, get-put Text_discrete seq.req_id seq.req_id seq s.active),
                  same,
                )
                | inr before ↦
                    (let (r, x, found, own) = owns.held j b before in (r, x, stays r x found, own))
              ];
      }
      go (raise err, m) e stays = record {
        valid =
            subst IsValid (ap (λ p. p.1) e)
              (allocate-IsValid (block_of clock seq s) s.memory owns.valid);
        held = λ j b h.
            elim (allocate-origin (block_of clock seq s) s.memory j b owns.valid.unique
              (ap (λ p. get Text_discrete j p.1.blocks) e ∙ h)) [
                | inl (ids', called, same) ↦ cc (ap (λ p. p.0) e, called)
                | inr before ↦ owns.held j b before
              ];
      }

  emit_all-Owns :
      (active d : Dict Text Seq) (s : Scheduler)
      → Owns active s.memory
      → Owns active (emit_all clock next_token d s).memory
  unfolding emit_all emit_one
  emit_all-Owns active [] s owns = owns
  emit_all-Owns active ((k, seq) ∷ d) s owns =
      emit_all-Owns active d (emit_one clock next_token seq s) (record {
        valid = touch-IsValid seq.kv_cache_id (clock s.readings) s.memory owns.valid;
        held = λ j b h.
            let (w, before) = touch-origin seq.kv_cache_id (clock s.readings) s.memory j b h in
            owns.held j w before;
      })

  get-advance_all :
      (r : Text) (x : Seq) (d : Dict Text Seq)
      → get Text_discrete r d ≡ some x
      → get Text_discrete r (advance_all d) ≡ some (advance x)
  unfolding get advance_all
  get-advance_all r x [] e = cc
  get-advance_all r x ((k, y) ∷ d) e = ground (arith, get-advance_all r x d, e)

  advance_all-Owns : (d : Dict Text Seq) (m : MemorySimulator) → Owns d m → Owns (advance_all d) m
  unfolding advance
  advance_all-Owns d m owns = record {
    valid = owns.valid;
    held = λ j b h.
        let (r, x, found, own) = owns.held j b h in
        (r, advance x, get-advance_all r x d found, own);
  }

  still :
      (k r : Text) (x seq : Seq) (d : Dict Text Seq)
      → get Text_discrete k d ≡ some seq
      → get Text_discrete r d ≡ some x
      → seq ≢ x
      → get Text_discrete r (remove Text_discrete k d) ≡ some x
  still k r x seq d found there apart = get-remove Text_discrete k r d ∙ elim (Text_discrete k r) [
    | yes same ↦
        absurd (apart (some_injective (sym found ∙ ap (λ i. get Text_discrete i d) same ∙ there)))
    | no other ↦ if_neg (Text_discrete k r) other _ _ ∙ there
  ]

  retire-Owns :
      (ids : List Text) (s : Scheduler)
      → Owns s.active s.memory
      → Owns (retire ids s).active (retire ids s).memory
  unfolding retire
  retire-Owns [] s owns = owns
  retire-Owns (k ∷ ids) s owns = elim (Option-cases (get Text_discrete k s.active)) [
    | inl absent ↦ rw (retire, absent) (retire-Owns ids s owns)
    | inr (seq, found) ↦
        rw (retire, found)
          (retire-Owns ids
            (record s {
              active = remove Text_discrete k s.active;
              memory = (free seq.kv_cache_id s.memory).1;
            })
            (record {
              valid = free-IsValid seq.kv_cache_id s.memory owns.valid;
              held = λ j b h.
                  let (other, before) = free-origin seq.kv_cache_id s.memory j b h in
                  let (r, x, there, own) = owns.held j b before in
                  (
                    r,
                    x,
                    still k r x seq s.active found there
                        (λ e. other (ap (λ y. y.kv_cache_id) e ∙ own)),
                    own,
                  );
            }))
  ]

  arrive_all-same :
      (arrivals : List Arrival) (s : Scheduler)
      → OnlySubmits arrivals
      → ((arrive_all clock arrivals s).active ≡ s.active)
        × ((arrive_all clock arrivals s).memory ≡ s.memory)
  unfolding arrive_all arrive submit OnlySubmits
  arrive_all-same [] s h = (refl, refl)
  arrive_all-same (submits req req_id ∷ arrivals) s h =
      arrive_all-same arrivals (submit clock req req_id s).1 h
  arrive_all-same (allocates b ∷ arrivals) s h = absurd h

  admit_from-Owns :
      (ws : List Seq) (s : Scheduler)
      → IsStreaming next_token ws s
      → Owns s.active s.memory
      → Owns (admit_from clock ws s).active (admit_from clock ws s).memory
  unfolding admit_from
  admit_from-Owns [] s v owns = owns
  admit_from-Owns (seq ∷ ws) s v owns = elim (Bool-cases (ltb (length s.active) s.max_batch_size)) [
    | inr full ↦ rw (full, admit_from) owns
    | inl room ↦
        rw (room, admit_from)
          (admit_from-Owns ws (admit_one clock seq s) (admit_one_lem clock next_token seq ws s v).0
            (admit_one-Owns seq ws s v owns))
  ]

  forward-Owns :
      (s : Scheduler)
      → Owns s.active s.memory
      → Owns (forward clock next_token s).active (forward clock next_token s).memory
  unfolding forward
  forward-Owns s owns =
      retire-Owns (finished s.active)
        (record (emit_all clock next_token s.active s) { active = advance_all s.active })
        (advance_all-Owns s.active (emit_all clock next_token s.active s).memory
          (emit_all-Owns s.active s.active s owns))

  round-Owns :
      (arrivals : List Arrival) (s : Scheduler)
      → OnlySubmits arrivals
      → IsStreaming next_token s.waiting s
      → Owns s.active s.memory
      → Owns (round clock next_token arrivals s).active (round clock next_token arrivals s).memory
  unfolding round admit
  round-Owns arrivals s only v owns =
      let s' = admit clock s in
      let (same_active, same_memory) = arrive_all-same arrivals s' only in
      let mid : Owns (arrive_all clock arrivals s').active (arrive_all clock arrivals s').memory =
        subst (λ m. Owns (arrive_all clock arrivals s').active m) (sym same_memory)
          (subst (λ d. Owns d s'.memory) (sym same_active) (admit_from-Owns s.waiting s v owns)) in
      elim (Bool-cases (length s'.active == 0)) [
        | inl e ↦ rw (round, e) mid
        | inr e ↦ rw (round, e) (forward-Owns (arrive_all clock arrivals s') mid)
      ]

  run-Owns :
      (rounds : List (List Arrival)) (s : Scheduler)
      → All OnlySubmits rounds
      → AllNew clock next_token rounds s
      → IsStreaming next_token s.waiting s
      → Owns s.active s.memory
      → Owns (run clock next_token rounds s).active (run clock next_token rounds s).memory
  unfolding run
  run-Owns [] s only new v owns = owns
  run-Owns (arrivals ∷ rounds) s only new v owns =
      run-Owns rounds (round clock next_token arrivals s) only.1 new.1
        (round-IsStreaming clock next_token arrivals s new.0 v)
        (round-Owns arrivals s only.0 v owns)

  empty_pool : (m : MemorySimulator) → Owns [] m → (m.blocks ≡ []) × (m.used_mb ≡ pos 0)
  unfolding get total
  empty_pool m owns =
      let none_left = no_blocks m.blocks owns.held in
      (none_left, owns.valid.accounted ∙ ap (total size_of) none_left)
    where
      no_blocks :
          (d : Dict Text KvBlock)
          → ((j : Text) (b : KvBlock)
              → get Text_discrete j d ≡ some b
              → (r : Text) × (x : Seq) × (get Text_discrete r [] ≡ some x) × (x.kv_cache_id ≡ j))
          → d ≡ []
      no_blocks [] held = refl
      no_blocks ((j, b) ∷ d) held =
          let (r, x, found, own) =
            held j b (if_pos (Text_discrete j j) refl (some b) (get Text_discrete j d)) in
          cc found

  -- A decode node does not leak memory: from a state with the streaming invariant in which every
  -- block of the pool is that of an active sequence, through any rounds in which nothing but requests
  -- with new ids comes in, the pool stays valid and every block of it that of an active sequence;
  -- and whenever the batch is empty, so is the pool.
  pub run_releases :
      (rounds : List (List Arrival)) (s : Scheduler)
      → All OnlySubmits rounds
      → AllNew clock next_token rounds s
      → IsStreaming next_token s.waiting s
      → Owns s.active s.memory
      → let s' = run clock next_token rounds s in
        Owns s'.active s'.memory
        × (s'.active ≡ [] → (s'.memory.blocks ≡ []) × (s'.memory.used_mb ≡ pos 0))
  run_releases rounds s only new v owns =
      let s' = run clock next_token rounds s in
      let after = run-Owns rounds s only new v owns in
      (after, λ idle. empty_pool s'.memory (subst (λ d. Owns d s'.memory) idle after))

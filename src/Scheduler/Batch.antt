-- ===== src/Scheduler/Batch.antt =====
-- Who is in the batch: what `retire` takes out, and the bound on the batch.
use mathlib.Core.Option
use mini_dynamo.Prelude.{
  ℤ, ltb, ℕ, ◌+◌, ◌≤◌, ◌==◌, ◌⊎◌, ◌≡◌, refl, ◌∙◌, ap, true, false, none, List, [], ◌∷◌, ◌++◌, Text,
  Text_discrete, if◌then◌else◌, length, arith, inl, inr, Bool-cases, Option-cases,
}
use mini_dynamo.Dict.{Dict, get, remove}
use mini_dynamo.Dict.Laws.{get-remove}
use mini_dynamo.Dict.Entries.{length-remove-le, length-put-le}
use mini_dynamo.Memory.{Outcome, ok, raise, allocate, free}
use mini_dynamo.Memory.Contents.{elem}
use mini_dynamo.Scheduler.Queues.{forward-Emits}
use mini_dynamo.Scheduler.{
  Seq, Scheduler, advance, finished, advance_all, retire, forward, emit_all, admitted, admit_one,
  admit_from, admit, block_of, Arrival, submits, allocates, arrive_all, round,
}

pub get-retire :
    (j : Text) (ids : List Text) (s : Scheduler)
    → get Text_discrete j (retire ids s).active
      ≡ (if elem j ids then none else get Text_discrete j s.active)
unfolding retire elem
get-retire j [] s = refl
get-retire j (id ∷ ids) s = elim (Option-cases (get Text_discrete id s.active)) [
  | inl e ↦ rw (e, retire) (ground (arith, get-retire j ids s, e))
  | inr (seq, e) ↦
      rw (e, retire)
        (ground (
          arith,
          get-retire j ids (record s {
            active = remove Text_discrete id s.active;
            memory = (free seq.kv_cache_id s.memory).1;
          }),
          get-remove Text_discrete id j s.active,
        ))
]

length-retire-le :
    (ids : List Text) (s : Scheduler) → length (retire ids s).active ≤ length s.active
unfolding retire
length-retire-le [] s = omega arith
length-retire-le (id ∷ ids) s = elim (Option-cases (get Text_discrete id s.active)) [
  | inl e ↦ rw (e, retire) (length-retire-le ids s)
  | inr (seq, e) ↦
      rw (e, retire)
        (omega (
          arith,
          length-retire-le ids (record s {
            active = remove Text_discrete id s.active;
            memory = (free seq.kv_cache_id s.memory).1;
          }),
          length-remove-le Text_discrete id s.active,
        ))
]

pub length-advance_all : (d : Dict Text Seq) → length (advance_all d) ≡ length d
unfolding advance_all
length-advance_all [] = refl
length-advance_all (e ∷ d) = omega (arith, length-advance_all d)

pub get-advance_all :
    (j : Text) (d : Dict Text Seq)
    → get Text_discrete j (advance_all d) ≡ Option.map advance (get Text_discrete j d)
unfolding advance_all get
get-advance_all j [] = refl
get-advance_all j (e ∷ d) = ground (arith, get-advance_all j d)

module _ (clock : ℕ → ℕ) where
  admit_one-bound :
      (seq : Seq) (s : Scheduler)
      → (length (admit_one clock seq s).active ≤ length s.active + 1)
        × ((admit_one clock seq s).max_batch_size ≡ s.max_batch_size)
  unfolding admit_one
  admit_one-bound seq s = go (allocate (block_of clock seq s) s.memory)
    where
      go :
          (r : Outcome × _)
          → (length (admitted clock seq r s).active ≤ length s.active + 1)
            × ((admitted clock seq r s).max_batch_size ≡ s.max_batch_size)
      go (ok ids, m) = (length-put-le Text_discrete seq.req_id seq s.active, refl)
      go (raise e, m) = (omega arith, refl)

  -- The sequences taken from the queue stand at its front, the batch stays within its limit, and
  -- taking ends only with the queue empty or the batch full.
  pub record Admits (ws : List Seq) (s s' : Scheduler) : Type 0 where
    pub taken : List Seq
    pub in_order : ws ≡ taken ++ s'.waiting
    pub bound : length s'.active ≤ s.max_batch_size
    pub busy : (s'.waiting ≡ []) ⊎ (length s'.active ≡ s.max_batch_size)
    pub max_batch_size : s'.max_batch_size ≡ s.max_batch_size

  admit_from-Admits :
      (ws : List Seq) (s : Scheduler)
      → length s.active ≤ s.max_batch_size
      → Admits ws s (admit_from clock ws s)
  unfolding admit_from
  admit_from-Admits [] s h = record {
    taken = [];
    in_order = refl;
    bound = h;
    busy = inl refl;
    max_batch_size = refl;
  }
  admit_from-Admits (seq ∷ ws) s h = elim (Bool-cases (ltb (length s.active) s.max_batch_size)) [
    | inr full ↦
        rw (full, admit_from)
          (record {
            taken = [];
            in_order = refl;
            bound = h;
            busy = inr (ground arith);
            max_batch_size = refl;
          })
    | inl room ↦
        (let s' = admit_one clock seq s in
          let (grows, same) = admit_one-bound seq s in
          let r = admit_from-Admits ws s' (ground (arith, grows, same)) in
          rw (room, admit_from)
            (record {
              taken = seq ∷ r.taken;
              in_order = ap (◌∷◌ seq) r.in_order;
              bound = omega (arith, r.bound, same);
              busy = elim r.busy [ inl e ↦ inl e | inr e ↦ inr (e ∙ same) ];
              max_batch_size = r.max_batch_size ∙ same;
            }))
  ]

  -- From a batch within its limit, `_admit` takes sequences in the order of arrival, never exceeds
  -- the limit, and leaves a sequence waiting only where the batch is full.
  pub admit-Admits :
      (s : Scheduler) → length s.active ≤ s.max_batch_size → Admits s.waiting s (admit clock s)
  unfolding admit
  admit-Admits s h = admit_from-Admits s.waiting s h

  arrive_all-batch :
      (arrivals : List Arrival) (s : Scheduler)
      → ((arrive_all clock arrivals s).active ≡ s.active)
        × ((arrive_all clock arrivals s).max_batch_size ≡ s.max_batch_size)
  unfolding arrive_all
  arrive_all-batch [] s = (refl, refl)
  arrive_all-batch (submits req req_id ∷ arrivals) s = arrive_all-batch arrivals _
  arrive_all-batch (allocates b ∷ arrivals) s = arrive_all-batch arrivals _

module _ (clock : ℕ → ℕ) (next_token : Text → ℤ → Text) where
  length-forward-le : (s : Scheduler) → length (forward clock next_token s).active ≤ length s.active
  unfolding forward
  length-forward-le s = omega (
    arith,
    length-retire-le (finished s.active)
        (record (emit_all clock next_token s.active s) { active = advance_all s.active }),
    length-advance_all s.active,
  )

  -- A round with an empty batch only lets others work; any other ends with a forward pass.
  pub round_idle :
      (arrivals : List Arrival) (s : Scheduler)
      → (length (admit clock s).active == 0) ≡ true
      → round clock next_token arrivals s ≡ arrive_all clock arrivals (admit clock s)
  unfolding round
  round_idle arrivals s e = rw e

  pub round_busy :
      (arrivals : List Arrival) (s : Scheduler)
      → (length (admit clock s).active == 0) ≡ false
      → round clock next_token arrivals s
        ≡ forward clock next_token (arrive_all clock arrivals (admit clock s))
  unfolding round
  round_busy arrivals s e = rw e

  -- A round makes a batch that is within its limit no larger than the limit, and the limit stays.
  pub round-bound :
      (arrivals : List Arrival) (s : Scheduler)
      → length s.active ≤ s.max_batch_size
      → let s' = round clock next_token arrivals s in
        (length s'.active ≤ s'.max_batch_size) × (s'.max_batch_size ≡ s.max_batch_size)
  round-bound arrivals s h =
      let a = admit-Admits clock s h in
      let (same, limit) = arrive_all-batch clock arrivals (admit clock s) in
      elim (Bool-cases (length (admit clock s).active == 0)) [
        | inl e ↦
            rw (round_idle arrivals s e, same, limit)
              (rw a.max_batch_size a.bound, a.max_batch_size)
        | inr e ↦
            (let s' = arrive_all clock arrivals (admit clock s) in
              let f = forward-Emits clock next_token s' in
              rw (round_busy arrivals s e) (
                omega (
                  arith,
                  length-forward-le s',
                  ap length same,
                  f.3,
                  limit,
                  a.bound,
                  a.max_batch_size,
                ),
                f.3 ∙ (limit ∙ a.max_batch_size),
              ))
      ]

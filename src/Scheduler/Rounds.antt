-- ===== src/Scheduler/Rounds.antt =====
-- Rounds of the scheduler's loop, with requests arriving in between.
use mathlib.Core.List.{append_assoc}
use mini_dynamo.Prelude.{
  ℤ, pos, ℕ, zero, suc, ◌+◌, ◌==◌, ◌≡◌, ◌≢◌, refl, sym, ◌∙◌, ap, subst, true, false, none, some,
  List, [], ◌∷◌, ◌++◌, Text, Text_discrete, All, All-append, All-map, All-zip, arith, Bool-cases,
  inl, inr, length,
}
use mini_dynamo.Dict.{Dict, get, values}
use mini_dynamo.Models.{DecodeRequest}
use mini_dynamo.Scheduler.{
  Seq, Scheduler, advance, is_done, Arrival, submits, allocates, arrive, arrive_all, admit, forward,
  round, run,
}
use mini_dynamo.Scheduler.Queues.{forward-Emits}
use mini_dynamo.Scheduler.Batch.{round_idle, round_busy}
use mini_dynamo.Scheduler.Distinct.{Distinct-last}
use mini_dynamo.Scheduler.Streaming.{IsStreaming, transcript}
use mini_dynamo.Scheduler.Forward.{forward-IsStreaming, forward_goes_on, forward_finishes}
use mini_dynamo.Scheduler.Admission.{Keeps, Keeps-trans, admit-IsStreaming}

-- A request id that no sequence of the scheduler has.
abbrev pub IsNew : Text → Scheduler → Type 0
IsNew req_id s = All (λ x. x.req_id ≢ req_id) (values s.active ++ s.waiting)

-- A batch that shows a sequence is not empty.
batch_busy :
    (k : Text) (x : Seq) (d : Dict Text Seq)
    → get Text_discrete k d ≡ some x
    → (length d == 0) ≡ false
unfolding get
batch_busy k x [] e = cc
batch_busy k x (y ∷ d) e = ground arith

is_done_last : (x : Seq) → x.max_tokens ≡ pos (x.generated + 1) → is_done x ≡ true
unfolding is_done
is_done_last x m = rw m (ground arith)

is_done_before :
    (x : Seq) (n : ℕ) → x.max_tokens ≡ pos (x.generated + suc (suc n)) → is_done x ≡ false
unfolding is_done
is_done_before x n m = rw m (ground arith)

module _ (clock : ℕ → ℕ) (next_token : Text → ℤ → Text) where
  -- Each request that arrives has a new id.
  abbrev pub AreNew : List Arrival → Scheduler → Type 0
  AreNew [] s = Unit
  AreNew (submits req req_id ∷ arrivals) s =
      IsNew req_id s × AreNew arrivals (arrive clock (submits req req_id) s)
  AreNew (allocates b ∷ arrivals) s = AreNew arrivals (arrive clock (allocates b) s)

  submit-IsStreaming :
      (req : DecodeRequest) (req_id : Text) (s : Scheduler)
      → IsNew req_id s
      → IsStreaming next_token s.waiting s
      → let s' = arrive clock (submits req req_id) s in
        IsStreaming next_token s'.waiting s' × Keeps s s'
  unfolding arrive
  submit-IsStreaming req req_id s new v = (
    record {
      distinct = rw (← append_assoc) (
          Distinct-last (values s.active ++ s.waiting) _ v.distinct (
            All-zip _ _ _ (values s.active ++ s.waiting)
              (λ x a lt. record { ids = a; queues = λ e. omega arith }) new v.numbered));
      numbered = rw (← append_assoc) (
          All-append _ (values s.active ++ s.waiting) _
            (All-map _ _ (values s.active ++ s.waiting) (λ x lt. omega arith) v.numbered)
            (omega arith, tt));
      unique = v.unique;
      keyed = v.keyed;
      streaming = v.streaming;
      idle = All-append _ s.waiting _ v.idle ((refl, v.unused s.next_queue (omega arith)), tt);
      unused = λ q h. v.unused q (omega arith);
    },
    record { stays = λ k x e. e; quiet = λ k x e. refl },
  )

  allocates-IsStreaming :
      (b : _) (s : Scheduler)
      → IsStreaming next_token s.waiting s
      → let s' = arrive clock (allocates b) s in IsStreaming next_token s'.waiting s' × Keeps s s'
  unfolding arrive
  allocates-IsStreaming b s v = (
    record {
      distinct = v.distinct;
      numbered = v.numbered;
      unique = v.unique;
      keyed = v.keyed;
      streaming = v.streaming;
      idle = v.idle;
      unused = v.unused;
    },
    record { stays = λ k x e. e; quiet = λ k x e. refl },
  )

  arrive_all-IsStreaming :
      (arrivals : List Arrival) (s : Scheduler)
      → AreNew arrivals s
      → IsStreaming next_token s.waiting s
      → let s' = arrive_all clock arrivals s in IsStreaming next_token s'.waiting s' × Keeps s s'
  unfolding arrive_all
  arrive_all-IsStreaming [] s new v = (v, record { stays = λ k x e. e; quiet = λ k x e. refl })
  arrive_all-IsStreaming (submits req req_id ∷ arrivals) s new v =
      let s' = arrive clock (submits req req_id) s in
      let (v', keeps) = submit-IsStreaming req req_id s new.0 v in
      let (v'', keeps') = arrive_all-IsStreaming arrivals s' new.1 v' in
      (v'', Keeps-trans s s' (arrive_all clock arrivals s') keeps keeps')
  arrive_all-IsStreaming (allocates b ∷ arrivals) s new v =
      let s' = arrive clock (allocates b) s in
      let (v', keeps) = allocates-IsStreaming b s v in
      let (v'', keeps') = arrive_all-IsStreaming arrivals s' new v' in
      (v'', Keeps-trans s s' (arrive_all clock arrivals s') keeps keeps')

  -- The state in which the round's forward pass, if any, finds the scheduler.
  abbrev pub before_pass : List Arrival → Scheduler → Scheduler
  before_pass arrivals s = arrive_all clock arrivals (admit clock s)

  before_pass-IsStreaming :
      (arrivals : List Arrival) (s : Scheduler)
      → AreNew arrivals (admit clock s)
      → IsStreaming next_token s.waiting s
      → IsStreaming next_token (before_pass arrivals s).waiting (before_pass arrivals s)
        × Keeps s (before_pass arrivals s)
  before_pass-IsStreaming arrivals s new v =
      let (v', keeps) = admit-IsStreaming clock next_token s v in
      let (v'', keeps') = arrive_all-IsStreaming arrivals (admit clock s) new v' in
      (v'', Keeps-trans s (admit clock s) (before_pass arrivals s) keeps keeps')

  -- Every round, with whatever new requests arriving, keeps the invariant: each active sequence's
  -- queue holds exactly the tokens generated so far, in order, and each waiting sequence's queue
  -- is empty.
  pub round-IsStreaming :
      (arrivals : List Arrival) (s : Scheduler)
      → AreNew arrivals (admit clock s)
      → IsStreaming next_token s.waiting s
      → let s' = round clock next_token arrivals s in IsStreaming next_token s'.waiting s'
  round-IsStreaming arrivals s new v =
      let s' = before_pass arrivals s in
      let (v', keeps) = before_pass-IsStreaming arrivals s new v in
      elim (Bool-cases (length (admit clock s).active == 0)) [
        | inl e ↦ rw (round_idle clock next_token arrivals s e) v'
        | inr e ↦ rw (round_busy clock next_token arrivals s e) (
            subst (λ ws. IsStreaming next_token ws (forward clock next_token s'))
              (sym (forward-Emits clock next_token s').1)
              (forward-IsStreaming clock next_token s'.waiting s' v'))
      ]

  active_round :
      (k : Text) (x : Seq) (arrivals : List Arrival) (s : Scheduler)
      → IsStreaming next_token s.waiting s
      → get Text_discrete k s.active ≡ some x
      → round clock next_token arrivals s ≡ forward clock next_token (before_pass arrivals s)
  active_round k x arrivals s v e = round_busy clock next_token arrivals s (
      batch_busy k x (admit clock s).active
        ((admit-IsStreaming clock next_token s v).1.stays k x e))

  -- An active sequence takes part in every round: short of its last token it goes on with one more.
  pub round_goes_on :
      (k : Text) (x : Seq) (arrivals : List Arrival) (s : Scheduler)
      → AreNew arrivals (admit clock s)
      → IsStreaming next_token s.waiting s
      → get Text_discrete k s.active ≡ some x
      → is_done x ≡ false
      → get Text_discrete k (round clock next_token arrivals s).active ≡ some (advance x)
  round_goes_on k x arrivals s new v e more =
      let s' = before_pass arrivals s in
      let (v', keeps) = before_pass-IsStreaming arrivals s new v in
      rw (active_round k x arrivals s v e)
        ((forward_goes_on clock next_token s'.waiting s' k x v' (keeps.stays k x e) more).0)

  -- In a state with the streaming invariant, an active sequence that is at its last token leaves
  -- the batch in the next round, with its whole transcript on its queue.
  pub round_finishes :
      (k : Text) (x : Seq) (arrivals : List Arrival) (s : Scheduler)
      → AreNew arrivals (admit clock s)
      → IsStreaming next_token s.waiting s
      → get Text_discrete k s.active ≡ some x
      → is_done x ≡ true
      → let s' = round clock next_token arrivals s in
        (get Text_discrete k s'.active ≡ none)
        × (s'.queues x.out_queue
            ≡ transcript next_token x.session_id x.num_prompt_tokens (x.generated + 1))
  round_finishes k x arrivals s new v e last =
      let s' = before_pass arrivals s in
      let (v', keeps) = before_pass-IsStreaming arrivals s new v in
      rw (active_round k x arrivals s v e)
        (forward_finishes clock next_token s'.waiting s' k x v' (keeps.stays k x e) last)

  -- The requests of every round have new ids.
  abbrev pub AllNew : List (List Arrival) → Scheduler → Type 0
  AllNew [] s = Unit
  AllNew (arrivals ∷ rounds) s =
      AreNew arrivals (admit clock s) × AllNew rounds (round clock next_token arrivals s)

  -- From a state with the streaming invariant, an active sequence with `n + 1` tokens to go is
  -- done after `n + 1` rounds, with whatever new requests arriving: it has left the batch, and its
  -- queue holds its `max_tokens` tokens in order and the final chunk.
  pub run_completes :
      (n : ℕ) (rounds : List (List Arrival)) (k : Text) (x : Seq) (s : Scheduler)
      → length rounds ≡ suc n
      → AllNew rounds s
      → IsStreaming next_token s.waiting s
      → get Text_discrete k s.active ≡ some x
      → x.max_tokens ≡ pos (x.generated + suc n)
      → let s' = run clock next_token rounds s in
        (get Text_discrete k s'.active ≡ none)
        × (s'.queues x.out_queue
            ≡ transcript next_token x.session_id x.num_prompt_tokens (x.generated + suc n))
  unfolding run advance
  run_completes n [] k x s len new v e m = absurd (omega arith)
  run_completes zero (arrivals ∷ []) k x s len new v e m =
      round_finishes k x arrivals s new.0 v e (is_done_last x m)
  run_completes zero (arrivals ∷ more ∷ rounds) k x s len new v e m = absurd (omega arith)
  run_completes (suc n) (arrivals ∷ rounds) k x s len new v e m =
      let s' = round clock next_token arrivals s in
      let more : x.generated + suc (suc n) ≡ x.generated + 1 + suc n = omega arith in
      let on = round_goes_on k x arrivals s new.0 v e (is_done_before x n m) in
      let r =
        run_completes n rounds k (advance x) s' (omega arith) new.1
          (round-IsStreaming arrivals s new.0 v) on (m ∙ ap pos more) in
      subst
        (λ t.
          (get Text_discrete k (run clock next_token rounds s').active ≡ none)
          × ((run clock next_token rounds s').queues x.out_queue
              ≡ transcript next_token x.session_id x.num_prompt_tokens t))
        (sym more) r

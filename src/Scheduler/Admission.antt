-- ===== src/Scheduler/Admission.antt =====
-- Admission and arrivals keep every queue as the invariant says, and disturb no active sequence.
use mini_dynamo.Prelude.{
  ℤ, ltb, ℕ, ◌<◌, ◌≤◌, ◌≡◌, ◌≢◌, refl, sym, ◌∙◌, none, some, List, [], ◌∷◌, ◌++◌, Text,
  Text_discrete, All, All-append_right, All-zip, arith, Option-cases, Bool-cases, inl, inr, length,
}
use mini_dynamo.Dict.{get, put, values}
use mini_dynamo.Dict.Laws.{get-put, put-IsUnique}
use mini_dynamo.Dict.Entries.{All-put, All-get}
use mini_dynamo.Models.{TokenChunk}
use mini_dynamo.Memory.{MemorySimulator, Error, Outcome, ok, raise, allocate}
use mini_dynamo.Scheduler.{
  Seq, Scheduler, put_chunk, admitted, admit_one, admit_from, admit, block_of,
}
use mini_dynamo.Scheduler.Distinct.{
  Apart, Distinct-append_right, drop-All, Distinct-across, Distinct-drop, All-values_get,
  values-put_absent,
}
use mini_dynamo.Scheduler.Streaming.{stream, sent, IsStreaming}

-- A sequence of the batch stays in it, and its queue is left alone.
pub record Keeps (s s' : Scheduler) : Type 0 where
  pub stays :
      (k : Text) (x : Seq)
      → get Text_discrete k s.active ≡ some x
      → get Text_discrete k s'.active ≡ some x
  pub quiet :
      (k : Text) (x : Seq)
      → get Text_discrete k s.active ≡ some x
      → s'.queues x.out_queue ≡ s.queues x.out_queue

pub Keeps-trans : (s t u : Scheduler) → Keeps s t → Keeps t u → Keeps s u
Keeps-trans s t u a b = record {
  stays = λ k x e. b.stays k x (a.stays k x e);
  quiet = λ k x e. b.quiet k x (a.stays k x e) ∙ a.quiet k x e;
}

module _ (clock : ℕ → ℕ) (next_token : Text → ℤ → Text) (seq : Seq) (ws : List Seq)
    (s : Scheduler) where
  module _ (v : IsStreaming next_token (seq ∷ ws) s) where
    apart : All (λ x. Apart x seq) (values s.active)
    apart =
        (Distinct-across (values s.active) (seq ∷ ws)
          (λ x. (x.generated ≡ 0) × (s.queues x.out_queue ≡ [])) v.distinct v.idle).0.0

    absent : get Text_discrete seq.req_id s.active ≡ none
    absent = elim (Option-cases (get Text_discrete seq.req_id s.active)) [
      | inl e ↦ e
      | inr (x, e) ↦ absurd (
          (All-values_get (λ y. Apart y seq) seq.req_id x s.active apart e).ids
            (All-get Text_discrete (λ y. y.1.req_id ≡ y.0) seq.req_id x s.active v.keyed e))
    ]

    same_values :
        values (put Text_discrete seq.req_id seq s.active) ++ ws ≡ values s.active ++ seq ∷ ws
    same_values = values-put_absent seq.req_id seq s.active ws absent

    other_queue :
        (k : Text) (x : Seq) → get Text_discrete k s.active ≡ some x → seq.out_queue ≢ x.out_queue
    other_queue k x e = λ q. (All-values_get (λ y. Apart y seq) k x s.active apart e).queues (sym q)

    fits_streaming :
        (k : Text) (x : Seq)
        → get Text_discrete k (put Text_discrete seq.req_id seq s.active) ≡ some x
        → s.queues x.out_queue ≡ sent next_token x
    unfolding stream
    fits_streaming k x e = elim (Text_discrete seq.req_id k) [
      | yes hit ↦
          (let same : seq ≡ x = ground (arith, get-put Text_discrete seq.req_id k seq s.active) in
            rw (← same, v.idle.0.0) (v.idle.0.1))
      | no miss ↦ v.streaming k x (ground (arith, get-put Text_discrete seq.req_id k seq s.active))
    ]

    fits-IsStreaming :
        (ids : List Text) (m : MemorySimulator)
        → IsStreaming next_token ws (admitted clock seq (ok ids, m) s)
    unfolding admitted
    fits-IsStreaming ids m = record {
      distinct = rw same_values v.distinct;
      numbered = rw same_values v.numbered;
      unique = put-IsUnique Text_discrete seq.req_id seq s.active v.unique;
      keyed = All-put Text_discrete (λ e. e.1.req_id ≡ e.0) seq.req_id seq s.active refl v.keyed;
      streaming = fits_streaming;
      idle = v.idle.1;
      unused = v.unused;
    }

    quiet_other :
        (c : TokenChunk) (q : ℕ)
        → seq.out_queue ≢ q
        → put_chunk seq.out_queue c s.queues q ≡ s.queues q
    unfolding put_chunk
    quiet_other c q h = ground arith

    number_differs : (q : ℕ) → s.next_queue ≤ q → seq.out_queue ≢ q
    number_differs q h eq =
        let lt =
          (All-append_right (λ x. x.out_queue < s.next_queue) (values s.active) (seq ∷ ws)
            v.numbered).0 in
        absurd (omega arith)

    raises-IsStreaming :
        (e : _) (m : MemorySimulator)
        → IsStreaming next_token ws (admitted clock seq (raise e, m) s)
    unfolding admitted
    raises-IsStreaming e m = record {
      distinct = Distinct-drop (values s.active) seq ws v.distinct;
      numbered = drop-All (λ x. x.out_queue < s.next_queue) (values s.active) seq ws v.numbered;
      unique = v.unique;
      keyed = v.keyed;
      streaming = λ k x h. quiet_other _ x.out_queue (other_queue k x h) ∙ v.streaming k x h;
      idle =
          All-zip _ _ _ ws (λ y old a. (old.0, quiet_other _ y.out_queue a.queues ∙ old.1)) v.idle.1
            (Distinct-append_right (values s.active) (seq ∷ ws) v.distinct).0;
      unused = λ q h. quiet_other _ q (λ eq. number_differs q h eq) ∙ v.unused q h;
    }

    fits-Keeps :
        (ids : List Text) (m : MemorySimulator) → Keeps s (admitted clock seq (ok ids, m) s)
    unfolding admitted
    fits-Keeps ids m = record {
      stays = λ k x e. ground (arith, get-put Text_discrete seq.req_id k seq s.active, absent, e);
      quiet = λ k x e. refl;
    }

    raises-Keeps : (e : Error) (m : MemorySimulator) → Keeps s (admitted clock seq (raise e, m) s)
    unfolding admitted
    raises-Keeps e m = record {
      stays = λ k x h. h;
      quiet = λ k x h. quiet_other _ x.out_queue (other_queue k x h);
    }

    pub admit_one_lem :
        IsStreaming next_token ws (admit_one clock seq s) × Keeps s (admit_one clock seq s)
    unfolding admit_one
    admit_one_lem = go (allocate (block_of clock seq s) s.memory)
      where
        go :
            (r : Outcome × MemorySimulator)
            → IsStreaming next_token ws (admitted clock seq r s) × Keeps s (admitted clock seq r s)
        go (ok ids, m) = (fits-IsStreaming ids m, fits-Keeps ids m)
        go (raise e, m) = (raises-IsStreaming e m, raises-Keeps e m)

module _ (clock : ℕ → ℕ) (next_token : Text → ℤ → Text) where
  set_waiting-IsStreaming :
      (ws us : List Seq) (s : Scheduler)
      → IsStreaming next_token ws s
      → IsStreaming next_token ws (record s { waiting = us })
  set_waiting-IsStreaming ws us s v = record {
    distinct = v.distinct;
    numbered = v.numbered;
    unique = v.unique;
    keyed = v.keyed;
    streaming = v.streaming;
    idle = v.idle;
    unused = v.unused;
  }

  pub admit_from_lem :
      (ws : List Seq) (s : Scheduler)
      → IsStreaming next_token ws s
      → let s' = admit_from clock ws s in IsStreaming next_token s'.waiting s' × Keeps s s'
  unfolding admit_from
  admit_from_lem [] s v =
      (set_waiting-IsStreaming [] [] s v, record { stays = λ k x e. e; quiet = λ k x e. refl })
  admit_from_lem (seq ∷ ws) s v = elim (Bool-cases (ltb (length s.active) s.max_batch_size)) [
    | inr full ↦
        rw (full, admit_from)
          (
            set_waiting-IsStreaming (seq ∷ ws) (seq ∷ ws) s v,
            record { stays = λ k x e. e; quiet = λ k x e. refl },
          )
    | inl room ↦
        (let (v', keeps) = admit_one_lem clock next_token seq ws s v in
          let (v'', keeps') = admit_from_lem ws (admit_one clock seq s) v' in
          rw (room, admit_from)
            (
              v'',
              Keeps-trans s (admit_one clock seq s) (admit_from clock ws (admit_one clock seq s))
                  keeps keeps',
            ))
  ]

  -- `_admit` keeps the streaming invariant, takes no active sequence out and writes to no active
  -- queue.
  pub admit-IsStreaming :
      (s : Scheduler)
      → IsStreaming next_token s.waiting s
      → let s' = admit clock s in IsStreaming next_token s'.waiting s' × Keeps s s'
  unfolding admit
  admit-IsStreaming s v = admit_from_lem s.waiting s v

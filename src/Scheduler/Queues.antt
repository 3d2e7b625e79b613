-- ===== src/Scheduler/Queues.antt =====
-- What each operation of the scheduler adds to each queue.
use mathlib.Core.List.{append-nil, append_assoc}
use mini_dynamo.Prelude.{
  ℤ, ℕ, ◌+◌, ◌==◌, ◌≡◌, refl, sym, ◌∙◌, ap, List, [], ◌∷◌, ◌++◌, Text, Text_discrete, if◌then◌else◌,
  length, arith, inl, inr, Option-cases,
}
use mini_dynamo.Dict.{Dict, get, remove}
use mini_dynamo.Models.{TokenChunk}
use mini_dynamo.Memory.{free}
use mini_dynamo.Scheduler.{
  Seq, Scheduler, put_chunk, put_all, emitted, emit_one, emit_all, retire, forward, finished,
  advance_all,
}

pub put_all_lem :
    (p q : ℕ) (chunks : List TokenChunk) (queues : ℕ → List TokenChunk)
    → put_all p chunks queues q ≡ (if p == q then queues q ++ chunks else queues q)
unfolding put_all put_chunk
put_all_lem p q [] queues = simp append-nil (ground arith)
put_all_lem p q (c ∷ chunks) queues =
    ground (
      arith,
      put_all_lem p q chunks (put_chunk p c queues),
      append_assoc (queues q) (c ∷ []) chunks,
    )

-- What retiring leaves alone.
pub record SameButBatch (s s' : Scheduler) : Type 0 where
  pub queues : s'.queues ≡ s.queues
  pub waiting : s'.waiting ≡ s.waiting
  pub next_queue : s'.next_queue ≡ s.next_queue
  pub max_batch_size : s'.max_batch_size ≡ s.max_batch_size
  pub tokens_total : s'.tokens_total ≡ s.tokens_total

pub retire-SameButBatch : (ids : List Text) (s : Scheduler) → SameButBatch s (retire ids s)
unfolding retire
retire-SameButBatch [] s = record {
  queues = refl;
  waiting = refl;
  next_queue = refl;
  max_batch_size = refl;
  tokens_total = refl;
}
retire-SameButBatch (id ∷ ids) s = elim (Option-cases (get Text_discrete id s.active)) [
  | inl e ↦ rw (e, retire) (retire-SameButBatch ids s)
  | inr (seq, e) ↦
      (let r = retire-SameButBatch ids (record s {
        active = remove Text_discrete id s.active;
        memory = (free seq.kv_cache_id s.memory).1;
      }) in
        rw (e, retire)
          (record {
            queues = r.queues;
            waiting = r.waiting;
            next_queue = r.next_queue;
            max_batch_size = r.max_batch_size;
            tokens_total = r.tokens_total;
          }))
]

module _ (clock : ℕ → ℕ) (next_token : Text → ℤ → Text) where
  -- The chunks that a pass over the batch owes to the queue `q`.
  unfoldable pub due : ℕ → Dict Text Seq → List TokenChunk
  due q [] = []
  due q (e ∷ d) = (if e.1.out_queue == q then emitted clock next_token e.1 else []) ++ due q d

  pub record Emits (d : Dict Text Seq) (s s' : Scheduler) : Type 0 where
    pub queues : (q : ℕ) → s'.queues q ≡ s.queues q ++ due q d
    pub active : s'.active ≡ s.active
    pub waiting : s'.waiting ≡ s.waiting
    pub next_queue : s'.next_queue ≡ s.next_queue
    pub max_batch_size : s'.max_batch_size ≡ s.max_batch_size
    pub tokens_total : s'.tokens_total ≡ s.tokens_total + length d

  emit_all-Emits : (d : Dict Text Seq) (s : Scheduler) → Emits d s (emit_all clock next_token d s)
  unfolding emit_all due
  emit_all-Emits [] s = record {
    queues = λ q. sym (append-nil _);
    active = refl;
    waiting = refl;
    next_queue = refl;
    max_batch_size = refl;
    tokens_total = omega arith;
  }
  emit_all-Emits (e ∷ d) s =
      let r = emit_all-Emits d (emit_one clock next_token e.1 s) in
      record {
        queues = λ q. ground (
          arith,
          r.queues q,
          put_all_lem e.1.out_queue q (emitted clock next_token e.1) s.queues,
          append_assoc (s.queues q) (emitted clock next_token e.1) (due q d),
        );
        active = r.active;
        waiting = r.waiting;
        next_queue = r.next_queue;
        max_batch_size = r.max_batch_size;
        tokens_total = omega (arith, r.tokens_total);
      }

  -- A forward pass adds to each queue what it is due, counts one token for each active sequence,
  -- and touches neither the waiting sequences nor the queues' numbering.
  pub forward-Emits :
      (s : Scheduler)
      → ((q : ℕ) → (forward clock next_token s).queues q ≡ s.queues q ++ due q s.active)
        × ((forward clock next_token s).waiting ≡ s.waiting)
        × ((forward clock next_token s).next_queue ≡ s.next_queue)
        × ((forward clock next_token s).max_batch_size ≡ s.max_batch_size)
        × ((forward clock next_token s).tokens_total ≡ s.tokens_total + length s.active)
  unfolding forward
  forward-Emits s =
      let r = emit_all-Emits s.active s in
      let t =
        retire-SameButBatch (finished s.active)
          (record (emit_all clock next_token s.active s) { active = advance_all s.active }) in
      (
        λ q. ap (λ f. f q) t.queues ∙ r.queues q,
        t.waiting ∙ r.waiting,
        t.next_queue ∙ r.next_queue,
        t.max_batch_size ∙ r.max_batch_size,
        t.tokens_total ∙ r.tokens_total,
      )

-- ===== src/Scheduler/Forward.antt =====
-- One forward pass: each active sequence is sent its next token, and a finished one its last chunk.
use mathlib.Core.List.{append_assoc}
use mathlib.Core.Option
use native.Mathlib.Numerals.{add-one}
use mini_dynamo.Prelude.{
  ℤ, pos, ◌+ℤ◌, ℕ, ◌+◌, ◌<◌, ◌≤◌, ◌≡◌, ◌≢◌, sym, ◌∙◌, ap, true, false, none, some, List, [], ◌∷◌,
  ◌++◌, Text, Text_discrete, codes, All, All-append_left, All-map, if◌then◌else◌, arith,
  Option-cases, Bool-cases, inl, inr,
}
use mini_dynamo.Dict.{Dict, get, remove, values, IsUnique}
use mini_dynamo.Dict.Laws.{remove-IsUnique}
use mini_dynamo.Dict.Entries.{All-remove}
use mini_dynamo.Memory.{free}
use mini_dynamo.Memory.Contents.{elem}
use mini_dynamo.Scheduler.{
  Seq, Scheduler, token_chunk, finish_chunk, advance, is_done, emitted, finished, advance_all,
  retire, forward, emit_all,
}
use mini_dynamo.Scheduler.Queues.{due, forward-Emits}
use mini_dynamo.Scheduler.Batch.{get-retire, get-advance_all}
use mini_dynamo.Scheduler.Distinct.{
  Distinct, Distinct-append_left, Distinct-across, Distinct-advance_all, Distinct-remove,
  All-advance_all, All-remove-values,
}
use mini_dynamo.Scheduler.Streaming.{
  stream, transcript, sent, IsStreaming, due_own, due_waiting, due_other, elem-finished,
}

-- What removing entries keeps, retiring keeps.
retire_induction :
    (P : Dict Text Seq → Type 0)
    → ((k : Text) (d : Dict Text Seq) → P d → P (remove Text_discrete k d))
    → (ids : List Text) (s : Scheduler) → P s.active
    → P (retire ids s).active
unfolding retire
retire_induction P keep [] s h = h
retire_induction P keep (id ∷ ids) s h = elim (Option-cases (get Text_discrete id s.active)) [
  | inl e ↦ rw (e, retire) (retire_induction P keep ids s h)
  | inr (seq, e) ↦
      rw (e, retire)
        (retire_induction P keep ids
          (record s {
            active = remove Text_discrete id s.active;
            memory = (free seq.kv_cache_id s.memory).1;
          })
          (keep id s.active h))
]

advance_all-IsUnique :
    (d : Dict Text Seq) → IsUnique Text_discrete d → IsUnique Text_discrete (advance_all d)
unfolding advance_all
advance_all-IsUnique [] u = tt
advance_all-IsUnique ((k, x) ∷ d) u =
    (get-advance_all k d ∙ ap (Option.map advance) u.0, advance_all-IsUnique d u.1)

advance_all-keyed :
    (d : Dict Text Seq)
    → All (λ e. e.1.req_id ≡ e.0) d
    → All (λ e. e.1.req_id ≡ e.0) (advance_all d)
unfolding advance_all
advance_all-keyed [] h = tt
advance_all-keyed (e ∷ d) h = (h.0, advance_all-keyed d h.1)

numbered_advance : (n : ℕ) (x : Seq) → x.out_queue < n → (advance x).out_queue < n
unfolding advance
numbered_advance n x h = h

stream-next :
    (next_token : Text → ℤ → Text) (session : Text) (base : ℤ) (n : ℕ)
    → stream next_token session base (n + 1)
      ≡ stream next_token session base n ++ token_chunk (next_token session (base +ℤ pos n)) n ∷ []
unfolding stream
stream-next next_token session base n = rw add-one

module _ (clock : ℕ → ℕ) (next_token : Text → ℤ → Text) (ws : List Seq) (s : Scheduler) where
  get-forward :
      (k : Text)
      → get Text_discrete k (forward clock next_token s).active ≡ (
          if elem k (finished s.active)
          then none
          else Option.map advance (get Text_discrete k s.active))
  unfolding forward
  get-forward k =
      get-retire k (finished s.active)
        (record (emit_all clock next_token s.active s) { active = advance_all s.active })
      ∙ ap (λ o. if elem k (finished s.active) then none else o) (get-advance_all k s.active)

  forward_induction :
      (P : Dict Text Seq → Type 0)
      → ((k : Text) (d : Dict Text Seq) → P d → P (remove Text_discrete k d))
      → P (advance_all s.active)
      → P (forward clock next_token s).active
  unfolding forward
  forward_induction P keep h =
      retire_induction P keep (finished s.active)
        (record (emit_all clock next_token s.active s) { active = advance_all s.active }) h

  emitted_more :
      (x : Seq)
      → is_done x ≡ false
      → emitted clock next_token x
        ≡ token_chunk (next_token x.session_id (x.num_prompt_tokens +ℤ pos x.generated)) x.generated
          ∷ []
  unfolding emitted
  emitted_more x h = rw h

  emitted_last :
      (x : Seq)
      → is_done x ≡ true
      → emitted clock next_token x
        ≡ token_chunk (next_token x.session_id (x.num_prompt_tokens +ℤ pos x.generated)) x.generated
          ∷ finish_chunk (x.generated + 1) (codes "length")
          ∷ []
  unfolding emitted
  emitted_last x h = rw h

  queue-forward :
      (k : Text) (x : Seq)
      → IsStreaming next_token ws s
      → get Text_discrete k s.active ≡ some x
      → (forward clock next_token s).queues x.out_queue
        ≡ sent next_token x ++ emitted clock next_token x
  queue-forward k x v e =
      let own = due_own clock next_token k x s.active (Distinct-append_left _ ws v.distinct) e in
      (forward-Emits clock next_token s).0 x.out_queue
      ∙ (ap (λ c. c ++ due clock next_token x.out_queue s.active) (v.streaming k x e)
          ∙ ap (◌++◌ (sent next_token x)) own)

  -- A sequence short of its last token is sent that token and stays in the batch.
  pub forward_goes_on :
      (k : Text) (x : Seq)
      → IsStreaming next_token ws s
      → get Text_discrete k s.active ≡ some x
      → is_done x ≡ false
      → let s' = forward clock next_token s in
        (get Text_discrete k s'.active ≡ some (advance x))
        × (s'.queues x.out_queue ≡ sent next_token (advance x))
  unfolding advance
  forward_goes_on k x v e more = (
    ground (arith, get-forward k, elem-finished k x s.active v.unique e),
    queue-forward k x v e
        ∙ (ap (◌++◌ (sent next_token x)) (emitted_more x more)
            ∙ sym (stream-next next_token x.session_id x.num_prompt_tokens x.generated)),
  )

  -- A sequence at its last token is sent that token and the final chunk, and leaves the batch.
  pub forward_finishes :
      (k : Text) (x : Seq)
      → IsStreaming next_token ws s
      → get Text_discrete k s.active ≡ some x
      → is_done x ≡ true
      → let s' = forward clock next_token s in
        (get Text_discrete k s'.active ≡ none)
        × (s'.queues x.out_queue
            ≡ transcript next_token x.session_id x.num_prompt_tokens (x.generated + 1))
  unfolding transcript
  forward_finishes k x v e last = (
    ground (arith, get-forward k, elem-finished k x s.active v.unique e),
    queue-forward k x v e
        ∙ (ap (◌++◌ (sent next_token x)) (emitted_last x last)
            ∙ rw stream-next (sym (append_assoc (sent next_token x) (_ ∷ []) (_ ∷ [])))),
  )

  forward_streaming :
      (k : Text) (x : Seq)
      → IsStreaming next_token ws s
      → get Text_discrete k (forward clock next_token s).active ≡ some x
      → (forward clock next_token s).queues x.out_queue ≡ sent next_token x
  unfolding advance
  forward_streaming k x v e = elim (Option-cases (get Text_discrete k s.active)) [
    | inl gone ↦ absurd (ground (arith, get-forward k))
    | inr (y, at_y) ↦ elim (Bool-cases (is_done y)) [
      | inl last ↦ cc ((forward_finishes k y v at_y last).0)
      | inr more ↦
          (let g = forward_goes_on k y v at_y more in
            let same : advance y ≡ x = ground (arith, g.0, e) in rw (← same) (g.1))
    ]
  ]

  forward_unused :
      (q : ℕ)
      → IsStreaming next_token ws s
      → s.next_queue ≤ q
      → (forward clock next_token s).queues q ≡ []
  forward_unused q v h =
      (forward-Emits clock next_token s).0 q
      ∙ (ap (λ c. c ++ due clock next_token q s.active) (v.unused q h)
          ∙ due_other clock next_token q s.active (
              All-map _ (λ x. x.out_queue ≢ q) (values s.active) (λ x lt eq. omega arith)
                (All-append_left _ (values s.active) ws v.numbered)))

  -- The pass keeps the invariant.
  pub forward-IsStreaming :
      IsStreaming next_token ws s → IsStreaming next_token ws (forward clock next_token s)
  forward-IsStreaming v = record {
    distinct =
        forward_induction (λ d. Distinct (values d ++ ws)) (λ k d. Distinct-remove k d ws)
          (Distinct-advance_all s.active ws v.distinct);
    numbered = rw (forward-Emits clock next_token s).2 (
        forward_induction (λ d. All (λ x. x.out_queue < s.next_queue) (values d ++ ws))
          (λ k d. All-remove-values (λ x. x.out_queue < s.next_queue) k d ws)
          (All-advance_all (λ x. x.out_queue < s.next_queue) s.active ws
            (numbered_advance s.next_queue) v.numbered));
    unique =
        forward_induction (IsUnique Text_discrete) (remove-IsUnique Text_discrete)
          (advance_all-IsUnique s.active v.unique);
    keyed =
        forward_induction (λ d. All (λ e. e.1.req_id ≡ e.0) d)
          (All-remove Text_discrete (λ e. e.1.req_id ≡ e.0)) (advance_all-keyed s.active v.keyed);
    streaming = λ k x e. forward_streaming k x v e;
    idle =
        All-map _ _ ws
          (λ y h. (
            h.1.0,
            (forward-Emits clock next_token s).0 y.out_queue
                ∙ (ap (λ c. c ++ due clock next_token y.out_queue s.active) h.1.1
                    ∙ due_waiting clock next_token s.active y h.0),
          ))
          (Distinct-across (values s.active) ws
            (λ x. (x.generated ≡ 0) × (s.queues x.out_queue ≡ [])) v.distinct v.idle);
    unused = λ q h. forward_unused q v (rw (forward-Emits clock next_token s).2 at h);
  }

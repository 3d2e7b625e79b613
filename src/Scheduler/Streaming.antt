-- ===== src/Scheduler/Streaming.antt =====
-- The queue of an active sequence holds its tokens so far, in order, and nothing else.
use mathlib.Core.List.{append-nil}
use mini_dynamo.Prelude.{
  ℤ, pos, ◌+ℤ◌, ℕ, zero, suc, ◌<◌, ◌≤◌, ◌≡◌, ◌≢◌, refl, sym, ◌∙◌, ap, false, none, some, List, [],
  ◌∷◌, ◌++◌, Text, Text_discrete, codes, All, All-map, arith, Bool-cases, inl, inr,
}
use mini_dynamo.Dict.{Dict, get, values, IsUnique}
use mini_dynamo.Models.{TokenChunk}
use mini_dynamo.Memory.Contents.{elem}
use mini_dynamo.Scheduler.{Seq, Scheduler, token_chunk, finish_chunk, is_done, emitted, finished}
use mini_dynamo.Scheduler.Queues.{due}
use mini_dynamo.Scheduler.Distinct.{Apart, Distinct, All-values_get}

-- The first `n` chunks of a session whose tokens start at the index `base`.
unfoldable pub stream : (Text → ℤ → Text) → Text → ℤ → ℕ → List TokenChunk
stream next_token session base zero = []
stream next_token session base (suc n) =
    stream next_token session base n ++ token_chunk (next_token session (base +ℤ pos n)) n ∷ []

-- All that a request for `n` tokens is sent.
unfoldable pub transcript : (Text → ℤ → Text) → Text → ℤ → ℕ → List TokenChunk
transcript next_token session base n =
    stream next_token session base n ++ finish_chunk n (codes "length") ∷ []

module _ (next_token : Text → ℤ → Text) where
  abbrev pub sent : Seq → List TokenChunk
  sent x = stream next_token x.session_id x.num_prompt_tokens x.generated

  -- A state of the scheduler whose waiting sequences are `ws`.
  pub record IsStreaming (ws : List Seq) (s : Scheduler) : Type 0 where
    pub distinct : Distinct (values s.active ++ ws)
    pub numbered : All (λ x. x.out_queue < s.next_queue) (values s.active ++ ws)
    pub unique : IsUnique Text_discrete s.active
    pub keyed : All (λ e. e.1.req_id ≡ e.0) s.active
    pub streaming :
        (k : Text) (x : Seq) → get Text_discrete k s.active ≡ some x → s.queues x.out_queue ≡ sent x
    pub idle : All (λ x. (x.generated ≡ 0) × (s.queues x.out_queue ≡ [])) ws
    pub unused : (q : ℕ) → s.next_queue ≤ q → s.queues q ≡ []

module _ (clock : ℕ → ℕ) (next_token : Text → ℤ → Text) where
  -- A queue of no active sequence is due nothing.
  pub due_other :
      (q : ℕ) (d : Dict Text Seq)
      → All (λ x. x.out_queue ≢ q) (values d)
      → due clock next_token q d ≡ []
  unfolding due
  due_other q [] h = refl
  due_other q (e ∷ d) h = ground (arith, due_other q d h.1)

  -- An active sequence's queue is due that sequence's chunks.
  pub due_own :
      (k : Text) (x : Seq) (d : Dict Text Seq)
      → Distinct (values d)
      → get Text_discrete k d ≡ some x
      → due clock next_token x.out_queue d ≡ emitted clock next_token x
  unfolding due get
  due_own k x [] h e = cc
  due_own k x ((j, y) ∷ d) h e = elim (Text_discrete j k) [
    | yes hit ↦
        (let same : y ≡ x = ground arith in
          let rest =
            All-map _ (λ z. z.out_queue ≢ x.out_queue) (values d)
              (λ z a q. a.queues (ap (λ w. w.out_queue) same ∙ sym q)) h.0 in
          let own = due_other x.out_queue d rest in
          ground (arith, own, same, append-nil (emitted clock next_token x)))
    | no miss ↦
        (let later : get Text_discrete k d ≡ some x = ground arith in
          let a = All-values_get (Apart y) k x d h.0 later in
          let own = due_own k x d h.1 later in ground (arith, own, a.queues))
  ]

  -- What a pass adds to the queue of a sequence that waits, or that is yet to be made.
  pub due_waiting :
      (d : Dict Text Seq) (y : Seq)
      → All (λ x. Apart x y) (values d)
      → due clock next_token y.out_queue d ≡ []
  due_waiting d y h = due_other y.out_queue d (All-map _ _ (values d) (λ x a. a.queues) h)

finished_absent :
    (k : Text) (d : Dict Text Seq) → get Text_discrete k d ≡ none → elem k (finished d) ≡ false
unfolding finished get elem
finished_absent k [] e = refl
finished_absent k (x ∷ d) e = elim (Bool-cases (is_done x.1)) [
  | inl h ↦ rw (h, finished) (ground (arith, finished_absent k d))
  | inr h ↦ rw (h, finished) (ground (arith, finished_absent k d))
]

-- The ids retired are those of the sequences that are done.
pub elem-finished :
    (k : Text) (x : Seq) (d : Dict Text Seq)
    → IsUnique Text_discrete d
    → get Text_discrete k d ≡ some x
    → elem k (finished d) ≡ is_done x
unfolding finished get elem
elem-finished k x [] u e = cc
elem-finished k x ((j, y) ∷ d) u e = elim (Text_discrete j k) [
  | yes hit ↦
      (let same : y ≡ x = ground arith in
        let gone = finished_absent k d (rw hit at (u.0)) in
        elim (Bool-cases (is_done y)) [
          | inl h ↦ rw (h, finished) (ground (arith, ap is_done same))
          | inr h ↦ rw (h, finished) (ground (arith, ap is_done same, gone))
        ])
  | no miss ↦
      (let rest = elem-finished k x d u.1 (ground arith) in
        elim (Bool-cases (is_done y)) [
          | inl h ↦ rw (h, finished) (ground (arith, rest))
          | inr h ↦ rw (h, finished) rest
        ])
]

-- ===== src/Worker/Serving.antt =====
-- The stream of a node's handler: what it passes on from the scheduler's queue.
use mini_dynamo.Prelude.{
  ℤ, pos, ℕ, zero, suc, ◌+◌, ◌≡◌, refl, ap, ◌∙◌, true, none, some, List, [], ◌∷◌, ◌++◌, Text, codes,
  Text_discrete, length, All, All-append,
}
use mini_dynamo.Dict.{get}
use mini_dynamo.Models.{TokenChunk}
use mini_dynamo.Scheduler.{Seq, Scheduler, Arrival, token_chunk, finish_chunk, run}
use mini_dynamo.Scheduler.Streaming.{stream, transcript, IsStreaming}
use mini_dynamo.Scheduler.Rounds.{AllNew, run_completes}
use mini_dynamo.Worker.{pass_on}

pass_on-last :
    (xs rest : List TokenChunk) (index : ℕ) (reason : Text)
    → All (λ c. c.finish_reason ≡ none) xs
    → pass_on (xs ++ finish_chunk index reason ∷ rest)
      ≡ (xs ++ finish_chunk index reason ∷ [], true)
unfolding pass_on finish_chunk
pass_on-last [] rest index reason h = refl
pass_on-last (c ∷ xs) rest index reason h =
    let later = pass_on (xs ++ finish_chunk index reason ∷ rest) in
    ap (λ o. elim o [ some q ↦ (c ∷ [], true) | none ↦ (c ∷ later.0, later.1) ]) h.0
    ∙ ap (λ p. (c ∷ p.0, p.1)) (pass_on-last xs rest index reason h.1)

stream-unfinished :
    (next_token : Text → ℤ → Text) (session : Text) (base : ℤ) (n : ℕ)
    → All (λ c. c.finish_reason ≡ none) (stream next_token session base n)
unfolding stream token_chunk
stream-unfinished next_token session base zero = tt
stream-unfinished next_token session base (suc n) =
    All-append _ (stream next_token session base n) _ (stream-unfinished next_token session base n)
      (refl, tt)

pass_on-transcript :
    (next_token : Text → ℤ → Text) (session : Text) (base : ℤ) (n : ℕ)
    → pass_on (transcript next_token session base n) ≡ (transcript next_token session base n, true)
unfolding transcript
pass_on-transcript next_token session base n =
    pass_on-last (stream next_token session base n) [] n (codes "length")
      (stream-unfinished next_token session base n)

module _ (clock : ℕ → ℕ) (next_token : Text → ℤ → Text) where
  -- From a state with the streaming invariant, the handler of an active sequence with `n + 1`
  -- tokens to go comes to its end after `n + 1` rounds, and has passed on the sequence's
  -- `max_tokens` tokens in order and the final chunk.
  pub run_served :
      (n : ℕ) (rounds : List (List Arrival)) (k : Text) (x : Seq) (s : Scheduler)
      → length rounds ≡ suc n
      → AllNew clock next_token rounds s
      → IsStreaming next_token s.waiting s
      → get Text_discrete k s.active ≡ some x
      → x.max_tokens ≡ pos (x.generated + suc n)
      → pass_on ((run clock next_token rounds s).queues x.out_queue)
        ≡ (transcript next_token x.session_id x.num_prompt_tokens (x.generated + suc n), true)
  run_served n rounds k x s len new v e m =
      ap pass_on (run_completes clock next_token n rounds k x s len new v e m).1
      ∙ pass_on-transcript next_token x.session_id x.num_prompt_tokens (x.generated + suc n)

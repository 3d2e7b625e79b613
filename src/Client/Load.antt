-- ===== src/Client/Load.antt =====
-- The requests of a run, as the nodes see them.
use mini_dynamo.Prelude.{pos, ℕ, zero, suc, ◌≡◌, refl, ap, true}
use mini_dynamo.Sse.{is_space}
use mini_dynamo.Worker.{count_words, count_tokens}
use mini_dynamo.Client.{further_words, prompt_of}

count_words-further : (n : ℕ) → count_words true (further_words n) ≡ n
unfolding count_words further_words is_space
count_words-further zero = refl
count_words-further (suc n) = ap suc (count_words-further n)

-- A node counts as many tokens in the prompt of the load client as were asked for, and one where
-- none was.
pub count_tokens-prompt_of :
    (n : ℕ) → count_tokens (prompt_of n) ≡ elim n [ zero ↦ pos 1 | suc k ↦ pos (suc k) ]
unfolding count_tokens count_words prompt_of is_space
count_tokens-prompt_of zero = refl
count_tokens-prompt_of (suc n) = ap (λ k. pos (suc k)) (count_words-further n)

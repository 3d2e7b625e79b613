-- ===== src/Worker/Latency.antt =====
-- The latencies of common/mock_model.py. The random number of `_jittered` is an argument.
use mini_dynamo.Prelude.{ℤ, ℕ, ◌≡◌, refl, true, Text, if◌then◌else◌}
use mini_dynamo.Worker.{Costs, PrefillResult, count_tokens, compute}
use mini_dynamo.Worker.Vocabulary.{next_token}

module _ {F : Type 0} (costs : Costs F) (one : F) where
  -- `_jittered`, where `drawn` is what `random.uniform(-jitter, jitter)` returns.
  unfoldable pub jittered : F → F → F → F
  jittered base_ms jitter drawn =
      if costs.at_most_zero jitter then base_ms else costs.times base_ms (costs.plus one drawn)

  -- `tokens` is the number of tokens as a float.
  unfoldable pub prefill_latency : F → F → F → F → F → F
  unfolding jittered
  prefill_latency prefill_base_ms prefill_ms_per_token jitter tokens drawn =
      jittered (costs.plus prefill_base_ms (costs.times prefill_ms_per_token tokens)) jitter drawn

  unfoldable pub prefill : (ℤ → F) → F → F → F → ℤ → Text → F → Text → Text → PrefillResult F
  unfolding prefill_latency
  prefill float prefill_base_ms prefill_ms_per_token jitter kv_mb_per_token hex drawn session_id
        prompt =
      compute kv_mb_per_token hex
        (prefill_latency prefill_base_ms prefill_ms_per_token jitter (float (count_tokens prompt))
          drawn)
        session_id prompt

  -- One token and how long it takes.
  unfoldable pub decode_step : (Text → ℕ) → F → F → F → Text → ℤ → F × Text
  unfolding jittered
  decode_step md5 decode_ms_per_token jitter drawn session_id index =
      (jittered decode_ms_per_token jitter drawn, next_token md5 session_id index)

  -- Without jitter a prefill takes its base and its share for each token of the prompt, whatever is
  -- drawn.
  pub prefill_steady :
      (float : ℤ → F) (base per_token jitter drawn : F) (kv_mb_per_token : ℤ)
      (hex session_id prompt : Text)
      → costs.at_most_zero jitter ≡ true
      → (prefill float base per_token jitter kv_mb_per_token hex drawn session_id prompt).prefill_ms
        ≡ costs.plus base (costs.times per_token (float (count_tokens prompt)))
  unfolding prefill compute prefill_latency jittered
  prefill_steady float base per_token jitter drawn kv_mb_per_token hex session_id prompt e =
      rw e refl

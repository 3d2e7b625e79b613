-- ===== src/Worker/Tests.antt =====
-- The nodes' handlers at concrete inputs.
use mini_dynamo.Prelude.{
  ◌≢◌, ◌⊎◌, ◌≤ℤ◌, ◌<ℤ◌, false, ◌==◌, ◌*◌, ◌/◌, arith, ℤ, pos, ◌*ℤ◌, leb_ℤ, ◌+ℤ◌, ℕ, ◌+◌, ◌<◌, ◌≤◌,
  ◌≡◌, refl, true, none, some, List, [], ◌∷◌, map, codes, Text_discrete, length, All, decimal,
  if◌then◌else◌,
}
use mini_dynamo.Dict.{get, put}
use mini_dynamo.Dict.Sums.{total}
use mini_dynamo.Models.{TokenChunk, PrefillResponse, DecodeRequest, or_default}
use mini_dynamo.Memory.{KvBlock, MemorySimulator, out_of_memory, allocate, lookup}
use mini_dynamo.Memory.Accounting.{IsValid}
use mini_dynamo.Redis.{Ttls, register_kv}
use mini_dynamo.Redis.Demo.{Entries, demo_redis, demo_json}
use mini_dynamo.Prelude.Decimal.{digits}
use mini_dynamo.Sse.{is_space, strip, strip_left, strip_right, stream_decode}
use mini_dynamo.Sse.Tests.{demo_frames}
use native.Mathlib.Nat.{div-mul-le_self, le-div_iff_mul-le}
use mini_dynamo.Worker.{
  Costs, transfer_ms, PrefillResult, Counts, response, failed, prefill_with, resolve, compute,
  count_tokens, count_words, new_kv_cache_id, first_chars, kv_size_mb, pass_on,
}
use mini_dynamo.Worker.Handover.{prefill_with-response, prefill_with-evicting}
use mini_dynamo.Worker.Frames.{IsPrinted, stream_decode-forward_chunks}
use mini_dynamo.Worker.Streams.{
  chunk, done, prefill, first_token, latency, requests_ok, mark_token, forward_chunks,
  generate_stream, generate_chunks, node_lines,
}
use mini_dynamo.Worker.Latency.{prefill_latency, jittered}
use mini_dynamo.Worker.Transfer.{IsOrdered, transfer_ms_mono}
use mini_dynamo.Worker.Vocabulary.{split, first_and_rest, vocab, decimal_ℤ, seed, next_token}

abbrev ttls : Ttls
ttls = record { heartbeat_ttl = 10; session_ttl = 600 }

abbrev two_words : PrefillResult ℕ
two_words = record {
  kv_cache_id = codes "kv-session--0123abcd";
  num_prompt_tokens = pos 2;
  kv_size_mb = pos 6;
  prefill_ms = 40;
}

computed :
    compute (pos 3) (codes "0123abcdef") 40 (codes "session-17") (codes " two  words ") ≡ two_words
unfolding compute count_tokens count_words new_kv_cache_id first_chars kv_size_mb is_space ◌*ℤ◌
computed = refl

empty_prompt : count_tokens [] ≡ pos 1
unfolding count_tokens count_words
empty_prompt = refl

abbrev none_yet : Counts
none_yet = record { ok = 0; error = 0; evictions = 0 }

abbrev no_entries : Entries
no_entries = []

abbrev pool : ℕ → MemorySimulator
pool n = record {
  total_mb = pos n;
  eviction_policy = codes "lru";
  blocks = [];
  used_mb = pos 0;
  evictions = 0;
  oom_events = 0;
  allocations = 0;
}

abbrev held : KvBlock
held = record {
  kv_cache_id = two_words.kv_cache_id;
  session_id = codes "session-17";
  num_tokens = pos 2;
  size_mb = pos 6;
  created_at = 1;
  last_access = 2;
}

abbrev answer : PrefillResponse ℕ
answer = record {
  session_id = codes "session-17";
  kv_cache_id = two_words.kv_cache_id;
  num_prompt_tokens = pos 2;
  kv_size_mb = pos 6;
  prefill_ms = 40;
  backend = codes "p";
  evicted = 0;
}

abbrev filled : MemorySimulator
filled = record {
  total_mb = pos 10;
  eviction_policy = codes "lru";
  blocks = (two_words.kv_cache_id, held) ∷ [];
  used_mb = pos 6;
  evictions = 0;
  oom_events = 0;
  allocations = 1;
}

abbrev noted : Entries
noted =
    register_kv demo_redis demo_json ttls
      (record {
        kv_cache_id = two_words.kv_cache_id;
        session_id = codes "session-17";
        num_tokens = pos 2;
        size_mb = pos 6;
        backend = codes "p";
        created_at = 3;
      })
      5 []

responded :
    prefill_with demo_redis demo_json ttls
      (codes "p")
      two_words
      (codes "session-17")
      1
      2
      3
      5
      (pool 10)
      []
      none_yet
    ≡ (response answer, filled, noted, record { ok = 1; error = 0; evictions = 0 })
unfolding prefill_with allocate ◌+ℤ◌ get put Text_discrete
responded = refl

pool-IsValid : IsValid (pool 10)
unfolding total
pool-IsValid = record { accounted = refl; keyed = tt; unique = tt }

prefill_with-response_example :
    ((b : KvBlock) × (lookup answer.kv_cache_id filled ≡ some b)
      × (b.size_mb ≡ answer.kv_size_mb)
      × (b.num_tokens ≡ answer.num_prompt_tokens))
    × ((req : DecodeRequest) (max_tokens_default : ℤ) (t : ℕ)
        → req.kv_cache_id ≡ answer.kv_cache_id
        → leb_ℤ req.kv_size_mb (pos 0) ≡ true
        → 5 ≤ t
        → t < 5 + 600
        → resolve demo_redis demo_json ttls req max_tokens_default t noted ≡ record req {
          prompt = [];
          max_tokens = or_default req.max_tokens max_tokens_default;
          num_prompt_tokens = answer.num_prompt_tokens;
          kv_size_mb = answer.kv_size_mb;
        })
prefill_with-response_example =
    prefill_with-response demo_redis demo_json ttls (codes "p") two_words (codes "session-17") 1 2 3
      5 (pool 10) filled [] noted none_yet (record { ok = 1; error = 0; evictions = 0 }) answer
      pool-IsValid responded

refused :
    prefill_with demo_redis demo_json ttls
      (codes "p")
      two_words
      (codes "session-17")
      1
      2
      3
      5
      (pool 4)
      []
      none_yet
    ≡ (
      failed out_of_memory,
      record (pool 4) { oom_events = 1 },
      [],
      record { ok = 0; error = 1; evictions = 0 },
    )
unfolding prefill_with allocate
refused = refl

lru_evicts : codes "lru" ≢ codes "none"
lru_evicts e = ground arith

prefill_with-evicting_example :
    let (reply, m', s', counts') =
      prefill_with demo_redis demo_json ttls
        (codes "p")
        two_words
        (codes "session-17")
        1
        2
        3
        5
        (pool 10)
        no_entries
        none_yet in
    ((pos 6 ≤ℤ pos 10)
      × (r : PrefillResponse ℕ) × (reply ≡ response r)
      × (counts'.ok ≡ 0 + 1)
      × (counts'.error ≡ 0)
      × (counts'.evictions ≡ 0 + r.evicted)
      × (m'.evictions ≡ 0 + r.evicted))
    ⊎ ((pos 10 <ℤ pos 6)
        × (reply ≡ failed out_of_memory)
        × (m' ≡ record (pool 10) { oom_events = 0 + 1 })
        × (s' ≡ no_entries)
        × (counts' ≡ record none_yet { error = 0 + 1 }))
prefill_with-evicting_example =
    prefill_with-evicting demo_redis demo_json ttls (codes "p") two_words (codes "session-17") 1 2 3
      5 (pool 10) no_entries none_yet pool-IsValid lru_evicts

-- The seed is the length of "s:3".
third_word : next_token (λ s. length s) (codes "s") (pos 3) ≡ codes "tokens "
unfolding next_token seed vocab split first_and_rest is_space decimal_ℤ decimal digits
third_word = refl

-- A chunk as a letter.
abbrev letter : TokenChunk → ℕ
letter c = elim c.finish_reason [ none ↦ b't' | some reason ↦ b'f' ]

abbrev two_chunks : List TokenChunk
two_chunks =
    record { token = codes "a "; index = 0; finish_reason = none }
    ∷ record { token = []; index = 1; finish_reason = some (codes "length") }
    ∷ record { token = codes "b "; index = 2; finish_reason = none }
    ∷ []

two_chunks-IsPrinted : All (IsPrinted demo_frames letter) (pass_on two_chunks).0
unfolding IsPrinted pass_on strip strip_left strip_right is_space
two_chunks-IsPrinted = ((refl, (λ e. cc), refl), ((refl, (λ e. cc), refl), tt))

stream_decode-forward_chunks_example :
    stream_decode demo_frames
      (node_lines demo_frames letter (forward_chunks {F = ℕ} true two_chunks).0)
      (some (codes "reset"))
    ≡ (
      map letter (pass_on two_chunks).0,
      if (pass_on two_chunks).1 then none else some (codes "reset"),
    )
stream_decode-forward_chunks_example =
    stream_decode-forward_chunks demo_frames letter ℕ true two_chunks (some (codes "reset"))
      two_chunks-IsPrinted

-- The first token is marked once, and nothing follows the end.
streamed : generate_stream {F = ℕ} 7 two_chunks ≡ (
  prefill 7
      ∷ first_token
      ∷ chunk (record { token = codes "a "; index = 0; finish_reason = none })
      ∷ chunk (record { token = []; index = 1; finish_reason = some (codes "length") })
      ∷ latency
      ∷ requests_ok
      ∷ done
      ∷ [],
  true,
)
unfolding generate_stream generate_chunks mark_token
streamed = refl

-- Whole milliseconds and megabytes.
abbrev whole : Costs ℕ
whole = record {
  zero = 0;
  eighth = 1;
  at_most_zero = λ n. n == 0;
  plus = ◌+◌;
  times = ◌*◌;
  over = ◌/◌;
}

over_mono : (a b c : ℕ) → a ≤ b → (c == 0) ≡ false → a / c ≤ b / c
over_mono a b c h some_left =
    let filled : 0 < c = ground arith in
    let whole_part = div-mul-le_self a c in (le-div_iff_mul-le filled).1 (omega arith)

whole-IsOrdered : IsOrdered whole ◌≤◌
whole-IsOrdered = record {
  reflexive = λ a. omega arith;
  transitive = λ a b c h k. omega arith;
  at_most_zero_down = λ a b h e. ground arith;
  plus_mono = λ c a b h. omega arith;
  plus_more = λ c a h. omega arith;
  over_mono = over_mono;
  over_least = λ a c h k. omega arith;
}

transfer_ms_mono_example :
    (transfer_ms whole 40 10 2 false ≤ transfer_ms whole 70 10 2 false)
    × (transfer_ms whole 70 10 2 true ≡ 0)
transfer_ms_mono_example =
    transfer_ms_mono whole ◌≤◌ whole-IsOrdered 40 70 10 2 (omega arith) (omega arith)

transferred : transfer_ms whole 70 10 2 false ≡ 9
unfolding transfer_ms
transferred = refl

-- Two tokens at three milliseconds each, after a base of ten; a draw of one doubles it.
latencies : (prefill_latency whole 1 10 3 0 2 1 ≡ 16) × (prefill_latency whole 1 10 3 5 2 1 ≡ 32)
unfolding prefill_latency jittered
latencies = (refl, refl)

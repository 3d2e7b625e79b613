-- ===== src/Delivery/Tests.antt =====
-- A request that the only decode node serves, at concrete inputs.
use mini_dynamo.Prelude.{
  filter, sort, pos, ℕ, ◌+◌, ◌≡◌, refl, true, false, none, some, List, [], ◌∷◌, ◌++◌, Text, codes,
  Text_discrete, ◌==◌, arith, length, All, Bool,
}
use mini_dynamo.Dict.{get}
use mini_dynamo.Prelude.Sorting.{insert}
use mini_dynamo.Models.{TokenChunk, GenerateRequest, PrefillResponse, DecodeRequest, BackendInfo}
use mini_dynamo.Redis.Demo.{Entries, demo_redis, demo_json}
use mini_dynamo.Sse.{strip, strip_left, strip_right, is_space}
use mini_dynamo.Sse.Tests.{demo_frames}
use mini_dynamo.Redis.{
  list_backends, collect, registry_prefix, read_backend, set_session_backend, session_key,
}
use mini_dynamo.Sse.{stream_decode, read_line, read_data, after_prefix}
use mini_dynamo.Routing.{candidates, is_named, load_score, pin_least, fallback_decode, cache_miss}
use mini_dynamo.Routing.Tests.{demo_floats, demo_nodes, demo_node, two_nodes, repinned, first_miss}
use mini_dynamo.Router.{
  stream_colocated, routing, decision_label, member, Effect, Reply, answered, decode_payload,
  stream_disaggregated,
}
use mini_dynamo.Scheduler.{token_chunk, Scheduler, run, finish_chunk, block_of, admit_one}
use mini_dynamo.Scheduler.Streaming.{transcript, IsStreaming, stream}
use mini_dynamo.Scheduler.Tests.{clock, seq, busy}
use mini_dynamo.Worker.{pass_on, Costs}
use mini_dynamo.Worker.Streams.{generate_stream, decode_stream, node_lines}
use mini_dynamo.Worker.Vocabulary.{next_token}
use mini_dynamo.Client.{one_request}
use mini_dynamo.Client.Hearing.{IsClean, lines_of, counts, tokens_of}
use mini_dynamo.Client.Tests.{is_error, error_letter}
use mini_dynamo.Router.Tests.{two_urls, names, IsUnregistered, pins_only, only_static}
use mini_dynamo.Delivery.Served.{IsDump}
use mini_dynamo.Delivery.Heard.{IsNodeFrame, IsErrorFrame, stream_disaggregated-one_request}
use mini_dynamo.Delivery.Relayed.{IsTokenFrame, IsFinalFrame}
use mini_dynamo.Delivery.Delivered.{delivered}
use mini_dynamo.Delivery.Colocated.{stream_disaggregated-stream_colocated}
use mini_dynamo.Delivery.Refused.{refusal-ok}
use mini_dynamo.Memory.{init, allocate, raise, out_of_memory}
use mini_dynamo.Delivery.Repeated.{repeats}

-- A chunk as a letter.
abbrev letter : TokenChunk → ℕ
letter c = elim c.finish_reason [ none ↦ b't' | some reason ↦ b'f' ]

token_letter : IsTokenFrame demo_frames is_error error_letter b't'
unfolding IsClean strip strip_left strip_right is_space
token_letter = record {
  clean = (refl, (λ e. cc), refl, refl);
  object = refl;
  no_error = refl;
  token = refl;
  unfinished = refl;
}

letter-IsDump : IsDump demo_frames is_error error_letter letter
unfolding IsClean strip strip_left strip_right is_space finish_chunk
letter-IsDump = record {
  tokens = λ c e h. rw e token_letter;
  finals = λ index reason. record {
    clean = (refl, (λ e. cc), refl, refl);
    object = refl;
    no_error = refl;
    no_token = refl;
    finished = refl;
  };
}

abbrev lengths : Text → ℕ
lengths s = length s

busy-IsStreaming : IsStreaming (next_token lengths) [] busy
unfolding get stream
busy-IsStreaming = record {
  distinct = (tt, tt);
  numbered = (omega arith, tt);
  unique = (refl, tt);
  keyed = (refl, tt);
  streaming = λ k x e. ground arith;
  idle = tt;
  unused = λ q h. refl;
}

abbrev costs : Costs ℕ
costs = record {
  zero = 0;
  eighth = 1;
  at_most_zero = λ n. n == 0;
  plus = λ a b. a + b;
  times = λ a b. a;
  over = λ a b. a;
}

abbrev request : GenerateRequest
request = record {
  session_id = codes "s";
  prompt = codes "hello";
  max_tokens = none;
  stream = true;
}

abbrev prefilled : PrefillResponse ℕ
prefilled = record {
  session_id = codes "s";
  kv_cache_id = codes "kv1";
  num_prompt_tokens = pos 5;
  kv_size_mb = pos 40;
  prefill_ms = 5;
  backend = codes "prefill-0";
  evicted = 0;
}

abbrev payload : DecodeRequest
payload = record {
  session_id = codes "s";
  kv_cache_id = codes "kv1";
  prompt = [];
  num_prompt_tokens = pos 5;
  kv_size_mb = pos 40;
  max_tokens = pos 2;
  prefill_backend = codes "prefill-0";
}

-- The stream of the node's only sequence, after two rounds.
abbrev reply : Reply
reply = record {
  lines =
      node_lines demo_frames letter
        (decode_stream costs (λ size. 40) 10 2 false payload
          ((run clock (next_token lengths) ([] ∷ [] ∷ []) busy).queues 0)).0;
  broken = some (codes "reset");
}

abbrev reply_at : ℕ → BackendInfo ℕ → DecodeRequest → Reply
reply_at n b sent = reply

delivered_example :
    (es : List (Effect ℕ)) × (stream_disaggregated demo_floats demo_redis demo_json demo_nodes
        demo_frames reply_at
        (λ n. 7)
        (λ n. 7)
        (λ n. 7)
        1
        request
        (pos 2)
        (answered prefilled)
        two_nodes
      ≡ some (es, repinned))
    × (let r =
          one_request demo_frames is_error
            (λ i. pos i)
            (pos 50)
            (record { lines = lines_of demo_frames is_error error_letter es; broken = none }) in
        (r.ok ≡ true) × (pos r.tokens ≡ pos 2))
unfolding get Text_discrete decode_payload
delivered_example =
    delivered demo_floats demo_redis demo_json demo_nodes demo_frames reply_at (λ n. 7) (λ n. 7)
      (λ n. 7) is_error error_letter letter letter-IsDump lengths costs (λ size. 40) 10 2 false
      clock 0 request (pos 2) prefilled two_nodes repinned (demo_node (codes "b") 1) cache_miss 1
      ([] ∷ [] ∷ []) (codes "r1") seq busy (some (codes "reset")) none (λ i. pos i) (pos 50) refl
      (tt, (tt, tt)) busy-IsStreaming refl refl first_miss refl

-- The first node breaks off after a token; the second one serves both.
abbrev cut_or_whole : Bool → Reply
cut_or_whole true = record { lines = codes "data: t" ∷ []; broken = some (codes "reset") }
cut_or_whole false = record {
  lines = codes "data: t" ∷ codes "data: t" ∷ codes "data: f" ∷ [];
  broken = none;
}

abbrev cut_then_whole : ℕ → BackendInfo ℕ → DecodeRequest → Reply
cut_then_whole n b sent = cut_or_whole (n == 1)

abbrev moved : Entries
moved = (codes "mdyn:session:s", codes "a", 607) ∷ repinned

falls_back :
    fallback_decode demo_floats demo_redis demo_json demo_nodes (codes "s") (codes "b") 7 7 repinned
    ≡ (some (demo_node (codes "a") 4), moved)
unfolding fallback_decode candidates list_backends collect Text_discrete registry_prefix
    read_backend is_named filter sort insert load_score pin_least set_session_backend session_key
falls_back = refl

letter-IsFinalFrame : IsFinalFrame demo_frames is_error error_letter b'f'
unfolding IsClean strip strip_left strip_right is_space
letter-IsFinalFrame = record {
  clean = (refl, (λ e. cc), refl, refl);
  object = refl;
  no_error = refl;
  no_token = refl;
  finished = refl;
}

repeats_example :
    (es : List (Effect ℕ)) × (stream_disaggregated demo_floats demo_redis demo_json demo_nodes
        demo_frames cut_then_whole
        (λ n. 7)
        (λ n. 7)
        (λ n. 7)
        2
        request
        (pos 2)
        (answered prefilled)
        two_nodes
      ≡ some (es, moved))
    × (let r =
          one_request demo_frames is_error
            (λ i. pos i)
            (pos 50)
            (record { lines = lines_of demo_frames is_error error_letter es; broken = none }) in
        (r.ok ≡ true) × (r.tokens ≡ 1 + 2))
unfolding member Text_discrete stream_decode read_line read_data after_prefix strip strip_left
    strip_right is_space
repeats_example =
    repeats demo_frames is_error error_letter demo_floats demo_redis demo_json demo_nodes
      cut_then_whole (λ n. 7) (λ n. 7) (λ n. 7) 0 request (pos 2) prefilled two_nodes repinned moved
      (demo_node (codes "b") 1) (demo_node (codes "a") 4) cache_miss (b't' ∷ []) (b't' ∷ b't' ∷ [])
      b'f' (some (codes "reset")) none none (λ i. pos i) (pos 50) first_miss (refl, refl)
      (token_letter, tt) falls_back refl (token_letter, (token_letter, tt)) letter-IsFinalFrame

abbrev crowded : Scheduler
crowded = record busy { memory = init (pos 10) (codes "lru") }

abbrev refusal : Reply
refusal = record {
  lines =
      node_lines demo_frames letter
        (decode_stream costs (λ size. 40) 10 2 false payload
          ((admit_one clock seq crowded).queues 0)).0;
  broken = none;
}

abbrev refusing : ℕ → BackendInfo ℕ → DecodeRequest → Reply
refusing n b sent = refusal

no_room :
    allocate (block_of clock seq crowded) crowded.memory
    ≡ (raise out_of_memory, record crowded.memory { oom_events = 1 })
unfolding allocate init block_of
no_room = refl

refusal-ok_example :
    (es : List (Effect ℕ)) × (stream_disaggregated demo_floats demo_redis demo_json demo_nodes
        demo_frames refusing
        (λ n. 7)
        (λ n. 7)
        (λ n. 7)
        1
        request
        (pos 2)
        (answered prefilled)
        two_nodes
      ≡ some (es, repinned))
    × (let r =
          one_request demo_frames is_error
            (λ i. pos i)
            (pos 50)
            (record { lines = lines_of demo_frames is_error error_letter es; broken = none }) in
        (r.ok ≡ true) × (r.tokens ≡ 0))
unfolding decode_payload
refusal-ok_example =
    refusal-ok demo_floats demo_redis demo_json demo_nodes demo_frames refusing (λ n. 7) (λ n. 7)
      (λ n. 7) is_error error_letter letter letter-IsDump costs (λ size. 40) 10 2 false clock 0
      request (pos 2) prefilled two_nodes repinned (demo_node (codes "b") 1) cache_miss seq
      out_of_memory (record crowded.memory { oom_events = 1 }) crowded none none (λ i. pos i)
      (pos 50) refl no_room first_miss refl

abbrev generation : List TokenChunk
generation = transcript (next_token lengths) (codes "s") (pos 5) 2

generation-ended :
    pass_on generation ≡ (transcript (next_token lengths) (codes "s") (pos 5) 2, true)
unfolding transcript stream pass_on token_chunk finish_chunk
generation-ended = refl

-- The generation and what else is in the queue.
longer-ended :
    pass_on (generation ++ generation)
    ≡ (transcript (next_token lengths) (codes "s") (pos 5) 2, true)
unfolding transcript stream pass_on token_chunk finish_chunk
longer-ended = refl

abbrev generated_at : ℕ → BackendInfo ℕ → DecodeRequest → Reply
generated_at n b sent = record {
  lines =
      node_lines demo_frames letter
        (decode_stream costs (λ size. 40) 10 2 false payload generation).0;
  broken = some (codes "reset");
}

stream_disaggregated-stream_colocated_example :
    stream_disaggregated demo_floats demo_redis demo_json demo_nodes demo_frames generated_at
      (λ n. 7)
      (λ n. 7)
      (λ n. 7)
      1
      request
      (pos 2)
      (answered prefilled)
      two_nodes
    ≡ some (
      routing (codes "cache_miss")
          ∷ stream_colocated demo_frames (record {
            lines =
                node_lines demo_frames letter
                  (generate_stream {F = ℕ} 5 (generation ++ generation)).0;
            broken = none;
          }),
      repinned,
    )
unfolding decode_payload decision_label
stream_disaggregated-stream_colocated_example =
    stream_disaggregated-stream_colocated demo_frames is_error error_letter letter letter-IsDump
      lengths demo_floats demo_redis demo_json demo_nodes generated_at (λ n. 7) (λ n. 7) (λ n. 7)
      costs (λ size. 40) 10 2 false 0 request (pos 2) prefilled two_nodes repinned
      (demo_node (codes "b") 1) cache_miss generation (generation ++ generation) (codes "s") (pos 5)
      2 5 (some (codes "reset")) none generation-ended longer-ended first_miss refl

-- The frames of a broken and of a whole stream, and the router's own.
letter-IsErrorFrame : IsErrorFrame demo_frames is_error error_letter
unfolding IsErrorFrame IsClean strip strip_left strip_right is_space
letter-IsErrorFrame message = ((refl, (λ e. cc), refl, refl), refl)

letters-IsNodeFrame :
    (t : Bool)
    → All
        (IsNodeFrame demo_frames is_error error_letter)
        (stream_decode demo_frames (cut_or_whole t).lines (cut_or_whole t).broken).0
unfolding IsNodeFrame stream_decode read_line read_data after_prefix strip strip_left strip_right
    is_space Text_discrete
letters-IsNodeFrame true = ((token_letter.clean, refl), tt)
letters-IsNodeFrame false = (
  (token_letter.clean, refl),
  ((token_letter.clean, refl), ((letter-IsFinalFrame.clean, refl), tt)),
)

stream_disaggregated-one_request_example :
    (es : List (Effect ℕ)) × (s' : Entries) × (stream_disaggregated demo_floats demo_redis demo_json
        two_urls demo_frames cut_then_whole
        (λ n. n)
        (λ n. n)
        (λ n. n)
        3
        request
        (pos 2)
        (answered prefilled)
        []
      ≡ some (es, s'))
    × (let r =
          one_request demo_frames is_error
            (λ i. pos i)
            (pos 50)
            (record { lines = lines_of demo_frames is_error error_letter es; broken = none }) in
        (r.ok ≡ counts (codes "ok") es) × (r.tokens ≡ tokens_of demo_frames es))
unfolding IsUnregistered
stream_disaggregated-one_request_example =
    stream_disaggregated-one_request demo_frames is_error error_letter demo_floats demo_redis
      demo_json two_urls cut_then_whole (λ n. n) (λ n. n) (λ n. n) letter-IsErrorFrame
      (λ n b sent. letters-IsNodeFrame (n == 1)) IsUnregistered names pins_only only_static 3
      request (pos 2) (answered prefilled) [] (λ i. pos i) (pos 50) none refl (omega arith)

abbrev cut : Reply
cut = record { lines = codes "data: t" ∷ []; broken = some (codes "reset") }

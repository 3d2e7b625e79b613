-- ===== src/Router/Tests.antt =====
-- The router's streams at concrete inputs: two static decode nodes, of which the first breaks off
-- after a token and the second finishes.
use mini_dynamo.Prelude.{
  pos, ℕ, ◌≡◌, ◌⊎◌, inl, inr, refl, true, false, none, some, List, [], ◌∷◌, Text, codes, ◌==◌, All,
  In, arith, Text_discrete,
}
use mini_dynamo.Prelude.Decimal.{decimal, digits}
use mini_dynamo.Models.{GenerateRequest, PrefillResponse, DecodeRequest, BackendInfo}
use mini_dynamo.Redis.{set_session_backend, session_key, registry_prefix, list_backends, collect}
use mini_dynamo.Redis.Demo.{Entries, demo_redis, demo_json, demo_scan}
use mini_dynamo.Sse.Tests.{demo_frames}
use mini_dynamo.Routing.{select_decode, no_backend, Nodes, candidates, static_nodes, static_from}
use mini_dynamo.Routing.Tests.{demo_floats}
use mini_dynamo.Router.{Effect, failure, done, Reply, answered, stream_disaggregated}
use mini_dynamo.Router.Ending.{Ended}
use mini_dynamo.Router.Attempts.{stream_disaggregated-ends}

abbrev pub two_urls : Nodes
two_urls = record {
  ttls = record { heartbeat_ttl = 10; session_ttl = 600 };
  prefill_urls = codes "http://p0" ∷ [];
  decode_urls = codes "http://d0" ∷ codes "http://d1" ∷ [];
}

abbrev pub names : List Text
names = codes "decode-0" ∷ codes "decode-1" ∷ []

abbrev reply_at : ℕ → BackendInfo ℕ → DecodeRequest → Reply
reply_at n b payload = elim (n == 1) [
  | true ↦ record { lines = codes "data: t" ∷ []; broken = some (codes "reset") }
  | false ↦ record { lines = codes "data: t" ∷ codes "data: f" ∷ []; broken = none }
]

abbrev request : GenerateRequest
request = record {
  session_id = codes "s";
  prompt = codes "hello";
  max_tokens = none;
  stream = true;
}

abbrev prefilled : PrefillResponse ℕ
prefilled = record {
  session_id = codes "s";
  kv_cache_id = codes "kv-s";
  num_prompt_tokens = pos 1;
  kv_size_mb = pos 2;
  prefill_ms = 5;
  backend = codes "prefill-0";
  evicted = 0;
}

-- Nothing is registered for decoding.
unfoldable pub IsUnregistered : Entries → Type 0
IsUnregistered s = demo_scan (codes "mdyn:backend:decode:") s ≡ []

pub pins_only :
    (session_id name : Text) (now : ℕ) (s : Entries)
    → IsUnregistered s
    → IsUnregistered (set_session_backend demo_redis demo_json two_urls.ttls session_id name now s)
unfolding IsUnregistered set_session_backend session_key
pins_only session_id name now s h = h

pub only_static :
    (n : ℕ) (s : Entries)
    → IsUnregistered s
    → All
        (λ c. In c.name names)
        (candidates demo_floats demo_redis demo_json two_urls (codes "decode") n s)
unfolding IsUnregistered candidates list_backends collect static_nodes static_from decimal digits
    Text_discrete registry_prefix
only_static n s h = rw (candidates, h) (inl refl, (inr (inl refl), tt))

stream_disaggregated-ends_example :
    (es : List (Effect ℕ)) × (s' : Entries) × (stream_disaggregated demo_floats demo_redis demo_json
        two_urls demo_frames reply_at
        (λ n. n)
        (λ n. n)
        (λ n. n)
        3
        request
        (pos 64)
        (answered prefilled)
        []
      ≡ some (es, s'))
    × (Ended demo_frames es
        ⊎ ((message : Text) × (es ≡ failure message ∷ done ∷ [])
            × ((select_decode demo_floats demo_redis demo_json two_urls (codes "s") 0 0 0 []).0
                ≡ no_backend message)))
unfolding IsUnregistered
stream_disaggregated-ends_example =
    stream_disaggregated-ends demo_floats demo_redis demo_json two_urls demo_frames reply_at
      (λ n. n) (λ n. n) (λ n. n) IsUnregistered names pins_only only_static 3 request (pos 64)
      (answered prefilled) [] refl (omega arith)

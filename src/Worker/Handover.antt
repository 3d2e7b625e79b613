-- ===== src/Worker/Handover.antt =====
-- From prefill to decode: what the one records, the other finds.
use mini_dynamo.Prelude.{
  ℤ, pos, leb_ℤ, ℕ, ◌+◌, ◌<◌, ◌≤◌, ◌≡◌, ◌≢◌, ◌⊎◌, ◌≤ℤ◌, ◌<ℤ◌, ltb_ℤ, ltb_ℤ→lt, ltb_ℤ_false→le,
  Bool-cases, codes, inl, inr, refl, ap, sym, ◌∙◌, if_pos, true, some, List, [], Text,
  Text_discrete, length,
}
use mini_dynamo.Models.{PrefillResponse, DecodeRequest, or_default}
use mini_dynamo.Memory.{
  KvBlock, MemorySimulator, Error, Outcome, ok, raise, out_of_memory, allocate, lookup,
}
use mini_dynamo.Memory.Accounting.{IsValid}
use mini_dynamo.Memory.Capacity.{allocate_evicting, allocate_too_big}
use mini_dynamo.Memory.Contents.{lookup-allocate, allocate_ok-evictions}
use mini_dynamo.Redis.{Redis, Json, KvMeta, Ttls, register_kv, get_kv}
use mini_dynamo.Redis.Registry.{kv_round_trip}
use mini_dynamo.Worker.{PrefillResult, Counts, response, failed, prefill_with, resolve}

module _ {F : Type 0} (redis : Redis) (json : Json F) (settings : Ttls) (node_name : Text) where
  open redis use {Store}

  block : PrefillResult F → Text → ℕ → ℕ → KvBlock
  block result session_id made used = record {
    kv_cache_id = result.kv_cache_id;
    session_id = session_id;
    num_tokens = result.num_prompt_tokens;
    size_mb = result.kv_size_mb;
    created_at = made;
    last_access = used;
  }

  -- The metadata and the response of a prefill.
  noted_meta : PrefillResult F → Text → ℕ → KvMeta
  noted_meta result session_id noted = record {
    kv_cache_id = result.kv_cache_id;
    session_id = session_id;
    num_tokens = result.num_prompt_tokens;
    size_mb = result.kv_size_mb;
    backend = node_name;
    created_at = noted;
  }

  shown : PrefillResult F → Text → List Text → PrefillResponse F
  shown result session_id ids = record {
    session_id = session_id;
    kv_cache_id = result.kv_cache_id;
    num_prompt_tokens = result.num_prompt_tokens;
    kv_size_mb = result.kv_size_mb;
    prefill_ms = result.prefill_ms;
    backend = node_name;
    evicted = length ids;
  }

  response-injective : {r r' : PrefillResponse F} → response r ≡ response r' → r ≡ r'
  response-injective e = cc

  own_id :
      (b : KvBlock) (m : MemorySimulator) (ids : List Text)
      → IsValid m
      → (allocate b m).0 ≡ ok ids
      → lookup b.kv_cache_id (allocate b m).1 ≡ some b
  own_id b m ids v k =
      lookup-allocate b m b.kv_cache_id v (ap (λ o. (o, (allocate b m).1)) k)
      ∙ if_pos (Text_discrete b.kv_cache_id b.kv_cache_id) refl _ _

  resolve-registered :
      (meta : KvMeta) (now t : ℕ) (s : Store) (req : DecodeRequest) (max_tokens_default : ℤ)
      → req.kv_cache_id ≡ meta.kv_cache_id
      → leb_ℤ req.kv_size_mb (pos 0) ≡ true
      → now ≤ t
      → t < now + settings.session_ttl
      → resolve redis json settings req max_tokens_default t
          (register_kv redis json settings meta now s)
        ≡ record req {
          prompt = [];
          max_tokens = or_default req.max_tokens max_tokens_default;
          num_prompt_tokens = meta.num_tokens;
          kv_size_mb = meta.size_mb;
        }
  unfolding resolve
  resolve-registered meta now t s req max_tokens_default same small started live =
      let found : get_kv redis json settings req.kv_cache_id t
            (register_kv redis json settings meta now s)
          ≡ some meta =
        rw same (kv_round_trip redis json settings meta now t s started live) in
      rw (small, found) refl

  Outcome-cases : (o : Outcome) → ((e : Error) × (o ≡ raise e)) ⊎ ((ids : List Text) × (o ≡ ok ids))
  Outcome-cases (raise e) = inl (e, refl)
  Outcome-cases (ok ids) = inr (ids, refl)

  -- When the prefill handler responds, from a valid pool, its node holds under the response's id a
  -- block of the response's size and number of tokens; and for as long as the metadata lives, a
  -- decode request for that id that gives no size is submitted with this size and this number of
  -- tokens.
  pub prefill_with-response :
      (result : PrefillResult F) (session_id : Text) (made used noted now : ℕ)
      (m m' : MemorySimulator) (s s' : Store) (counts counts' : Counts) (r : PrefillResponse F)
      → IsValid m
      → prefill_with redis json settings node_name result session_id made used noted now m s counts
        ≡ (response r, m', s', counts')
      → ((b : KvBlock) × (lookup r.kv_cache_id m' ≡ some b)
          × (b.size_mb ≡ r.kv_size_mb)
          × (b.num_tokens ≡ r.num_prompt_tokens))
        × ((req : DecodeRequest) (max_tokens_default : ℤ) (t : ℕ)
            → req.kv_cache_id ≡ r.kv_cache_id
            → leb_ℤ req.kv_size_mb (pos 0) ≡ true
            → now ≤ t
            → t < now + settings.session_ttl
            → resolve redis json settings req max_tokens_default t s' ≡ record req {
              prompt = [];
              max_tokens = or_default req.max_tokens max_tokens_default;
              num_prompt_tokens = r.num_prompt_tokens;
              kv_size_mb = r.kv_size_mb;
            })
  unfolding prefill_with block shown noted_meta
  prefill_with-response result session_id made used noted now m m' s s' counts counts' r v e =
      elim (Outcome-cases (allocate (block result session_id made used) m).0) [
        | inl (x, k) ↦ cc (rw (prefill_with, k) at e)
        | inr (ids, k) ↦
            (let b = block result session_id made used in
              let q = rw (prefill_with, k) at e in
              let same : shown result session_id ids ≡ r = response-injective (ap (λ x. x.0) q) in
              let memory : m' ≡ (allocate b m).1 = sym (ap (λ x. x.1) q) in
              let meta = noted_meta result session_id noted in
              let store : s' ≡ register_kv redis json settings meta now s = sym (ap (λ x. x.2) q) in
              rw (sym same, memory, store)
                (
                  (b, own_id b m ids v k, refl, refl),
                  λ req max_tokens_default t eq small started live.
                      resolve-registered meta now t s req max_tokens_default eq small started live,
                ))
      ]

  -- Over a valid pool that evicts, the prefill handler responds exactly if the block is no larger
  -- than the pool. It then counts one request as ok, and the evictions that the response reports are
  -- those by which the node's count and the pool's own count rise. Otherwise it fails with
  -- `OutOfMemoryError` and counts one error; the pool has one more such event and is otherwise as it
  -- was, and nothing is recorded in Redis.
  pub prefill_with-evicting :
      (result : PrefillResult F) (session_id : Text) (made used noted now : ℕ) (m : MemorySimulator)
      (s : Store) (counts : Counts)
      → IsValid m
      → m.eviction_policy ≢ codes "none"
      → let (reply, m', s', counts') =
          prefill_with redis json settings node_name result session_id made used noted now m s
            counts in
        ((result.kv_size_mb ≤ℤ m.total_mb)
          × (r : PrefillResponse F) × (reply ≡ response r)
          × (counts'.ok ≡ counts.ok + 1)
          × (counts'.error ≡ counts.error)
          × (counts'.evictions ≡ counts.evictions + r.evicted)
          × (m'.evictions ≡ m.evictions + r.evicted))
        ⊎ ((m.total_mb <ℤ result.kv_size_mb)
            × (reply ≡ failed out_of_memory)
            × (m' ≡ record m { oom_events = m.oom_events + 1 })
            × (s' ≡ s)
            × (counts' ≡ record counts { error = counts.error + 1 }))
  unfolding prefill_with block shown
  prefill_with-evicting result session_id made used noted now m s counts v on =
      let b = block result session_id made used in
      elim (Bool-cases (ltb_ℤ m.total_mb result.kv_size_mb)) [
        | inr e ↦
            (let small = ltb_ℤ_false→le m.total_mb result.kv_size_mb e in
              let (ids, k) = allocate_evicting b m v on small in
              let counted = allocate_ok-evictions b m v k in
              inl (
                small,
                shown result session_id ids,
                rw (prefill_with, k) refl,
                rw (prefill_with, k) refl,
                rw (prefill_with, k) refl,
                rw (prefill_with, k) refl,
                rw (prefill_with, k) counted,
              ))
        | inl e ↦
            (let r = allocate_too_big b m e in
              let k = ap (λ o. o.0) r in
              inr (
                ltb_ℤ→lt m.total_mb result.kv_size_mb e,
                rw (prefill_with, k) refl,
                rw (prefill_with, k) (ap (λ o. o.1) r),
                rw (prefill_with, k) refl,
                rw (prefill_with, k) refl,
              ))
      ]

-- ===== src/Redis/Registry.antt =====
-- What a node registers, the router finds until it expires.
use mini_dynamo.Prelude.{
  ℕ, ◌+◌, ltb, if◌then◌else◌, Bool-cases, ◌<◌, ◌≤◌, ◌≡◌, ◌≢◌, inl, inr, refl, sym, ◌∙◌, ap, none,
  some, List, [], ◌∷◌, Text, arith, Option-cases, In,
}
use mini_dynamo.Models.{BackendInfo}
use mini_dynamo.Redis.{
  Redis, Json, KvMeta, Ttls, registry_prefix, registry_key, session_key, kv_key, register_backend,
  read_backend, collect, list_backends, get_session_backend, set_session_backend, register_kv,
  get_kv, read_kv,
}

module _ {F : Type 0} (redis : Redis) (json : Json F) (settings : Ttls) where
  open redis use {Store, get, set, scan}

  read-dump : (b : BackendInfo F) → read_backend redis json settings (some (json.dump b)) ≡ some b
  unfolding read_backend
  read-dump b = rw (json.dump_nonempty b) (json.validate-dump b)

  collect_complete :
      (b : BackendInfo F) (key : Text) (keys : List Text) (now : ℕ) (s : Store)
      → get key now s ≡ some (json.dump b)
      → In key keys
      → In b (collect redis json settings keys now s)
  unfolding collect
  collect_complete b key [] now s e h = h
  collect_complete b key (k ∷ keys) now s e (inl here) =
      (let found =
          ap (read_backend redis json settings) (ap (λ j. get j now s) (sym here) ∙ e)
          ∙ read-dump b in
        rw (found, collect) (inl refl))
  collect_complete b key (k ∷ keys) now s e (inr there) =
      elim (Option-cases (read_backend redis json settings (get k now s))) [
        | inl skip ↦ rw (skip, collect) (collect_complete b key keys now s e there)
        | inr (c, other) ↦ rw (other, collect) (inr (collect_complete b key keys now s e there))
      ]

  -- A node whose entry is stored is listed.
  pub listed_while_stored :
      (b : BackendInfo F) (t : ℕ) (s : Store)
      → get (registry_key b.role b.name) t s ≡ some (json.dump b)
      → In b (list_backends redis json settings b.role t s)
  unfolding list_backends registry_key
  listed_while_stored b t s stored =
      collect_complete b (registry_key b.role b.name) (scan (registry_prefix b.role) t s) t s stored
        (redis.scan_complete (registry_prefix b.role) b.name (json.dump b) t s stored)

  -- A node that has registered is listed under its role, as it was when it registered, from then
  -- on until its heartbeat's time to live is over.
  pub register_backend-listed :
      (b : BackendInfo F) (now t : ℕ) (s : Store)
      → now ≤ t
      → t < now + settings.heartbeat_ttl
      → In b (
          list_backends redis json settings b.role t (register_backend redis json settings b now s))
  unfolding register_backend
  register_backend-listed b now t s started live =
      listed_while_stored b t (register_backend redis json settings b now s) (
        redis.get-set_live (registry_key b.role b.name) (json.dump b) settings.heartbeat_ttl now t s
          started live)

  -- From its writing on, a session's pin is read back until its time to live is over, and then is
  -- gone.
  pub session_round_trip :
      (session_id backend : Text) (now t : ℕ) (s : Store)
      → now ≤ t
      → get_session_backend redis json settings session_id t
          (set_session_backend redis json settings session_id backend now s)
        ≡ (if ltb t (now + settings.session_ttl) then some backend else none)
  unfolding get_session_backend set_session_backend
  session_round_trip session_id backend now t s started =
      elim (Bool-cases (ltb t (now + settings.session_ttl))) [
        | inl live ↦ rw live (redis.get-set_live _ backend _ now t s started (ground arith))
        | inr over ↦ rw over (redis.get-set_expired _ backend _ now t s (ground arith))
      ]

  -- Pinning one session changes no other session's pin, no metadata and no registration.
  pub set_session_backend-frame :
      (session_id backend : Text) (now t : ℕ) (s : Store)
      → let s' = set_session_backend redis json settings session_id backend now s in
        ((other : Text)
          → session_id ≢ other
          → get_session_backend redis json settings other t s'
            ≡ get_session_backend redis json settings other t s)
        × ((id : Text) → get_kv redis json settings id t s' ≡ get_kv redis json settings id t s)
        × ((role name : Text)
            → get (registry_key role name) t s' ≡ get (registry_key role name) t s)
  unfolding get_session_backend set_session_backend get_kv session_key kv_key registry_key
  set_session_backend-frame session_id backend now t s = (
    λ other differs. redis.get-set_ne _ _ backend _ now t s (λ e. differs (ground arith)),
    λ id.
        ap (read_kv redis json settings)
          (redis.get-set_ne _ _ backend _ now t s (λ e. ground arith)),
    λ role name. redis.get-set_ne _ _ backend _ now t s (λ e. ground arith),
  )

  -- From its writing on, the metadata of a KV cache is read back until its time to live is over.
  pub kv_round_trip :
      (meta : KvMeta) (now t : ℕ) (s : Store)
      → now ≤ t
      → t < now + settings.session_ttl
      → get_kv redis json settings meta.kv_cache_id t (register_kv redis json settings meta now s)
        ≡ some meta
  unfolding get_kv register_kv
  kv_round_trip meta now t s started live =
      rw
        (
          redis.get-set_live (kv_key meta.kv_cache_id) (json.dumps meta) settings.session_ttl now t
              s started live,
          get_kv,
        )
        (rw (json.dumps_nonempty meta) (json.loads-dumps meta))

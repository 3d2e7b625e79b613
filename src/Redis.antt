-- ===== src/Redis.antt =====
-- common/redis_client.py: the registry of nodes, the sticky sessions and the metadata of KV caches.
-- The Redis server and the JSON encoding are parameters; a reading of the clock is an argument.
pub mod Registry
pub mod Demo
use mini_dynamo.Prelude.{
  ℤ, ℕ, ◌+◌, ◌<◌, ◌≤◌, ◌≡◌, ◌≢◌, ◌⊎◌, Bool, true, false, Option, none, some, List, [], ◌∷◌, ◌++◌,
  Text, codes, is_empty, if◌then◌else◌, In,
}
use mini_dynamo.Models.{BackendInfo}

-- What the program asks of a Redis server, as documented: `GET`, `SET key value EX ttl` (in seconds
-- of the server's clock), and `SCAN MATCH prefix*` for a prefix with no special character, which lists the live keys that start so, in any
-- order and perhaps more than once.
pub record Redis : Type 1 where
  pub Store : Type 0
  pub get : Text → ℕ → Store → Option Text
  pub set : Text → Text → ℕ → ℕ → Store → Store
  pub scan : Text → ℕ → Store → List Text
  pub get-set_live :
      (k v : Text) (ttl now t : ℕ) (s : Store)
      → now ≤ t
      → t < now + ttl
      → get k t (set k v ttl now s) ≡ some v
  pub get-set_expired :
      (k v : Text) (ttl now t : ℕ) (s : Store) → now + ttl ≤ t → get k t (set k v ttl now s) ≡ none
  pub get-set_ne :
      (k j v : Text) (ttl now t : ℕ) (s : Store) → k ≢ j → get j t (set k v ttl now s) ≡ get j t s
  pub scan_complete :
      (prefix rest v : Text) (t : ℕ) (s : Store)
      → get (prefix ++ rest) t s ≡ some v
      → In (prefix ++ rest) (scan prefix t s)

-- `model_dump_json` and `model_validate_json`, and the metadata of a KV cache as JSON. A reading of
-- the clock is part of the metadata.
pub record KvMeta : Type 0 where
  pub kv_cache_id : Text
  pub session_id : Text
  pub num_tokens : ℤ
  pub size_mb : ℤ
  pub backend : Text
  pub created_at : ℕ

pub record Json (F : Type 0) : Type 0 where
  pub dump : BackendInfo F → Text
  pub validate : Text → Option (BackendInfo F)
  pub dump_nonempty : (b : BackendInfo F) → is_empty (dump b) ≡ false
  pub validate-dump : (b : BackendInfo F) → validate (dump b) ≡ some b
  pub dumps : KvMeta → Text
  pub loads : Text → Option KvMeta
  pub dumps_nonempty : (m : KvMeta) → is_empty (dumps m) ≡ false
  pub loads-dumps : (m : KvMeta) → loads (dumps m) ≡ some m

-- The settings that this client reads.
pub record Ttls : Type 0 where
  pub heartbeat_ttl : ℕ
  pub session_ttl : ℕ

unfoldable pub registry_prefix : Text → Text
registry_prefix role = codes "mdyn:backend:" ++ role ++ codes ":"

unfoldable pub registry_key : Text → Text → Text
unfolding registry_prefix
registry_key role name = registry_prefix role ++ name

unfoldable pub session_key : Text → Text
session_key session_id = codes "mdyn:session:" ++ session_id

unfoldable pub kv_key : Text → Text
kv_key kv_cache_id = codes "mdyn:kv:" ++ kv_cache_id

module _ {F : Type 0} (redis : Redis) (json : Json F) (settings : Ttls) where
  open redis use {Store, get, set, scan}

  unfoldable pub register_backend : BackendInfo F → ℕ → Store → Store
  register_backend info now =
      set (registry_key info.role info.name) (json.dump info) settings.heartbeat_ttl now

  -- The reading of one key in `list_backends`: a missing, empty or malformed entry is passed over.
  unfoldable pub read_backend : Option Text → Option (BackendInfo F)
  read_backend none = none
  read_backend (some raw) = if is_empty raw then none else json.validate raw

  unfoldable pub collect : List Text → ℕ → Store → List (BackendInfo F)
  collect [] now s = []
  collect (key ∷ keys) now s = elim (read_backend (get key now s)) [
    | none ↦ collect keys now s
    | some b ↦ b ∷ collect keys now s
  ]

  unfoldable pub list_backends : Text → ℕ → Store → List (BackendInfo F)
  unfolding collect read_backend
  list_backends role now s = collect (scan (registry_prefix role) now s) now s

  unfoldable pub get_session_backend : Text → ℕ → Store → Option Text
  get_session_backend session_id = get (session_key session_id)

  unfoldable pub set_session_backend : Text → Text → ℕ → Store → Store
  set_session_backend session_id backend = set (session_key session_id) backend settings.session_ttl

  unfoldable pub register_kv : KvMeta → ℕ → Store → Store
  register_kv meta now = set (kv_key meta.kv_cache_id) (json.dumps meta) settings.session_ttl now

  unfoldable pub read_kv : Option Text → Option KvMeta
  read_kv none = none
  read_kv (some raw) = if is_empty raw then none else json.loads raw

  unfoldable pub get_kv : Text → ℕ → Store → Option KvMeta
  unfolding read_kv
  get_kv kv_cache_id now s = read_kv (get (kv_key kv_cache_id) now s)

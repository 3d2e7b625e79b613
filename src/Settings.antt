-- ===== src/Settings.antt =====
-- common/config.py: the settings, read from environment variables. The environment and what
-- `int()` and `float()` make of a text are parameters.
pub mod Lists
pub mod Tests
use mini_dynamo.Prelude.{
  ℤ, pos, ℕ, ◌==◌, Bool, true, false, not, ◌||◌, ite, Option, none, some, List, [], ◌∷◌, map, Text,
  codes, is_empty, Text_discrete, lower, filter, if◌then◌else◌,
}
use mini_dynamo.Sse.{strip}

pub record Settings (F : Type 0) : Type 0 where
  pub service_name : Text
  pub role : Text
  pub host : Text
  pub port : ℤ
  pub advertise_url : Text
  pub redis_url : Text
  pub mode : Text
  pub gpu_memory_mb : F
  pub kv_mb_per_token : F
  pub eviction_policy : Text
  pub kv_transfer_bandwidth_gbps : F
  pub kv_transfer_fixed_ms : F
  pub prefill_base_ms : F
  pub prefill_ms_per_token : F
  pub decode_ms_per_token : F
  pub latency_jitter : F
  pub max_batch_size : ℤ
  pub max_tokens_default : ℤ
  pub prefill_urls : List Text
  pub decode_urls : List Text
  pub heartbeat_ttl : ℤ
  pub heartbeat_interval : F
  pub otel_enabled : Bool
  pub otel_endpoint : Text
  pub session_ttl : ℤ

-- None stands for a `ValueError`; `decimal m k` is the number m / 10 ^ k of a float literal.
pub record Numbers (F : Type 0) : Type 0 where
  pub to_int : Text → Option ℤ
  pub to_float : Text → Option F
  pub decimal : ℕ → ℕ → F

unfoldable pub begin_with : ℕ → List Text → List Text
begin_with c [] = (c ∷ []) ∷ []
begin_with c (x ∷ xs) = (c ∷ x) ∷ xs

-- raw.split(","), for any separator of one character
unfoldable pub split_on : ℕ → Text → List Text
unfolding begin_with
split_on sep [] = [] ∷ []
split_on sep (c ∷ s) =
    let rest = split_on sep s in if c == sep then [] ∷ rest else begin_with c rest

unfoldable pub is_colocated : {F : Type 0} → Settings F → Bool
is_colocated s = ite (Text_discrete (lower s.mode) (codes "colocated")) true false

-- An unset variable gives the default: a number is read back from what `str` prints of it.
module _ {F : Type 0} (numbers : Numbers F) (getenv : Text → Option Text) where
  unfoldable pub get_str : Text → Text → Text
  get_str key default = elim (getenv key) [ none ↦ default | some raw ↦ raw ]

  unfoldable pub get_int : Text → ℤ → ℤ
  get_int key default = elim (getenv key) [
    | none ↦ default
    | some raw ↦ elim (numbers.to_int raw) [ none ↦ default | some n ↦ n ]
  ]

  unfoldable pub get_float : Text → F → F
  get_float key default = elim (getenv key) [
    | none ↦ default
    | some raw ↦ elim (numbers.to_float raw) [ none ↦ default | some x ↦ x ]
  ]

  unfoldable pub is_one_of : Text → List Text → Bool
  is_one_of s [] = false
  is_one_of s (x ∷ xs) = let rest = is_one_of s xs in ite (Text_discrete s x) true rest

  unfoldable pub get_bool : Text → Bool → Bool
  unfolding is_one_of
  get_bool key default = elim (getenv key) [
    | none ↦ default
    | some raw ↦
        is_one_of (lower (strip raw)) (codes "1" ∷ codes "true" ∷ codes "yes" ∷ codes "on" ∷ [])
  ]

  unfoldable pub items : Text → List Text
  items raw = filter (λ item. not (is_empty item)) (map strip (split_on b',' raw))

  unfoldable pub get_list : Text → List Text → List Text
  unfolding items
  get_list key default = elim (getenv key) [
    | none ↦ default
    | some raw ↦ if is_empty raw then default else items raw
  ]

  unfoldable pub get_settings : Settings F
  get_settings = record {
    service_name = get_str (codes "SERVICE_NAME") (codes "mini-dynamo");
    role = get_str (codes "ROLE") (codes "router");
    host = get_str (codes "HOST") (codes "0.0.0.0");
    port = get_int (codes "PORT") (pos 8000);
    advertise_url = get_str (codes "ADVERTISE_URL") [];
    redis_url = get_str (codes "REDIS_URL") (codes "redis://localhost:6379/0");
    mode = get_str (codes "MODE") (codes "disaggregated");
    gpu_memory_mb = get_float (codes "GPU_MEMORY_MB") (numbers.decimal 8192 0);
    kv_mb_per_token = get_float (codes "KV_MB_PER_TOKEN") (numbers.decimal 5 1);
    eviction_policy = get_str (codes "EVICTION_POLICY") (codes "lru");
    kv_transfer_bandwidth_gbps =
        get_float (codes "KV_TRANSFER_BANDWIDTH_GBPS") (numbers.decimal 25 0);
    kv_transfer_fixed_ms = get_float (codes "KV_TRANSFER_FIXED_MS") (numbers.decimal 2 0);
    prefill_base_ms = get_float (codes "PREFILL_BASE_MS") (numbers.decimal 15 0);
    prefill_ms_per_token = get_float (codes "PREFILL_MS_PER_TOKEN") (numbers.decimal 4 1);
    decode_ms_per_token = get_float (codes "DECODE_MS_PER_TOKEN") (numbers.decimal 12 0);
    latency_jitter = get_float (codes "LATENCY_JITTER") (numbers.decimal 15 2);
    max_batch_size = get_int (codes "MAX_BATCH_SIZE") (pos 16);
    max_tokens_default = get_int (codes "MAX_TOKENS_DEFAULT") (pos 64);
    prefill_urls = get_list (codes "PREFILL_URLS") [];
    decode_urls = get_list (codes "DECODE_URLS") [];
    heartbeat_ttl = get_int (codes "HEARTBEAT_TTL") (pos 10);
    heartbeat_interval = get_float (codes "HEARTBEAT_INTERVAL") (numbers.decimal 3 0);
    otel_enabled = get_bool (codes "OTEL_ENABLED") true;
    otel_endpoint = get_str (codes "OTEL_EXPORTER_OTLP_ENDPOINT") (codes "http://localhost:4317");
    session_ttl = get_int (codes "SESSION_TTL") (pos 3600);
  }

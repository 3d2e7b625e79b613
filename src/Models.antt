-- ===== src/Models.antt =====
-- common/models.py: the requests and responses that the services exchange. Python's `int` is ℤ, an
-- amount of memory is an integer in a fixed unit, and a float that is only compared or passed on
-- is of a type `F` that the reader chooses.
use mini_dynamo.Prelude.{ℤ, pos, ℕ, zero, Bool, Option, none, some, Text}

pub record GenerateRequest : Type 0 where
  pub session_id : Text
  pub prompt : Text
  pub max_tokens : Option ℤ
  pub stream : Bool

pub record TokenChunk : Type 0 where
  pub token : Text
  pub index : ℕ
  pub finish_reason : Option Text

pub record PrefillResponse (F : Type 0) : Type 0 where
  pub session_id : Text
  pub kv_cache_id : Text
  pub num_prompt_tokens : ℤ
  pub kv_size_mb : ℤ
  pub prefill_ms : F
  pub backend : Text
  pub evicted : ℕ

pub record DecodeRequest : Type 0 where
  pub session_id : Text
  pub kv_cache_id : Text
  pub prompt : Text
  pub num_prompt_tokens : ℤ
  pub kv_size_mb : ℤ
  pub max_tokens : ℤ
  pub prefill_backend : Text

pub record BackendInfo (F : Type 0) : Type 0 where
  pub name : Text
  pub url : Text
  pub role : Text
  pub queue_depth : ℕ
  pub active_batch : ℕ
  pub mem_used_mb : ℤ
  pub mem_total_mb : ℤ
  pub utilization : F

pub record HealthResponse (F : Type 0) : Type 0 where
  pub status : Text
  pub role : Text
  pub name : Text
  pub mode : Text
  pub mem_used_mb : ℤ
  pub mem_total_mb : ℤ
  pub utilization : F
  pub queue_depth : ℕ
  pub active_batch : ℕ

-- `n or default`: zero is false.
unfoldable pub or_default : ℤ → ℤ → ℤ
or_default (pos zero) default = default
or_default n default = n

-- `request.max_tokens or default`, where the field may be `None`.
unfoldable pub option_or_default : Option ℤ → ℤ → ℤ
unfolding or_default
option_or_default o default = elim o [ none ↦ default | some n ↦ or_default n default ]

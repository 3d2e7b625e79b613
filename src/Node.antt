-- ===== src/Node.antt =====
-- common/node.py and what the two services tell of themselves (`_backend_info` of
-- services/prefill/main.py and services/decode/main.py): a node registers again and again, until it
-- dies. Readings of the server's clock are arguments; sleeping is the time between them.
pub mod Detection
pub mod Tests
use mini_dynamo.Prelude.{
  ℤ, pos, leb_ℤ, ◌-ℤ◌, ℕ, ◌≡◌, Bool, false, IsOrder, List, [], ◌∷◌, ◌++◌, Text, codes, is_empty,
  ite, Text_discrete, if◌then◌else◌,
}
use mini_dynamo.Models.{BackendInfo, HealthResponse}
use mini_dynamo.Memory.{MemorySimulator, num_blocks}
use mini_dynamo.Redis.{Redis, Json, Ttls, register_backend}
use mini_dynamo.Scheduler.{Scheduler, active_batch, queue_depth}
use mini_dynamo.Worker.Vocabulary.{decimal_ℤ}

-- The name of a node: the service's, or its role where none is set.
unfoldable pub node_name : Text → Text → Text
node_name service_name role =
    if is_empty service_name
    then role
    else ite (Text_discrete service_name (codes "mini-dynamo")) role service_name

-- settings.advertise_url or f"http://{NODE_NAME}:{settings.port}"
unfoldable pub advertised : Text → Text → ℤ → Text
advertised advertise_url name port =
    if is_empty advertise_url
    then codes "http://" ++ name ++ codes ":" ++ decimal_ℤ port
    else advertise_url

-- What a utilization asks of floats: 0.0, 1.0, the quotient of two sizes, and the order.
pub record Ratios (F : Type 0) : Type 0 where
  pub zero : F
  pub one : F
  pub ratio : ℤ → ℤ → F
  pub lt : F → F → Bool
  pub order : IsOrder lt
  pub zero-one : lt one zero ≡ false

module _ {F : Type 0} (ratios : Ratios F) where
  -- min(1.0, x)
  unfoldable pub utilization : MemorySimulator → F
  utilization m =
      let share = ratios.ratio m.used_mb m.total_mb in
      if leb_ℤ m.total_mb (pos 0)
      then ratios.zero
      else if ratios.lt share ratios.one
      then share
      else ratios.one

  unfoldable pub backend_info : Text → Text → Text → ℤ → Scheduler → BackendInfo F
  unfolding advertised utilization
  backend_info role name advertise_url port scheduler = record {
    name = name;
    url = advertised advertise_url name port;
    role = role;
    queue_depth = queue_depth scheduler;
    active_batch = active_batch scheduler;
    mem_used_mb = scheduler.memory.used_mb;
    mem_total_mb = scheduler.memory.total_mb;
    utilization = utilization scheduler.memory;
  }

  -- `_backend_info` of the two services.
  unfoldable pub prefill_info : Text → Text → ℤ → Scheduler → BackendInfo F
  unfolding backend_info node_name
  prefill_info service_name advertise_url port scheduler =
      backend_info (codes "prefill") (node_name service_name (codes "prefill")) advertise_url port
        scheduler

  unfoldable pub decode_info : Text → Text → ℤ → Scheduler → BackendInfo F
  unfolding backend_info node_name
  decode_info service_name advertise_url port scheduler =
      backend_info (codes "decode") (node_name service_name (codes "decode")) advertise_url port
        scheduler

-- `MemorySimulator.stats`, which the services' endpoint gives out.
pub record Stats (F : Type 0) : Type 0 where
  pub total_mb : ℤ
  pub used_mb : ℤ
  pub free_mb : ℤ
  pub utilization : F
  pub num_blocks : ℕ
  pub evictions : ℕ
  pub oom_events : ℕ
  pub allocations : ℕ
  pub policy : Text

-- The rounding of sizes to two places and of ratios to four is a parameter.
module _ {F : Type 0} (ratios : Ratios F) (round_size : ℤ → ℤ) (round_ratio : F → F) where
  unfoldable pub stats : MemorySimulator → Stats F
  unfolding utilization
  stats m = record {
    total_mb = m.total_mb;
    used_mb = round_size m.used_mb;
    free_mb = round_size (m.total_mb -ℤ m.used_mb);
    utilization = round_ratio (utilization ratios m);
    num_blocks = num_blocks m;
    evictions = m.evictions;
    oom_events = m.oom_events;
    allocations = m.allocations;
    policy = m.eviction_policy;
  }

  unfoldable pub health : Text → Text → Text → Scheduler → HealthResponse F
  unfolding utilization
  health role name mode scheduler = record {
    status = codes "ok";
    role = role;
    name = name;
    mode = mode;
    mem_used_mb = round_size scheduler.memory.used_mb;
    mem_total_mb = scheduler.memory.total_mb;
    utilization = round_ratio (utilization ratios scheduler.memory);
    queue_depth = queue_depth scheduler;
    active_batch = active_batch scheduler;
  }

-- What happens to Redis: a beat of the loop that registers its node, a beat that raises an exception
-- (which is logged and passed over), and a write of somebody else.
pub data Beat (F : Type 0) : Type 0 where
  registers : BackendInfo F → ℕ → Beat F
  raises : Text → Beat F
  writes : Text → Text → ℕ → ℕ → Beat F

module _ {F : Type 0} (redis : Redis) (json : Json F) (settings : Ttls) where
  open redis use {Store, set}

  unfoldable pub beat : Beat F → Store → Store
  beat (registers info now) s = register_backend redis json settings info now s
  beat (raises e) s = s
  beat (writes key value ttl now) s = set key value ttl now s

  unfoldable pub heartbeat_loop : List (Beat F) → Store → Store
  unfolding beat
  heartbeat_loop [] s = s
  heartbeat_loop (b ∷ beats) s = heartbeat_loop beats (beat b s)

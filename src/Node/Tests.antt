-- ===== src/Node/Tests.antt =====
-- A node's heartbeat at concrete inputs: its third beat fails, and another node registers.
use mini_dynamo.Prelude.{
  ◌-ℤ◌, pos, ℕ, ◌+◌, ◌≤◌, ◌<◌, ◌≡◌, refl, ap, length, none, List, [], ◌∷◌, ◌++◌, codes,
  Text_discrete, ltb, In, All, arith, decimal,
}
use mini_dynamo.Prelude.Decimal.{digits}
use mini_dynamo.Memory.{init, num_blocks}
use mini_dynamo.Models.{BackendInfo}
use mini_dynamo.Redis.{Ttls, registry_key, registry_prefix, list_backends}
use mini_dynamo.Redis.Demo.{demo_redis, demo_json}
use mini_dynamo.Routing.Tests.{ltb-IsOrder, demo_node}
use mini_dynamo.Scheduler.{active_batch, queue_depth}
use mini_dynamo.Scheduler.Tests.{busy}
use mini_dynamo.Worker.Vocabulary.{decimal_ℤ}
use mini_dynamo.Node.{
  Ratios, node_name, advertised, utilization, backend_info, decode_info, health, stats, Beat,
  registers, raises, writes, heartbeat_loop,
}
use mini_dynamo.Node.Detection.{IsApart, heartbeat_loop-detects}

abbrev ttls : Ttls
ttls = record { heartbeat_ttl = 10; session_ttl = 600 }

-- A quotient that is too large.
abbrev percents : Ratios ℕ
percents = record {
  zero = 0;
  one = 100;
  ratio = λ used total. 130;
  lt = ltb;
  order = ltb-IsOrder;
  zero-one = refl;
}

abbrev told : BackendInfo ℕ
told = decode_info percents (codes "mini-dynamo") [] (pos 8002) busy

told_at : told ≡ record {
  name = codes "decode";
  url = codes "http://decode:8002";
  role = codes "decode";
  queue_depth = 0;
  active_batch = 1;
  mem_used_mb = pos 0;
  mem_total_mb = pos 100;
  utilization = 100;
}
unfolding decode_info backend_info node_name advertised utilization decimal_ℤ decimal digits
    Text_discrete active_batch queue_depth init
told_at = refl

abbrev later : List (Beat ℕ)
later =
    raises (codes "timed out")
    ∷ registers (demo_node (codes "b") 1) 9
    ∷ writes (codes "mdyn:session:s") (codes "b") 600 9
    ∷ []

later-IsApart : All (IsApart demo_redis demo_json ttls told) later
unfolding IsApart registry_key registry_prefix decode_info backend_info node_name Text_discrete
later-IsApart = (
  tt,
  ((λ e. let l = ap (λ s. length s) e in cc l), ((λ e. let l = ap (λ s. length s) e in cc l), tt)),
)

heartbeat_loop-detects_example :
    let s' =
      heartbeat_loop demo_redis demo_json ttls
        ((registers told 2 ∷ []) ++ registers told 5 ∷ later)
        [] in
    (14 < 5 + 10 → In told (list_backends demo_redis demo_json ttls told.role 14 s'))
    × (5 + 10 ≤ 14 → demo_redis.get (registry_key told.role told.name) 14 s' ≡ none)
heartbeat_loop-detects_example =
    heartbeat_loop-detects demo_redis demo_json ttls (registers told 2 ∷ []) later told 5 14 []
      later-IsApart (omega arith)

healthy :
    health percents
      (λ size. size)
      (λ r. r)
      (codes "decode")
      (codes "decode")
      (codes "disaggregated")
      busy
    ≡ record {
      status = codes "ok";
      role = codes "decode";
      name = codes "decode";
      mode = codes "disaggregated";
      mem_used_mb = pos 0;
      mem_total_mb = pos 100;
      utilization = 100;
      queue_depth = 0;
      active_batch = 1;
    }
unfolding health utilization active_batch queue_depth init
healthy = refl

counted : stats percents (λ size. size) (λ r. r) busy.memory ≡ record {
  total_mb = pos 100;
  used_mb = pos 0;
  free_mb = pos 100;
  utilization = 100;
  num_blocks = 0;
  evictions = 0;
  oom_events = 0;
  allocations = 0;
  policy = codes "lru";
}
unfolding stats utilization init num_blocks ◌-ℤ◌
counted = refl

-- ===== src/Routing/Tests.antt =====
-- The routing policy at concrete inputs: two static prefill nodes, and two registered decode nodes
-- of which the second is less loaded.
use mini_dynamo.Prelude.{
  pos, ℕ, ◌+◌, ◌*◌, ◌≡◌, ◌≢◌, ◌⊎◌, inl, inr, refl, false, not, ◌&&◌, none, some, List, [], ◌∷◌,
  Text, codes, Text_discrete, ltb, ◌==◌, length, get_elem?, All, In, IsOrder, IsFirstMin, sort,
  filter, decimal, arith,
}
use mini_dynamo.Prelude.Sorting.{insert}
use mini_dynamo.Prelude.Decimal.{digits}
use mini_dynamo.Models.{BackendInfo}
use mini_dynamo.Redis.{
  list_backends, collect, read_backend, registry_prefix, session_key, set_session_backend,
  get_session_backend,
}
use mini_dynamo.Redis.Demo.{Entries, demo_redis, demo_json}
use mini_dynamo.Routing.{
  Floats, Nodes, RoutingPolicy, selected, no_backend, cache_hit, cache_miss, candidates,
  static_nodes, static_from, load_score, tied, pick_prefill, select_prefill, pinned_node, pin_least,
  missed, choose_decode, select_decode, fallback_decode, init_policy,
}
use mini_dynamo.Routing.Least.{Leaders, select_prefill-least, select_prefill-rotates}
use mini_dynamo.Routing.Sticky.{
  IsLost, select_decode-hit, select_decode-miss, select_decode-sticks, fallback_decode-other,
}

pub ltb-IsOrder : IsOrder ltb
ltb-IsOrder = record {
  irreflexive = λ a. ground arith;
  asymmetric = λ a b h. ground arith;
  trans = λ a b c h k. ground arith;
}

pub eq-ltb : (a b : ℕ) → (a == b) ≡ (not (ltb a b) && not (ltb b a))
eq-ltb a b = ground arith

-- Scores that are whole numbers.
abbrev pub demo_floats : Floats ℕ
demo_floats = record {
  zero = 0;
  plus = λ n x. n + x;
  lt = ltb;
  eq = ◌==◌;
  order = ltb-IsOrder;
  eq-lt = eq-ltb;
}

abbrev pub demo_nodes : Nodes
demo_nodes = record {
  ttls = record { heartbeat_ttl = 10; session_ttl = 600 };
  prefill_urls = codes "http://p0" ∷ codes "http://p1" ∷ [];
  decode_urls = codes "http://d0" ∷ [];
}

abbrev pub demo_node : Text → ℕ → BackendInfo ℕ
demo_node n depth = record {
  name = n;
  url = codes "http://d";
  role = codes "decode";
  queue_depth = depth;
  active_batch = 0;
  mem_used_mb = pos 0;
  mem_total_mb = pos 100;
  utilization = 0;
}

abbrev static_prefill : ℕ → Text → BackendInfo ℕ
static_prefill i u = record {
  name = codes "prefill-0";
  url = u;
  role = codes "prefill";
  queue_depth = 0;
  active_batch = 0;
  mem_used_mb = pos 0;
  mem_total_mb = pos 0;
  utilization = 0;
}

first_turn :
    select_prefill demo_floats demo_redis demo_json demo_nodes init_policy 0 []
    ≡ (selected (static_prefill 0 (codes "http://p0")), record { rr_prefill = 1; rr_decode = 0 })
unfolding select_prefill candidates list_backends collect static_nodes static_from sort insert
    load_score pick_prefill tied filter decimal digits init_policy Text_discrete registry_prefix
first_turn = refl

select_prefill-least_example :
    In
      (static_prefill 0 (codes "http://p0"))
      (candidates demo_floats demo_redis demo_json demo_nodes (codes "prefill") 0 [])
    × All
        (λ c.
          ltb
            (load_score demo_floats c)
            (load_score demo_floats (static_prefill 0 (codes "http://p0")))
          ≡ false)
        (candidates demo_floats demo_redis demo_json demo_nodes (codes "prefill") 0 [])
    × (1 ≡ init_policy.rr_prefill + 1)
select_prefill-least_example =
    select_prefill-least demo_floats demo_redis demo_json demo_nodes init_policy
      (record { rr_prefill = 1; rr_decode = 0 }) 0 [] (static_prefill 0 (codes "http://p0"))
      first_turn

some_prefill : candidates demo_floats demo_redis demo_json demo_nodes (codes "prefill") 0 [] ≢ []
unfolding candidates list_backends collect static_nodes static_from Text_discrete registry_prefix
some_prefill e = cc

select_prefill-rotates_example :
    (l : Leaders demo_floats
      (candidates demo_floats demo_redis demo_json demo_nodes (codes "prefill") 0 []))
    × ((p : RoutingPolicy) (turn j : ℕ) (b : BackendInfo ℕ)
        → get_elem? l.ts j ≡ some b
        → p.rr_prefill ≡ length l.ts * turn + j
        → (select_prefill demo_floats demo_redis demo_json demo_nodes p 0 []).0 ≡ selected b)
select_prefill-rotates_example =
    select_prefill-rotates demo_floats demo_redis demo_json demo_nodes 0 [] some_prefill

-- Two decode nodes register at time 5, and the session is pinned to the first at time 6.
abbrev pub two_nodes : Entries
two_nodes =
    (codes "mdyn:backend:decode:a", demo_redis_dump (codes "a") 4, 15)
    ∷ (codes "mdyn:backend:decode:b", demo_redis_dump (codes "b") 1, 15)
    ∷ []
  where
    demo_redis_dump : Text → ℕ → Text
    demo_redis_dump n depth = demo_json.dump (demo_node n depth)

abbrev pinned_nodes : Entries
pinned_nodes = (codes "mdyn:session:s", codes "a", 606) ∷ two_nodes

abbrev both : List (BackendInfo ℕ)
both = demo_node (codes "a") 4 ∷ demo_node (codes "b") 1 ∷ []

pinned_candidates :
    candidates demo_floats demo_redis demo_json demo_nodes (codes "decode") 7 pinned_nodes ≡ both
unfolding candidates list_backends collect Text_discrete registry_prefix read_backend
pinned_candidates = refl

two_candidates :
    candidates demo_floats demo_redis demo_json demo_nodes (codes "decode") 7 two_nodes ≡ both
unfolding candidates list_backends collect Text_discrete registry_prefix read_backend
two_candidates = refl

pin_of_s :
    get_session_backend demo_redis demo_json demo_nodes.ttls (codes "s") 7 pinned_nodes
    ≡ some (codes "a")
unfolding get_session_backend session_key Text_discrete
pin_of_s = refl

no_pin : get_session_backend demo_redis demo_json demo_nodes.ttls (codes "s") 7 two_nodes ≡ none
unfolding get_session_backend session_key Text_discrete
no_pin = refl

a_listed :
    In
      (demo_node (codes "a") 4)
      (candidates demo_floats demo_redis demo_json demo_nodes (codes "decode") 7 pinned_nodes)
a_listed = rw pinned_candidates (inl refl)

select_decode-hit_example :
    (b : BackendInfo ℕ) × In b
      (candidates demo_floats demo_redis demo_json demo_nodes (codes "decode") 7 pinned_nodes)
    × (b.name ≡ codes "a")
    × (select_decode demo_floats demo_redis demo_json demo_nodes (codes "s") 7 7 7 pinned_nodes
        ≡ (selected (b, cache_hit), pinned_nodes))
select_decode-hit_example =
    select_decode-hit demo_floats demo_redis demo_json demo_nodes (codes "s") (codes "a") 7 7 7
      pinned_nodes (demo_node (codes "a") 4) pin_of_s refl a_listed refl

s-IsLost :
    IsLost demo_floats demo_redis demo_json demo_nodes
      (get_session_backend demo_redis demo_json demo_nodes.ttls (codes "s") 7 two_nodes)
      (candidates demo_floats demo_redis demo_json demo_nodes (codes "decode") 7 two_nodes)
s-IsLost = rw no_pin tt

select_decode-miss_example :
    ((candidates demo_floats demo_redis demo_json demo_nodes (codes "decode") 7 two_nodes ≡ [])
      × (select_decode demo_floats demo_redis demo_json demo_nodes (codes "s") 7 7 7 two_nodes
          ≡ (no_backend (codes "no decode backends available"), two_nodes)))
    ⊎ ((b : BackendInfo ℕ) × IsFirstMin ltb
          (load_score demo_floats)
          b
          (candidates demo_floats demo_redis demo_json demo_nodes (codes "decode") 7 two_nodes)
        × (select_decode demo_floats demo_redis demo_json demo_nodes (codes "s") 7 7 7 two_nodes ≡ (
          selected (b, cache_miss),
          set_session_backend demo_redis demo_json demo_nodes.ttls (codes "s") b.name 7 two_nodes,
        )))
select_decode-miss_example =
    select_decode-miss demo_floats demo_redis demo_json demo_nodes (codes "s") 7 7 7 two_nodes
      s-IsLost

abbrev pub repinned : Entries
repinned = (codes "mdyn:session:s", codes "b", 607) ∷ two_nodes

pub first_miss :
    select_decode demo_floats demo_redis demo_json demo_nodes (codes "s") 7 7 7 two_nodes
    ≡ (selected (demo_node (codes "b") 1, cache_miss), repinned)
unfolding select_decode candidates list_backends collect Text_discrete registry_prefix read_backend
    get_session_backend session_key choose_decode pinned_node pin_least sort insert load_score
    missed set_session_backend
first_miss = refl

b_listed :
    In
      (demo_node (codes "b") 1)
      (candidates demo_floats demo_redis demo_json demo_nodes (codes "decode") 8 repinned)
unfolding candidates list_backends collect Text_discrete registry_prefix read_backend
b_listed = inr (inl refl)

select_decode-sticks_example :
    (b' : BackendInfo ℕ) × (b'.name ≡ codes "b")
    × (select_decode demo_floats demo_redis demo_json demo_nodes (codes "s") 8 8 8 repinned
        ≡ (selected (b', cache_hit), repinned))
select_decode-sticks_example =
    select_decode-sticks demo_floats demo_redis demo_json demo_nodes (codes "s") 7 7 7 8 8 8
      two_nodes repinned (demo_node (codes "b") 1) (demo_node (codes "b") 1) first_miss refl
      (omega arith) (omega arith) b_listed refl

fallback_decode-other_example :
    let cs = candidates demo_floats demo_redis demo_json demo_nodes (codes "decode") 8 repinned in
    let r =
      fallback_decode demo_floats demo_redis demo_json demo_nodes
        (codes "s")
        (codes "b")
        8
        8
        repinned in
    (All (λ c. c.name ≡ codes "b") cs × (r ≡ (none, repinned)))
    ⊎ ((b : BackendInfo ℕ) × In b cs
        × (b.name ≢ codes "b")
        × ((c : BackendInfo ℕ)
            → In c cs
            → c.name ≢ codes "b"
            → ltb (load_score demo_floats c) (load_score demo_floats b) ≡ false)
        × (r ≡ (
          some b,
          set_session_backend demo_redis demo_json demo_nodes.ttls (codes "s") b.name 8 repinned,
        )))
fallback_decode-other_example =
    fallback_decode-other demo_floats demo_redis demo_json demo_nodes (codes "s") (codes "b") 8 8
      repinned

-- ===== src/Routing.antt =====
-- services/router/routing.py: the choice of a prefill node and of a session's decode node. The
-- scores are floats without NaN, a type `F` with an order; every read or write of Redis has a
-- reading of the clock of its own, and other clients' commands in between are not modelled.
pub mod Least
pub mod Sticky
pub mod Tests
use mini_dynamo.Prelude.{
  ℤ, pos, ℕ, ◌+◌, ◌%◌, suc, ◌≡◌, ite, Bool, true, false, not, ◌&&◌, Option, none, some, List, [],
  ◌∷◌, ◌++◌, Text, codes, is_empty, Text_discrete, if◌then◌else◌, length, get_elem?, IsOrder,
  filter, sort, decimal,
}
use mini_dynamo.Dict.{Dict, get, put}
use mini_dynamo.Models.{BackendInfo}
use mini_dynamo.Redis.{Redis, Json, Ttls, list_backends, get_session_backend, set_session_backend}

-- What the program asks of floats: the zero that a node's utilization defaults to, an integer
-- added to a float, and the comparisons. NaN is left out.
pub record Floats (F : Type 0) : Type 0 where
  pub zero : F
  pub plus : ℕ → F → F
  pub lt : F → F → Bool
  pub eq : F → F → Bool
  pub order : IsOrder lt
  pub eq-lt : (a b : F) → eq a b ≡ (not (lt a b) && not (lt b a))

-- The settings that the policy reads.
pub record Nodes : Type 0 where
  pub ttls : Ttls
  pub prefill_urls : List Text
  pub decode_urls : List Text

-- The policy's own state; `rr_decode` is set up and never used.
pub record RoutingPolicy : Type 0 where
  pub rr_prefill : ℕ
  pub rr_decode : ℕ

unfoldable pub init_policy : RoutingPolicy
init_policy = record { rr_prefill = 0; rr_decode = 0 }

-- The outcome of a selection: the exception `NoBackendError` is a value with its message.
pub data Selected (A : Type 0) : Type 0 where
  selected : A → Selected A
  no_backend : Text → Selected A

pub data Decision : Type 0 where
  cache_hit : Decision
  cache_miss : Decision

-- `{c.name: c for c in candidates}`: of two nodes with one name the last counts.
module _ {F : Type 0} where
  unfoldable pub name_all :
      List (BackendInfo F) → Dict Text (BackendInfo F) → Dict Text (BackendInfo F)
  name_all [] d = d
  name_all (b ∷ bs) d = name_all bs (put Text_discrete b.name b d)

  unfoldable pub by_name : List (BackendInfo F) → Dict Text (BackendInfo F)
  unfolding name_all
  by_name bs = name_all bs []

  unfoldable pub is_named : Text → BackendInfo F → Bool
  is_named n b = ite (Text_discrete b.name n) true false

-- The urls of the settings as nodes, with their position from `i` on in the name.
module _ {F : Type 0} (floats : Floats F) where
  unfoldable pub static_from : Text → ℕ → List Text → List (BackendInfo F)
  static_from role i [] = []
  static_from role i (u ∷ urls) =
      record {
        name = role ++ codes "-" ++ decimal i;
        url = u;
        role = role;
        queue_depth = 0;
        active_batch = 0;
        mem_used_mb = pos 0;
        mem_total_mb = pos 0;
        utilization = floats.zero;
      }
      ∷ static_from role (suc i) urls

  -- Lower is better: idle nodes of low utilization.
  unfoldable pub load_score : BackendInfo F → F
  load_score b = floats.plus (b.queue_depth + b.active_batch) b.utilization

  -- The nodes whose score equals the best one's.
  unfoldable pub tied : BackendInfo F → List (BackendInfo F) → List (BackendInfo F)
  tied best = filter (λ c. floats.eq (load_score c) (load_score best))

  -- `tied[next(counter) % len(tied)]`; the list holds the best node and is never empty.
  unfoldable pub pick_prefill :
      RoutingPolicy → List (BackendInfo F) → Selected (BackendInfo F) × RoutingPolicy
  pick_prefill p [] = (no_backend (codes "no prefill backends available"), p)
  pick_prefill p (best ∷ rest) =
      let ts = tied best (best ∷ rest) in
      (
        elim (get_elem? ts (p.rr_prefill % length ts)) [
          | none ↦ no_backend (codes "index out of range")
          | some b ↦ selected b
        ],
        record { rr_prefill = p.rr_prefill + 1; rr_decode = p.rr_decode },
      )

module _ {F : Type 0} (floats : Floats F) (redis : Redis) (json : Json F) (nodes : Nodes) where
  open redis use {Store}

  -- What the candidates are when nothing is registered under the role.
  unfoldable pub static_nodes : Text → List (BackendInfo F)
  static_nodes role =
      static_from floats role 0
        (ite (Text_discrete role (codes "prefill")) nodes.prefill_urls nodes.decode_urls)

  unfoldable pub candidates : Text → ℕ → Store → List (BackendInfo F)
  candidates role now s = elim (list_backends redis json nodes.ttls role now s) [
    | [] ↦ static_nodes role
    | b ∷ bs ↦ b ∷ bs
  ]

  unfoldable pub select_prefill :
      RoutingPolicy → ℕ → Store → Selected (BackendInfo F) × RoutingPolicy
  select_prefill p now s =
      pick_prefill floats p
        (sort floats.lt (load_score floats) (candidates (codes "prefill") now s))

  -- The pin, when it is not empty and names a candidate.
  unfoldable pub pinned_node : Option Text → List (BackendInfo F) → Option (BackendInfo F)
  pinned_node none cs = none
  pinned_node (some pin) cs = if is_empty pin then none else get Text_discrete pin (by_name cs)

  -- The least loaded candidate, and the session pinned to it.
  unfoldable pub pin_least :
      Text → ℕ → List (BackendInfo F) → Store → Option (BackendInfo F) × Store
  pin_least session_id now cs s = elim (sort floats.lt (load_score floats) cs) [
    | [] ↦ (none, s)
    | chosen ∷ rest ↦
        (some chosen, set_session_backend redis json nodes.ttls session_id chosen.name now s)
  ]

  -- A candidate's choice as a cache miss.
  unfoldable pub missed :
      Option (BackendInfo F) × Store → Selected (BackendInfo F × Decision) × Store
  missed (none, s) = (no_backend (codes "no decode backends available"), s)
  missed (some chosen, s) = (selected (chosen, cache_miss), s)

  unfoldable pub choose_decode :
      Text → ℕ → ℕ → List (BackendInfo F) → Store → Selected (BackendInfo F × Decision) × Store
  choose_decode session_id read written [] s =
      (no_backend (codes "no decode backends available"), s)
  choose_decode session_id read written (c ∷ cs) s =
      elim (pinned_node (get_session_backend redis json nodes.ttls session_id read s) (c ∷ cs)) [
        | some b ↦ (selected (b, cache_hit), s)
        | none ↦ missed (pin_least session_id written (c ∷ cs) s)
      ]

  -- The clock is read for the registry, the pin and the write.
  unfoldable pub select_decode :
      Text → ℕ → ℕ → ℕ → Store → Selected (BackendInfo F × Decision) × Store
  select_decode session_id listed read written s =
      choose_decode session_id read written (candidates (codes "decode") listed s) s

  unfoldable pub fallback_decode : Text → Text → ℕ → ℕ → Store → Option (BackendInfo F) × Store
  fallback_decode session_id exclude listed written s =
      pin_least session_id written
        (filter (λ c. not (is_named exclude c)) (candidates (codes "decode") listed s)) s

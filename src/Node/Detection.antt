-- ===== src/Node/Detection.antt =====
-- The failure detection of the heartbeat: how long a node stays listed.
use mini_dynamo.Prelude.{
  ℕ, ◌+◌, ◌<◌, ◌≤◌, ◌≡◌, ◌≢◌, refl, ap, ◌∙◌, ◌++◌, List, [], ◌∷◌, none, All, In, Bool-cases, inl,
  inr, pos, leb_ℤ, false,
}
use mini_dynamo.Models.{BackendInfo}
use mini_dynamo.Redis.{Redis, Json, Ttls, register_backend, registry_key, list_backends}
use mini_dynamo.Redis.Registry.{listed_while_stored}
use mini_dynamo.Memory.{MemorySimulator}
use mini_dynamo.Node.{Ratios, utilization, Beat, registers, raises, writes, beat, heartbeat_loop}

module _ {F : Type 0} (redis : Redis) (json : Json F) (settings : Ttls) where
  open redis use {Store, get, set}

  -- A beat that does not write the node's entry.
  unfoldable pub IsApart : BackendInfo F → Beat F → Type 0
  IsApart info (registers other now) =
      registry_key other.role other.name ≢ registry_key info.role info.name
  IsApart info (raises e) = Unit
  IsApart info (writes key value ttl now) = key ≢ registry_key info.role info.name

  apart :
      (info : BackendInfo F) (beats : List (Beat F)) (t : ℕ) (s : Store)
      → All (IsApart info) beats
      → get (registry_key info.role info.name) t (heartbeat_loop redis json settings beats s)
        ≡ get (registry_key info.role info.name) t s
  unfolding heartbeat_loop beat IsApart register_backend
  apart info [] t s h = refl
  apart info (registers other now ∷ beats) t s h =
      apart info beats t (register_backend redis json settings other now s) h.1
      ∙ redis.get-set_ne (registry_key other.role other.name) (registry_key info.role info.name)
          (json.dump other) settings.heartbeat_ttl now t s h.0
  apart info (raises e ∷ beats) t s h = apart info beats t s h.1
  apart info (writes key value ttl now ∷ beats) t s h =
      apart info beats t (set key value ttl now s) h.1
      ∙ redis.get-set_ne key (registry_key info.role info.name) value ttl now t s h.0

  heartbeat_loop-append :
      (before after : List (Beat F)) (s : Store)
      → heartbeat_loop redis json settings (before ++ after) s
        ≡ heartbeat_loop redis json settings after (heartbeat_loop redis json settings before s)
  unfolding heartbeat_loop
  heartbeat_loop-append [] after s = refl
  heartbeat_loop-append (b ∷ before) after s =
      heartbeat_loop-append before after (beat redis json settings b s)

  -- Whatever has happened before, a node that registers and whose later beats all fail stays
  -- listed, as it was at its last registration, until the time to live of that registration is
  -- over, and its entry is gone from then on, unless somebody else writes its entry.
  pub heartbeat_loop-detects :
      (before after : List (Beat F)) (info : BackendInfo F) (now t : ℕ) (s : Store)
      → All (IsApart info) after
      → now ≤ t
      → let s' = heartbeat_loop redis json settings (before ++ registers info now ∷ after) s in
        (t < now + settings.heartbeat_ttl
          → In info (list_backends redis json settings info.role t s'))
        × (now + settings.heartbeat_ttl ≤ t → get (registry_key info.role info.name) t s' ≡ none)
  unfolding heartbeat_loop beat register_backend
  heartbeat_loop-detects before after info now t s h started =
      let s0 = heartbeat_loop redis json settings before s in
      let key = registry_key info.role info.name in
      let same =
        ap (get key t) (heartbeat_loop-append before (registers info now ∷ after) s)
        ∙ apart info after t (register_backend redis json settings info now s0) h in
      (
        (λ live. listed_while_stored redis json settings info t _ (
            same
            ∙ redis.get-set_live key (json.dump info) settings.heartbeat_ttl now t s0 started
                live)),
        (λ over.
            same ∙ redis.get-set_expired key (json.dump info) settings.heartbeat_ttl now t s0 over),
      )

-- The utilization that a node tells of is never above one.
pub utilization-bound :
    {F : Type 0} (ratios : Ratios F) (m : MemorySimulator)
    → ratios.lt ratios.one (utilization ratios m) ≡ false
unfolding utilization
utilization-bound ratios m = elim (Bool-cases (leb_ℤ m.total_mb (pos 0))) [
  | inl e ↦ rw e ratios.zero-one
  | inr e ↦ elim (Bool-cases (ratios.lt (ratios.ratio m.used_mb m.total_mb) ratios.one)) [
    | inl below ↦
        rw (e, below) (ratios.order.asymmetric (ratios.ratio m.used_mb m.total_mb) ratios.one below)
    | inr above ↦ rw (e, above) (ratios.order.irreflexive ratios.one)
  ]
]

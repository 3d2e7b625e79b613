-- ===== src/Routing/Least.antt =====
-- The prefill node that a selection takes: one of the least loaded candidates, in turn.
use mini_dynamo.Prelude.{
  ℕ, ◌+◌, ◌*◌, ◌%◌, ◌<◌, ◌≡◌, ◌⊎◌, inl, inr, ◌≢◌, refl, sym, ap, subst, ◌∙◌, false, some, List, [],
  ◌∷◌, codes, length, get_elem?, filter, sort, ties, arith, All, All-map, sort-IsFirstMin, sort_nil,
  sort-filter, IsFirstMin, IsFirstMin-least, In, get_elem-some, get_elem-In, get_elem-length,
  filter-In,
}
use native.Mathlib.Nat.{mod-lt, mul-add-mod_self_left, mod-eq_of_lt}
use mini_dynamo.Models.{BackendInfo}
use mini_dynamo.Redis.{Redis, Json}
use mini_dynamo.Routing.{
  Floats, Nodes, RoutingPolicy, Selected, selected, no_backend, load_score, tied, candidates,
  pick_prefill, select_prefill,
}

module _ {F : Type 0} (floats : Floats F) where
  -- `best` is the first of the least loaded nodes, and `ts` are all of them in their order.
  pub record Leaders (cs : List (BackendInfo F)) : Type 0 where
    pub best : BackendInfo F
    pub ts : List (BackendInfo F)
    pub least : IsFirstMin floats.lt (load_score floats) best cs
    pub every : ts ≡ filter (ties floats.lt (load_score floats) best) cs

  tied-ties :
      (best : BackendInfo F) (cs : List (BackendInfo F))
      → tied floats best cs ≡ filter (ties floats.lt (load_score floats) best) cs
  unfolding tied ties filter
  tied-ties best [] = refl
  tied-ties best (c ∷ cs) =
      ground (arith, tied-ties best cs, floats.eq-lt (load_score floats c) (load_score floats best))

  leaders_nonempty :
      (best : BackendInfo F) (rest : List (BackendInfo F))
      → 0 < length (tied floats best (best ∷ rest))
  unfolding tied filter
  leaders_nonempty best rest =
      rw
        (
          floats.eq-lt (load_score floats best) (load_score floats best),
          floats.order.irreflexive (load_score floats best),
        )
        (omega arith)

  -- What a selection among `cs` gives.
  pub data Turn (p : RoutingPolicy)
      : List (BackendInfo F) → Selected (BackendInfo F) × RoutingPolicy → Type 0 where
    refused : Turn p [] (no_backend (codes "no prefill backends available"), p)
    taken :
        (cs : List (BackendInfo F)) (leaders : Leaders cs) (b : BackendInfo F)
        → get_elem? leaders.ts (p.rr_prefill % length leaders.ts) ≡ some b
        → Turn p cs (selected b, record { rr_prefill = p.rr_prefill + 1; rr_decode = p.rr_decode })

  sorted_leaders :
      (cs : List (BackendInfo F)) (best : BackendInfo F) (rest : List (BackendInfo F))
      → sort floats.lt (load_score floats) cs ≡ best ∷ rest
      → Leaders cs
  sorted_leaders cs best rest e = record {
    best = best;
    ts = tied floats best (best ∷ rest);
    least = sort-IsFirstMin floats.lt (load_score floats) floats.order cs e;
    every =
        tied-ties best (best ∷ rest)
        ∙ (ap (filter (ties floats.lt (load_score floats) best)) (sym e)
            ∙ sort-filter floats.lt (load_score floats) floats.order best cs);
  }

  pick_prefill-Turn :
      (p : RoutingPolicy) (cs : List (BackendInfo F))
      → Turn p cs (pick_prefill floats p (sort floats.lt (load_score floats) cs))
  unfolding pick_prefill sorted_leaders
  pick_prefill-Turn p cs = sorted (sort floats.lt (load_score floats) cs) refl
    where
      sorted :
          (ds : List (BackendInfo F))
          → sort floats.lt (load_score floats) cs ≡ ds
          → Turn p cs (pick_prefill floats p ds)
      sorted [] e = rw (sort_nil floats.lt (load_score floats) floats.order cs e) refused
      sorted (best ∷ rest) e =
          (let ts = tied floats best (best ∷ rest) in
            let (b, found) =
              get_elem-some ts (p.rr_prefill % length ts)
                (mod-lt p.rr_prefill (leaders_nonempty best rest)) in
            rw found (taken cs (sorted_leaders cs best rest e) b found))

  taken_least :
      (cs : List (BackendInfo F)) (l : Leaders cs) (b : BackendInfo F) (i : ℕ)
      → get_elem? l.ts i ≡ some b
      → In b cs × All (λ c. floats.lt (load_score floats c) (load_score floats b) ≡ false) cs
  unfolding ties
  taken_least cs l b i found =
      let (among, equal) =
        filter-In (ties floats.lt (load_score floats) l.best) cs
          (subst (In b) l.every (get_elem-In l.ts i found)) in
      (
        among,
        All-map _ _ cs
            (λ c least.
              floats.order.trans _ (load_score floats l.best) _ least (ground (arith, equal)))
            (IsFirstMin-least floats.lt (load_score floats) floats.order l.least),
      )

  Turn-least :
      {p p' : RoutingPolicy} {cs : List (BackendInfo F)} {b : BackendInfo F}
      {r : Selected (BackendInfo F) × RoutingPolicy}
      → Turn p cs r
      → r ≡ (selected b, p')
      → In b cs
        × All (λ c. floats.lt (load_score floats c) (load_score floats b) ≡ false) cs
        × (p'.rr_prefill ≡ p.rr_prefill + 1)
  Turn-least refused e = cc
  Turn-least {p} {p'} {b = b} (taken cs l b' found) e =
      let same : b' ≡ b = cc in
      let next : p.rr_prefill + 1 ≡ p'.rr_prefill = ap (λ r. r.1.rr_prefill) e in
      let (among, least) = rw same at (taken_least cs l b' _ found) in (among, least, sym next)

  rotation :
      (cs : List (BackendInfo F))
      → cs ≢ []
      → (l : Leaders cs) × ((p : RoutingPolicy) (turn j : ℕ) (b : BackendInfo F)
          → get_elem? l.ts j ≡ some b
          → p.rr_prefill ≡ length l.ts * turn + j
          → (pick_prefill floats p (sort floats.lt (load_score floats) cs)).0 ≡ selected b)
  unfolding pick_prefill sorted_leaders
  rotation cs some_candidate = sorted (sort floats.lt (load_score floats) cs) refl
    where
      Rotates : List (BackendInfo F) → Type 0
      Rotates ds =
          (l : Leaders cs) × ((p : RoutingPolicy) (turn j : ℕ) (b : BackendInfo F)
            → get_elem? l.ts j ≡ some b
            → p.rr_prefill ≡ length l.ts * turn + j
            → (pick_prefill floats p ds).0 ≡ selected b)

      sorted : (ds : List (BackendInfo F)) → sort floats.lt (load_score floats) cs ≡ ds → Rotates ds
      sorted [] e =
          absurd (some_candidate (sort_nil floats.lt (load_score floats) floats.order cs e))
      sorted (best ∷ rest) e = (
        sorted_leaders cs best rest e,
        λ p turn j b found at_turn.
            let ts = tied floats best (best ∷ rest) in
            let place : p.rr_prefill % length ts ≡ j =
              ap (λ n. n % length ts) at_turn
              ∙ (mul-add-mod_self_left (length ts) turn j
                  ∙ mod-eq_of_lt (get_elem-length ts j found)) in
            rw (pick_prefill, place, found) refl,
      )

module _ {F : Type 0} (floats : Floats F) (redis : Redis) (json : Json F) (nodes : Nodes) where
  open redis use {Store}

  -- The prefill node that a selection takes is a candidate, no candidate has a smaller score, and
  -- the counter of the round robin moves on by one.
  pub select_prefill-least :
      (p p' : RoutingPolicy) (now : ℕ) (s : Store) (b : BackendInfo F)
      → select_prefill floats redis json nodes p now s ≡ (selected b, p')
      → let cs = candidates floats redis json nodes (codes "prefill") now s in
        In b cs
        × All (λ c. floats.lt (load_score floats c) (load_score floats b) ≡ false) cs
        × (p'.rr_prefill ≡ p.rr_prefill + 1)
  unfolding select_prefill
  select_prefill-least p p' now s b e =
      Turn-least floats
        (pick_prefill-Turn floats p (candidates floats redis json nodes (codes "prefill") now s)) e

  -- Either there is no candidate, and the selection is refused and its counter stays, or it takes
  -- a node.
  pub select_prefill-refused :
      (p : RoutingPolicy) (now : ℕ) (s : Store)
      → (candidates floats redis json nodes (codes "prefill") now s ≡ []
          × (select_prefill floats redis json nodes p now s
              ≡ (no_backend (codes "no prefill backends available"), p)))
        ⊎ ((b : BackendInfo F) × ((select_prefill floats redis json nodes p now s).0 ≡ selected b))
  unfolding select_prefill
  select_prefill-refused p now s =
      turned
        (pick_prefill-Turn floats p (candidates floats redis json nodes (codes "prefill") now s))
    where
      turned :
          {cs : List (BackendInfo F)} {r : Selected (BackendInfo F) × RoutingPolicy}
          → Turn floats p cs r
          → (cs ≡ [] × (r ≡ (no_backend (codes "no prefill backends available"), p)))
            ⊎ ((b : BackendInfo F) × (r.0 ≡ selected b))
      turned refused = inl (refl, refl)
      turned (taken cs l b found) = inr (b, refl)

  -- When there is a candidate, the selections on one store and at one time go through the least
  -- loaded candidates in turn: the list of these, in the candidates' order, is such that the
  -- selection with the counter `length * turn + j` takes the one at `j`.
  pub select_prefill-rotates :
      (now : ℕ) (s : Store)
      → candidates floats redis json nodes (codes "prefill") now s ≢ []
      → (l : Leaders floats (candidates floats redis json nodes (codes "prefill") now s))
        × ((p : RoutingPolicy) (turn j : ℕ) (b : BackendInfo F)
            → get_elem? l.ts j ≡ some b
            → p.rr_prefill ≡ length l.ts * turn + j
            → (select_prefill floats redis json nodes p now s).0 ≡ selected b)
  unfolding select_prefill
  select_prefill-rotates now s =
      rotation floats (candidates floats redis json nodes (codes "prefill") now s)

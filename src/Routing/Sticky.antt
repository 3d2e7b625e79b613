-- ===== src/Routing/Sticky.antt =====
-- The decode node that a selection takes: the session's pin while it is a candidate, otherwise a
-- least loaded candidate, which becomes the pin.
use mini_dynamo.Prelude.{
  ℕ, ◌+◌, ◌<◌, ◌≤◌, ◌≡◌, ◌≢◌, ◌⊎◌, inl, inr, refl, sym, ap, ◌∙◌, if_pos, if_neg, Bool, true, false,
  not, Option, none, some, List, [], ◌∷◌, ◌++◌, Text, codes, is_empty, Text_discrete, filter, sort,
  arith, All, All-map, In, In-All, Option-cases, Bool-cases, sort-IsFirstMin, sort_nil, IsFirstMin,
  IsFirstMin-least, filter-In, In-filter, filter_empty-All,
}
use mini_dynamo.Dict.{Dict, get, put}
use mini_dynamo.Dict.Laws.{get-put}
use mini_dynamo.Models.{BackendInfo}
use mini_dynamo.Redis.{Redis, Json, get_session_backend, set_session_backend}
use mini_dynamo.Routing.{
  Floats, Nodes, Selected, selected, no_backend, Decision, cache_hit, cache_miss, name_all, by_name,
  is_named, load_score, candidates, pinned_node, pin_least, missed, choose_decode, select_decode,
  fallback_decode,
}

module _ {F : Type 0} where
  -- What a lookup under the name gives when the nodes `bs` have been entered into `d`.
  Entered :
      Text → List (BackendInfo F) → Dict Text (BackendInfo F) → Option (BackendInfo F) → Type 0
  Entered n bs d o =
      ((b : BackendInfo F) × In b bs × (b.name ≡ n) × (o ≡ some b))
      ⊎ (All (λ c. c.name ≢ n) bs × (o ≡ get Text_discrete n d))

  name_all-Entered :
      (n : Text) (bs : List (BackendInfo F)) (d : Dict Text (BackendInfo F))
      → Entered n bs d (get Text_discrete n (name_all bs d))
  unfolding name_all Entered
  name_all-Entered n [] d = inr (tt, refl)
  name_all-Entered n (b ∷ bs) d = elim (name_all-Entered n bs (put Text_discrete b.name b d)) [
    | inl (c, among, named, found) ↦ inl (c, inr among, named, found)
    | inr (others, same) ↦ elim (Text_discrete b.name n) [
      | yes e ↦ inl (
        b,
        inl refl,
        e,
        same ∙ (get-put Text_discrete b.name n b d ∙ if_pos (Text_discrete b.name n) e _ _),
      )
      | no ne ↦ inr (
        (ne, others),
        same ∙ (get-put Text_discrete b.name n b d ∙ if_neg (Text_discrete b.name n) ne _ _),
      )
    ]
  ]

  by_name-Entered :
      (n : Text) (bs : List (BackendInfo F)) → Entered n bs [] (get Text_discrete n (by_name bs))
  unfolding by_name
  by_name-Entered n bs = name_all-Entered n bs []

  -- The candidate that a pin leads to.
  unfoldable PinFound : Text → List (BackendInfo F) → Option (BackendInfo F) → Type 0
  PinFound pin cs o = (b : BackendInfo F) × In b cs × (b.name ≡ pin) × (o ≡ some b)

  pinned_node-found :
      (pin : Text) (cs : List (BackendInfo F)) (c : BackendInfo F)
      → is_empty pin ≡ false
      → In c cs
      → c.name ≡ pin
      → PinFound pin cs (get Text_discrete pin (by_name cs))
  unfolding PinFound Entered
  pinned_node-found pin cs c filled among named = elim (by_name-Entered pin cs) [
    | inl found ↦ found
    | inr (others, e) ↦ absurd (In-All (λ b. b.name ≢ pin) cs among others named)
  ]

module _ {F : Type 0} (floats : Floats F) (redis : Redis) (json : Json F) (nodes : Nodes) where
  open redis use {Store}

  -- The pin leads nowhere: there is none, it is empty, or no candidate has its name.
  abbrev pub IsLost : Option Text → List (BackendInfo F) → Type 0
  IsLost none cs = Unit
  IsLost (some pin) cs = (is_empty pin ≡ true) ⊎ All (λ c. c.name ≢ pin) cs

  pinned_node-hit :
      (pin : Text) (cs : List (BackendInfo F)) (c : BackendInfo F)
      → is_empty pin ≡ false
      → In c cs
      → c.name ≡ pin
      → PinFound pin cs (pinned_node floats redis json nodes (some pin) cs)
  unfolding pinned_node
  pinned_node-hit pin cs c filled among named =
      rw filled (pinned_node-found pin cs c filled among named)

  pinned_node-lost :
      (o : Option Text) (cs : List (BackendInfo F))
      → IsLost o cs
      → pinned_node floats redis json nodes o cs ≡ none
  unfolding pinned_node Entered get
  pinned_node-lost none cs lost = refl
  pinned_node-lost (some pin) cs (inl e) = rw e refl
  pinned_node-lost (some pin) cs (inr others) = elim (by_name-Entered pin cs) [
    | inl (b, among, named, e) ↦ absurd (In-All (λ c. c.name ≢ pin) cs among others named)
    | inr (same, e) ↦ elim (Bool-cases (is_empty pin)) [ inl k ↦ rw k refl | inr k ↦ rw k e ]
  ]

  -- A turn of a session whose pin is not empty and names a candidate goes to a candidate of that
  -- name, as a cache hit, and changes nothing in the store.
  pub select_decode-hit :
      (session_id pin : Text) (listed read written : ℕ) (s : Store) (c : BackendInfo F)
      → get_session_backend redis json nodes.ttls session_id read s ≡ some pin
      → is_empty pin ≡ false
      → In c (candidates floats redis json nodes (codes "decode") listed s)
      → c.name ≡ pin
      → (b : BackendInfo F) × In b (candidates floats redis json nodes (codes "decode") listed s)
        × (b.name ≡ pin)
        × (select_decode floats redis json nodes session_id listed read written s
            ≡ (selected (b, cache_hit), s))
  unfolding select_decode choose_decode PinFound
  select_decode-hit session_id pin listed read written s c pinned filled among named =
      chosen (candidates floats redis json nodes (codes "decode") listed s) among
    where
      chosen :
          (cs : List (BackendInfo F))
          → In c cs
          → (b : BackendInfo F) × In b cs
            × (b.name ≡ pin)
            × (choose_decode floats redis json nodes session_id read written cs s
                ≡ (selected (b, cache_hit), s))
      chosen [] h = absurd h
      chosen (d ∷ ds) h =
          let (b, there, same, found) = pinned_node-hit pin (d ∷ ds) c filled h named in
          (b, there, same, rw (choose_decode, pinned, found) refl)

  Pinned : Text → ℕ → List (BackendInfo F) → Store → Option (BackendInfo F) × Store → Type 0
  Pinned session_id now cs s r =
      (b : BackendInfo F) × IsFirstMin floats.lt (load_score floats) b cs
      × (r ≡ (some b, set_session_backend redis json nodes.ttls session_id b.name now s))

  pin_least-Pinned :
      (session_id : Text) (now : ℕ) (cs : List (BackendInfo F)) (s : Store)
      → (cs ≡ [] × (pin_least floats redis json nodes session_id now cs s ≡ (none, s)))
        ⊎ Pinned session_id now cs s (pin_least floats redis json nodes session_id now cs s)
  unfolding Pinned pin_least
  pin_least-Pinned session_id now cs s = sorted (sort floats.lt (load_score floats) cs) refl
    where
      sorted :
          (ds : List (BackendInfo F))
          → sort floats.lt (load_score floats) cs ≡ ds
          → (cs ≡ [] × (pin_least floats redis json nodes session_id now cs s ≡ (none, s)))
            ⊎ Pinned session_id now cs s (pin_least floats redis json nodes session_id now cs s)
      sorted [] e =
          inl (sort_nil floats.lt (load_score floats) floats.order cs e, rw (pin_least, e) refl)
      sorted (b ∷ ds) e = inr (
        b,
        sort-IsFirstMin floats.lt (load_score floats) floats.order cs e,
        rw (pin_least, e) refl,
      )

  -- A session without a usable pin gets the first of the least loaded candidates, and is pinned to
  -- it; it is refused, and the store stays, exactly when there is no candidate.
  pub select_decode-miss :
      (session_id : Text) (listed read written : ℕ) (s : Store)
      → IsLost
          (get_session_backend redis json nodes.ttls session_id read s)
          (candidates floats redis json nodes (codes "decode") listed s)
      → ((candidates floats redis json nodes (codes "decode") listed s ≡ [])
          × (select_decode floats redis json nodes session_id listed read written s
              ≡ (no_backend (codes "no decode backends available"), s)))
        ⊎ ((b : BackendInfo F) × IsFirstMin floats.lt
              (load_score floats)
              b
              (candidates floats redis json nodes (codes "decode") listed s)
            × (select_decode floats redis json nodes session_id listed read written s ≡ (
              selected (b, cache_miss),
              set_session_backend redis json nodes.ttls session_id b.name written s,
            )))
  unfolding select_decode choose_decode Pinned missed
  select_decode-miss session_id listed read written s lost =
      chosen (candidates floats redis json nodes (codes "decode") listed s) lost
    where
      chosen :
          (cs : List (BackendInfo F))
          → IsLost (get_session_backend redis json nodes.ttls session_id read s) cs
          → ((cs ≡ [])
              × (choose_decode floats redis json nodes session_id read written cs s
                  ≡ (no_backend (codes "no decode backends available"), s)))
            ⊎ ((b : BackendInfo F) × IsFirstMin floats.lt (load_score floats) b cs
                × (choose_decode floats redis json nodes session_id read written cs s ≡ (
                  selected (b, cache_miss),
                  set_session_backend redis json nodes.ttls session_id b.name written s,
                )))
      chosen [] h = inl (refl, refl)
      chosen (c ∷ cs) h = elim (pin_least-Pinned session_id written (c ∷ cs) s) [
        | inl (e, r) ↦ cc
        | inr (b, least, r) ↦
            inr (b, least, rw (choose_decode, pinned_node-lost _ (c ∷ cs) h, r) refl)
      ]

  missed-written :
      (session_id : Text) (read written : ℕ) (cs : List (BackendInfo F)) (s s' : Store)
      (b : BackendInfo F)
      → choose_decode floats redis json nodes session_id read written cs s
        ≡ (selected (b, cache_miss), s')
      → s' ≡ set_session_backend redis json nodes.ttls session_id b.name written s
  unfolding choose_decode missed Pinned
  missed-written session_id read written [] s s' b e = cc
  missed-written session_id read written (c ∷ cs) s s' b e =
      elim (Option-cases (
        pinned_node floats redis json nodes
          (get_session_backend redis json nodes.ttls session_id read s) (c ∷ cs))) [
            | inr (d, found) ↦ cc (rw (choose_decode, found) at e)
            | inl lost ↦ elim (pin_least-Pinned session_id written (c ∷ cs) s) [
              | inl (empty, r) ↦ cc
              | inr (d, least, r) ↦ written_by d (rw (choose_decode, lost, r) at e)
            ]
          ]
    where
      written_by :
          (d : BackendInfo F)
          → ◌≡◌ {A = Selected (BackendInfo F × Decision) × Store}
              (
                selected (d, cache_miss),
                set_session_backend redis json nodes.ttls session_id d.name written s,
              )
              (selected (b, cache_miss), s')
          → s' ≡ set_session_backend redis json nodes.ttls session_id b.name written s
      written_by d k = let same : d ≡ b = cc in rw same at (sym (ap (λ r. r.1) k))

  -- After a miss, a later turn of the session goes to a node with the chosen one's name, as a
  -- cache hit that leaves the store, when that name is not empty, the pin's time to live is not
  -- over and a candidate has the name.
  pub select_decode-sticks :
      (session_id : Text) (listed read written listed' read' written' : ℕ) (s s' : Store)
      (b c : BackendInfo F)
      → select_decode floats redis json nodes session_id listed read written s
        ≡ (selected (b, cache_miss), s')
      → is_empty b.name ≡ false
      → written ≤ read'
      → read' < written + nodes.ttls.session_ttl
      → In c (candidates floats redis json nodes (codes "decode") listed' s')
      → c.name ≡ b.name
      → (b' : BackendInfo F) × (b'.name ≡ b.name)
        × (select_decode floats redis json nodes session_id listed' read' written' s'
            ≡ (selected (b', cache_hit), s'))
  unfolding get_session_backend set_session_backend select_decode
  select_decode-sticks session_id listed read written listed' read' written' s s' b c e filled after
        live among named =
      let now_pinned =
        missed-written session_id read written
          (candidates floats redis json nodes (codes "decode") listed s) s s' b e in
      let pinned : get_session_backend redis json nodes.ttls session_id read' s' ≡ some b.name =
        rw now_pinned (redis.get-set_live _ b.name _ written read' s after live) in
      let (b', there, same, result) =
        select_decode-hit session_id b.name listed' read' written' s' c pinned filled among named in
      (b', same, result)

  first-In :
      {b : BackendInfo F} {cs : List (BackendInfo F)}
      → IsFirstMin floats.lt (load_score floats) b cs
      → In b cs
  first-In {b} f = rw f.split (middle f.before)
    where
      middle : (before : List (BackendInfo F)) → In b (before ++ b ∷ f.after)
      middle [] = inl refl
      middle (c ∷ cs) = inr (middle cs)

  -- The fallback takes a least loaded one of the candidates that have another name than the failed
  -- node, and pins the session to it; it finds none, and leaves the store, exactly when every
  -- candidate has the failed node's name.
  pub fallback_decode-other :
      (session_id failed : Text) (listed written : ℕ) (s : Store)
      → let cs = candidates floats redis json nodes (codes "decode") listed s in
        let r = fallback_decode floats redis json nodes session_id failed listed written s in
        (All (λ c. c.name ≡ failed) cs × (r ≡ (none, s)))
        ⊎ ((b : BackendInfo F) × In b cs
            × (b.name ≢ failed)
            × ((c : BackendInfo F)
                → In c cs
                → c.name ≢ failed
                → floats.lt (load_score floats c) (load_score floats b) ≡ false)
            × (r ≡ (some b, set_session_backend redis json nodes.ttls session_id b.name written s)))
  unfolding fallback_decode Pinned is_named
  fallback_decode-other session_id failed listed written s =
      let cs = candidates floats redis json nodes (codes "decode") listed s in
      let other : BackendInfo F → Bool = λ c. not (is_named failed c) in
      elim (pin_least-Pinned session_id written (filter other cs) s) [
        | inl (empty, r) ↦
            inl (All-map _ _ cs (λ c e. ground (arith, e)) (filter_empty-All other cs empty), r)
        | inr (b, least, r) ↦
            (let (among, differs) = filter-In other cs (first-In least) in
              inr (
                b,
                among,
                ground (arith, differs),
                λ c there ne.
                    In-All _ (filter other cs) (In-filter other cs there (ground (arith, ne)))
                      (IsFirstMin-least floats.lt (load_score floats) floats.order least),
                r,
              ))
      ]

  -- What a pin keeps true of the store, a selection keeps true.
  pub select_decode-keeps :
      (Holds : Store → Type 0) (session_id : Text)
      → ((name : Text) (now : ℕ) (s : Store)
          → Holds s
          → Holds (set_session_backend redis json nodes.ttls session_id name now s))
      → (listed read written : ℕ) (s : Store) → Holds s
      → Holds (select_decode floats redis json nodes session_id listed read written s).1
  unfolding select_decode choose_decode Pinned missed
  select_decode-keeps Holds session_id keeps listed read written s h =
      chosen (candidates floats redis json nodes (codes "decode") listed s)
    where
      chosen :
          (cs : List (BackendInfo F))
          → Holds (choose_decode floats redis json nodes session_id read written cs s).1
      chosen [] = h
      chosen (c ∷ cs) =
          elim (Option-cases (
            pinned_node floats redis json nodes
              (get_session_backend redis json nodes.ttls session_id read s) (c ∷ cs))) [
                | inr (d, found) ↦ rw (choose_decode, found) h
                | inl lost ↦ elim (pin_least-Pinned session_id written (c ∷ cs) s) [
                  | inl (empty, r) ↦ cc
                  | inr (d, least, r) ↦ rw (choose_decode, lost, r) (keeps d.name written s h)
                ]
              ]

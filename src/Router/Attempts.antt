-- ===== src/Router/Attempts.antt =====
-- The attempts of a request at decode nodes: how they end, and that they come to an end.
use mini_dynamo.Prelude.{
  ℤ, ℕ, suc, zero, ◌<◌, ◌≤◌, ◌≡◌, ◌≢◌, ◌⊎◌, inl, inr, refl, ap, subst, true, false, Option, none,
  some, List, [], ◌∷◌, ◌++◌, Text, codes, if◌then◌else◌, length, All, All-append, In, In-All,
  Bool-cases, Option-cases, arith,
}
use mini_dynamo.Models.{GenerateRequest, PrefillResponse, DecodeRequest, BackendInfo}
use mini_dynamo.Redis.{Redis, Json, set_session_backend}
use mini_dynamo.Sse.{Frames, stream_decode}
use mini_dynamo.Routing.{
  Floats, Nodes, Selected, selected, no_backend, Decision, candidates, select_decode,
  fallback_decode,
}
use mini_dynamo.Routing.Sticky.{fallback_decode-other, select_decode-keeps}
use mini_dynamo.Router.{
  Effect, failure, done, routing, Reply, Answer, raised, answered, decision_label, member, preceded,
  relay, give_up, retried, refuse, attempts, decode_payload, stream_disaggregated,
}
use mini_dynamo.Router.Ending.{
  IsOpen, Ended, failed, Ended-append, Attempted-none, Attempted-some, relay-Attempted,
}

module _ {F J : Type 0} (floats : Floats F) (redis : Redis) (json : Json F) (nodes : Nodes)
    (frames : Frames J) (decode : ℕ → BackendInfo F → DecodeRequest → Reply)
    (listed read written : ℕ → ℕ) where
  open redis use {Store}

  -- Every result ends; no fuel gives no result.
  unfoldable EndsIn : Option (List (Effect J) × Store) → Type 0
  EndsIn none = Unit
  EndsIn (some r) = Ended frames r.0

  run :
      ℕ
      → ℕ
      → Text
      → DecodeRequest
      → List Text
      → BackendInfo F
      → Store
      → Option (List (Effect J) × Store)
  run = attempts floats redis json nodes frames decode listed read written

  EndsIn-preceded :
      (front : List (Effect J)) (o : Option (List (Effect J) × Store))
      → All (IsOpen frames) front
      → EndsIn o
      → EndsIn (preceded front o)
  unfolding EndsIn preceded
  EndsIn-preceded front none h k = tt
  EndsIn-preceded front (some r) h k = Ended-append frames front r.0 h k

  give_up-Ended :
      (effects : List (Effect J)) (exn : Text)
      → All (IsOpen frames) effects
      → Ended frames (effects ++ give_up frames exn)
  unfolding give_up
  give_up-Ended effects exn h = failed effects _ refl h

  retried-IsOpen : All (IsOpen frames) (retried frames)
  unfolding retried
  retried-IsOpen = (tt, (refl, tt))

  attempts-EndsIn :
      (fuel n : ℕ) (session_id : Text) (payload : DecodeRequest) (attempted : List Text)
      (b : BackendInfo F) (s : Store)
      → EndsIn (run fuel n session_id payload attempted b s)
  unfolding run EndsIn attempts
  attempts-EndsIn zero n session_id payload attempted b s = tt
  attempts-EndsIn (suc fuel) n session_id payload attempted b s =
      let reply = decode n b payload in
      let heard = stream_decode frames reply.lines reply.broken in
      let r = relay frames true heard.0 heard.1 in
      let fb = fallback_decode floats redis json nodes session_id b.name (listed n) (written n) s in
      let ends = relay-Attempted frames true heard.0 heard.1 in
      elim (Option-cases r.1) [
        | inl e ↦ rw (attempts, e) (Attempted-none frames r e ends)
        | inr (exn, e) ↦
            (let opens = Attempted-some frames r e ends in
              elim (Option-cases fb.0) [
                | inl k ↦ rw (attempts, e, k) (give_up-Ended r.0 exn opens)
                | inr (b', k) ↦ elim (Bool-cases (member b'.name (b.name ∷ attempted))) [
                  | inl m ↦ rw (attempts, e, k, m) (give_up-Ended r.0 exn opens)
                  | inr m ↦
                      rw (attempts, e, k, m)
                        (EndsIn-preceded (r.0 ++ retried frames) _
                          (All-append (IsOpen frames) r.0 (retried frames) opens retried-IsOpen)
                          (attempts-EndsIn fuel (suc n) session_id payload (b.name ∷ attempted) b'
                            fb.1))
                ]
              ])
      ]

  -- The names not attempted yet.
  unfoldable left : List Text → List Text → ℕ
  left attempted [] = 0
  left attempted (m ∷ ms) =
      let rest = left attempted ms in if member m attempted then rest else suc rest

  left-le :
      (x : Text) (attempted names : List Text) → left (x ∷ attempted) names ≤ left attempted names
  unfolding left member
  left-le x attempted [] = ground arith
  left-le x attempted (m ∷ ms) = ground (arith, left-le x attempted ms)

  left-lt :
      (x : Text) (attempted names : List Text)
      → In x names
      → member x attempted ≡ false
      → left (x ∷ attempted) names < left attempted names
  unfolding left member
  left-lt x attempted [] h e = absurd h
  left-lt x attempted (m ∷ ms) (inl here) e = ground (arith, left-le x attempted ms, here, e)
  left-lt x attempted (m ∷ ms) (inr there) e = ground (arith, left-lt x attempted ms there e)

  preceded-some :
      (front : List (Effect J)) (o : Option (List (Effect J) × Store))
      → o ≢ none
      → preceded front o ≢ none
  unfolding preceded
  preceded-some front none h = absurd (h refl)
  preceded-some front (some r) h = λ e. cc

  left-length : (attempted names : List Text) → left attempted names ≤ length names
  unfolding left
  left-length attempted [] = ground arith
  left-length attempted (m ∷ ms) = ground (arith, left-length attempted ms)

  EndsIn-some :
      (o : Option (List (Effect J) × Store))
      → EndsIn o
      → o ≢ none
      → (es : List (Effect J)) × (s' : Store) × (o ≡ some (es, s')) × Ended frames es
  unfolding EndsIn
  EndsIn-some none h k = absurd (k refl)
  EndsIn-some (some r) h k = (r.0, r.1, refl, h)

  module _ (Holds : Store → Type 0) (names : List Text)
      (pinning : (session_id name : Text) (now : ℕ) (s : Store)
        → Holds s
        → Holds (set_session_backend redis json nodes.ttls session_id name now s))
      (deployed : (n : ℕ) (s : Store)
        → Holds s
        → All
            (λ c. In c.name names)
            (candidates floats redis json nodes (codes "decode") (listed n) s)) where
    fallback-deployed :
        (session_id name : Text) (n : ℕ) (s : Store) (b' : BackendInfo F)
        → Holds s
        → (fallback_decode floats redis json nodes session_id name (listed n) (written n) s).0
          ≡ some b'
        → In b'.name names
          × Holds
              (fallback_decode floats redis json nodes session_id name (listed n) (written n) s).1
    fallback-deployed session_id name n s b' holds e =
        elim (fallback_decode-other floats redis json nodes session_id name (listed n) (written n)
          s) [
            | inl (same, r) ↦ cc
            | inr (b, among, ne, least, r) ↦
                (let same : b ≡ b' = cc in
                  (
                    rw same at (
                        In-All (λ c. In c.name names)
                          (candidates floats redis json nodes (codes "decode") (listed n) s) among
                          (deployed n s holds)),
                    rw r (pinning session_id b.name (written n) s holds),
                  ))
          ]

    attempts-some :
        (fuel n : ℕ) (session_id : Text) (payload : DecodeRequest) (attempted : List Text)
        (b : BackendInfo F) (s : Store)
        → Holds s
        → left (b.name ∷ attempted) names < fuel
        → run fuel n session_id payload attempted b s ≢ none
    unfolding run attempts
    attempts-some zero n session_id payload attempted b s holds h = absurd (omega (arith, h))
    attempts-some (suc fuel) n session_id payload attempted b s holds h =
        let reply = decode n b payload in
        let heard = stream_decode frames reply.lines reply.broken in
        let r = relay frames true heard.0 heard.1 in
        let fb =
          fallback_decode floats redis json nodes session_id b.name (listed n) (written n) s in
        elim (Option-cases r.1) [
          | inl e ↦ rw (attempts, e) (λ k. cc)
          | inr (exn, e) ↦ elim (Option-cases fb.0) [
            | inl k ↦ rw (attempts, e, k) (λ q. cc)
            | inr (b', k) ↦ elim (Bool-cases (member b'.name (b.name ∷ attempted))) [
              | inl m ↦ rw (attempts, e, k, m) (λ q. cc)
              | inr m ↦
                  (let (known, kept) = fallback-deployed session_id b.name n s b' holds k in
                    let fewer = left-lt b'.name (b.name ∷ attempted) names known m in
                    rw (attempts, e, k, m)
                      (preceded-some (r.0 ++ retried frames) _ (
                        attempts-some fuel (suc n) session_id payload (b.name ∷ attempted) b' fb.1
                          kept (omega (arith, fewer, h)))))
            ]
          ]
        ]

    -- When every candidate for decoding has one of `names`, in all stores of a property that holds
    -- of the first store and that pins keep, then with one more unit of fuel than there are names
    -- the disaggregated stream comes to its end: by a frame with a finish reason, counted as ok; by
    -- an error frame, counted as an error; or, when `select_decode` refuses, by an error frame
    -- alone, which is not counted. Each time the end marker is the last effect, and the only one.
    pub stream_disaggregated-ends :
        (fuel : ℕ) (req : GenerateRequest) (max_tokens : ℤ) (answer : Answer (PrefillResponse F))
        (s : Store)
        → Holds s
        → length names < fuel
        → (es : List (Effect J)) × (s' : Store) × (stream_disaggregated floats redis json nodes
              frames decode listed read written fuel req max_tokens answer s
            ≡ some (es, s'))
          × (Ended frames es
              ⊎ ((message : Text) × (es ≡ failure message ∷ done ∷ [])
                  × ((select_decode floats redis json nodes req.session_id
                        (listed 0)
                        (read 0)
                        (written 0)
                        s).0
                      ≡ no_backend message)))
    unfolding stream_disaggregated refuse run
    stream_disaggregated-ends fuel req max_tokens (raised exn) s holds h =
        (_, s, refl, inl (failed [] _ refl tt))
    stream_disaggregated-ends fuel req max_tokens (answered pf) s holds h =
        decided
          (select_decode floats redis json nodes req.session_id (listed 0) (read 0) (written 0) s)
          refl
      where
        decided :
            (r : Selected (BackendInfo F × Decision) × Store)
            → select_decode floats redis json nodes req.session_id (listed 0) (read 0) (written 0) s
              ≡ r
            → (es : List (Effect J)) × (s' : Store) × (stream_disaggregated floats redis json nodes
                  frames decode listed read written fuel req max_tokens
                  (answered pf)
                  s
                ≡ some (es, s'))
              × (Ended frames es
                  ⊎ ((message : Text) × (es ≡ failure message ∷ done ∷ [])
                      × ((select_decode floats redis json nodes req.session_id
                            (listed 0)
                            (read 0)
                            (written 0)
                            s).0
                          ≡ no_backend message)))
        decided (no_backend message, s') e = (
          failure message ∷ done ∷ [],
          s',
          rw (stream_disaggregated, ap (λ q. q.0) e, ap (λ q. q.1) e) refl,
          inr (message, refl, ap (λ q. q.0) e),
        )
        decided (selected (b, decision), s') e =
            (let kept : Holds s' = subst Holds (ap (λ q. q.1) e) (
                select_decode-keeps floats redis json nodes Holds req.session_id
                  (pinning req.session_id) (listed 0) (read 0) (written 0) s holds) in
              let payload =
                decode_payload floats redis json nodes frames decode listed read written req
                  max_tokens pf in
              let o = run fuel 1 req.session_id payload [] b s' in
              let front = routing (decision_label decision) ∷ [] in
              let (es, s'', r, ended) =
                EndsIn-some (preceded front o)
                  (EndsIn-preceded front o (tt, tt)
                    (attempts-EndsIn fuel 1 req.session_id payload [] b s'))
                  (preceded-some front o (
                    attempts-some fuel 1 req.session_id payload [] b s' kept
                      (omega (arith, left-length (b.name ∷ []) names, h)))) in
              (es, s'', rw (stream_disaggregated, ap (λ q. q.0) e, ap (λ q. q.1) e) r, inl ended))

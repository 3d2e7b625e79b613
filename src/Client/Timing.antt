-- ===== src/Client/Timing.antt =====
-- The time to the first token of a request.
use mini_dynamo.Prelude.{
  ℤ, pos, ◌≤ℤ◌, ℕ, suc, Bool, true, false, ◌&&◌, not, Option, none, some, List, [], ◌∷◌, Text,
  Bool-cases, inl, inr,
}
use mini_dynamo.Sse.{Frames}
use mini_dynamo.Router.{Reply}
use mini_dynamo.Client.{
  Result, fresh, other, marker, garbled, frame, hear, count_token, listen, one_request,
}

module _ {J : Type 0} (frames : Frames J) (has_error : J → Bool) (elapsed : ℕ → ℤ) (total : ℤ)
    (before : (i : ℕ) → elapsed i ≤ℤ total) where
  IsEarly : Result → Type 0
  IsEarly r = r.ttft ≤ℤ total

  count_token-IsEarly :
      (first : Bool) (i : ℕ) (r : Result) → IsEarly r → IsEarly (count_token first (elapsed i) r)
  unfolding count_token IsEarly
  count_token-IsEarly true i r h = before i
  count_token-IsEarly false i r h = h

  listen-IsEarly :
      (i : ℕ) (first : Bool) (lines : List Text) (broken : Option Text) (r : Result)
      → IsEarly r
      → IsEarly (listen frames has_error elapsed i first lines broken r)
  unfolding listen IsEarly
  listen-IsEarly i first [] none r h = h
  listen-IsEarly i first [] (some e) r h = h
  listen-IsEarly i first (line ∷ lines) broken r h =
      let on = listen-IsEarly (suc i) first lines broken r h in
      let counted =
        listen-IsEarly (suc i) false lines broken (count_token first (elapsed i) r)
          (count_token-IsEarly first i r h) in
      elim (hear frames has_error line)
        as (λ x. IsEarly (elim x [
          | other ↦ listen frames has_error elapsed (suc i) first lines broken r
          | marker ↦ r
          | garbled ↦ record r { ok = false }
          | frame j ↦ elim (frames.is_object j && not (has_error j)) [
            | false ↦ record r { ok = false }
            | true ↦ elim (frames.has_token j) [
              | true ↦
                  listen frames has_error elapsed (suc i) false lines broken
                    (count_token first (elapsed i) r)
              | false ↦ listen frames has_error elapsed (suc i) first lines broken r
            ]
          ]
        ])) [
          | other ↦ on
          | marker ↦ h
          | garbled ↦ h
          | frame j ↦ elim (Bool-cases (frames.is_object j && not (has_error j))) [
            | inr e ↦ rw e h
            | inl e ↦ elim (Bool-cases (frames.has_token j)) [
              | inl t ↦ rw (e, t) counted
              | inr t ↦ rw (e, t) on
            ]
          ]
        ]

  -- No time to the first token exceeds the time of the whole request.
  pub one_request-early :
      (reply : Reply)
      → pos 0 ≤ℤ total
      → (one_request frames has_error elapsed total reply).ttft
        ≤ℤ (one_request frames has_error elapsed total reply).total
  unfolding one_request IsEarly fresh
  one_request-early reply h = listen-IsEarly 0 true reply.lines reply.broken fresh h

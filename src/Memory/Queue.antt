-- ===== src/Memory/Queue.antt =====
-- What the pool promises under the default policy, without timestamps, counters or a search: a
-- queue of ids with their sizes, the one that has not been used for longest at the front.
use mini_dynamo.Prelude.{
  ℤ, ◌+ℤ◌, ltb_ℤ, Bool, true, false, none, some, List, [], ◌∷◌, ◌++◌, Text, Text_discrete,
  if◌then◌else◌,
}
use mini_dynamo.Dict.{Dict, get, remove}
use mini_dynamo.Dict.Sums.{total}

abbrev pub Queue : Type 0
Queue = Dict Text ℤ

abbrev pub used : Queue → ℤ
used = total (λ n. n)

-- A client's calls, and what it sees of each.
pub data Call : Type 0 where
  allocates : Text → Text → ℤ → ℤ → Call
  touches : Text → Call
  frees : Text → Call

pub data Reply : Type 0 where
  evicted : List Text → Reply
  refused : Reply
  crashed : Reply
  answered : Bool → Reply

module _ (total_mb : ℤ) where
  -- Drops from the front until `size_mb` more fits; the ids dropped, and what is left.
  unfoldable pub shed : ℤ → Queue → List Text × Queue
  shed size_mb [] = ([], [])
  shed size_mb ((k, n) ∷ q) =
      let rest = shed size_mb q in
      if ltb_ℤ total_mb (used ((k, n) ∷ q) +ℤ size_mb)
      then (k ∷ rest.0, rest.1)
      else ([], (k, n) ∷ q)

  unfoldable pub answer : Call → Queue → Reply × Queue
  answer (allocates k session_id num_tokens size_mb) q =
      let left = shed size_mb (remove Text_discrete k q) in
      if ltb_ℤ total_mb size_mb then (refused, q) else (evicted left.0, left.1 ++ (k, size_mb) ∷ [])
  answer (touches k) q = elim (get Text_discrete k q) [
    | none ↦ (answered false, q)
    | some n ↦ (answered true, remove Text_discrete k q ++ (k, n) ∷ [])
  ]
  answer (frees k) q = elim (get Text_discrete k q) [
    | none ↦ (answered false, q)
    | some n ↦ (answered true, remove Text_discrete k q)
  ]

  unfoldable pub answer_all : List Call → Queue → List Reply × Queue
  answer_all [] q = ([], q)
  answer_all (call ∷ calls) q =
      let first = answer call q in let rest = answer_all calls first.1 in (first.0 ∷ rest.0, rest.1)

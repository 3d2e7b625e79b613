-- ===== src/Worker/Vocabulary.antt =====
-- The mock model's tokens: `str.split` and `next_token` of common/mock_model.py. The MD5 sum of a
-- text, as a number, is a parameter.
use mini_dynamo.Prelude.{
  ℤ, pos, negsuc, ℕ, zero, suc, ◌%◌, ◌<◌, ◌≡◌, refl, ap, ◌∙◌, true, false, none, some, List, [],
  ◌∷◌, ◌++◌, Text, codes, is_empty, if◌then◌else◌, length, get_elem?, decimal, In, Bool-cases, inl,
  inr, arith, get_elem-some, get_elem-In,
}
use mini_dynamo.Sse.{is_space}
use mini_dynamo.Worker.{count_words, count_tokens}

-- The word that a text begins with, and the words behind it: `str.split`.
unfoldable pub first_and_rest : Text → Text × List Text
first_and_rest [] = ([], [])
first_and_rest (c ∷ s) =
    let (word, words) = first_and_rest s in
    if is_space c then ([], if is_empty word then words else word ∷ words) else (c ∷ word, words)

unfoldable pub split : Text → List Text
unfolding first_and_rest
split s = let (word, words) = first_and_rest s in if is_empty word then words else word ∷ words

unfoldable pub vocab : List Text
unfolding split
vocab = split (
    codes "the model streams tokens through a disaggregated pipeline where prefill "
    ++ codes "and decode scale independently while the router keeps each session sticky "
    ++ codes "to the worker that already holds its cache so throughput stays high and "
    ++ codes "latency stays low across many concurrent requests on commodity hardware")

-- str(n)
unfoldable pub decimal_ℤ : ℤ → Text
decimal_ℤ (pos n) = decimal n
decimal_ℤ (negsuc n) = b'-' ∷ decimal (suc n)

module _ (md5 : Text → ℕ) where
  unfoldable pub seed : Text → ℤ → ℕ
  unfolding decimal_ℤ
  seed session_id index = md5 (session_id ++ codes ":" ++ decimal_ℤ index)

  -- The place that the seed stands for in the vocabulary (`IndexError`, where there were no such
  -- place, is the empty text here, which `next_token-In` excludes).
  unfoldable pub next_token : Text → ℤ → Text
  unfolding seed
  next_token session_id index = elim (get_elem? vocab (seed session_id index % length vocab)) [
    | none ↦ []
    | some word ↦ word ++ codes " "
  ]

length-vocab : length vocab ≡ 44
unfolding vocab split first_and_rest is_space
length-vocab = refl

counted :
    (s : Text)
    → (count_words false s ≡ length (split s)) × (count_words true s ≡ length (first_and_rest s).1)
unfolding split first_and_rest count_words
counted [] = (refl, refl)
counted (c ∷ s) =
    let rest = counted s in
    elim (Bool-cases (is_space c)) [
      | inl e ↦ rw e (rest.0, rest.0)
      | inr e ↦ rw e (ap suc rest.1, rest.1)
    ]

-- The tokens of a text are the words of `str.split`, and one at least.
pub count_tokens-split :
    (s : Text) → count_tokens s ≡ elim (length (split s)) [ zero ↦ pos 1 | suc k ↦ pos (suc k) ]
unfolding count_tokens
count_tokens-split s = ap (λ n. elim n [ zero ↦ pos 1 | suc k ↦ pos (suc k) ]) (counted s).0

module _ (md5 : Text → ℕ) where
  -- A token is a word of the vocabulary with a space behind it: the seed's place is always in
  -- range.
  pub next_token-In :
      (session_id : Text) (index : ℤ)
      → (word : Text) × In word vocab × (next_token md5 session_id index ≡ word ++ codes " ")
  unfolding next_token
  next_token-In session_id index =
      let i = seed md5 session_id index % length vocab in
      let inside : i < length vocab = rw length-vocab (omega arith) in
      let (word, found) = get_elem-some vocab i inside in
      (word, get_elem-In vocab i found, rw (next_token, found) refl)

  not_empty : (word : Text) → is_empty (word ++ codes " ") ≡ false
  not_empty [] = refl
  not_empty (c ∷ word) = refl

  -- No token is empty.
  pub next_token-filled :
      (session_id : Text) (index : ℤ) → is_empty (next_token md5 session_id index) ≡ false
  next_token-filled session_id index =
      let (word, among, e) = next_token-In session_id index in ap is_empty e ∙ not_empty word

-- ===== src/Benchmark/Tests.antt =====
-- Totals of small payloads.
use mini_dynamo.Prelude.{
  ℕ, ◌==◌, ◌+◌, ◌-◌, ltb, ◌≡◌, refl, Bool, true, false, ◌&&◌, not, Bool-cases, inl, inr, Option,
  none, some, List, [], ◌∷◌, ◌++◌, Text, codes, Text_discrete, if◌then◌else◌, All,
}
use mini_dynamo.Sse.{strip, strip_left, strip_right, is_space, after_prefix}
use mini_dynamo.Benchmark.{
  is_line_end, starts_with, prepend, splitlines, last_space, rpartition, before_brace, line_value,
  add, add_lines, parse_metric_total, sample_from, sample_transfer,
}
use mini_dynamo.Benchmark.Totals.{
  Row, comment, series, payload, IsRow, numbers, sum, parse_metric_total-payload,
}

-- Numbers of one digit.
abbrev digit : Text → Option ℕ
digit s = elim s [
  | [] ↦ none
  | c ∷ rest ↦ elim rest [ [] ↦ if ltb 47 c then some (c - 48) else none | d ∷ more ↦ none ]
]

abbrev rows : List Row
rows =
    comment (codes " TYPE a_sum counter")
    ∷ series (codes "a_sum") (some (codes "node=x y}")) (codes "3")
    ∷ series (codes "a_sum_more") none (codes "5")
    ∷ series (codes "b") none (codes "1")
    ∷ series (codes "a_sum") none (codes "no")
    ∷ series (codes "a_sum") none (codes "4")
    ∷ []

-- No character of the text passes the test.
none_of : (ℕ → Bool) → Text → Bool
none_of p [] = true
none_of p (c ∷ s) = not (p c) && none_of p s

clear : (p : ℕ → Bool) (s : Text) → none_of p s ≡ true → All (λ c. p c ≡ false) s
unfolding none_of
clear p [] h = tt
clear p (c ∷ s) h = elim (Bool-cases (p c)) [
  | inl e ↦ cc (rw e at h)
  | inr e ↦ (e, clear p s (rw e at h))
]

abbrev is_space_mark : ℕ → Bool
is_space_mark c = c == 32

abbrev is_brace : ℕ → Bool
is_brace c = c == b'{'

rows-IsRow : All IsRow rows
unfolding IsRow none_of is_line_end starts_with after_prefix strip strip_left strip_right is_space
rows-IsRow = (
  clear is_line_end (codes "# TYPE a_sum counter") refl,
  (
    (
      clear is_line_end (codes "a_sum{node=x y} 3") refl,
      clear is_brace (codes "a_sum") refl,
      refl,
      refl,
      clear is_space_mark (codes "3") refl,
    ),
    (
      (
        clear is_line_end (codes "a_sum_more 5") refl,
        clear is_brace (codes "a_sum_more") refl,
        refl,
        refl,
        clear is_space_mark (codes "5") refl,
      ),
      (
        (
          clear is_line_end (codes "b 1") refl,
          clear is_brace (codes "b") refl,
          refl,
          refl,
          clear is_space_mark (codes "1") refl,
        ),
        (
          (
            clear is_line_end (codes "a_sum no") refl,
            clear is_brace (codes "a_sum") refl,
            refl,
            refl,
            clear is_space_mark (codes "no") refl,
          ),
          (
            (
              clear is_line_end (codes "a_sum 4") refl,
              clear is_brace (codes "a_sum") refl,
              refl,
              refl,
              clear is_space_mark (codes "4") refl,
            ),
            tt,
          ),
        ),
      ),
    ),
  ),
)

parse_metric_total-payload_example :
    parse_metric_total digit 0 ◌+◌ (payload rows) (codes "a_sum") ≡ 7
unfolding sum numbers Text_discrete
parse_metric_total-payload_example =
    parse_metric_total-payload digit 0 ◌+◌ (codes "a_sum") rows rows-IsRow

-- The lines end in each of the ways that there are, and a node that does not answer is left out.
abbrev text_with_returns : Text
text_with_returns =
    codes "mdyn_kv_transfer_seconds_sum 2"
    ++ 13 ∷ 10 ∷ codes "mdyn_kv_transfer_seconds_count 1"
    ++ 13 ∷ codes "#"
    ++ 10 ∷ []

sampled :
    sample_transfer digit 0 ◌+◌ (some text_with_returns ∷ none ∷ some text_with_returns ∷ [])
    ≡ (4, 2)
unfolding sample_transfer sample_from parse_metric_total splitlines prepend is_line_end add_lines
    add line_value starts_with rpartition last_space before_brace after_prefix strip strip_left
    strip_right is_space Text_discrete
sampled = refl

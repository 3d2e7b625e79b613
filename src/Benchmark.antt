-- ===== src/Benchmark.antt =====
-- benchmark/run_benchmark.py: the reading of a total from a node's metrics. What `float()` makes of
-- a text is a parameter, none where it raises a `ValueError`.
pub mod Totals
pub mod Tests
use mini_dynamo.Prelude.{
  ℕ, ◌==◌, leb, ◌≡◌, ite, Bool, true, false, ◌&&◌, ◌||◌, not, Option, none, some, List, [], ◌∷◌,
  ◌++◌, Text, codes, Text_discrete, if◌then◌else◌,
}
use mini_dynamo.Sse.{strip, after_prefix}

-- Where `str.splitlines` ends a line.
unfoldable pub is_line_end : ℕ → Bool
is_line_end c =
    (leb 10 c && leb c 13)
    || (leb 28 c && leb c 30)
    || (c == 0x85)
    || (c == 0x2028)
    || (c == 0x2029)

unfoldable pub starts_with : Text → Text → Bool
starts_with prefix s = elim (after_prefix prefix s) [ none ↦ false | some rest ↦ true ]

-- A character in front of the first line.
unfoldable pub prepend : ℕ → List Text → List Text
prepend c [] = (c ∷ []) ∷ []
prepend c (line ∷ lines) = (c ∷ line) ∷ lines

unfoldable pub splitlines : Text → List Text
unfolding prepend is_line_end starts_with
splitlines [] = []
splitlines (c ∷ s) =
    let rest = splitlines s in
    if is_line_end c
    then if (c == 13) && starts_with (10 ∷ []) s then rest else [] ∷ rest
    else prepend c rest

-- str.rpartition(" "), where there is a space.
unfoldable pub last_space : Text → Option (Text × Text)
last_space [] = none
last_space (c ∷ s) = elim (last_space s) [
  | some (head, value) ↦ some (c ∷ head, value)
  | none ↦ if c == 32 then some ([], s) else none
]

unfoldable pub rpartition : Text → Text × Text
unfolding last_space
rpartition s = elim (last_space s) [ none ↦ ([], s) | some p ↦ p ]

-- head.split("{", 1)[0]
unfoldable pub before_brace : Text → Text
before_brace [] = []
before_brace (c ∷ s) = let rest = before_brace s in if c == b'{' then [] else c ∷ rest

module _ {F : Type 0} (float : Text → Option F) (zero : F) (plus : F → F → F) where
  -- What a line adds to the total of a metric.
  unfoldable pub line_value : Text → Text → Option F
  unfolding starts_with rpartition before_brace
  line_value metric line =
      let (head, value) = rpartition line in
      if starts_with (codes "#") line || not (starts_with metric line)
      then none
      else ite (Text_discrete (strip (before_brace head)) metric) (float value) none

  unfoldable pub add : F → Option F → F
  add total o = elim o [ none ↦ total | some x ↦ plus total x ]

  unfoldable pub add_lines : Text → F → List Text → F
  unfolding line_value add
  add_lines metric total [] = total
  add_lines metric total (line ∷ lines) =
      add_lines metric (add total (line_value metric line)) lines

  unfoldable pub parse_metric_total : Text → Text → F
  unfolding splitlines add_lines
  parse_metric_total text metric = add_lines metric zero (splitlines text)

  -- The sums and counts of the transfers at the nodes whose metrics can be read.
  unfoldable pub sample_from : List (Option Text) → F × F → F × F
  unfolding parse_metric_total
  sample_from [] total = total
  sample_from (none ∷ texts) total = sample_from texts total
  sample_from (some text ∷ texts) (sum, count) = sample_from texts (
    plus sum (parse_metric_total text (codes "mdyn_kv_transfer_seconds_sum")),
    plus count (parse_metric_total text (codes "mdyn_kv_transfer_seconds_count")),
  )

  unfoldable pub sample_transfer : List (Option Text) → F × F
  unfolding sample_from
  sample_transfer texts = sample_from texts (zero, zero)

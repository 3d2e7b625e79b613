-- ===== src/Benchmark/Totals.antt =====
-- The total of a metric, read from a payload as a Prometheus client prints it.
use mini_dynamo.Prelude.{
  ◌==◌, ◌≡◌, refl, sym, ap, ◌∙◌, ite, if_neg, inl, inr, true, false, Option, none, some, List, [],
  ◌∷◌, ◌++◌, Text, codes, Text_discrete, All, Bool-cases, Option-cases, arith,
}
use mini_dynamo.Sse.{strip, after_prefix}
use mini_dynamo.Benchmark.{
  is_line_end, starts_with, prepend, splitlines, last_space, rpartition, before_brace, line_value,
  add, add_lines, parse_metric_total,
}

-- A line of a payload: a comment, or a series with its labels in braces, if it has any, and a value.
pub data Row : Type 0 where
  comment : Text → Row
  series : Text → Option Text → Text → Row

abbrev pub labelled : Option Text → Text
labelled none = []
labelled (some labels) = b'{' ∷ labels

abbrev pub row_text : Row → Text
row_text (comment text) = b'#' ∷ text
row_text (series name labels value) = name ++ (labelled labels ++ 32 ∷ value)

pub payload : List Row → Text
payload [] = []
payload (row ∷ rows) = row_text row ++ 10 ∷ payload rows

-- No line ends within a row; a name is without a brace, a `#` in front and white space around it;
-- and there is no space in a value.
unfoldable pub IsRow : Row → Type 0
IsRow (comment text) = All (λ c. is_line_end c ≡ false) (b'#' ∷ text)
IsRow (series name labels value) =
    All (λ c. is_line_end c ≡ false) (name ++ (labelled labels ++ 32 ∷ value))
    × All (λ c. (c == b'{') ≡ false) name
    × (strip name ≡ name)
    × (starts_with (codes "#") (name ++ (labelled labels ++ 32 ∷ value)) ≡ false)
    × All (λ c. (c == 32) ≡ false) value

row-ends : (row : Row) → IsRow row → All (λ c. is_line_end c ≡ false) (row_text row)
unfolding IsRow
row-ends (comment text) h = h
row-ends (series name labels value) (ends, braces, trimmed, hash, spaces) = ends

splitlines-line :
    (line rest : Text)
    → All (λ c. is_line_end c ≡ false) line
    → splitlines (line ++ 10 ∷ rest) ≡ line ∷ splitlines rest
unfolding splitlines prepend is_line_end starts_with
splitlines-line [] rest h = refl
splitlines-line (c ∷ line) rest h = rw h.0 (ap (prepend c) (splitlines-line line rest h.1))

last_space-none : (value : Text) → All (λ c. (c == 32) ≡ false) value → last_space value ≡ none
unfolding last_space
last_space-none [] h = refl
last_space-none (c ∷ value) h = rw (last_space-none value h.1, h.0) refl

last_space-head :
    (head value : Text)
    → All (λ c. (c == 32) ≡ false) value
    → last_space (head ++ 32 ∷ value) ≡ some (head, value)
unfolding last_space
last_space-head [] value h = rw (last_space-none value h) refl
last_space-head (c ∷ head) value h = rw (last_space-head head value h) refl

before_brace-name :
    (name : Text) (labels : Option Text)
    → All (λ c. (c == b'{') ≡ false) name
    → before_brace (name ++ labelled labels) ≡ name
unfolding before_brace
before_brace-name [] none h = refl
before_brace-name [] (some labels) h = refl
before_brace-name (c ∷ name) labels h = rw h.0 (ap (◌∷◌ c) (before_brace-name name labels h.1))

after_prefix-append : (xs ys : Text) → after_prefix xs (xs ++ ys) ≡ some ys
unfolding after_prefix
after_prefix-append [] ys = refl
after_prefix-append (x ∷ xs) ys =
    let same : (x == x) ≡ true = ground arith in rw same (after_prefix-append xs ys)

starts_with-append : (xs ys : Text) → starts_with xs (xs ++ ys) ≡ true
unfolding starts_with
starts_with-append xs ys = rw (starts_with, after_prefix-append xs ys) refl

append_assoc : (xs ys zs : Text) → xs ++ ys ++ zs ≡ xs ++ (ys ++ zs)
append_assoc [] ys zs = refl
append_assoc (x ∷ xs) ys zs = ap (◌∷◌ x) (append_assoc xs ys zs)

rpartition-series :
    (name : Text) (labels : Option Text) (value : Text)
    → All (λ c. (c == 32) ≡ false) value
    → rpartition (name ++ (labelled labels ++ 32 ∷ value)) ≡ (name ++ labelled labels, value)
unfolding rpartition
rpartition-series name labels value h =
    rw
      (
        rpartition,
        sym (append_assoc name (labelled labels) (32 ∷ value)),
        last_space-head (name ++ labelled labels) value h,
      )
      refl

module _ {F : Type 0} (float : Text → Option F) (zero : F) (plus : F → F → F) where
  -- What a row counts for a metric: its value where its name is that of the metric.
  pub row_value : Text → Row → Option F
  row_value metric (comment text) = none
  row_value metric (series name labels value) = ite (Text_discrete name metric) (float value) none

  -- The numbers among the values of the series with the metric's name, in the order of the rows.
  unfoldable pub numbers : Text → List Row → List F
  numbers metric [] = []
  numbers metric (comment text ∷ rows) = numbers metric rows
  numbers metric (series name labels value ∷ rows) =
      let rest = numbers metric rows in
      ite (Text_discrete name metric) (elim (float value) [ some x ↦ x ∷ rest | none ↦ rest ]) rest

  unfoldable pub sum : F → List F → F
  sum total [] = total
  sum total (x ∷ xs) = sum (plus total x) xs

  line_value-row :
      (metric : Text) (row : Row)
      → IsRow row
      → line_value float zero plus metric (row_text row) ≡ row_value metric row
  unfolding line_value row_value IsRow starts_with after_prefix
  line_value-row metric (comment text) h = refl
  line_value-row metric (series name labels value) (ends, braces, trimmed, hash, spaces) =
      rw
        (
          line_value,
          rpartition-series name labels value spaces,
          before_brace-name name labels braces,
          trimmed,
          hash,
        )
        (elim (Bool-cases (starts_with metric (name ++ (labelled labels ++ 32 ∷ value)))) [
          | inl e ↦ rw e refl
          | inr e ↦ rw e (
              sym (
                if_neg (Text_discrete name metric)
                  (λ same.
                    cc (rw same at (starts_with-append name (labelled labels ++ 32 ∷ value)), e))
                  _ _))
        ])

  sum-row :
      (metric : Text) (total : F) (row : Row) (rows : List Row)
      → sum total (numbers metric (row ∷ rows))
        ≡ sum (add float zero plus total (row_value metric row)) (numbers metric rows)
  unfolding sum numbers row_value add
  sum-row metric total (comment text) rows = refl
  sum-row metric total (series name labels value) rows = elim (Text_discrete name metric) [
    | yes same ↦ elim (Option-cases (float value)) [
      | inl e ↦ ground (arith, same, e)
      | inr (x, e) ↦ ground (arith, same, e)
    ]
    | no other ↦ ground (arith, other)
  ]

  add_lines-payload :
      (metric : Text) (total : F) (rows : List Row)
      → All IsRow rows
      → add_lines float zero plus metric total (splitlines (payload rows))
        ≡ sum total (numbers metric rows)
  unfolding add_lines payload sum numbers splitlines
  add_lines-payload metric total [] h = refl
  add_lines-payload metric total (row ∷ rows) h =
      ap (add_lines float zero plus metric total)
        (splitlines-line (row_text row) (payload rows) (row-ends row h.0))
      ∙ ap
          (λ v.
            add_lines float zero plus metric (add float zero plus total v)
              (splitlines (payload rows)))
          (line_value-row metric row h.0)
      ∙ add_lines-payload metric (add float zero plus total (row_value metric row)) rows h.1
      ∙ sym (sum-row metric total row rows)

  -- From a printed payload the total of a metric is zero with the numbers among the values of the
  -- series of exactly that name added one after the other, whatever other names begin with it, and
  -- whatever labels the series have; comments and values that are no numbers do not count.
  pub parse_metric_total-payload :
      (metric : Text) (rows : List Row)
      → All IsRow rows
      → parse_metric_total float zero plus (payload rows) metric ≡ sum zero (numbers metric rows)
  unfolding parse_metric_total
  parse_metric_total-payload metric rows h = add_lines-payload metric zero rows h

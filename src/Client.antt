-- ===== src/Client.antt =====
-- scripts/load_client.py: one client's reading of the router's stream, and the summary of many.
-- Instants and durations are integers in a fixed unit; the readings of the clock are arguments.
-- What `round`, the mean and the rate divide is given undivided.
pub mod Hearing
pub mod Load
pub mod Timing
pub mod Measured
pub mod Endings
pub mod Percentiles
pub mod Reports
pub mod Tests
use mini_dynamo.Prelude.{
  ℤ, pos, ◌-ℤ◌, ◌+ℤ◌, ◌*ℤ◌, ltb_ℤ, ℕ, zero, suc, ◌+◌, ◌-◌, ◌*◌, ◌/◌, ◌%◌, ltb, ◌≡◌, ite, Bool, true,
  false, ◌&&◌, not, Option, none, some, List, [], ◌∷◌, ◌++◌, map, Text, codes, Text_discrete,
  if◌then◌else◌, length, get_elem?, sort, filter, decimal,
}
use mini_dynamo.Sse.{Frames, strip, after_prefix}
use mini_dynamo.Router.{Reply}

pub record Result : Type 0 where
  pub ttft : ℤ
  pub total : ℤ
  pub tokens : ℕ
  pub ok : Bool

unfoldable pub fresh : Result
fresh = record { ttft = pos 0; total = pos 0; tokens = 0; ok = true }

-- What a line is to the client: passed over, the end marker, no JSON, or a frame.
pub data Heard (J : Type 0) : Type 0 where
  other : Heard J
  marker : Heard J
  garbled : Heard J
  frame : J → Heard J

-- A token's effect on the result; `at` is the reading of the clock if it is the first.
unfoldable pub count_token : Bool → ℤ → Result → Result
count_token first at r =
    if first
    then record r { ttft = at; tokens = r.tokens + 1 }
    else record r { tokens = r.tokens + 1 }

module _ {J : Type 0} (frames : Frames J) (has_error : J → Bool) where
  unfoldable pub hear_data : Text → Heard J
  hear_data text =
      ite (Text_discrete text (codes "[DONE]")) marker
        (elim (frames.loads text) [ none ↦ garbled | some j ↦ frame j ])

  unfoldable pub hear : Text → Heard J
  hear line = elim (after_prefix (codes "data:") line) [
    | none ↦ other
    | some rest ↦ hear_data (strip rest)
  ]

  -- The loop over the lines, with whether no token has been seen; `elapsed` are the readings of the
  -- clock since the start, by the number of the line. An exception makes the result not ok.
  unfoldable pub listen : (ℕ → ℤ) → ℕ → Bool → List Text → Option Text → Result → Result
  listen elapsed i first [] none r = r
  listen elapsed i first [] (some e) r = record r { ok = false }
  listen elapsed i first (line ∷ lines) broken r = elim (hear line) [
    | other ↦ listen elapsed (suc i) first lines broken r
    | marker ↦ r
    | garbled ↦ record r { ok = false }
    | frame j ↦ elim (frames.is_object j && not (has_error j)) [
      | false ↦ record r { ok = false }
      | true ↦ elim (frames.has_token j) [
        | true ↦ listen elapsed (suc i) false lines broken (count_token first (elapsed i) r)
        | false ↦ listen elapsed (suc i) first lines broken r
      ]
    ]
  ]

  unfoldable pub one_request : (ℕ → ℤ) → ℤ → Reply → Result
  one_request elapsed total reply = record (listen elapsed 0 true reply.lines reply.broken fresh) {
    total = total;
  }

-- `_pct` for a whole percentage, a hundred times: the value at the place `(n - 1) * pct / 100`,
-- between two elements in proportion.
unfoldable pub at_or : ℤ → List ℤ → ℕ → ℤ
at_or default vals i = elim (get_elem? vals i) [ none ↦ default | some v ↦ v ]

unfoldable pub min_ℕ : ℕ → ℕ → ℕ
min_ℕ a b = if ltb b a then b else a

-- A hundred times the value that lies at `part` hundredths of the way from one value to another.
unfoldable pub between : ℤ → ℤ → ℕ → ℤ
between low high part = low *ℤ pos 100 +ℤ (high -ℤ low) *ℤ pos part

unfoldable pub pct : List ℤ → ℕ → ℤ
unfolding at_or min_ℕ between
pct vals percent =
    let k = (length vals - 1) * percent in
    let low = at_or (pos 0) vals (k / 100) in
    let high = at_or (pos 0) vals (min_ℕ (k / 100 + 1) (length vals - 1)) in
    between low high (k % 100)

-- The report: requests and successes, percentiles (a hundred times), the sum that the mean
-- divides by the successes, the tokens, and the longest duration.
pub record Report : Type 0 where
  pub p50_latency : ℤ
  pub p95_latency : ℤ
  pub sum_latency : ℤ
  pub p50_ttft : ℤ
  pub p95_ttft : ℤ
  pub total_tokens : ℕ
  pub wall : ℤ

unfoldable pub sum_ℤ : List ℤ → ℤ
sum_ℤ [] = pos 0
sum_ℤ (x ∷ xs) = x +ℤ sum_ℤ xs

unfoldable pub sum_tokens : List Result → ℕ
sum_tokens [] = 0
sum_tokens (r ∷ rs) = r.tokens + sum_tokens rs

-- max(...) of a list that is not empty
unfoldable pub longest : ℤ → List ℤ → ℤ
longest best [] = best
longest best (x ∷ xs) = longest (if ltb_ℤ best x then x else best) xs

-- The number of requests, and the rest where one of them is ok.
unfoldable pub report_of : List Result → Option Report
report_of [] = none
report_of (r ∷ rs) =
    let lat = sort ltb_ℤ (λ x. x) (map (λ x. x.total) (r ∷ rs)) in
    let ttft = sort ltb_ℤ (λ x. x) (map (λ x. x.ttft) (r ∷ rs)) in
    some (record {
      p50_latency = pct lat 50;
      p95_latency = pct lat 95;
      sum_latency = sum_ℤ lat;
      p50_ttft = pct ttft 50;
      p95_ttft = pct ttft 95;
      total_tokens = sum_tokens (r ∷ rs);
      wall = longest r.total (map (λ x. x.total) rs);
    })

unfoldable pub report : List Result → ℕ × ℕ × Option Report
report results = let ok = filter (λ r. r.ok) results in (length results, length ok, report_of ok)

-- " ".join(["token"] * prompt_tokens), for the first word and each further one.
unfoldable pub further_words : ℕ → Text
further_words zero = []
further_words (suc n) = codes " token" ++ further_words n

unfoldable pub prompt_of : ℕ → Text
unfolding further_words
prompt_of zero = []
prompt_of (suc n) = codes "token" ++ further_words n

-- f"{session_prefix}{i % max(1, sessions)}"
unfoldable pub session_of : Text → ℕ → ℕ → Text
session_of prefix zero i = prefix ++ decimal 0
session_of prefix (suc k) i = prefix ++ decimal (i % suc k)

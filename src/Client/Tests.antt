-- ===== src/Client/Tests.antt =====
-- The client at concrete inputs.
use mini_dynamo.Prelude.{
  if◌then◌else◌, ltb, pos, ◌≤ℤ◌, ◌*ℤ◌, ◌+ℤ◌, ◌-ℤ◌, ℕ, ◌+◌, ◌≡◌, refl, Bool, true, false, none, some,
  All, map, List, [], ◌∷◌, Text, codes, ◌==◌, Text_discrete, arith, sort, filter, decimal,
}
use mini_dynamo.Prelude.Decimal.{digits}
use mini_dynamo.Prelude.Sorting.{insert}
use mini_dynamo.Sse.{strip, strip_left, strip_right, is_space, after_prefix}
use mini_dynamo.Sse.Tests.{demo_frames}
use mini_dynamo.Client.{
  Result, Report, fresh, hear, hear_data, count_token, listen, one_request, pct, at_or, min_ℕ,
  between, report, report_of, longest, sum_ℤ, sum_tokens, session_of,
}
use mini_dynamo.Client.Measured.{Run, IsTimed, results, report-early}
use mini_dynamo.Client.Reports.{report_of-ordered}

abbrev pub is_error : ℕ → Bool
is_error c = c == b'e'

abbrev pub error_letter : Text → ℕ
error_letter m = b'e'

-- The second token does not count for the time to the first; the client stops at the end marker.
heard_twice :
    one_request demo_frames is_error
      (λ i. pos (i + 1))
      (pos 9)
      (record {
        lines =
            codes "event: x"
            ∷ codes "data: t"
            ∷ codes ""
            ∷ codes "data: t"
            ∷ codes "data: [DONE]"
            ∷ codes "data: e"
            ∷ [];
        broken = some (codes "reset");
      })
    ≡ record { ttft = pos 2; total = pos 9; tokens = 2; ok = true }
unfolding one_request listen hear hear_data after_prefix count_token fresh strip strip_left
    strip_right is_space Text_discrete
heard_twice = refl

-- An error frame, a frame that is no object, one that is no JSON, and a broken connection.
heard_badly :
    map
      (λ line.
        (one_request demo_frames is_error
          (λ i. pos i)
          (pos 9)
          (record { lines = line ∷ codes "data: [DONE]" ∷ []; broken = none })).ok)
      (codes "data: e" ∷ codes "data: n" ∷ codes "data: tt" ∷ codes "data: t" ∷ [])
    ≡ false ∷ false ∷ false ∷ true ∷ []
unfolding one_request listen hear hear_data after_prefix count_token fresh strip strip_left
    strip_right is_space Text_discrete
heard_badly = refl

percentiles :
    map (pct (pos 10 ∷ pos 20 ∷ pos 40 ∷ [])) (0 ∷ 50 ∷ 75 ∷ 95 ∷ 100 ∷ [])
    ≡ pos 1000 ∷ pos 2000 ∷ pos 3000 ∷ pos 3800 ∷ pos 4000 ∷ []
unfolding pct at_or min_ℕ between ◌*ℤ◌ ◌+ℤ◌ ◌-ℤ◌
percentiles = refl

abbrev slow : Result
slow = record { ttft = pos 3; total = pos 9; tokens = 4; ok = true }

abbrev quick : Result
quick = record { ttft = pos 2; total = pos 5; tokens = 6; ok = true }

abbrev lost : Result
lost = record { ttft = pos 0; total = pos 60; tokens = 1; ok = false }

abbrev of_two : Report
of_two = record {
  p50_latency = pos 700;
  p95_latency = pos 880;
  sum_latency = pos 14;
  p50_ttft = pos 250;
  p95_ttft = pos 295;
  total_tokens = 10;
  wall = pos 9;
}

report-of_two : report (slow ∷ lost ∷ quick ∷ []) ≡ (3, 2, some of_two)
unfolding report report_of pct at_or min_ℕ between ◌*ℤ◌ ◌+ℤ◌ ◌-ℤ◌ longest sum_ℤ sum_tokens sort
    insert filter
report-of_two = refl

report_two_ok : report_of (slow ∷ quick ∷ []) ≡ some of_two
unfolding report_of pct at_or min_ℕ between ◌*ℤ◌ ◌+ℤ◌ ◌-ℤ◌ longest sum_ℤ sum_tokens sort insert
report_two_ok = refl

report_of-ordered_example :
    (of_two.p50_latency ≤ℤ of_two.p95_latency)
    × (of_two.p95_latency ≤ℤ of_two.wall *ℤ pos 100)
    × (of_two.p50_ttft ≤ℤ of_two.p95_ttft)
report_of-ordered_example = report_of-ordered (slow ∷ quick ∷ []) report_two_ok

-- A request with two tokens, and one whose connection breaks off.
abbrev two_runs : List Run
two_runs =
    record {
      elapsed = λ i. if ltb i 9 then pos i else pos 9;
      total = pos 9;
      reply = record {
        lines = codes "" ∷ codes "data: t" ∷ codes "data: t" ∷ codes "data: [DONE]" ∷ [];
        broken = none;
      };
    }
    ∷ record {
      elapsed = λ i. pos 0;
      total = pos 60;
      reply = record { lines = codes "data: t" ∷ []; broken = some (codes "reset") };
    }
    ∷ []

two_runs-IsTimed : All IsTimed two_runs
two_runs-IsTimed = (
  record { started = omega arith; before = λ i. ground arith },
  (record { started = omega arith; before = λ i. omega arith }, tt),
)

abbrev of_one : Report
of_one = record {
  p50_latency = pos 900;
  p95_latency = pos 900;
  sum_latency = pos 9;
  p50_ttft = pos 100;
  p95_ttft = pos 100;
  total_tokens = 2;
  wall = pos 9;
}

report-of_one : report (results demo_frames is_error two_runs) ≡ (2, 1, some of_one)
unfolding results report report_of pct at_or min_ℕ between ◌*ℤ◌ ◌+ℤ◌ ◌-ℤ◌ longest sum_ℤ sum_tokens
    sort insert filter one_request listen hear hear_data after_prefix count_token fresh strip
    strip_left strip_right is_space Text_discrete
report-of_one = refl

report-early_example : of_one.p95_ttft ≤ℤ of_one.wall *ℤ pos 100
report-early_example = report-early demo_frames is_error two_runs report-of_one two_runs-IsTimed

sessions_repeat : session_of (codes "load-") 10 12 ≡ codes "load-2"
unfolding session_of decimal digits
sessions_repeat = refl

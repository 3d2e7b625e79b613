-- ===== src/Client/Measured.antt =====
-- The report of requests that `one_request` has made.
use mini_dynamo.Prelude.{
  ℤ, pos, ◌≤ℤ◌, ◌*ℤ◌, ℕ, ◌≡◌, ap, Bool, some, List, [], ◌∷◌, map, filter, All, Bool-cases, inl, inr,
}
use mini_dynamo.Sse.{Frames}
use mini_dynamo.Router.{Reply}
use mini_dynamo.Client.{Result, Report, one_request, report}
use mini_dynamo.Client.Timing.{one_request-early}
use mini_dynamo.Client.Reports.{report_of-early}

-- The readings of a request's stopwatch, at the lines and at the end, and what the client receives.
pub record Run : Type 0 where
  pub elapsed : ℕ → ℤ
  pub total : ℤ
  pub reply : Reply

-- The stopwatch starts at zero and does not run backwards from the last reading.
pub record IsTimed (run : Run) : Type 0 where
  pub started : pos 0 ≤ℤ run.total
  pub before : (i : ℕ) → run.elapsed i ≤ℤ run.total

module _ {J : Type 0} (frames : Frames J) (has_error : J → Bool) where
  unfoldable pub results : List Run → List Result
  results runs = map (λ run. one_request frames has_error run.elapsed run.total run.reply) runs

  ok_results-early :
      (runs : List Run)
      → All IsTimed runs
      → All (λ r. r.ttft ≤ℤ r.total) (filter (λ r. r.ok) (results runs))
  unfolding filter results
  ok_results-early [] h = tt
  ok_results-early (run ∷ runs) h =
      let r = one_request frames has_error run.elapsed run.total run.reply in
      let early =
        one_request-early frames has_error run.elapsed run.total h.0.before run.reply h.0.started in
      let rest = ok_results-early runs h.1 in
      elim (Bool-cases r.ok) [ inl e ↦ rw e (early, rest) | inr e ↦ rw e rest ]

  -- In the report of requests that the client has made, the 95th percentile of the times to the first
  -- token is at most the longest duration, where no reading of a request's stopwatch comes after
  -- its last one or that one before its start.
  pub report-early :
      (runs : List Run) {n k : ℕ} {rep : Report}
      → report (results runs) ≡ (n, k, some rep)
      → All IsTimed runs
      → rep.p95_ttft ≤ℤ rep.wall *ℤ pos 100
  unfolding report
  report-early runs e h =
      report_of-early (filter (λ r. r.ok) (results runs)) (ap (λ p. p.2) e)
        (ok_results-early runs h)

-- ===== src/Client/Reports.antt =====
-- The report of a run of requests.
use mini_dynamo.Prelude.{
  ℤ, pos, ◌≤ℤ◌, ◌*ℤ◌, suc, ◌<◌, ltb_ℤ, ◌≡◌, refl, sym, ap, subst, ◌∙◌, inl, inr, Option, some, none,
  List, [], ◌∷◌, map, length, All, All-map, Bool-cases, sort, arith, if◌then◌else◌,
}
use mini_dynamo.Prelude.Sorting.{insert}
use mini_dynamo.Client.{Result, Report, pct, longest, report_of}
use mini_dynamo.Client.Percentiles.{IsRising, ≤ℤ_trans, ≤ℤ_refl, pct_mono, pct_below}

abbrev sorted : List ℤ → List ℤ
sorted = sort ltb_ℤ (λ x. x)

abbrev place : ℤ → List ℤ → List ℤ
place = insert ltb_ℤ (λ x. x)

place-All : (P : ℤ → Type 0) (e : ℤ) (d : List ℤ) → P e → All P d → All P (place e d)
unfolding insert
place-All P e [] h k = (h, tt)
place-All P e (x ∷ d) h k = elim (Bool-cases (ltb_ℤ x e)) [
  | inl b ↦ rw b (k.0, place-All P e d h k.1)
  | inr b ↦ rw b (h, k)
]

sorted-All : (P : ℤ → Type 0) (d : List ℤ) → All P d → All P (sorted d)
unfolding sort
sorted-All P [] h = tt
sorted-All P (e ∷ d) h = place-All P e (sorted d) h.0 (sorted-All P d h.1)

place-IsRising : (e : ℤ) (d : List ℤ) → IsRising d → IsRising (place e d)
unfolding insert IsRising
place-IsRising e [] h = (tt, tt)
place-IsRising e (x ∷ d) h = elim (Bool-cases (ltb_ℤ x e)) [
  | inl b ↦ rw b (place-All (λ y. x ≤ℤ y) e d (ground arith) h.0, place-IsRising e d h.1)
  | inr b ↦
      (let below : e ≤ℤ x = ground arith in
        rw b ((below, All-map _ _ d (λ z k. ≤ℤ_trans e x z below k) h.0), h))
]

sorted-IsRising : (d : List ℤ) → IsRising (sorted d)
unfolding sort IsRising
sorted-IsRising [] = tt
sorted-IsRising (e ∷ d) = place-IsRising e (sorted d) (sorted-IsRising d)

length-place : (e : ℤ) (d : List ℤ) → length (place e d) ≡ suc (length d)
unfolding insert
length-place e [] = refl
length-place e (x ∷ d) = elim (Bool-cases (ltb_ℤ x e)) [
  | inl b ↦ rw b (ap suc (length-place e d))
  | inr b ↦ rw b refl
]

length-sorted : (d : List ℤ) → length (sorted d) ≡ length d
unfolding sort
length-sorted [] = refl
length-sorted (e ∷ d) = length-place e (sorted d) ∙ ap suc (length-sorted d)

-- `longest` bounds what it goes through.
longest_first : (best : ℤ) (xs : List ℤ) → best ≤ℤ longest best xs
unfolding longest
longest_first best [] = ≤ℤ_refl best
longest_first best (x ∷ xs) = elim (Bool-cases (ltb_ℤ best x)) [
  | inl e ↦ rw e (≤ℤ_trans best x _ (ground arith) (longest_first x xs))
  | inr e ↦ rw e (longest_first best xs)
]

longest_rest : (best : ℤ) (xs : List ℤ) → All (λ x. x ≤ℤ longest best xs) xs
unfolding longest
longest_rest best [] = tt
longest_rest best (x ∷ xs) = elim (Bool-cases (ltb_ℤ best x)) [
  | inl e ↦
      subst (λ w. All (λ y. y ≤ℤ w) (x ∷ xs)) (sym (ap (λ b. longest (if b then x else best) xs) e))
        (longest_first x xs, longest_rest x xs)
  | inr e ↦
      subst (λ w. All (λ y. y ≤ℤ w) (x ∷ xs)) (sym (ap (λ b. longest (if b then x else best) xs) e))
        (≤ℤ_trans x best _ (ground arith) (longest_first best xs), longest_rest best xs)
]

-- Two percentiles of the sorted values are in order, and below a bound of the values.
sorted-filled : (xs : List ℤ) → 0 < length xs → 0 < length (sorted xs)
sorted-filled xs filled = rw (length-sorted xs) filled

halves_mono : (xs : List ℤ) → 0 < length xs → pct (sorted xs) 50 ≤ℤ pct (sorted xs) 95
halves_mono xs filled =
    pct_mono (sorted xs) (sorted-IsRising xs) (sorted-filled xs filled) 50 95 (omega arith)
      (omega arith)

top_below :
    (xs : List ℤ) (bound : ℤ)
    → 0 < length xs
    → All (λ x. x ≤ℤ bound) xs
    → pct (sorted xs) 95 ≤ℤ bound *ℤ pos 100
top_below xs bound filled below =
    pct_below (sorted xs) (sorted-IsRising xs) (sorted-filled xs filled) 95 bound (omega arith)
      (sorted-All (λ x. x ≤ℤ bound) xs below)

All-map_key :
    (key : Result → ℤ) (bound : ℤ) (rs : List Result)
    → All (λ r. key r ≤ℤ bound) rs
    → All (λ x. x ≤ℤ bound) (map key rs)
All-map_key key bound [] h = tt
All-map_key key bound (r ∷ rs) h = (h.0, All-map_key key bound rs h.1)

All-map_back :
    (key : Result → ℤ) (bound : ℤ) (rs : List Result)
    → All (λ x. x ≤ℤ bound) (map key rs)
    → All (λ r. key r ≤ℤ bound) rs
All-map_back key bound [] h = tt
All-map_back key bound (r ∷ rs) h = (h.0, All-map_back key bound rs h.1)

within :
    (bound : ℤ) (rs : List Result)
    → All (λ r. r.ttft ≤ℤ r.total) rs
    → All (λ r. r.total ≤ℤ bound) rs
    → All (λ r. r.ttft ≤ℤ bound) rs
within bound [] h k = tt
within bound (r ∷ rs) h k = (≤ℤ_trans r.ttft r.total bound h.0 k.0, within bound rs h.1 k.1)

Ordered : Report → Type 0
Ordered rep =
    (rep.p50_latency ≤ℤ rep.p95_latency)
    × (rep.p95_latency ≤ℤ rep.wall *ℤ pos 100)
    × (rep.p50_ttft ≤ℤ rep.p95_ttft)

OrderedIn : Option Report → Type 0
OrderedIn none = Unit
OrderedIn (some rep) = Ordered rep

totals_below :
    (r : Result) (rs : List Result)
    → All (λ x. x ≤ℤ longest r.total (map (λ x. x.total) rs)) (map (λ x. x.total) (r ∷ rs))
totals_below r rs =
    (longest_first r.total (map (λ x. x.total) rs), longest_rest r.total (map (λ x. x.total) rs))

report_of-OrderedIn : (rs : List Result) → OrderedIn (report_of rs)
unfolding report_of OrderedIn Ordered
report_of-OrderedIn [] = tt
report_of-OrderedIn (r ∷ rs) = (
  halves_mono (map (λ x. x.total) (r ∷ rs)) (omega arith),
  top_below (map (λ x. x.total) (r ∷ rs)) _ (omega arith) (totals_below r rs),
  halves_mono (map (λ x. x.ttft) (r ∷ rs)) (omega arith),
)

-- In a report the median of the durations is at most their 95th percentile, and that one at most
-- the longest duration; and the median of the times to the first token is at most their 95th
-- percentile. (The percentiles are a hundred times theirs, and the duration is multiplied.)
pub report_of-ordered :
    (rs : List Result) {rep : Report}
    → report_of rs ≡ some rep
    → (rep.p50_latency ≤ℤ rep.p95_latency)
      × (rep.p95_latency ≤ℤ rep.wall *ℤ pos 100)
      × (rep.p50_ttft ≤ℤ rep.p95_ttft)
unfolding OrderedIn Ordered
report_of-ordered rs {rep} e = rw e at (report_of-OrderedIn rs)

EarlyIn : Option Report → Type 0
EarlyIn none = Unit
EarlyIn (some rep) = rep.p95_ttft ≤ℤ rep.wall *ℤ pos 100

report_of-EarlyIn : (rs : List Result) → All (λ r. r.ttft ≤ℤ r.total) rs → EarlyIn (report_of rs)
unfolding report_of EarlyIn
report_of-EarlyIn [] h = tt
report_of-EarlyIn (r ∷ rs) h =
    let wall = longest r.total (map (λ x. x.total) rs) in
    let durations = All-map_back (λ x. x.total) wall (r ∷ rs) (totals_below r rs) in
    top_below (map (λ x. x.ttft) (r ∷ rs)) wall (omega arith)
      (All-map_key (λ x. x.ttft) wall (r ∷ rs) (within wall (r ∷ rs) h durations))

-- Where no request has its first token after its end.
pub report_of-early :
    (rs : List Result) {rep : Report}
    → report_of rs ≡ some rep
    → All (λ r. r.ttft ≤ℤ r.total) rs
    → rep.p95_ttft ≤ℤ rep.wall *ℤ pos 100
unfolding EarlyIn
report_of-early rs e h = rw e at (report_of-EarlyIn rs h)

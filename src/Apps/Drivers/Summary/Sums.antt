-- ===== src/Apps/Drivers/Summary/Sums.antt =====
-- What the driver adds up.
use usn_hft_sim.Base.{
  ℕ, ◌+◌, ◌<◌, ◌≤◌, ◌^◌, max, ◌≡◌, refl, ap, sym, ◌∙◌, ◌⊎◌, inl, arith, Option, some, List, [], ◌∷◌,
  map, u64,
}
use mathlib.Core.Path.{subst}
use usn_hft_sim.Base.Ints.{ℤ, pos}
use usn_hft_sim.Apps.CommandLine.{Bytes}
use usn_hft_sim.Apps.Subscriber.Report.{Report, summary_line}
use usn_hft_sim.Apps.Drivers.Summary.{Taken, Totals, no_totals, add_taken, add_files}
use usn_hft_sim.Apps.Drivers.Summary.ReadBack.{IsReport, taken_of, summary_reads_back}

abbrev pub AreReports : List Report → Type 0
AreReports [] = Unit
AreReports (r ∷ rs) = IsReport r × AreReports rs

abbrev pub sum_of : (Report → ℕ) → List Report → ℕ
sum_of f [] = 0
sum_of f (r ∷ rs) = f r + sum_of f rs

abbrev pub highest : List Report → ℕ
highest [] = 0
highest (r ∷ rs) = max r.latency_max_us (highest rs)

-- The report is one of them, with the highest latency.
abbrev pub IsWorst : ℤ → List Report → Type 0
IsWorst id [] = ⊥
IsWorst id (r ∷ rs) =
    ((id ≡ pos r.id) × (highest (r ∷ rs) ≡ r.latency_max_us))
    ⊎ ((highest (r ∷ rs) ≡ highest rs) × IsWorst id rs)

-- The files that the subscribers leave.
abbrev pub files_of : List Report → List (Option Bytes)
files_of rs = map (λ (r : Report). some (summary_line r)) rs

unfoldable pub add_reports : List Report → Totals → Totals
unfolding add_taken
add_reports [] s = s
add_reports (r ∷ rs) s = add_reports rs (add_taken s (taken_of r))

files_as_reports :
    (rs : List Report) (s : Totals) → AreReports rs → add_files (files_of rs) s ≡ add_reports rs s
unfolding add_files add_reports
files_as_reports [] s v = refl
files_as_reports (r ∷ rs) s v =
    ap (λ (t : Taken). add_files (files_of rs) (add_taken s t)) (summary_reads_back r v.0)
    ∙ files_as_reports rs (add_taken s (taken_of r)) v.1

add_reports-sums :
    (rs : List Report) (s : Totals)
    → s.sum_recv_total < 2 ^ 64
    → s.sum_gaps < 2 ^ 64
    → s.sum_reorder_events < 2 ^ 64
    → let t = add_reports rs s in
      (t.sum_recv_total ≡ u64 (s.sum_recv_total + sum_of (λ r. r.recv_total) rs))
      × (t.sum_gaps ≡ u64 (s.sum_gaps + sum_of (λ r. r.gaps) rs))
      × (t.sum_reorder_events ≡ u64 (s.sum_reorder_events + sum_of (λ r. r.reorder_events) rs))
      × (t.worst_latency_max ≡ max s.worst_latency_max (highest rs))
unfolding add_reports
add_reports-sums [] s h1 h2 h3 = omega arith
add_reports-sums (r ∷ rs) s h1 h2 h3 =
    ground (arith, add_reports-sums rs (add_taken s (taken_of r)))

add_reports-IsWorst :
    (rs : List Report) (s : Totals)
    → ((add_reports rs s).worst_sub_id ≡ s.worst_sub_id) × (highest rs ≤ s.worst_latency_max)
      ⊎ (IsWorst (add_reports rs s).worst_sub_id rs × (s.worst_latency_max ≤ highest rs))
unfolding add_reports
add_reports-IsWorst [] s = inl (refl, omega arith)
add_reports-IsWorst (r ∷ rs) s = ground (arith, add_reports-IsWorst rs (add_taken s (taken_of r)))

-- The first report already replaces the number -1 of no subscriber.
first-IsWorst :
    (r : Report) (rs : List Report) → IsWorst (add_reports (r ∷ rs) no_totals).worst_sub_id (r ∷ rs)
unfolding add_reports
first-IsWorst r rs = ground (arith, add_reports-IsWorst rs (add_taken no_totals (taken_of r)))

abbrev pub AddsUp : Totals → List Report → Type 0
AddsUp t rs =
    (t.sum_recv_total ≡ u64 (sum_of (λ r. r.recv_total) rs))
    × (t.sum_gaps ≡ u64 (sum_of (λ r. r.gaps) rs))
    × (t.sum_reorder_events ≡ u64 (sum_of (λ r. r.reorder_events) rs))
    × (t.worst_latency_max ≡ highest rs)
    × IsWorst t.worst_sub_id rs

-- From the files of at least one subscriber the driver gets the sums of what they have received, of
-- their gaps and of their late datagrams, in `uint64_t`, the highest of their latencies, and the
-- number of a subscriber that has it.
pub summaries_add_up :
    (r : Report) (rs : List Report)
    → AreReports (r ∷ rs)
    → AddsUp (add_files (files_of (r ∷ rs)) no_totals) (r ∷ rs)
summaries_add_up r rs v =
    let (received, gaps, late, latency) =
      add_reports-sums (r ∷ rs) no_totals (omega arith) (omega arith) (omega arith) in
    subst (λ (t : Totals). AddsUp t (r ∷ rs)) (sym (files_as_reports (r ∷ rs) no_totals v))
      (
        omega (arith, received),
        omega (arith, gaps),
        omega (arith, late),
        omega (arith, latency),
        first-IsWorst r rs,
      )

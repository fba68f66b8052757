-- ===== src/Apps/Drivers/Summary.antt =====
-- The summary at the end of apps/run_sim_market.cpp: the files of the subscribers are read and added up.
pub mod ReadBack
pub mod Sums
use usn_hft_sim.Base.{
  ℕ, ◌+◌, Bool, true, false, Option, none, some, List, [], ◌∷◌, ◌++◌, leb, ◌==◌, if◌then◌else◌, u64,
}
use usn_hft_sim.Base.Ints.{ℤ, pos, negsuc}
use usn_hft_sim.Base.Text.{codes, same, is_space, atoi, strtoull}
use usn_hft_sim.Apps.CommandLine.{Bytes}

-- `std::getline`
unfoldable pub first_line : Bytes → Bytes
first_line [] = []
first_line (c ∷ s) = let rest = first_line s in if c == 10 then [] else c ∷ rest

-- The words that `>>` reads one by one, with the bytes of the current one.
unfoldable pub words : Bytes → (word : Bytes) → List Bytes
words [] [] = []
words [] (c ∷ word) = (c ∷ word) ∷ []
words (c ∷ s) [] = words s (if is_space c then [] else c ∷ [])
words (c ∷ s) (b ∷ word) =
    let next = words s [] in
    let longer = words s ((b ∷ word) ++ c ∷ []) in if is_space c then (b ∷ word) ∷ next else longer

-- `find('=')` and the two `substr`.
unfoldable pub cut : Bytes → Option (Bytes × Bytes)
cut [] = none
cut (c ∷ s) =
    let rest = cut s in
    if c == b'=' then some ([], s) else elim rest [ none ↦ none | some (k, v) ↦ some (c ∷ k, v) ]

-- What is taken from one file.
pub record Taken : Type 0 where
  pub sub_id : ℤ
  pub recv_total : ℕ
  pub gaps : ℕ
  pub reorder_events : ℕ
  pub latency_max : ℕ

abbrev pub nothing_taken : Taken
nothing_taken = record {
  sub_id = negsuc 0;
  recv_total = 0;
  gaps = 0;
  reorder_events = 0;
  latency_max = 0;
}

unfoldable pub take_value : Taken → (k v : Bytes) → Taken
take_value t k v =
    if same k (codes "id")
    then record t { sub_id = atoi v }
    else if same k (codes "recv_total")
    then record t { recv_total = strtoull v }
    else if same k (codes "gaps")
    then record t { gaps = strtoull v }
    else if same k (codes "reorder_events")
    then record t { reorder_events = strtoull v }
    else if same k (codes "latency_max_us")
    then record t { latency_max = strtoull v }
    else t

unfoldable pub take_pair : Taken → Option (Bytes × Bytes) → Taken
take_pair t none = t
take_pair t (some (k, v)) = take_value t k v

unfoldable pub take_words : List Bytes → Taken → Taken
unfolding take_pair take_value cut
take_words [] t = t
take_words (token ∷ tokens) t = take_words tokens (take_pair t (cut token))

unfoldable pub read_summary : Bytes → Taken
unfolding take_words words first_line
read_summary file = take_words (words (first_line file) []) nothing_taken

pub record Totals : Type 0 where
  pub sum_recv_total : ℕ
  pub sum_gaps : ℕ
  pub sum_reorder_events : ℕ
  pub worst_latency_max : ℕ
  pub worst_sub_id : ℤ

abbrev pub no_totals : Totals
no_totals = record {
  sum_recv_total = 0;
  sum_gaps = 0;
  sum_reorder_events = 0;
  worst_latency_max = 0;
  worst_sub_id = negsuc 0;
}

unfoldable pub add_taken : Totals → Taken → Totals
add_taken s t =
    let added : Totals = record s {
      sum_recv_total = u64 (s.sum_recv_total + t.recv_total);
      sum_gaps = u64 (s.sum_gaps + t.gaps);
      sum_reorder_events = u64 (s.sum_reorder_events + t.reorder_events);
    } in
    if leb s.worst_latency_max t.latency_max
    then record added { worst_latency_max = t.latency_max; worst_sub_id = t.sub_id }
    else added

-- The loop over the files; `none` is a file that cannot be opened.
unfoldable pub add_files : List (Option Bytes) → Totals → Totals
add_files [] s = s
add_files (none ∷ files) s = add_files files s
add_files (some file ∷ files) s = add_files files (add_taken s (read_summary file))

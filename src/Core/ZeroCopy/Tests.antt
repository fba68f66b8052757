-- ===== src/Core/ZeroCopy/Tests.antt =====
-- A pool of two blocks.
use usn_hft_sim.Base.{◌≡◌, refl, arith, false, List, [], ◌∷◌}
use usn_hft_sim.Core.ZeroCopy.{ZeroCopyMemoryPool}
use usn_hft_sim.Core.ZeroCopy.Same.{Op, take_block, give_back, run, run_array, view, pools_agree}

abbrev pool : ZeroCopyMemoryPool
pool = record {
  block_size = 36;
  num_blocks = 2;
  buffer = record { ptr = 4096; size = 72; use_huge_pages = false };
  free_list = 1 ∷ 18446744073709551615 ∷ [];
  next_free = 0;
}

abbrev ops : List Op
ops = take_block ∷ take_block ∷ take_block ∷ give_back 4096 ∷ give_back 5000 ∷ take_block ∷ []

pools_agree_example :
    ((run ops pool).0 ≡ (run_array ops (view pool)).0)
    × (view (run ops pool).1 ≡ (run_array ops (view pool)).1)
pools_agree_example = pools_agree ops pool (refl, omega arith)

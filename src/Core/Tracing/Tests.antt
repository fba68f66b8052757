-- ===== src/Core/Tracing/Tests.antt =====
-- A tracer on a small input.
use usn_hft_sim.Base.{◌≡◌, true, refl}
use usn_hft_sim.Core.Tracing.{Tracer, emitted, should_emit}

abbrev third : Tracer
third = record { enabled = true; sample_every = 3; counter = 1 }

-- Calls 2 and 5 print, of the next five.
emits_twice : emitted third 5 ≡ 2
unfolding emitted should_emit
emits_twice = refl

-- ===== src/Apps/CommandLine/Tests.antt =====
-- A few command lines.
use usn_hft_sim.Base.{◌≡◌, refl, [], ◌∷◌}
use usn_hft_sim.Base.Text.{codes, atoi}
use usn_hft_sim.Apps.CommandLine.{
  client_defaults, client_options, each_pair, set_client, gateway_defaults, gateway_options,
  set_gateway,
}

-- A value below the bound, a key that is not known, and a key with no value.
client_line :
    client_options (
      codes "--qps"
      ∷ codes "-3"
      ∷ codes "--colour"
      ∷ codes "7"
      ∷ codes "--cancel-ratio"
      ∷ codes "250"
      ∷ codes "--burst"
      ∷ [])
    ≡ record client_defaults { qps = 1; cancel_ratio = 100 }
unfolding client_options each_pair set_client atoi
client_line = refl

gateway_line :
    gateway_options (codes "--backpressure-threshold" ∷ codes " +12x" ∷ [])
    ≡ record gateway_defaults { backpressure_threshold = 12 }
unfolding gateway_options each_pair set_gateway atoi
gateway_line = refl

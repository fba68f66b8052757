-- ===== src/Tcp/Socket/Tests.antt =====
-- A server whose `listen` fails, and a connection that comes late.
use usn_hft_sim.Base.{◌≡◌, true, false, some, [], ◌++◌}
use usn_hft_sim.Tcp.Socket.{
  ServerAnswers, create_server, in_progress, ConnectAnswers, connect_to, close,
}
use usn_hft_sim.Tcp.Socket.Descriptors.{open_after, owned, no_descriptor_is_lost}

abbrev server : ServerAnswers
server = record { fd = some 3; is_bound = true; listens = false }

abbrev late : ConnectAnswers
late = record {
  fd = some 4;
  is_address = true;
  has_flags = true;
  is_nonblocking = true;
  connects = in_progress;
  is_ready = true;
  is_error_free = true;
}

no_descriptor_is_lost_example :
    (open_after [] (create_server server).1 ≡ owned (create_server server).0)
    × (open_after [] ((create_server server).1 ++ (close (create_server server).0).1) ≡ [])
    × (open_after [] (connect_to late).1 ≡ owned (connect_to late).0)
    × (open_after [] ((connect_to late).1 ++ (close (connect_to late).0).1) ≡ [])
no_descriptor_is_lost_example = no_descriptor_is_lost server late

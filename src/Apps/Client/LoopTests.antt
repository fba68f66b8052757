-- ===== src/Apps/Client/LoopTests.antt =====
-- Two rounds of the client, and a client whose gateway keeps silent.
use usn_hft_sim.Base.{
  Bool, ◌==◌, if◌then◌else◌, ℕ, ◌≡◌, refl, arith, true, false, none, some, List, [], ◌∷◌, ◌++◌, map,
}
use usn_hft_sim.Base.Ints.{eagain}
use usn_hft_sim.Tcp.Wire.{create_data, parse, is_malformed_header}
use usn_hft_sim.Tcp.Retransmission.{collect_due, contains}
use usn_hft_sim.Apps.Messages.{
  order_ack_bytes, order_request_bytes, action_new, action_cancel, action_replace,
}
use usn_hft_sim.Apps.Client.{Client, Options, may_send, send_request}
use usn_hft_sim.Apps.Client.Answers.{
  Read, received, failed, gateway_closed, still_tracked, on_tick, await_ack,
}
use usn_hft_sim.Apps.Client.Loop.{Exchange, request_of, exchange, Pace, Round, Timed, run}
use usn_hft_sim.Apps.Client.Waiting.{after_ticks, silence_is_endless}
use usn_hft_sim.Apps.Client.Accounts.{Accounted, run-Accounted}
use usn_hft_sim.Apps.Client.Ledger.Counted.{
  order_of, booked, counted, gate, sent_of, exchange_counts,
}
use usn_hft_sim.Tcp.Types.{TcpHeader, has_syn, has_ack}
use usn_hft_sim.Wire.Sum.{checksum}
use usn_hft_sim.Tcp.StateMachine
use usn_hft_sim.Tcp.Congestion
use usn_hft_sim.Base.Maps
use usn_hft_sim.Apps.Client.Tests.{server, sender, session, takes_all}

abbrev options : Options
options = record { cancel_ratio = 20; replace_ratio = 20 }

abbrev pace : Pace
pace = record { burst = 1; disconnect_interval_s = 0 }

abbrev plain_exchange : List Read → Exchange
plain_exchange reads = record {
  signalled = false;
  draw = 50;
  pick = 0;
  now_ns = 5000;
  sent_ms = 10;
  reads = reads;
  signalled_after = false;
  rtt_us = 900;
  answered_ms = 11;
}

abbrev plain_round : List Read → Round
plain_round reads = record {
  signalled = false;
  now_ns = 4000;
  connects = true;
  reconnected_ns = 4000;
  now_ms = 5;
  sent_ms = 5;
  exchanges = plain_exchange reads ∷ [];
}

-- An answer after a time-out, and a gateway that closes.
abbrev rounds : List Round
rounds =
    plain_round (
      failed eagain 300
      ∷ received (
          create_data server (
            order_ack_bytes (record { client_order_id = 1; server_order_id = 1; accepted = true })))
      ∷ [])
    ∷ plain_round (gateway_closed ∷ [])
    ∷ []

abbrev at_start : Timed
at_start = record {
  session = record session { client = record sender { order_id = 1 } };
  last_disconnect_ns = 0;
}

at_start-Accounted : Accounted at_start.session.client
at_start-Accounted = omega arith

run-Accounted_example :
    (t' : Timed) × (run options pace takes_all rounds at_start ≡ some t')
    × Accounted t'.session.client
run-Accounted_example =
    run-Accounted options pace takes_all rounds at_start (omega arith) at_start-Accounted

-- The segment of the first order has been written again five times.
abbrev tired : Client
tired = record sender {
  retrans_q = record { seq_start = 1; seq_end = 41; deadline_ms = 450; retries = 5 } ∷ [];
  outstanding_segments = (1, 7 ∷ []) ∷ [];
}

gives_up :
    ((after_ticks takes_all (500 ∷ []) tired).retrans_q ≡ [])
    × ((after_ticks takes_all (500 ∷ []) tired).outstanding_segments ≡ [])
unfolding after_ticks on_tick collect_due still_tracked contains
gives_up = (refl, refl)

silence_is_endless_example :
    (await_ack takes_all
        (map (λ (tick_ms : ℕ). failed eagain tick_ms) ((500 ∷ []) ++ (900 ∷ 1300 ∷ [])))
        tired
      ≡ none)
    × ((after_ticks takes_all ((500 ∷ []) ++ (900 ∷ 1300 ∷ [])) tired).wrote
        ≡ (after_ticks takes_all (500 ∷ []) tired).wrote)
silence_is_endless_example =
    silence_is_endless takes_all (500 ∷ []) (900 ∷ 1300 ∷ []) tired gives_up.0 gives_up.1

abbrev first : Client
first = at_start.session.client

abbrev ack_frame : List ℕ
ack_frame =
    create_data server
      (order_ack_bytes (record { client_order_id = 1; server_order_id = 1; accepted = true }))

abbrev answered : Exchange
answered = plain_exchange (received ack_frame ∷ [])

abbrev ack_payload : List ℕ
ack_payload = order_ack_bytes (record { client_order_id = 1; server_order_id = 1; accepted = true })

-- Its window has the checksum in it.
abbrev ack_header : TcpHeader
ack_header = record {
  source_port = 9000;
  dest_port = 9101;
  seq_num = 1;
  ack_num = 1;
  data_offset = 5;
  reserved = 0;
  flags = 24;
  window = 65376;
  checksum = 1024;
  urgent_ptr = 0;
}

ack_is_read : parse ack_frame ≡ some (ack_header, ack_payload)
unfolding parse create_data order_ack_bytes checksum
ack_is_read = refl

goes_out : ((gate first).0 ≡ true) × ((sent_of options takes_all answered first).0 ≡ true)
unfolding may_send StateMachine.can_send Congestion.can_send send_request create_data
    order_request_bytes
goes_out = (refl, refl)

exchange_counts_example :
    let req = request_of options answered first in
    let book = first.order_book_shadow in
    (goes_on : Bool) × (c' : Client) × (exchange options takes_all answered first
      ≡ some (goes_on, c'))
    × (c'.stats.new_total ≡ counted action_new req 0)
    × (c'.stats.cancel_total ≡ counted action_cancel req 0)
    × (c'.stats.replace_total ≡ counted action_replace req 0)
    × (Maps.find c'.order_book_shadow 1
        ≡ (if 1 == order_of req then booked req (Maps.find book 1) else Maps.find book 1))
unfolding await_ack is_malformed_header has_ack has_syn
exchange_counts_example =
    exchange_counts options takes_all answered first (sent_of options takes_all answered first).1
      ack_frame ack_payload ack_header 1 goes_out.0 goes_out.1 refl ack_is_read refl refl refl

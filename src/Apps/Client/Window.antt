-- ===== src/Apps/Client/Window.antt =====
-- How much a client has under way.
use usn_hft_sim.Base.{
  ℕ, ◌+◌, ◌*◌, ◌≤◌, ◌<◌, ◌^◌, ◌≡◌, min, refl, arith, true, List, [], ◌∷◌, length, length-append,
  inl, inr, Bool-cases,
}
use usn_hft_sim.Base.Maps
use usn_hft_sim.Tcp.StateMachine
use usn_hft_sim.Tcp.Congestion
use usn_hft_sim.Apps.Messages.{OrderRequest, order_request_bytes}
use usn_hft_sim.Apps.Client.{Client, Socket, wrote_all, may_send, send_request}
use usn_hft_sim.Tcp.Wire.{create_data}

length-update :
    {A : Type 0} (entries : List (ℕ × A)) (key : ℕ) (a : A)
    → length (Maps.update entries key a) ≡ length entries
length-update [] key a = refl
length-update (e ∷ entries) key a = ground (arith, length-update entries key a)

length-assign :
    {A : Type 0} (entries : List (ℕ × A)) (key : ℕ) (a : A)
    → length (Maps.assign entries key a) ≤ length entries + 1
length-assign entries key a =
    ground (arith, length-append entries ((key, a) ∷ []), length-update entries key a)

may_send-room :
    (c : Client)
    → (length c.outstanding_segments + 1) * 40 < 2 ^ 64
    → (may_send c).0 ≡ true
    → (length c.outstanding_segments + 1) * 40 ≤ min c.cc.cwnd_bytes c.conn.peer_window
unfolding may_send StateMachine.can_send Congestion.can_send
may_send-room c fits may = ground arith

sent_segments :
    (write_to : Socket) (now_ms : ℕ) (req : OrderRequest) (c : Client)
    → length (send_request write_to now_ms req c).1.outstanding_segments
      ≤ length c.outstanding_segments + 1
unfolding send_request
sent_segments write_to now_ms req c =
    let frame : List ℕ = create_data c.conn (order_request_bytes req) in
    elim (Bool-cases (wrote_all (write_to c.wrote frame) (length frame))) [
      | inl all ↦ rw all (length-assign c.outstanding_segments c.conn.send_seq frame)
      | inr part ↦ rw part (omega arith)
    ]

-- A client that may send, and does, has no more bytes under way afterwards than its congestion window
-- and the window of the gateway allow, whatever the socket answers.
pub sends_within_window :
    (write_to : Socket) (now_ms : ℕ) (req : OrderRequest) (c : Client)
    → (length c.outstanding_segments + 1) * 40 < 2 ^ 64
    → (may_send c).0 ≡ true
    → length (send_request write_to now_ms req c).1.outstanding_segments * 40
      ≤ min c.cc.cwnd_bytes c.conn.peer_window
sends_within_window write_to now_ms req c fits may =
    omega (arith, sent_segments write_to now_ms req c, may_send-room c fits may)

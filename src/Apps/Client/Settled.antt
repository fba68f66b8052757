-- ===== src/Apps/Client/Settled.antt =====
-- An exchange of a client with the gateway.
use usn_hft_sim.Base.{
  ℕ, ◌+◌, ◌≡◌, refl, ap, ap₂, sym, ◌∙◌, arith, true, false, some, List, [], ◌∷◌, ◌++◌, length, u32,
}
use usn_hft_sim.Base.Ints.{pos}
use usn_hft_sim.Base.Maps
use usn_hft_sim.Core.Packet.{Packet}
use usn_hft_sim.Tcp.Types.{TcpHeader, has_ack, TcpConnection}
use usn_hft_sim.Tcp.Wire.{parse, is_malformed_header, create_data}
use usn_hft_sim.Tcp.Wire.ReadBack.{IsEndpoint}
use usn_hft_sim.Tcp.StateMachine.{on_window_update}
use usn_hft_sim.Tcp.Retransmission.{Entry, track_segment, ack_up_to}
use usn_hft_sim.Tcp.Reassembly.{fresh}
use usn_hft_sim.Apps.Messages.{OrderRequest, order_request_bytes}
use usn_hft_sim.Apps.Messages.Layout.{IsRequest}
use usn_hft_sim.Apps.Gateway
use usn_hft_sim.Apps.Gateway.{ConnectionContext, Gateway}
use usn_hft_sim.Apps.Gateway.Frames.{handle_packet}
use usn_hft_sim.Apps.Gateway.Orders.{advanced, order_is_handled}
use usn_hft_sim.Apps.Client.{Client, Socket, wrote_all, send_request}
use usn_hft_sim.Apps.Client.Answers.{
  beyond_ack, take_ack, settle, on_answer, on_parsed, on_ack_frame,
}

abbrev pub TakesAll : Socket → Type 0
TakesAll write_to =
    (wrote : List (List ℕ)) (frame : List ℕ) → write_to wrote frame ≡ pos (length frame)

-- Nothing is under way.
abbrev pub IsIdle : Client → Type 0
IsIdle c = (c.retrans_q ≡ []) × (c.outstanding_segments ≡ [])

took_all : (n : ℕ) → wrote_all (pos n) n ≡ true
took_all n = ground arith

-- A client with one request under way.
abbrev Sent : OrderRequest → Client → Client → Type 0
Sent req c c' =
    (c'.is_running ≡ c.is_running)
    × (c'.conn.send_seq ≡ u32 (c.conn.send_seq + 40))
    × ((now_ms rto : ℕ) × (c'.retrans_q ≡ track_segment [] c.conn.send_seq 40 now_ms rto))
    × ((frame : List ℕ) × (c'.outstanding_segments ≡ (c.conn.send_seq, frame) ∷ []))

sends :
    (write_to : Socket) (now_ms : ℕ) (req : OrderRequest) (c : Client)
    → TakesAll write_to
    → IsIdle c
    → Sent req c (send_request write_to now_ms req c).1
unfolding send_request
sends write_to now_ms req c takes (no_entry, no_segment) =
    let frame : List ℕ = create_data c.conn (order_request_bytes req) in
    rw (takes c.wrote frame, took_all (length frame))
      (
        refl,
        refl,
        (
          now_ms,
          c.rto_estimator.rto_ms,
          ap (λ (q : List Entry). track_segment q c.conn.send_seq 40 now_ms c.rto_estimator.rto_ms)
              no_entry,
        ),
        (frame, ap (λ (m : List (ℕ × List ℕ)). Maps.assign m c.conn.send_seq frame) no_segment),
      )

settles :
    (req : OrderRequest) (rtt_us : ℕ) (c : Client)
    → let c' = settle req rtt_us c in
      (c'.is_running ≡ c.is_running)
      × (c'.conn ≡ c.conn)
      × (c'.retrans_q ≡ c.retrans_q)
      × (c'.outstanding_segments ≡ c.outstanding_segments)
unfolding settle
settles req rtt_us c = ground arith

queue_clears :
    (seq now_ms rto : ℕ) → (ack_up_to (track_segment [] seq 40 now_ms rto) (u32 (seq + 40))).1 ≡ []
unfolding ack_up_to track_segment
queue_clears seq now_ms rto = ground arith

segments_clear : (seq : ℕ) (frame : List ℕ) → beyond_ack (u32 (seq + 40)) ((seq, frame) ∷ []) ≡ []
unfolding beyond_ack
segments_clear seq frame = ground arith

-- An acknowledgement of the byte after the request.
acknowledged :
    (header : TcpHeader) (req : OrderRequest) (c c' : Client)
    → Sent req c c'
    → header.ack_num ≡ u32 (c.conn.send_seq + 40)
    → IsIdle (take_ack header c')
      × ((take_ack header c').is_running ≡ c.is_running)
      × ((take_ack header c').conn.send_seq ≡ u32 (c.conn.send_seq + 40))
unfolding take_ack on_window_update
acknowledged header req c c' (runs, moved, (now_ms, rto, queue), (frame, segments)) ack = (
  (
    ap₂ (λ (q : List Entry) (n : ℕ). (ack_up_to q n).1) queue ack
        ∙ queue_clears c.conn.send_seq now_ms rto,
    ap₂ beyond_ack ack segments ∙ segments_clear c.conn.send_seq frame,
  ),
  runs,
  moved,
)

answered :
    (rtt_us now_ms : ℕ) (req : OrderRequest) (header : TcpHeader) (frame payload : List ℕ)
    (c c' : Client)
    → Sent req c c'
    → parse frame ≡ some (header, payload)
    → is_malformed_header header ≡ false
    → has_ack header ≡ true
    → header.ack_num ≡ u32 (c.conn.send_seq + 40)
    → let c'' = on_ack_frame rtt_us now_ms req frame c' in
      IsIdle c''
      × (c''.is_running ≡ c.is_running)
      × (c''.conn.send_seq ≡ u32 (c.conn.send_seq + 40))
unfolding on_ack_frame on_parsed on_answer
answered rtt_us now_ms req header frame payload c c' sent parsed well acks ack =
    let ((q, o), runs, moved) = acknowledged header req c c' sent ack in
    let (runs', conn, q', o') = settles req rtt_us _ in
    rw (parsed, well, acks)
      ((q' ∙ q, o' ∙ o), runs' ∙ runs, ap (λ (k : TcpConnection). k.send_seq) conn ∙ moved)

-- One exchange, with a client that has nothing under way, a gateway that expects its next byte and a
-- socket that takes every frame: the gateway answers the request that the client has sent with one
-- frame, and after reading it the client has nothing under way, still runs, and its next byte is again
-- the one that the gateway expects.
pub exchange_settles :
    (h : Gateway.Host) (pkt : Packet) (ctx : ConnectionContext) (g : Gateway) (write_to : Socket)
    (now_ms rtt_us then_ms : ℕ) (req : OrderRequest) (c : Client)
    → IsEndpoint c.conn
    → IsEndpoint ctx.tcp
    → IsRequest req
    → TakesAll write_to
    → IsIdle c
    → h.must_drop g.events ≡ false
    → Maps.find g.conn_ctx pkt.port ≡ some ctx
    → h.memory pkt ≡ create_data c.conn (order_request_bytes req)
    → c.conn.send_seq ≡ ctx.tcp.recv_seq
    → ctx.reassembly ≡ fresh
    → let g' = handle_packet h pkt g in
      let c' = (send_request write_to now_ms req c).1 in
      (ctx' : ConnectionContext) × (g'.conn_ctx ≡ Maps.update g.conn_ctx pkt.port ctx')
      × (frame : List ℕ) × (g'.events ≡ g.events ++ Gateway.wrote pkt.port frame ∷ [])
      × IsIdle (on_ack_frame rtt_us then_ms req frame c')
      × ((on_ack_frame rtt_us then_ms req frame c').is_running ≡ c.is_running)
      × ((on_ack_frame rtt_us then_ms req frame c').conn.send_seq ≡ ctx'.tcp.recv_seq)
exchange_settles h pkt ctx g write_to now_ms rtt_us then_ms req c ep ep' v takes idle stays found
      points next empty =
    let (live, contexts, frame, events, header, payload, parsed, seq, ack, names, well, acks) =
      order_is_handled h pkt c.conn req ctx g ep ep' v stays found points next empty in
    let same : u32 (c.conn.send_seq + 40) ≡ u32 (ctx.tcp.recv_seq + 40) =
      ap (λ (n : ℕ). u32 (n + 40)) next in
    let sent = sends write_to now_ms req c takes idle in
    let (quiet, runs, moved) =
      answered rtt_us then_ms req header frame payload c (send_request write_to now_ms req c).1 sent
        parsed well acks (ack ∙ sym same) in
    (advanced ctx, contexts, frame, events, quiet, runs, moved ∙ same)

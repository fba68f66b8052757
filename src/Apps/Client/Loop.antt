-- ===== src/Apps/Client/Loop.antt =====
-- apps/order_tcp/order_client.cpp: the two loops of `main`, composed from their steps, and the close. What
-- the clock, the draws, the signals and the reads give is an input of each round.
use usn_hft_sim.Base.{
  ℕ, zero, suc, ◌+◌, ◌-◌, ◌*◌, ◌%◌, ◌^◌, Bool, true, false, not, ◌&&◌, ◌||◌, Option, none, some,
  List, [], ◌∷◌, length, get_or, ltb, leb, map, if◌then◌else◌, u64,
}
use usn_hft_sim.Apps.Messages.{OrderRequest}
use usn_hft_sim.Apps.Client.{
  Client, Socket, keepalive, Options, build_request, may_send, send_request,
}
use usn_hft_sim.Apps.Client.Answers.{Read, await_ack, on_ack_frame}
use usn_hft_sim.Apps.Client.Lifecycle.{Session, start, reconnect, teardown}

-- The inputs of a round of the inner loop. `signalled` is `g_running` cleared at its head, and
-- `signalled_after` after the wait; `pick` says which key `begin()` of the map has.
pub record Exchange : Type 0 where
  pub signalled : Bool
  pub draw : ℕ
  pub pick : ℕ
  pub now_ns : ℕ
  pub sent_ms : ℕ
  pub reads : List Read
  pub signalled_after : Bool
  pub rtt_us : ℕ
  pub answered_ms : ℕ

-- The key of `order_book_shadow.begin()`.
unfoldable pub begin_of : (pick : ℕ) → List (ℕ × OrderRequest) → Option ℕ
begin_of pick [] = none
begin_of pick (e ∷ shadow) =
    some (get_or (map (λ (x : ℕ × OrderRequest). x.0) (e ∷ shadow)) (pick % length (e ∷ shadow)) 0)

abbrev pub request_of : Options → Exchange → Client → OrderRequest
request_of o x c = build_request o x.draw (begin_of x.pick c.order_book_shadow) c.order_id x.now_ns

abbrev pub halt : Client → Client
halt c = record c { is_running = false }

-- What follows the wait: whether the inner loop goes on.
unfoldable pub after_wait : Exchange → OrderRequest → Option (List ℕ) → Client → Bool × Client
after_wait x req none c = (false, c)
after_wait x req (some frame) c =
    let answered : Client = on_ack_frame x.rtt_us x.answered_ms req frame c in
    if x.signalled_after then (false, halt c) else (answered.is_running, answered)

-- The request has been sent.
unfoldable pub wait_and_take : Socket → Exchange → OrderRequest → Client → Option (Bool × Client)
wait_and_take write_to x req c = elim (await_ack write_to x.reads c) [
  | none ↦ none
  | some (frame, c') ↦ some (after_wait x req frame c')
]

-- One round of the inner loop, past its test: whether the loop goes on; `none` while it waits.
unfoldable pub exchange : Options → Socket → Exchange → Client → Option (Bool × Client)
exchange o write_to x c =
    let req : OrderRequest = request_of o x c in
    let gated : Bool × Client = may_send (record c { order_id = u64 (c.order_id + 1) }) in
    let sent : Bool × Client = send_request write_to x.sent_ms req gated.1 in
    if not gated.0
    then some (true, gated.1)
    else (if not sent.0 then some (false, sent.1) else wait_and_take write_to x req sent.1)

-- The inner loop, with the rounds that are left of the burst.
unfoldable pub burst_loop : Options → Socket → (rounds : ℕ) → List Exchange → Client → Option Client
burst_loop o write_to zero xs c = some c
burst_loop o write_to (suc rounds) [] c = none
burst_loop o write_to (suc rounds) (x ∷ xs) c =
    if x.signalled || not c.is_running then some (halt c) else elim (exchange o write_to x c) [
      | none ↦ none
      | some (goes_on, c') ↦
          let rest = burst_loop o write_to rounds xs c' in if goes_on then rest else some c'
    ]

-- The options that the outer loop reads.
pub record Pace : Type 0 where
  pub burst : ℕ
  pub disconnect_interval_s : ℕ

-- The inputs of a round of the outer loop: the clock at the test for a disconnect, after it, and around
-- the keepalive, and whether a new connection is made.
pub record Round : Type 0 where
  pub signalled : Bool
  pub now_ns : ℕ
  pub connects : Bool
  pub reconnected_ns : ℕ
  pub now_ms : ℕ
  pub sent_ms : ℕ
  pub exchanges : List Exchange

-- The session with the time of its last connection.
pub record Timed : Type 0 where
  pub session : Session
  pub last_disconnect_ns : ℕ

abbrev pub is_due : Pace → Round → Timed → Bool
is_due pace r t =
    ltb 0 pace.disconnect_interval_s
    && leb (pace.disconnect_interval_s * 10 ^ 9) (r.now_ns - t.last_disconnect_ns)

abbrev pub with_client : Session → Client → Session
with_client s c = record s { client = c }

-- The body of the outer loop behind the reconnect.
unfoldable pub work : Options → Pace → Socket → Round → Session → Option Session
work o pace write_to r s =
    let kept : Client = keepalive write_to r.now_ms r.sent_ms s.client in
    elim (burst_loop o write_to pace.burst r.exchanges kept) [
      | none ↦ none
      | some c ↦ some (with_client s c)
    ]

-- One round of the outer loop: whether the loop goes on.
unfoldable pub round : Options → Pace → Socket → Round → Timed → Option (Bool × Timed)
round o pace write_to r t =
    let due : Bool = is_due pace r t in
    let (ready, s) = reconnect due r.connects t.session in
    let last : ℕ = if due then r.reconnected_ns else t.last_disconnect_ns in
    let ended : Session = with_client t.session (halt t.session.client) in
    if r.signalled || not t.session.client.is_running
    then some (false, record t { session = ended })
    else (if not ready
        then some (true, record t { session = s })
        else elim (work o pace write_to r s) [
          | none ↦ none
          | some s' ↦ some (true, record { session = s'; last_disconnect_ns = last })
        ])

-- The outer loop, as far as there are rounds.
unfoldable pub run : Options → Pace → Socket → List Round → Timed → Option Timed
run o pace write_to [] t = some t
run o pace write_to (r ∷ rounds) t = elim (round o pace write_to r t) [
  | none ↦ none
  | some (goes_on, t') ↦
      let rest = run o pace write_to rounds t' in if goes_on then rest else some t'
]

-- `main` behind the command line: the first connection, the loop and the close; `none` where there is
-- no connection, or while a wait goes on.
unfoldable pub client_main :
    Options
    → Pace
    → Socket
    → (connects : Bool) (start_ns : ℕ) → List Round
    → (closing : List (Option (List ℕ))) → Client
    → Option Session
client_main o pace write_to connects start_ns rounds closing c = elim (start connects c) [
  | none ↦ none
  | some s ↦
      let begun : Timed = record { session = s; last_disconnect_ns = start_ns } in
      elim (run o pace write_to rounds begun) [
        | none ↦ none
        | some t ↦ some (teardown closing t.session)
      ]
]

-- ===== src/Apps/Client/Waiting.antt =====
-- When the loops of the order client come to an end.
use usn_hft_sim.Base.{
  ℕ, zero, suc, ◌≤◌, ◌+◌, ◌≡◌, refl, sym, ◌∙◌, inl, inr, arith, Bool, not, ◌||◌, Bool-cases, Option,
  none, some, Option-cases, List, [], ◌∷◌, ◌++◌, length, ap, map, if◌then◌else◌, u64,
}
use mathlib.Core.Option.{none-ne-some}
use usn_hft_sim.Base.Ints.{eagain}
use usn_hft_sim.Tcp.Retransmission.{collect_due}
use usn_hft_sim.Apps.Messages.{OrderRequest}
use usn_hft_sim.Apps.Client.{Client, Socket, keepalive, Options, may_send, send_request}
use usn_hft_sim.Apps.Client.Answers.{
  Read, interrupted, gateway_closed, received, failed, is_retryable, still_tracked, on_tick,
  await_ack,
}
use usn_hft_sim.Apps.Client.Lifecycle.{Session, reconnect}
use usn_hft_sim.Apps.Client.Loop.{
  Exchange, request_of, wait_and_take, exchange, burst_loop, Pace, Round, Timed, is_due, work,
  round, run,
}

-- Some read does not merely time out.
abbrev pub Concludes : List Read → Type 0
Concludes [] = ⊥
Concludes (interrupted ∷ reads) = Unit
Concludes (gateway_closed ∷ reads) = Unit
Concludes (received frame ∷ reads) = Unit
Concludes (failed errno tick_ms ∷ reads) = if is_retryable errno then Concludes reads else Unit

abbrev pub AllConclude : List Exchange → Type 0
AllConclude [] = Unit
AllConclude (x ∷ xs) = Concludes x.reads × AllConclude xs

abbrev pub AreServed : Pace → List Round → Type 0
AreServed pace [] = Unit
AreServed pace (r ∷ rounds) =
    (pace.burst ≤ length r.exchanges) × AllConclude r.exchanges × AreServed pace rounds

abbrev HasEnded : {A : Type 0} → Option A → Type 0
HasEnded none = ⊥
HasEnded (some a) = Unit

await_ack-HasEnded :
    (write_to : Socket) (reads : List Read) (c : Client)
    → Concludes reads
    → HasEnded (await_ack write_to reads c)
unfolding await_ack
await_ack-HasEnded write_to [] c h = absurd h
await_ack-HasEnded write_to (interrupted ∷ reads) c h = tt
await_ack-HasEnded write_to (gateway_closed ∷ reads) c h = tt
await_ack-HasEnded write_to (received frame ∷ reads) c h = tt
await_ack-HasEnded write_to (failed errno tick_ms ∷ reads) c h =
    elim (Bool-cases (is_retryable errno)) [
      | inl again ↦
          rw (again, HasEnded)
            (await_ack-HasEnded write_to reads (on_tick write_to tick_ms c) (rw again at h))
      | inr broken ↦ rw (broken, HasEnded) tt
    ]

-- A value that has ended is there.
ended_value : {A : Type 0} (r : Option A) → HasEnded r → r ≡ none → ⊥
ended_value none h e = h
ended_value (some a) h e = absurd (none-ne-some a (sym e))

wait_and_take-HasEnded :
    (write_to : Socket) (x : Exchange) (req : OrderRequest) (c : Client)
    → Concludes x.reads
    → HasEnded (wait_and_take write_to x req c)
unfolding wait_and_take
wait_and_take-HasEnded write_to x req c h = elim (Option-cases (await_ack write_to x.reads c)) [
  | inl waits ↦ absurd (ended_value _ (await_ack-HasEnded write_to x.reads c h) waits)
  | inr (r, done) ↦ rw (done, HasEnded) tt
]

exchange-HasEnded :
    (o : Options) (write_to : Socket) (x : Exchange) (c : Client)
    → Concludes x.reads
    → HasEnded (exchange o write_to x c)
unfolding exchange
exchange-HasEnded o write_to x c h =
    let gated : Bool × Client = may_send (record c { order_id = u64 (c.order_id + 1) }) in
    let sent : Bool × Client = send_request write_to x.sent_ms (request_of o x c) gated.1 in
    elim (Bool-cases gated.0) [
      | inl may ↦ elim (Bool-cases sent.0) [
        | inl took ↦ rw (may, took) (wait_and_take-HasEnded write_to x (request_of o x c) sent.1 h)
        | inr refused ↦ rw (may, refused) tt
      ]
      | inr held ↦ rw held tt
    ]

burst_loop-HasEnded :
    (o : Options) (write_to : Socket) (rounds : ℕ) (xs : List Exchange) (c : Client)
    → rounds ≤ length xs
    → AllConclude xs
    → HasEnded (burst_loop o write_to rounds xs c)
unfolding burst_loop
burst_loop-HasEnded o write_to zero xs c enough v = tt
burst_loop-HasEnded o write_to (suc rounds) [] c enough v = absurd (omega arith)
burst_loop-HasEnded o write_to (suc rounds) (x ∷ xs) c enough v =
    elim (Bool-cases (x.signalled || not c.is_running)) [
      | inl stops ↦ rw (stops, HasEnded) tt
      | inr goes ↦ elim (Option-cases (exchange o write_to x c)) [
        | inl waits ↦ absurd (ended_value _ (exchange-HasEnded o write_to x c v.0) waits)
        | inr (r, done) ↦ elim (Bool-cases r.0) [
          | inl more ↦
              rw (goes, done, more, HasEnded)
                (burst_loop-HasEnded o write_to rounds xs r.1 (omega arith) v.1)
          | inr last ↦ rw (goes, done, last, HasEnded) tt
        ]
      ]
    ]

work-HasEnded :
    (o : Options) (pace : Pace) (write_to : Socket) (r : Round) (s : Session)
    → pace.burst ≤ length r.exchanges
    → AllConclude r.exchanges
    → HasEnded (work o pace write_to r s)
unfolding work
work-HasEnded o pace write_to r s enough v =
    let kept : Client = keepalive write_to r.now_ms r.sent_ms s.client in
    elim (Option-cases (burst_loop o write_to pace.burst r.exchanges kept)) [
      | inl waits ↦ absurd (
          ended_value _ (burst_loop-HasEnded o write_to pace.burst r.exchanges kept enough v) waits)
      | inr (c, done) ↦ rw (done, HasEnded) tt
    ]

round-HasEnded :
    (o : Options) (pace : Pace) (write_to : Socket) (r : Round) (t : Timed)
    → pace.burst ≤ length r.exchanges
    → AllConclude r.exchanges
    → HasEnded (round o pace write_to r t)
unfolding round
round-HasEnded o pace write_to r t enough v =
    let re : Bool × Session = reconnect (is_due pace r t) r.connects t.session in
    elim (Bool-cases (r.signalled || not t.session.client.is_running)) [
      | inl stops ↦ rw (stops, HasEnded) tt
      | inr goes ↦ elim (Bool-cases re.0) [
        | inl ready ↦ elim (Option-cases (work o pace write_to r re.1)) [
          | inl waits ↦ absurd (ended_value _ (work-HasEnded o pace write_to r re.1 enough v) waits)
          | inr (s, done) ↦ rw (goes, ready, done, HasEnded) tt
        ]
        | inr apart ↦ rw (goes, apart, HasEnded) tt
      ]
    ]

run-HasEnded :
    (o : Options) (pace : Pace) (write_to : Socket) (rounds : List Round) (t : Timed)
    → AreServed pace rounds
    → HasEnded (run o pace write_to rounds t)
unfolding run
run-HasEnded o pace write_to [] t v = tt
run-HasEnded o pace write_to (r ∷ rounds) t (enough, conclude, rest) =
    elim (Option-cases (round o pace write_to r t)) [
      | inl waits ↦
          absurd (ended_value _ (round-HasEnded o pace write_to r t enough conclude) waits)
      | inr (q, done) ↦ elim (Bool-cases q.0) [
        | inl more ↦ rw (done, more, HasEnded) (run-HasEnded o pace write_to rounds q.1 rest)
        | inr last ↦ rw (done, last, HasEnded) tt
      ]
    ]

-- The loops end where each wait gets an answer that is not a time-out.
pub run_ends :
    (o : Options) (pace : Pace) (write_to : Socket) (rounds : List Round) (t : Timed)
    → AreServed pace rounds
    → (t' : Timed) × (run o pace write_to rounds t ≡ some t')
run_ends o pace write_to rounds t v = elim (Option-cases (run o pace write_to rounds t)) [
  | inl waits ↦ absurd (ended_value _ (run-HasEnded o pace write_to rounds t v) waits)
  | inr ended ↦ ended
]

-- The client after as many reads that time out.
unfoldable pub after_ticks : Socket → List ℕ → Client → Client
after_ticks write_to [] c = c
after_ticks write_to (tick_ms ∷ ticks) c = after_ticks write_to ticks (on_tick write_to tick_ms c)

nothing_to_resend :
    (write_to : Socket) (tick_ms : ℕ) (c : Client)
    → c.retrans_q ≡ []
    → c.outstanding_segments ≡ []
    → let c' = on_tick write_to tick_ms c in
      (c'.wrote ≡ c.wrote) × (c'.retrans_q ≡ []) × (c'.outstanding_segments ≡ [])
unfolding on_tick collect_due still_tracked
nothing_to_resend write_to tick_ms c empty none_left = rw (empty, none_left) (refl, refl, refl)

waits_on :
    (write_to : Socket) (ticks : List ℕ) (c : Client)
    → await_ack write_to (map (λ (tick_ms : ℕ). failed eagain tick_ms) ticks) c ≡ none
unfolding await_ack
waits_on write_to [] c = refl
waits_on write_to (tick_ms ∷ ticks) c = waits_on write_to ticks (on_tick write_to tick_ms c)

stays_quiet :
    (write_to : Socket) (ticks : List ℕ) (c : Client)
    → c.retrans_q ≡ []
    → c.outstanding_segments ≡ []
    → (after_ticks write_to ticks c).wrote ≡ c.wrote
unfolding after_ticks
stays_quiet write_to [] c empty none_left = refl
stays_quiet write_to (tick_ms ∷ ticks) c empty none_left =
    let c' : Client = on_tick write_to tick_ms c in
    let (same, empty', none_left') = nothing_to_resend write_to tick_ms c empty none_left in
    stays_quiet write_to ticks c' empty' none_left' ∙ same

after_ticks-append :
    (write_to : Socket) (earlier later : List ℕ) (c : Client)
    → after_ticks write_to (earlier ++ later) c
      ≡ after_ticks write_to later (after_ticks write_to earlier c)
unfolding after_ticks
after_ticks-append write_to [] later c = refl
after_ticks-append write_to (tick_ms ∷ earlier) later c =
    after_ticks-append write_to earlier later (on_tick write_to tick_ms c)

-- A gateway that keeps silent holds the client for ever. Once some reads have timed out and the queue
-- has given up on its segments, the client writes nothing more, however many reads time out after
-- those, and it still waits for the acknowledgement.
pub silence_is_endless :
    (write_to : Socket) (earlier later : List ℕ) (c : Client)
    → (after_ticks write_to earlier c).retrans_q ≡ []
    → (after_ticks write_to earlier c).outstanding_segments ≡ []
    → (await_ack write_to (map (λ (tick_ms : ℕ). failed eagain tick_ms) (earlier ++ later)) c
        ≡ none)
      × ((after_ticks write_to (earlier ++ later) c).wrote ≡ (after_ticks write_to earlier c).wrote)
silence_is_endless write_to earlier later c empty none_left = (
  waits_on write_to (earlier ++ later) c,
  ap (λ (k : Client). k.wrote) (after_ticks-append write_to earlier later c)
      ∙ stays_quiet write_to later (after_ticks write_to earlier c) empty none_left,
)

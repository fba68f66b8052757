-- ===== src/Apps/Client/Accounts.antt =====
-- The counters of the order client over whole runs of its loops.
use usn_hft_sim.Base.{
  ℕ, zero, suc, ◌≡◌, ap, sym, ◌∙◌, inl, inr, arith, Bool, true, false, not, ◌||◌, Bool-cases,
  Option, none, some, Option-cases, List, [], ◌∷◌, if◌then◌else◌,
}
use mathlib.Core.Path.{subst}
use mathlib.Core.Option.{some-injective, none-ne-some}
use usn_hft_sim.Apps.Messages.{OrderRequest}
use usn_hft_sim.Apps.Client.{Client, Socket, keepalive, Options, may_send, send_request}
use usn_hft_sim.Apps.Client.Answers.{await_ack}
use usn_hft_sim.Apps.Client.Lifecycle.{Session, reconnect}
use usn_hft_sim.Apps.Client.Loop.{
  Exchange, request_of, halt, wait_and_take, exchange, burst_loop, Pace, Round, Timed, is_due, work,
  round, run,
}
use usn_hft_sim.Apps.Client.Waiting.{AreServed, run_ends}
use usn_hft_sim.Apps.Client.Ledger.{
  Ledger, ledger_of, keepalive-ledger, IsSettled, IsOpen, IsLeft, IsAccounted, settled-IsLeft,
  numbered, held_back-IsSettled, may_send_unchanged, sent-IsOpen, refused-IsLeft,
}
use usn_hft_sim.Apps.Client.Ledger.Answered.{
  IsAccounted-running, IsAccounted-stopped, IsSettled-of, await_ack-Waited, after_wait-IsAccounted,
}

abbrev pub Accounted : Client → Type 0
Accounted c = IsAccounted (ledger_of c)

-- `none` is a wait that goes on.
abbrev Ends : {A : Type 0} → (A → Type 0) → Option A → Type 0
Ends P none = Unit
Ends P (some a) = P a

wait_and_take-Accounted :
    (write_to : Socket) (x : Exchange) (req : OrderRequest) (c : Client)
    → IsOpen (ledger_of c)
    → c.is_running ≡ true
    → Ends (λ (r : Bool × Client). Accounted r.1) (wait_and_take write_to x req c)
unfolding wait_and_take
wait_and_take-Accounted write_to x req c v on = elim (Option-cases (await_ack write_to x.reads c)) [
  | inl waits ↦ rw (waits, Ends) tt
  | inr (r, done) ↦
      rw (done, Ends)
        (after_wait-IsAccounted x req c r v on (await_ack-Waited write_to x.reads c r done))
]

exchange-Accounted :
    (o : Options) (write_to : Socket) (x : Exchange) (c : Client)
    → Accounted c
    → c.is_running ≡ true
    → Ends (λ (r : Bool × Client). Accounted r.1) (exchange o write_to x c)
unfolding exchange
exchange-Accounted o write_to x c v on =
    let req : OrderRequest = request_of o x c in
    let gated : Bool × Client = may_send (numbered c) in
    let settled : IsSettled (ledger_of c) = IsSettled-of _ v on in
    elim (Bool-cases gated.0) [
      | inl may ↦
          let same : ledger_of gated.1 ≡ ledger_of (numbered c) =
            may_send_unchanged (numbered c) may in
          let still : gated.1.is_running ≡ true = ap (λ (l : Ledger). l.is_running) same ∙ on in
          elim (Bool-cases (send_request write_to x.sent_ms req gated.1).0) [
            | inl took ↦
                let (v', on') =
                  sent-IsOpen write_to x.sent_ms req gated.1 (ledger_of c) settled same took in
                rw (may, took) (wait_and_take-Accounted write_to x req _ v' (on' ∙ still))
            | inr refused ↦
                let (v', off) =
                  refused-IsLeft write_to x.sent_ms req gated.1 (ledger_of c) settled same
                    refused in
                rw (may, refused) (IsAccounted-stopped _ off v')
          ]
      | inr held ↦
          let (v', same) = held_back-IsSettled c settled held in
          rw held (IsAccounted-running _ (same ∙ on) v')
    ]

halted-IsLeft : (l : Ledger) → IsLeft l → IsLeft (record l { is_running = false })
halted-IsLeft l v = record {
  numbered = v.numbered;
  one_at_most = v.one_at_most;
  by_kind = v.by_kind;
  sampled = v.sampled;
  sampled_by_kind = v.sampled_by_kind;
}

IsLeft-of : (l : Ledger) → IsAccounted l → l.is_running ≡ false → IsLeft l
IsLeft-of l v off = subst (λ (b : Bool). if b then IsSettled l else IsLeft l) off v

-- A client that is halted, from any state.
halt-Accounted : (c : Client) → Accounted c → Accounted (halt c)
halt-Accounted c v = elim (Bool-cases c.is_running) [
  | inl on ↦ settled-IsLeft (ledger_of c) (IsSettled-of _ v on)
  | inr off ↦ halted-IsLeft (ledger_of c) (IsLeft-of _ v off)
]

burst_loop-Accounted :
    (o : Options) (write_to : Socket) (rounds : ℕ) (xs : List Exchange) (c : Client)
    → Accounted c
    → Ends Accounted (burst_loop o write_to rounds xs c)
unfolding burst_loop
burst_loop-Accounted o write_to zero xs c v = v
burst_loop-Accounted o write_to (suc rounds) [] c v = tt
burst_loop-Accounted o write_to (suc rounds) (x ∷ xs) c v =
    elim (Bool-cases (x.signalled || not c.is_running)) [
      | inl stops ↦ rw stops (halt-Accounted c v)
      | inr goes ↦ elim (Option-cases (exchange o write_to x c)) [
        | inl waits ↦ rw (goes, waits, Ends) tt
        | inr (r, done) ↦
            let on : c.is_running ≡ true = ground arith in
            let v' : Accounted r.1 =
              subst (Ends (λ (q : Bool × Client). Accounted q.1)) done
                (exchange-Accounted o write_to x c v on) in
            elim (Bool-cases r.0) [
              | inl more ↦
                  rw (goes, done, more, Ends) (burst_loop-Accounted o write_to rounds xs r.1 v')
              | inr last ↦ rw (goes, done, last, Ends) v'
            ]
      ]
    ]

reconnect-ledger :
    (due connects : Bool) (s : Session)
    → ledger_of (reconnect due connects s).1.client ≡ ledger_of s.client
unfolding reconnect
reconnect-ledger due connects s = ground arith

work-Accounted :
    (o : Options) (pace : Pace) (write_to : Socket) (r : Round) (s : Session)
    → Accounted s.client
    → Ends (λ (s' : Session). Accounted s'.client) (work o pace write_to r s)
unfolding work
work-Accounted o pace write_to r s v =
    let kept : Client = keepalive write_to r.now_ms r.sent_ms s.client in
    let v' : Accounted kept =
      subst IsAccounted (sym (keepalive-ledger write_to r.now_ms r.sent_ms s.client)) v in
    elim (Option-cases (burst_loop o write_to pace.burst r.exchanges kept)) [
      | inl waits ↦ rw (waits, Ends) tt
      | inr (c, done) ↦
          rw (done, Ends)
            (subst (Ends Accounted) done
              (burst_loop-Accounted o write_to pace.burst r.exchanges kept v'))
    ]

round-Accounted :
    (o : Options) (pace : Pace) (write_to : Socket) (r : Round) (t : Timed)
    → Accounted t.session.client
    → Ends (λ (q : Bool × Timed). Accounted q.1.session.client) (round o pace write_to r t)
unfolding round
round-Accounted o pace write_to r t v =
    let re : Bool × Session = reconnect (is_due pace r t) r.connects t.session in
    let v' : Accounted re.1.client =
      subst IsAccounted (sym (reconnect-ledger (is_due pace r t) r.connects t.session)) v in
    elim (Bool-cases (r.signalled || not t.session.client.is_running)) [
      | inl stops ↦ rw stops (halt-Accounted t.session.client v)
      | inr goes ↦ elim (Bool-cases re.0) [
        | inl ready ↦ elim (Option-cases (work o pace write_to r re.1)) [
          | inl waits ↦ rw (goes, ready, waits, Ends) tt
          | inr (s, done) ↦
              rw (goes, ready, done, Ends)
                (subst (Ends (λ (s' : Session). Accounted s'.client)) done
                  (work-Accounted o pace write_to r re.1 v'))
        ]
        | inr failed ↦ rw (goes, failed) v'
      ]
    ]

-- Where the loop comes to an end, the client is accounted.
ended-Accounted :
    (o : Options) (pace : Pace) (write_to : Socket) (rounds : List Round) (t t' : Timed)
    → Accounted t.session.client
    → run o pace write_to rounds t ≡ some t'
    → Accounted t'.session.client
unfolding run
ended-Accounted o pace write_to [] t t' v h =
    subst (λ (u : Timed). Accounted u.session.client) (some-injective t t' h) v
ended-Accounted o pace write_to (r ∷ rounds) t t' v h =
    elim (Option-cases (round o pace write_to r t)) [
      | inl waits ↦ absurd (none-ne-some t' (rw (waits, run) at h))
      | inr (q, done) ↦
          let v' : Accounted q.1.session.client =
            subst (Ends (λ (p : Bool × Timed). Accounted p.1.session.client)) done
              (round-Accounted o pace write_to r t v) in
          elim (Bool-cases q.0) [
            | inl more ↦
                ended-Accounted o pace write_to rounds q.1 t' v' (rw (done, more, run) at h)
            | inr last ↦
                subst (λ (u : Timed). Accounted u.session.client)
                  (some-injective q.1 t' (rw (done, last, run) at h)) v'
          ]
    ]

-- Where each wait gets an answer that is not a time-out, the loop ends, and whatever the clock, the
-- draws, the signals, the reconnects and the socket do, the counters stay in balance, in `uint64_t`:
-- while the client runs, each number has gone to a request that was sent or held back, each request
-- sent has been answered, and each answer has been counted for one of the three actions and sampled, as
-- one of all and as one of that action. After it has stopped, one request at most is left without an
-- answer, and one number at most has gone to a request that was not sent.
pub run-Accounted :
    (o : Options) (pace : Pace) (write_to : Socket) (rounds : List Round) (t : Timed)
    → AreServed pace rounds
    → Accounted t.session.client
    → (t' : Timed) × (run o pace write_to rounds t ≡ some t') × Accounted t'.session.client
run-Accounted o pace write_to rounds t served v =
    let (t', ends) = run_ends o pace write_to rounds t served in
    (t', ends, ended-Accounted o pace write_to rounds t t' v ends)

-- ===== src/Apps/Client/Ledger/Answered.antt =====
-- The counters of the order client from the wait for an answer on.
use usn_hft_sim.Base.{
  ℕ, ◌+◌, ◌/◌, max, ◌≡◌, refl, ap, sym, ◌∙◌, inl, inr, arith, Bool, true, false, not, ◌||◌,
  Bool-cases, Option, none, some, List, [], ◌∷◌, ◌++◌, length, length-append, if◌then◌else◌, u64,
}
use mathlib.Core.Path.{subst}
use mathlib.Core.Option.{some-injective}
use usn_hft_sim.Core.Tracing.{should_emit}
use usn_hft_sim.Tcp.Rto.{sample_rtt}
use usn_hft_sim.Tcp.Types.{TcpHeader, has_ack}
use usn_hft_sim.Tcp.Wire.{parse, is_malformed_header}
use usn_hft_sim.Apps.Messages.{OrderRequest}
use usn_hft_sim.Apps.Client.{Stats, bump, Client, Socket}
use usn_hft_sim.Apps.Client.Answers.{
  Read, interrupted, gateway_closed, received, failed, is_retryable, on_tick, await_ack, take_ack,
  settle, on_answer, on_parsed, on_ack_frame,
}
use usn_hft_sim.Apps.Client.Loop.{Exchange, after_wait}
use usn_hft_sim.Apps.Client.Ledger.{
  IsAccounted, IsLeft, IsOpen, IsSettled, IsSampled, kinds_of, Ledger, ledger_of, on_tick-ledger,
  open-IsLeft,
}

settle-ledger :
    (req : OrderRequest) (rtt_us : ℕ) (c : Client)
    → let l = ledger_of (settle req rtt_us c) in
      (l.is_running ≡ c.is_running)
      × (l.order_id ≡ c.order_id)
      × (l.sent ≡ c.stats.req_sent_total)
      × (l.blocked ≡ c.stats.send_blocked_total + c.stats.cwnd_blocked_total)
      × (l.answered ≡ c.stats.ack_recv_total)
      × (u64 l.by_action
          ≡ u64 (c.stats.new_total + c.stats.cancel_total + c.stats.replace_total + 1))
      × (l.samples ≡ length c.stats.rtt_us_samples)
unfolding settle
settle-ledger req rtt_us c = ground arith

settle-IsSampled :
    (req : OrderRequest) (rtt_us : ℕ) (c : Client)
    → IsSampled (kinds_of c.stats)
    → IsSampled (kinds_of (settle req rtt_us c).stats)
unfolding settle
settle-IsSampled req rtt_us c v = ground (
  arith,
  length-append c.stats.rtt_new (rtt_us ∷ []),
  length-append c.stats.rtt_cancel (rtt_us ∷ []),
  length-append c.stats.rtt_replace (rtt_us ∷ []),
)

on_answer-IsSettled :
    (rtt_us now_ms : ℕ) (req : OrderRequest) (header : TcpHeader) (c : Client)
    → IsOpen (ledger_of c)
    → IsSettled (ledger_of (on_answer rtt_us now_ms req header c))
      × ((on_answer rtt_us now_ms req header c).is_running ≡ c.is_running)
unfolding on_answer take_ack
on_answer-IsSettled rtt_us now_ms req header c v =
    let acked : Client = take_ack header c in
    let s : Stats = c.stats in
    let counted : Client = record acked {
      rto_estimator = sample_rtt c.rto_estimator (max 1 (rtt_us / 1000));
      stats = record s {
        rtt_us_samples = s.rtt_us_samples ++ rtt_us ∷ [];
        ack_recv_total = bump s.ack_recv_total;
      };
      tracer = (should_emit c.tracer).1;
      last_activity_ms = now_ms;
    } in
    let (running, order_id, sent, blocked, answered, by_action, samples) =
      settle-ledger req rtt_us counted in
    let more : length (s.rtt_us_samples ++ rtt_us ∷ []) ≡ length s.rtt_us_samples + 1 =
      length-append s.rtt_us_samples (rtt_us ∷ []) in
    (
      record {
        numbered = omega (arith, v.numbered, order_id, sent, blocked);
        idle = omega (arith, v.open_one, sent, answered);
        by_kind = omega (arith, v.by_kind, answered, by_action);
        sampled = omega (arith, v.sampled, answered, samples, more);
        sampled_by_kind = settle-IsSampled req rtt_us counted v.sampled_by_kind;
      },
      running,
    )

-- What an accounted client is, by whether it runs.
pub IsAccounted-running : (l : Ledger) → l.is_running ≡ true → IsSettled l → IsAccounted l
IsAccounted-running l on v = subst (λ (b : Bool). if b then IsSettled l else IsLeft l) (sym on) v

pub IsAccounted-stopped : (l : Ledger) → l.is_running ≡ false → IsLeft l → IsAccounted l
IsAccounted-stopped l off v = subst (λ (b : Bool). if b then IsSettled l else IsLeft l) (sym off) v

pub IsSettled-of : (l : Ledger) → IsAccounted l → l.is_running ≡ true → IsSettled l
IsSettled-of l v on = subst (λ (b : Bool). if b then IsSettled l else IsLeft l) on v

on_parsed-IsAccounted :
    (rtt_us now_ms : ℕ) (req : OrderRequest) (parsed : Option (TcpHeader × List ℕ)) (c : Client)
    → IsOpen (ledger_of c)
    → c.is_running ≡ true
    → IsAccounted (ledger_of (on_parsed rtt_us now_ms req parsed c))
unfolding on_parsed
on_parsed-IsAccounted rtt_us now_ms req none c v on = open-IsLeft (ledger_of c) v
on_parsed-IsAccounted rtt_us now_ms req (some (header, payload)) c v on =
    elim (Bool-cases (is_malformed_header header || not (has_ack header))) [
      | inl bad ↦ rw bad (open-IsLeft (ledger_of c) v)
      | inr good ↦
          let (settled, same) = on_answer-IsSettled rtt_us now_ms req header c v in
          rw good (IsAccounted-running _ (same ∙ on) settled)
    ]

-- The wait leaves the counts alone: it ends with a frame, or stops the client.
abbrev pub Waited : Client → Option (List ℕ) × Client → Type 0
Waited c (none, c') = ledger_of c' ≡ record (ledger_of c) { is_running = false }
Waited c (some frame, c') = ledger_of c' ≡ ledger_of c

same-Waited :
    (c c₁ : Client) (r : Option (List ℕ) × Client)
    → ledger_of c₁ ≡ ledger_of c
    → Waited c₁ r
    → Waited c r
same-Waited c c₁ (none, c') e v = v ∙ ap (λ (l : Ledger). record l { is_running = false }) e
same-Waited c c₁ (some frame, c') e v = v ∙ e

pub await_ack-Waited :
    (write_to : Socket) (reads : List Read) (c : Client) (r : Option (List ℕ) × Client)
    → await_ack write_to reads c ≡ some r
    → Waited c r
unfolding await_ack
await_ack-Waited write_to [] c r h = cc
await_ack-Waited write_to (interrupted ∷ reads) c r h = subst (Waited c) (some-injective _ r h) refl
await_ack-Waited write_to (gateway_closed ∷ reads) c r h =
    subst (Waited c) (some-injective _ r h) refl
await_ack-Waited write_to (received frame ∷ reads) c r h =
    subst (Waited c) (some-injective _ r h) refl
await_ack-Waited write_to (failed errno tick_ms ∷ reads) c r h =
    elim (Bool-cases (is_retryable errno)) [
      | inl again ↦
          same-Waited c (on_tick write_to tick_ms c) r (on_tick-ledger write_to tick_ms c)
            (await_ack-Waited write_to reads (on_tick write_to tick_ms c) r (rw again at h))
      | inr broken ↦ subst (Waited c) (some-injective _ r (rw broken at h)) refl
    ]

pub after_wait-IsAccounted :
    (x : Exchange) (req : OrderRequest) (c : Client) (r : Option (List ℕ) × Client)
    → IsOpen (ledger_of c)
    → c.is_running ≡ true
    → Waited c r
    → IsAccounted (ledger_of (after_wait x req r.0 r.1).1)
unfolding after_wait on_ack_frame
after_wait-IsAccounted x req c (none, c') v on w =
    subst IsAccounted (sym w) (open-IsLeft (ledger_of c) v)
after_wait-IsAccounted x req c (some frame, c') v on w =
    let v' : IsOpen (ledger_of c') = subst IsOpen (sym w) v in
    let done : IsAccounted (ledger_of (on_parsed x.rtt_us x.answered_ms req (parse frame) c')) =
      on_parsed-IsAccounted x.rtt_us x.answered_ms req (parse frame) c' v'
        (ap (λ (l : Ledger). l.is_running) w ∙ on) in
    elim (Bool-cases x.signalled_after) [
      | inl stops ↦ rw stops (open-IsLeft (ledger_of c') v')
      | inr goes ↦ rw goes done
    ]

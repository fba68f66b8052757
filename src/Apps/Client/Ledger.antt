-- ===== src/Apps/Client/Ledger.antt =====
-- What the counters of the order client say of its requests: the views of them, and what the steps up
-- to the sending keep.
pub mod Answered
pub mod Counted
use usn_hft_sim.Base.{
  ℕ, ◌+◌, ◌/◌, max, ◌≡◌, refl, ap, sym, ◌∙◌, ◌⊎◌, inl, inr, arith, Bool, true, false, not, ◌||◌,
  Bool-cases, Option, none, some, List, [], ◌∷◌, ◌++◌, length, length-append, ◌==◌, if◌then◌else◌,
  u64,
}
use mathlib.Core.Path.{subst}
use mathlib.Core.Option.{some-injective}
use usn_hft_sim.Base.Maps
use usn_hft_sim.Core.Tracing.{should_emit}
use usn_hft_sim.Tcp.Rto.{sample_rtt}
use usn_hft_sim.Tcp.Types.{TcpHeader, has_ack}
use usn_hft_sim.Tcp.Wire.{parse, is_malformed_header}
use usn_hft_sim.Tcp.Retransmission.{Entry, collect_due}
use usn_hft_sim.Apps.Messages.{OrderRequest}
use usn_hft_sim.Apps.Client.{
  Stats, bump, Client, Socket, wrote_all, keepalive, may_send, send_request,
}
use usn_hft_sim.Apps.Client.Answers.{
  Read, interrupted, gateway_closed, received, failed, is_retryable, resend, retransmit, on_tick,
  await_ack, take_ack, settle, on_answer, on_parsed, on_ack_frame,
}
use usn_hft_sim.Apps.Client.Loop.{Exchange, after_wait}

-- The counters of the answers by their action, with the numbers of their samples.
pub record Kinds : Type 0 where
  pub new_total : ℕ
  pub cancel_total : ℕ
  pub replace_total : ℕ
  pub new_samples : ℕ
  pub cancel_samples : ℕ
  pub replace_samples : ℕ

abbrev pub kinds_of : Stats → Kinds
kinds_of s = record {
  new_total = s.new_total;
  cancel_total = s.cancel_total;
  replace_total = s.replace_total;
  new_samples = length s.rtt_new;
  cancel_samples = length s.rtt_cancel;
  replace_samples = length s.rtt_replace;
}

-- Each answer counted for an action has a sample for it.
abbrev pub IsSampled : Kinds → Type 0
IsSampled k =
    (k.new_total ≡ u64 k.new_samples)
    × (k.cancel_total ≡ u64 k.cancel_samples)
    × (k.replace_total ≡ u64 k.replace_samples)

-- The part of a client that counts requests, and its view of the order book.
pub record Ledger : Type 0 where
  pub is_running : Bool
  pub order_id : ℕ
  pub sent : ℕ
  pub blocked : ℕ
  pub answered : ℕ
  pub by_action : ℕ
  pub samples : ℕ
  pub kinds : Kinds
  pub book : List (ℕ × OrderRequest)

abbrev pub ledger_of : Client → Ledger
ledger_of c = record {
  is_running = c.is_running;
  order_id = c.order_id;
  sent = c.stats.req_sent_total;
  blocked = c.stats.send_blocked_total + c.stats.cwnd_blocked_total;
  answered = c.stats.ack_recv_total;
  by_action = c.stats.new_total + c.stats.cancel_total + c.stats.replace_total;
  samples = length c.stats.rtt_us_samples;
  kinds = kinds_of c.stats;
  book = c.order_book_shadow;
}

resend-ledger :
    (write_to : Socket) (found : Option (List ℕ)) (c : Client)
    → ledger_of (resend write_to found c) ≡ ledger_of c
unfolding resend
resend-ledger write_to none c = refl
resend-ledger write_to (some frame) c =
    elim (Bool-cases (wrote_all (write_to c.wrote frame) (length frame))) [
      | inl took ↦ rw took refl
      | inr refused ↦ rw refused refl
    ]

retransmit-ledger :
    (write_to : Socket) (due : List Entry) (c : Client)
    → ledger_of (retransmit write_to due c) ≡ ledger_of c
unfolding retransmit
retransmit-ledger write_to [] c = refl
retransmit-ledger write_to (e ∷ due) c =
    let found : Option (List ℕ) = Maps.find c.outstanding_segments e.seq_start in
    retransmit-ledger write_to due (resend write_to found c) ∙ resend-ledger write_to found c

pub on_tick-ledger :
    (write_to : Socket) (tick_ms : ℕ) (c : Client)
    → ledger_of (on_tick write_to tick_ms c) ≡ ledger_of c
unfolding on_tick
on_tick-ledger write_to tick_ms c =
    let due : List Entry = (collect_due c.retrans_q tick_ms c.rto_estimator.rto_ms 5).0 in
    elim (Bool-cases (length due == 0)) [
      | inl idle ↦ rw idle refl
      | inr busy ↦ rw busy (retransmit-ledger write_to due _)
    ]

pub keepalive-ledger :
    (write_to : Socket) (now_ms sent_ms : ℕ) (c : Client)
    → ledger_of (keepalive write_to now_ms sent_ms c) ≡ ledger_of c
unfolding keepalive
keepalive-ledger write_to now_ms sent_ms c = ground arith

-- Where all requests have been answered: each took a number, as did those that were held back, each
-- answer has been counted for one action and sampled, as one of all and as one of its action, in
-- `uint64_t`.
pub record IsSettled (l : Ledger) : Type 0 where
  pub numbered : l.order_id ≡ u64 (1 + l.sent + l.blocked)
  pub idle : l.sent ≡ l.answered
  pub by_kind : l.answered ≡ u64 l.by_action
  pub sampled : l.answered ≡ u64 l.samples
  pub sampled_by_kind : IsSampled l.kinds

-- A request is under way.
pub record IsOpen (l : Ledger) : Type 0 where
  pub numbered : l.order_id ≡ u64 (1 + l.sent + l.blocked)
  pub open_one : l.sent ≡ u64 (l.answered + 1)
  pub by_kind : l.answered ≡ u64 l.by_action
  pub sampled : l.answered ≡ u64 l.samples
  pub sampled_by_kind : IsSampled l.kinds

-- A client that has stopped: a request may be left without an answer, or may have taken its number and
-- not been sent.
pub record IsLeft (l : Ledger) : Type 0 where
  pub numbered :
      (l.order_id ≡ u64 (1 + l.sent + l.blocked)) ⊎ (l.order_id ≡ u64 (2 + l.sent + l.blocked))
  pub one_at_most : (l.sent ≡ l.answered) ⊎ (l.sent ≡ u64 (l.answered + 1))
  pub by_kind : l.answered ≡ u64 l.by_action
  pub sampled : l.answered ≡ u64 l.samples
  pub sampled_by_kind : IsSampled l.kinds

abbrev pub IsAccounted : Ledger → Type 0
IsAccounted l = if l.is_running then IsSettled l else IsLeft l

pub open-IsLeft : (l : Ledger) → IsOpen l → IsLeft (record l { is_running = false })
open-IsLeft l v = record {
  numbered = inl v.numbered;
  one_at_most = inr v.open_one;
  by_kind = v.by_kind;
  sampled = v.sampled;
  sampled_by_kind = v.sampled_by_kind;
}

pub settled-IsLeft : (l : Ledger) → IsSettled l → IsLeft (record l { is_running = false })
settled-IsLeft l v = record {
  numbered = inl v.numbered;
  one_at_most = inl v.idle;
  by_kind = v.by_kind;
  sampled = v.sampled;
  sampled_by_kind = v.sampled_by_kind;
}

abbrev pub numbered : Client → Client
numbered c = record c { order_id = u64 (c.order_id + 1) }

pub held_back-IsSettled :
    (c : Client)
    → IsSettled (ledger_of c)
    → (may_send (numbered c)).0 ≡ false
    → IsSettled (ledger_of (may_send (numbered c)).1)
      × ((may_send (numbered c)).1.is_running ≡ c.is_running)
unfolding may_send
held_back-IsSettled c v h = ground arith

pub may_send_unchanged :
    (c : Client) → (may_send c).0 ≡ true → ledger_of (may_send c).1 ≡ ledger_of c
unfolding may_send
may_send_unchanged c h = ground arith

pub sent-IsOpen :
    (write_to : Socket) (now_ms : ℕ) (req : OrderRequest) (c : Client) (l : Ledger)
    → IsSettled l
    → ledger_of c ≡ record l { order_id = u64 (l.order_id + 1) }
    → (send_request write_to now_ms req c).0 ≡ true
    → IsOpen (ledger_of (send_request write_to now_ms req c).1)
      × ((send_request write_to now_ms req c).1.is_running ≡ c.is_running)
unfolding send_request
sent-IsOpen write_to now_ms req c l v same h = ground arith

pub refused-IsLeft :
    (write_to : Socket) (now_ms : ℕ) (req : OrderRequest) (c : Client) (l : Ledger)
    → IsSettled l
    → ledger_of c ≡ record l { order_id = u64 (l.order_id + 1) }
    → (send_request write_to now_ms req c).0 ≡ false
    → IsLeft (ledger_of (send_request write_to now_ms req c).1)
      × ((send_request write_to now_ms req c).1.is_running ≡ false)
unfolding send_request
refused-IsLeft write_to now_ms req c l v same h = ground arith

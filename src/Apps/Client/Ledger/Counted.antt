-- ===== src/Apps/Client/Ledger/Counted.antt =====
-- What an answered request counts for.
use usn_hft_sim.Base.{
  ℕ, ◌≡◌, refl, ap, ◌∙◌, arith, Bool, true, false, ◌||◌, Option, none, some, Option-cases, inl, inr,
  List, ◌==◌, if◌then◌else◌,
}
use mathlib.Core.Path.{subst}
use usn_hft_sim.Base.Maps
use usn_hft_sim.Base.Maps.{find-erase_at, find-update_at, find-assign_at}
use usn_hft_sim.Tcp.Types.{TcpHeader, has_ack}
use usn_hft_sim.Tcp.Wire.{parse, is_malformed_header}
use usn_hft_sim.Apps.Messages.{OrderRequest, action_new, action_cancel, action_replace}
use usn_hft_sim.Apps.Client.{
  bump, Client, Socket, Options, build_request, plain_request, may_send, send_request,
}
use usn_hft_sim.Apps.Client.Answers.{
  await_ack, take_ack, settle, on_answer, on_parsed, on_ack_frame,
}
use usn_hft_sim.Apps.Client.Loop.{
  Exchange, begin_of, request_of, halt, after_wait, wait_and_take, exchange,
}
use usn_hft_sim.Apps.Client.Ledger.{
  Kinds, Ledger, kinds_of, ledger_of, numbered, may_send_unchanged,
}
use usn_hft_sim.Apps.Client.Ledger.Answered.{await_ack-Waited}

-- The order that a request is about.
abbrev pub order_of : OrderRequest → ℕ
order_of req = if req.action == action_new then req.client_order_id else req.target_order_id

-- What the order book has of that order afterwards.
abbrev pub booked : OrderRequest → Option OrderRequest → Option OrderRequest
booked req found =
    if req.action == action_new
    then some req
    else if req.action == action_cancel
    then none
    else elim found [ none ↦ none | some old ↦ some (record old { price = req.price }) ]

-- The counter of an action after an answer.
abbrev pub counted : (action : ℕ) → OrderRequest → ℕ → ℕ
counted action req n = if req.action == action then bump n else n

abbrev IsKnown : OrderRequest → Type 0
IsKnown req =
    ((req.action == action_new) || (req.action == action_cancel) || (req.action == action_replace))
    ≡ true

request-IsKnown : (o : Options) (x : Exchange) (c : Client) → IsKnown (request_of o x c)
unfolding build_request plain_request
request-IsKnown o x c = elim (Option-cases (begin_of x.pick c.order_book_shadow)) [
  | inl nothing ↦ rw nothing refl
  | inr (target, first) ↦ rw first (ground arith)
]

settle-counted :
    (req : OrderRequest) (rtt_us : ℕ) (c : Client) (key : ℕ)
    → IsKnown req
    → let s = (settle req rtt_us c).stats in
      let book = c.order_book_shadow in
      (s.new_total ≡ counted action_new req c.stats.new_total)
      × (s.cancel_total ≡ counted action_cancel req c.stats.cancel_total)
      × (s.replace_total ≡ counted action_replace req c.stats.replace_total)
      × (Maps.find (settle req rtt_us c).order_book_shadow key
          ≡ (if key == order_of req then booked req (Maps.find book key) else Maps.find book key))
unfolding settle
settle-counted req rtt_us c key known =
    elim (Option-cases (Maps.find c.order_book_shadow req.target_order_id)) [
      | inl gone ↦ ground (
        arith,
        find-assign_at c.order_book_shadow req.client_order_id key req,
        find-erase_at c.order_book_shadow req.target_order_id key,
      )
      | inr (old, there) ↦ ground (
        arith,
        find-assign_at c.order_book_shadow req.client_order_id key req,
        find-erase_at c.order_book_shadow req.target_order_id key,
        find-update_at c.order_book_shadow req.target_order_id key
            (record old { price = req.price }) old there,
      )
    ]

answer-counted :
    (rtt_us now_ms : ℕ) (req : OrderRequest) (header : TcpHeader) (c : Client) (key : ℕ)
    → IsKnown req
    → let s = (on_answer rtt_us now_ms req header c).stats in
      let book = c.order_book_shadow in
      (s.new_total ≡ counted action_new req c.stats.new_total)
      × (s.cancel_total ≡ counted action_cancel req c.stats.cancel_total)
      × (s.replace_total ≡ counted action_replace req c.stats.replace_total)
      × (Maps.find (on_answer rtt_us now_ms req header c).order_book_shadow key
          ≡ (if key == order_of req then booked req (Maps.find book key) else Maps.find book key))
unfolding on_answer take_ack
answer-counted rtt_us now_ms req header c key known = settle-counted req rtt_us _ key known

sent_keeps :
    (write_to : Socket) (now_ms : ℕ) (req : OrderRequest) (c : Client)
    → (kinds_of (send_request write_to now_ms req c).1.stats ≡ kinds_of c.stats)
      × ((send_request write_to now_ms req c).1.order_book_shadow ≡ c.order_book_shadow)
unfolding send_request
sent_keeps write_to now_ms req c = ground arith

-- The gate and the send of an exchange's request.
abbrev pub gate : Client → Bool × Client
gate c = may_send (numbered c)

abbrev pub sent_of : Options → Socket → Exchange → Client → Bool × Client
sent_of o write_to x c = send_request write_to x.sent_ms (request_of o x c) (gate c).1

-- The counters and the order book are the same up to the answer.
unanswered :
    (o : Options) (write_to : Socket) (x : Exchange) (c c₁ : Client) (frame : List ℕ)
    → (gate c).0 ≡ true
    → await_ack write_to x.reads (sent_of o write_to x c).1 ≡ some (some frame, c₁)
    → (kinds_of c₁.stats ≡ kinds_of c.stats) × (c₁.order_book_shadow ≡ c.order_book_shadow)
unanswered o write_to x c c₁ frame may came =
    let waited : ledger_of c₁ ≡ ledger_of (sent_of o write_to x c).1 =
      await_ack-Waited write_to x.reads (sent_of o write_to x c).1 (some frame, c₁) came in
    let gated : ledger_of (gate c).1 ≡ ledger_of (numbered c) =
      may_send_unchanged (numbered c) may in
    let kept = sent_keeps write_to x.sent_ms (request_of o x c) (gate c).1 in
    (
      ap (λ (l : Ledger). l.kinds) waited ∙ kept.0 ∙ ap (λ (l : Ledger). l.kinds) gated,
      ap (λ (l : Ledger). l.book) waited ∙ kept.1 ∙ ap (λ (l : Ledger). l.book) gated,
    )

taken_as_answer :
    (rtt_us now_ms : ℕ) (req : OrderRequest) (frame payload : List ℕ) (header : TcpHeader)
    (c : Client)
    → parse frame ≡ some (header, payload)
    → is_malformed_header header ≡ false
    → has_ack header ≡ true
    → on_ack_frame rtt_us now_ms req frame c ≡ on_answer rtt_us now_ms req header c
unfolding on_ack_frame on_parsed
taken_as_answer rtt_us now_ms req frame payload header c reads well acks =
    rw (reads, well, acks) refl

wait_ends_with :
    (write_to : Socket) (x : Exchange) (req : OrderRequest) (c c₁ : Client) (frame : List ℕ)
    → await_ack write_to x.reads c ≡ some (some frame, c₁)
    → x.signalled_after ≡ false
    → let c' = on_ack_frame x.rtt_us x.answered_ms req frame c₁ in
      wait_and_take write_to x req c ≡ some (c'.is_running, c')
unfolding wait_and_take after_wait
wait_ends_with write_to x req c c₁ frame came quiet =
    let after : Option (Option (List ℕ) × Client) → Option (Bool × Client) =
      λ r. elim r [ none ↦ none | some (found, k) ↦ some (after_wait x req found k) ] in
    let answered : Client = on_ack_frame x.rtt_us x.answered_ms req frame c₁ in
    ap after came
    ∙ ap (λ (b : Bool). some (if b then (false, halt c₁) else (answered.is_running, answered)))
        quiet

exchange_ends :
    (o : Options) (write_to : Socket) (x : Exchange) (c c₁ : Client) (frame : List ℕ)
    → (gate c).0 ≡ true
    → (sent_of o write_to x c).0 ≡ true
    → await_ack write_to x.reads (sent_of o write_to x c).1 ≡ some (some frame, c₁)
    → x.signalled_after ≡ false
    → let c' = on_ack_frame x.rtt_us x.answered_ms (request_of o x c) frame c₁ in
      exchange o write_to x c ≡ some (c'.is_running, c')
unfolding exchange
exchange_ends o write_to x c c₁ frame may took came quiet =
    rw (may, took)
      (wait_ends_with write_to x (request_of o x c) (sent_of o write_to x c).1 c₁ frame came quiet)

-- An exchange whose request is allowed and taken by the socket, and that ends its wait with the frame of
-- an acknowledgement before a signal has come, counts the answer for the action of the request and for no
-- other. In the order book it changes the order that the request is about and no other: a New enters the
-- request, a Cancel removes the order, and a Replace gives it the new price if it is there.
pub exchange_counts :
    (o : Options) (write_to : Socket) (x : Exchange) (c c₁ : Client) (frame payload : List ℕ)
    (header : TcpHeader) (key : ℕ)
    → (gate c).0 ≡ true
    → (sent_of o write_to x c).0 ≡ true
    → await_ack write_to x.reads (sent_of o write_to x c).1 ≡ some (some frame, c₁)
    → parse frame ≡ some (header, payload)
    → is_malformed_header header ≡ false
    → has_ack header ≡ true
    → x.signalled_after ≡ false
    → let req = request_of o x c in
      let book = c.order_book_shadow in
      (goes_on : Bool) × (c' : Client) × (exchange o write_to x c ≡ some (goes_on, c'))
      × (c'.stats.new_total ≡ counted action_new req c.stats.new_total)
      × (c'.stats.cancel_total ≡ counted action_cancel req c.stats.cancel_total)
      × (c'.stats.replace_total ≡ counted action_replace req c.stats.replace_total)
      × (Maps.find c'.order_book_shadow key
          ≡ (if key == order_of req then booked req (Maps.find book key) else Maps.find book key))
exchange_counts o write_to x c c₁ frame payload header key may took came reads well acks quiet =
    let req : OrderRequest = request_of o x c in
    let c' : Client = on_answer x.rtt_us x.answered_ms req header c₁ in
    let (same, shadow) = unanswered o write_to x c c₁ frame may came in
    let (new, cancel, replace, book) =
      answer-counted x.rtt_us x.answered_ms req header c₁ key (request-IsKnown o x c) in
    let taken : on_ack_frame x.rtt_us x.answered_ms req frame c₁ ≡ c' =
      taken_as_answer x.rtt_us x.answered_ms req frame payload header c₁ reads well acks in
    (
      c'.is_running,
      c',
      exchange_ends o write_to x c c₁ frame may took came quiet
          ∙ ap (λ (k : Client). some (k.is_running, k)) taken,
      new ∙ ap (λ (k : Kinds). counted action_new req k.new_total) same,
      cancel ∙ ap (λ (k : Kinds). counted action_cancel req k.cancel_total) same,
      replace ∙ ap (λ (k : Kinds). counted action_replace req k.replace_total) same,
      subst
          (λ (b : List (ℕ × OrderRequest)).
            Maps.find c'.order_book_shadow key
            ≡ (if key == order_of req then booked req (Maps.find b key) else Maps.find b key))
          shadow book,
    )

-- ===== src/Apps/Feed.antt =====
-- The market feed as a whole: the loop of apps/market_udp/feed_publisher.cpp, a network that delivers
-- what is sent in some order, and the handling of packets in apps/market_udp/feed_subscriber.cpp.
mod Tests
use usn_hft_sim.Base.{
  ℕ, zero, suc, ◌+◌, ◌-◌, ◌≤◌, ◌<◌, ◌^◌, max, ◌≡◌, refl, ap, sym, ◌∙◌, arith, Bool, true, false,
  ◌&&◌, inl, inr, Bool-cases, List, [], ◌∷◌, ◌++◌, length, length-append, ltb, if◌then◌else◌, u64,
}
use mathlib.Core.List.{Permᴰ}
use mathlib.Core.List.Permᴰ
use mathlib.Core.Path.{subst}
use usn_hft_sim.Apps.Messages.{MarketDataIncrement}
use usn_hft_sim.Apps.Publisher.{
  Options, payload_bytes, Publisher, at_start, Draw, next_increment, datagram, swap_last, Socket,
  sent_all, flush, publish, run,
}
use usn_hft_sim.Apps.Publisher.Delivery.{made, all_of, TakesAll, round-Does, nothing_is_lost}
use usn_hft_sim.Apps.Subscriber.{Subscriber, Host}
use usn_hft_sim.Apps.Subscriber.Feed.{Arrival, AreDatagrams, process_all, seqs, feed_is_heard}
use usn_hft_sim.Udp.Feedback.{Feedback, fresh}
use usn_hft_sim.Udp.Feedback.Account.{observe_all, beyond, AreBelow, feedback_accounts}

abbrev pub messages : List Arrival → List MarketDataIncrement
messages [] = []
messages (a ∷ arrivals) = a.message ∷ messages arrivals

-- Every number is below the limit.
abbrev Below : ℕ → List MarketDataIncrement → Type 0
Below limit [] = Unit
Below limit (m ∷ ms) = (m.seq < limit) × Below limit ms

made-Below :
    (o : Options) (seq limit : ℕ) (draws : List Draw)
    → seq + length draws ≤ limit
    → limit < 2 ^ 64
    → Below limit (made o seq draws)
unfolding made next_increment
made-Below o seq limit [] h fits = tt
made-Below o seq limit (d ∷ draws) h fits =
    let plain : u64 (seq + 1) ≡ seq + 1 = omega arith in
    let rest : Below limit (made o (u64 (seq + 1)) draws) =
      made-Below o (u64 (seq + 1)) limit draws (omega (arith, plain)) fits in
    elim (Bool-cases d.drops) [
      | inl drops ↦ rw drops rest
      | inr keeps ↦ rw keeps (omega arith, rest)
    ]

perm-Below :
    (limit : ℕ) {xs ys : List MarketDataIncrement} → Permᴰ xs ys → Below limit xs → Below limit ys
perm-Below limit Permᴰ.nil v = tt
perm-Below limit (Permᴰ.cons e p) v =
    (subst (λ (m : MarketDataIncrement). m.seq < limit) e v.0, perm-Below limit p v.1)
perm-Below limit (Permᴰ.swap e f) v = (
  subst (λ (m : MarketDataIncrement). m.seq < limit) f v.1.0,
  (subst (λ (m : MarketDataIncrement). m.seq < limit) e v.0, v.1.1),
)
perm-Below limit (Permᴰ.trans p q) v = perm-Below limit q (perm-Below limit p v)

length-perm : {xs ys : List MarketDataIncrement} → Permᴰ xs ys → length xs ≡ length ys
length-perm Permᴰ.nil = refl
length-perm (Permᴰ.cons e p) = ap suc (length-perm p)
length-perm (Permᴰ.swap e f) = refl
length-perm (Permᴰ.trans p q) = length-perm p ∙ length-perm q

front-Below :
    (limit : ℕ) (xs ys : List MarketDataIncrement) → Below limit (xs ++ ys) → Below limit xs
front-Below limit [] ys v = tt
front-Below limit (x ∷ xs) ys v = (v.0, front-Below limit xs ys v.1)

seqs-Below :
    (limit : ℕ) (arrivals : List Arrival)
    → Below limit (messages arrivals)
    → limit < 2 ^ 64
    → AreBelow (2 ^ 64 - 1) (seqs arrivals)
seqs-Below limit [] v h = tt
seqs-Below limit (a ∷ arrivals) v h = (omega arith, seqs-Below limit arrivals v.1 h)

beyond-le :
    (limit next : ℕ) (arrivals : List Arrival)
    → Below limit (messages arrivals)
    → next ≤ limit
    → beyond next (seqs arrivals) ≤ limit
beyond-le limit next [] v h = h
beyond-le limit next (a ∷ arrivals) v h =
    beyond-le limit (max next (a.message.seq + 1)) arrivals v.1 (omega arith)

length-seqs : (arrivals : List Arrival) → length (seqs arrivals) ≡ length (messages arrivals)
length-seqs [] = refl
length-seqs (a ∷ arrivals) = ap suc (length-seqs arrivals)

flush-dropped_total :
    (o : Options) (sendto : Socket) (q : List MarketDataIncrement) (p : Publisher)
    → (flush o sendto q p).1.dropped_total ≡ p.dropped_total
unfolding flush
flush-dropped_total o sendto [] p = refl
flush-dropped_total o sendto (m ∷ []) p = refl
flush-dropped_total o sendto (m ∷ n ∷ q) p =
    let next : Publisher = record p {
      sent = p.sent ++ m ∷ [];
      sent_total = u64 (p.sent_total + 1);
    } in
    elim (Bool-cases (sent_all (sendto p.sent (datagram o m)) (length (datagram o m)))) [
      | inl took ↦ rw took (flush-dropped_total o sendto (n ∷ q) next)
      | inr refused ↦ rw refused refl
    ]

publish-dropped_total :
    (o : Options) (sendto : Socket) (d : Draw) (p : Publisher)
    → (publish o sendto d p).1.dropped_total
      ≡ (if d.drops then u64 (p.dropped_total + 1) else p.dropped_total)
unfolding publish
publish-dropped_total o sendto d p =
    let queue : List MarketDataIncrement = p.reorder_q ++ next_increment o p.seq d.now_ns ∷ [] in
    elim (Bool-cases d.drops) [
      | inl drops ↦ rw drops refl
      | inr keeps ↦ elim (Bool-cases (d.reorders && ltb 1 (length queue))) [
        | inl swaps ↦ rw (keeps, swaps) (flush-dropped_total o sendto (swap_last queue) _)
        | inr plain ↦ rw (keeps, plain) (flush-dropped_total o sendto queue _)
      ]
    ]

-- The publisher counts what the draws drop.
run-dropped_total :
    (o : Options) (sendto : Socket) (draws : List Draw) (p : Publisher)
    → TakesAll sendto
    → length p.reorder_q ≤ 1
    → p.dropped_total + length draws < 2 ^ 64
    → (run o sendto draws p).1.dropped_total + length (made o p.seq draws)
      ≡ p.dropped_total + length draws
unfolding run made
run-dropped_total o sendto [] p takes short fits = refl
run-dropped_total o sendto (d ∷ draws) p takes short fits =
    let p' : Publisher = (publish o sendto d p).1 in
    let (on, short', moved, _) = round-Does o sendto d p takes short in
    let counted : p'.dropped_total
        ≡ (if d.drops then u64 (p.dropped_total + 1) else p.dropped_total) =
      publish-dropped_total o sendto d p in
    let same : length (made o p'.seq draws) ≡ length (made o (u64 (p.seq + 1)) draws) =
      ap (λ (n : ℕ). length (made o n draws)) moved in
    rw on (ground (arith, run-dropped_total o sendto draws p' takes short'))

-- A publisher makes messages, its socket takes every datagram, and the network delivers each of them
-- once, in any order, to a subscriber that has heard nothing. Then what the subscriber has counted,
-- what waits, at most one message, and what the publisher has dropped make up all messages. Its gaps
-- and its count of late datagrams account exactly for the numbers before the expected one, which is at
-- most the next to be made, so the gaps are no more than the messages dropped, waiting and late.
pub feed_accounts :
    (o : Options) (sendto : Socket) (draws : List Draw) (h : Host) (arrivals : List Arrival)
    (s : Subscriber)
    → TakesAll sendto
    → length draws + 1 < 2 ^ 64
    → payload_bytes o + 8 < 2 ^ 16
    → s.feedback ≡ fresh
    → AreDatagrams h o arrivals
    → Permᴰ (run o sendto draws at_start).1.sent (messages arrivals)
    → let p = (run o sendto draws at_start).1 in
      let f = (process_all h arrivals s).feedback in
      (f.total + length p.reorder_q + p.dropped_total ≡ length draws)
      × (length p.reorder_q ≤ 1)
      × (f.gaps + 1 + f.total ≡ f.expected_seq + f.reorder_events)
      × (f.expected_seq ≤ length draws + 1)
      × (f.gaps ≤ p.dropped_total + length p.reorder_q + f.reorder_events)
feed_accounts o sendto draws h arrivals s takes fits small new points delivers =
    let p : Publisher = (run o sendto draws at_start).1 in
    let n : ℕ = length draws + 1 in
    let news : List MarketDataIncrement = made o 1 draws in
    let (_, short, perm) = nothing_is_lost o sendto draws at_start takes (omega arith) in
    let below : Below n (messages arrivals) = perm-Below n delivers (
      front-Below n p.sent p.reorder_q
        (perm-Below n (Permᴰ.symm perm) (made-Below o 1 n draws (omega arith) fits))) in
    let heard : (process_all h arrivals s).feedback ≡ observe_all fresh (seqs arrivals) =
      (feed_is_heard h o arrivals s small points).0
      ∙ ap (λ (f : Feedback). observe_all f (seqs arrivals)) new in
    let dropped : p.dropped_total + length news ≡ 0 + length draws =
      run-dropped_total o sendto draws at_start takes (omega arith) (omega arith) in
    let size : length p.sent + length p.reorder_q ≡ length news =
      sym (length-append p.sent p.reorder_q) ∙ length-perm perm in
    let count : length (seqs arrivals) ≡ length p.sent =
      length-seqs arrivals ∙ sym (length-perm delivers) in
    let limit : beyond 1 (seqs arrivals) ≤ n = beyond-le n 1 arrivals below (omega arith) in
    let (expected, total, _, _, account) =
      feedback_accounts (seqs arrivals) (seqs-Below n arrivals below fits) (omega arith) in
    rw heard (omega arith, short, account, omega arith, omega arith)

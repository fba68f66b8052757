-- ===== src/Apps/Publisher/Delivery.antt =====
-- What a publisher sends.
use usn_hft_sim.Base.{
  ℕ, ◌+◌, ◌≤◌, ◌≡◌, refl, ap, sym, ◌∙◌, arith, Bool, true, false, inl, inr, Bool-cases, List, [],
  ◌∷◌, ◌++◌, length, if◌then◌else◌, u64,
}
use mathlib.Core.List.{Permᴰ, append_assoc, append-nil}
use mathlib.Core.List.Permᴰ
use mathlib.Core.Path.{subst, ap₂}
use usn_hft_sim.Base.Ints.{pos}
use usn_hft_sim.Apps.Messages.{MarketDataIncrement}
use usn_hft_sim.Apps.Publisher.{
  Options, Publisher, Draw, next_increment, datagram, swap_last, Socket, sent_all, flush, publish,
  run,
}

-- The messages that are made and not dropped, in the order of their numbers.
unfoldable pub made : Options → ℕ → List Draw → List MarketDataIncrement
made o seq [] = []
made o seq (d ∷ draws) =
    let rest = made o (u64 (seq + 1)) draws in
    if d.drops then rest else next_increment o seq d.now_ns ∷ rest

-- What has been sent, with what waits.
abbrev pub all_of : Publisher → List MarketDataIncrement
all_of p = p.sent ++ p.reorder_q

abbrev pub TakesAll : Socket → Type 0
TakesAll sendto = (sent : List MarketDataIncrement) (d : List ℕ) → sendto sent d ≡ pos (length d)

took_all : (n : ℕ) → sent_all (pos n) n ≡ true
took_all n = ground arith

-- A queue of two: the first is sent, the second waits.
flush_two :
    (o : Options) (sendto : Socket) (a b : MarketDataIncrement) (p : Publisher)
    → TakesAll sendto
    → let (goes_on, p') = flush o sendto (a ∷ b ∷ []) p in
      (goes_on ≡ true) × (p'.sent ≡ p.sent ++ a ∷ []) × (p'.reorder_q ≡ b ∷ []) × (p'.seq ≡ p.seq)
unfolding flush
flush_two o sendto a b p takes =
    rw (takes p.sent (datagram o a), took_all (length (datagram o a))) (refl, refl, refl, refl)

-- What a round does to the publisher.
abbrev pub Does : List MarketDataIncrement → (seq : ℕ) → Bool × Publisher → Type 0
Does all seq result =
    (result.0 ≡ true)
    × (length result.1.reorder_q ≤ 1)
    × (result.1.seq ≡ u64 (seq + 1))
    × Permᴰ (all_of result.1) all

flush-Does :
    (o : Options) (sendto : Socket) (a b : MarketDataIncrement) (seq : ℕ) (p : Publisher)
    (all : List MarketDataIncrement)
    → TakesAll sendto
    → p.seq ≡ u64 (seq + 1)
    → Permᴰ (p.sent ++ a ∷ b ∷ []) all
    → Does all seq (flush o sendto (a ∷ b ∷ []) p)
flush-Does o sendto a b seq p all takes moved perm =
    let (on, sent, waits, same) = flush_two o sendto a b p takes in
    let whole : all_of (flush o sendto (a ∷ b ∷ []) p).1 ≡ p.sent ++ a ∷ b ∷ [] =
      ap₂ (λ (s q : List MarketDataIncrement). s ++ q) sent waits
      ∙ append_assoc p.sent (a ∷ []) (b ∷ []) in
    (
      on,
      omega (arith, ap length waits),
      same ∙ moved,
      subst (λ (l : List MarketDataIncrement). Permᴰ l all) (sym whole) perm,
    )

one_waits :
    (o : Options) (sendto : Socket) (m : MarketDataIncrement) (p : Publisher)
    → Does
        (p.sent ++ m ∷ [])
        p.seq
        (flush o sendto (m ∷ []) (record p { seq = u64 (p.seq + 1); reorder_q = [] }))
unfolding flush
one_waits o sendto m p = (refl, omega arith, refl, Permᴰ.refl (p.sent ++ m ∷ []))

publish-Does :
    (o : Options) (sendto : Socket) (d : Draw) (p : Publisher) (q : List MarketDataIncrement)
    → TakesAll sendto
    → p.reorder_q ≡ q
    → length q ≤ 1
    → d.drops ≡ false
    → Does (p.sent ++ (q ++ next_increment o p.seq d.now_ns ∷ [])) p.seq (publish o sendto d p)
unfolding publish swap_last
publish-Does o sendto d p [] takes waits short keeps = elim (Bool-cases d.reorders) [
  | inl swaps ↦ rw (keeps, waits, swaps) (one_waits o sendto _ p)
  | inr plain ↦ rw (keeps, waits, plain) (one_waits o sendto _ p)
]
publish-Does o sendto d p (a ∷ []) takes waits short keeps =
    let m : MarketDataIncrement = next_increment o p.seq d.now_ns in
    elim (Bool-cases d.reorders) [
      | inl swaps ↦
          rw (keeps, waits, swaps)
            (flush-Does o sendto m a p.seq _ _ takes refl
              (Permᴰ.append_left p.sent (Permᴰ.swap refl refl)))
      | inr plain ↦
          rw (keeps, waits, plain)
            (flush-Does o sendto a m p.seq _ _ takes refl (Permᴰ.refl (p.sent ++ a ∷ m ∷ [])))
    ]
publish-Does o sendto d p (a ∷ b ∷ q) takes waits short keeps = absurd (omega arith)

dropped-Does :
    (o : Options) (sendto : Socket) (d : Draw) (p : Publisher)
    → length p.reorder_q ≤ 1
    → d.drops ≡ true
    → Does (p.sent ++ (p.reorder_q ++ [])) p.seq (publish o sendto d p)
unfolding publish
dropped-Does o sendto d p short drops =
    rw (drops, append-nil p.reorder_q) (refl, short, refl, Permᴰ.refl (all_of p))

made_one :
    (o : Options) (seq : ℕ) (d : Draw)
    → made o seq (d ∷ []) ≡ (if d.drops then [] else next_increment o seq d.now_ns ∷ [])
unfolding made
made_one o seq d = refl

pub round-Does :
    (o : Options) (sendto : Socket) (d : Draw) (p : Publisher)
    → TakesAll sendto
    → length p.reorder_q ≤ 1
    → Does (p.sent ++ (p.reorder_q ++ made o p.seq (d ∷ []))) p.seq (publish o sendto d p)
round-Does o sendto d p takes short =
    let Goal = λ (news : List MarketDataIncrement).
      Does (p.sent ++ (p.reorder_q ++ news)) p.seq (publish o sendto d p) in
    let m : MarketDataIncrement = next_increment o p.seq d.now_ns in
    let from = λ (b : Bool). if b then [] else m ∷ [] in
    elim (Bool-cases d.drops) [
      | inl drops ↦
          subst Goal (sym (made_one o p.seq d ∙ ap from drops))
            (dropped-Does o sendto d p short drops)
      | inr keeps ↦
          subst Goal (sym (made_one o p.seq d ∙ ap from keeps))
            (publish-Does o sendto d p p.reorder_q takes refl short keeps)
    ]

made_first :
    (o : Options) (seq : ℕ) (d : Draw) (draws : List Draw)
    → made o seq (d ∷ draws) ≡ made o seq (d ∷ []) ++ made o (u64 (seq + 1)) draws
unfolding made
made_first o seq d draws = elim (Bool-cases d.drops) [
  | inl drops ↦ rw drops refl
  | inr keeps ↦ rw keeps refl
]

-- As long as the socket takes every datagram, a publisher with at most one waiting message goes on,
-- and what it has sent together with what waits, at most one message, is a reordering of what it had
-- sent, what was waiting and the messages made since that the draws did not drop: none is lost or
-- sent twice.
pub nothing_is_lost :
    (o : Options) (sendto : Socket) (draws : List Draw) (p : Publisher)
    → TakesAll sendto
    → length p.reorder_q ≤ 1
    → let (goes_on, p') = run o sendto draws p in
      (goes_on ≡ true)
      × (length p'.reorder_q ≤ 1)
      × Permᴰ (all_of p') (all_of p ++ made o p.seq draws)
unfolding run made
nothing_is_lost o sendto [] p takes short = (
  refl,
  short,
  subst (λ (l : List MarketDataIncrement). Permᴰ (all_of p) l) (sym (append-nil (all_of p)))
      (Permᴰ.refl (all_of p)),
)
nothing_is_lost o sendto (d ∷ draws) p takes short =
    let p' : Publisher = (publish o sendto d p).1 in
    let news : List MarketDataIncrement = made o p.seq (d ∷ []) in
    let later : List MarketDataIncrement = made o p'.seq draws in
    let (on, short', moved, perm) = round-Does o sendto d p takes short in
    let (on', short'', perm') = nothing_is_lost o sendto draws p' takes short' in
    let same : (p.sent ++ (p.reorder_q ++ news)) ++ later ≡ all_of p ++ made o p.seq (d ∷ draws) =
      append_assoc p.sent (p.reorder_q ++ news) later
      ∙ ap (λ (l : List MarketDataIncrement). p.sent ++ l) (append_assoc p.reorder_q news later)
      ∙ sym (append_assoc p.sent p.reorder_q (news ++ later))
      ∙ ap (λ (n : ℕ). all_of p ++ (news ++ made o n draws)) moved
      ∙ ap (λ (l : List MarketDataIncrement). all_of p ++ l) (sym (made_first o p.seq d draws)) in
    rw on (
      on',
      short'',
      Permᴰ.trans perm' (
          subst (λ (l : List MarketDataIncrement). Permᴰ (all_of p' ++ later) l) same
            (Permᴰ.append_right later perm)),
    )

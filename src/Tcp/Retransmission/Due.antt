-- ===== src/Tcp/Retransmission/Due.antt =====
-- `collect_due`: who is sent again, and that it ends.
use native.Mathlib.Nat.{one-le-pow, pow-le-pow_right}
use usn_hft_sim.Base.{
  ℕ, ◌+◌, ◌-◌, ◌*◌, ◌≤◌, ◌<◌, ◌^◌, ◌≡◌, refl, arith, min, map, not, ap, List, [], ◌∷◌, length, leb,
  ltb, ◌&&◌, Bool, u32, if◌then◌else◌,
}
use usn_hft_sim.Tcp.Retransmission.{Entry, back_off, collect_due}

abbrev pub select : (Entry → Bool) → List Entry → List Entry
select test [] = []
select test (e ∷ es) = let rest = select test es in if test e then e ∷ rest else rest

-- An entry whose time has come, with a try left or with none.
abbrev pub is_sent : (now max_retries : ℕ) → Entry → Bool
is_sent now max_retries e = leb e.deadline_ms now && ltb e.retries max_retries

abbrev pub is_spent : (now max_retries : ℕ) → Entry → Bool
is_spent now max_retries e = leb e.deadline_ms now && leb max_retries e.retries

-- An entry after it has been sent again: one try fewer, and a time that doubles with each, eight times
-- at most.
abbrev pub sent_again : (now base : ℕ) → Entry → Entry
sent_again now base e = record {
  seq_start = e.seq_start;
  seq_end = e.seq_end;
  deadline_ms = now + base * 2 ^ min 8 (e.retries + 1);
  retries = e.retries + 1;
}

abbrev pub after_call : (now base max_retries : ℕ) → Entry → Entry
after_call now base max_retries e = if is_sent now max_retries e then sent_again now base e else e

-- The tries left of all entries.
unfoldable pub tries_left : ℕ → List Entry → ℕ
tries_left max_retries [] = 0
tries_left max_retries (e ∷ es) = max_retries - e.retries + tries_left max_retries es

-- Each call pays for what it returns with one try of each.
collect_due-tries_left :
    (es : List Entry) (now base max_retries : ℕ)
    → max_retries < 2 ^ 32
    → let (due, kept) = collect_due es now base max_retries in
      tries_left max_retries kept + length due ≡ tries_left max_retries es
unfolding collect_due tries_left back_off
collect_due-tries_left [] now base max_retries h = refl
collect_due-tries_left (e ∷ es) now base max_retries h =
    ground (arith, collect_due-tries_left es now base max_retries)

-- The entries that calls at these times return, all together.
unfoldable pub total_sent : (base max_retries : ℕ) → List ℕ → List Entry → ℕ
total_sent base max_retries [] es = 0
total_sent base max_retries (now ∷ times) es =
    let (due, kept) = collect_due es now base max_retries in
    length due + total_sent base max_retries times kept

-- However often the queue is polled, and whatever the clock says, it hands out no more segments than
-- its entries have tries left.
pub total_sent-le :
    (base max_retries : ℕ) (times : List ℕ) (es : List Entry)
    → max_retries < 2 ^ 32
    → total_sent base max_retries times es ≤ tries_left max_retries es
unfolding total_sent
total_sent-le base max_retries [] es h = omega arith
total_sent-le base max_retries (now ∷ times) es h = omega (
  arith,
  collect_due-tries_left es now base max_retries h,
  total_sent-le base max_retries times (collect_due es now base max_retries).1 h,
)

shift_bounds : (base k : ℕ) → k ≤ 8 → (base ≤ base * 2 ^ k) × (base * 2 ^ k ≤ base * 256)
shift_bounds base k h =
    let low : 1 ≤ 2 ^ k = one-le-pow k 2 (omega arith) in
    let high : 2 ^ k ≤ 2 ^ 8 = pow-le-pow_right (omega arith) h in (grind arith, grind arith)

back_off-eq-sent_again :
    (now base max_retries : ℕ) (e : Entry)
    → e.retries < max_retries
    → max_retries < 2 ^ 32
    → now + base * 256 < 2 ^ 64
    → back_off now base e ≡ sent_again now base e
unfolding back_off
back_off-eq-sent_again now base max_retries e left small fits =
    ground (arith, shift_bounds base 8, shift_bounds base (e.retries + 1))

back_off-later :
    (now base : ℕ) (e : Entry)
    → 0 < base
    → now + base * 256 < 2 ^ 64
    → now < (back_off now base e).deadline_ms
unfolding back_off
back_off-later now base e pos fits =
    let retries = u32 (e.retries + 1) in
    ground (arith, shift_bounds base 8, shift_bounds base retries)

collect_due-select :
    (es : List Entry) (now base max_retries : ℕ)
    → max_retries < 2 ^ 32
    → now + base * 256 < 2 ^ 64
    → collect_due es now base max_retries ≡ (
      select (is_sent now max_retries) es,
      map
          (after_call now base max_retries)
          (select (λ (e : Entry). not (is_spent now max_retries e)) es),
    )
unfolding collect_due
collect_due-select [] now base max_retries small fits = refl
collect_due-select (e ∷ es) now base max_retries small fits = ground (
  arith,
  collect_due-select es now base max_retries small fits,
  back_off-eq-sent_again now base max_retries e,
)

-- A second call at the same time has nothing to send and changes nothing.
collect_due_twice :
    (es : List Entry) (now base max_retries : ℕ)
    → 0 < base
    → now + base * 256 < 2 ^ 64
    → let (due, kept) = collect_due es now base max_retries in
      collect_due kept now base max_retries ≡ ([], kept)
unfolding collect_due
collect_due_twice [] now base max_retries pos fits = refl
collect_due_twice (e ∷ es) now base max_retries pos fits =
    ground (arith, collect_due_twice es now base max_retries, back_off-later now base e)

-- Where no number wraps and the timeout is not zero, `collect_due` returns the entries whose time has
-- come and that have a try left, as they stood and in order, and keeps all but those whose time has come
-- with no try left: those it returns with one more try counted and their next time set by doubling the
-- timeout once for each try, eight times at most, and the others as they were. Each entry returned costs
-- one of the tries left, and a second call at the same time returns nothing and changes nothing.
pub collect_due_lem :
    (es : List Entry) (now base max_retries : ℕ)
    → max_retries < 2 ^ 32
    → 0 < base
    → now + base * 256 < 2 ^ 64
    → let (due, kept) = collect_due es now base max_retries in
      (due ≡ select (is_sent now max_retries) es)
      × (kept
          ≡ map
              (after_call now base max_retries)
              (select (λ (e : Entry). not (is_spent now max_retries e)) es))
      × (tries_left max_retries kept + length due ≡ tries_left max_retries es)
      × (collect_due kept now base max_retries ≡ ([], kept))
collect_due_lem es now base max_retries small pos fits =
    let whole = collect_due-select es now base max_retries small fits in
    (
      ap (λ (q : List Entry × List Entry). q.0) whole,
      ap (λ (q : List Entry × List Entry). q.1) whole,
      collect_due-tries_left es now base max_retries small,
      collect_due_twice es now base max_retries pos fits,
    )

-- ===== src/Io/Uring/Seen.antt =====
-- Which completions the two loops collect, and how many they mark as seen.
use usn_hft_sim.Base.{
  ℕ, zero, suc, ◌≤◌, ◌≡◌, ◌⊎◌, refl, arith, Bool, true, Option, none, some, List, [], ◌∷◌, ◌++◌,
  length, length-append, replicate,
}
use usn_hft_sim.Base.Ints.{at_least_zero}
use usn_hft_sim.Io.Uring.{
  ok, IoUringWaitOptions, Reply, completion, failed, Attempt, Outcome, after_loop, left_after,
  on_failure, wait_loop, wait_completions_with_options, peek_loop, mark_seen, peek_completions,
}

abbrev pub iterate : {A : Type 0} → (A → A) → ℕ → A → A
iterate f zero a = a
iterate f (suc n) a = iterate f n (f a)

-- The count is the number of completions, at most the maximum; all of them have been marked, or none.
abbrev pub Counted : ℕ → Option Outcome → Type 0
Counted max_completions outcome = elim outcome [
  | none ↦ Unit
  | some o ↦
      (o.result.count ≡ length o.cqes)
      × (o.result.count ≤ max_completions)
      × (o.result.status ≡ ok → o.seen ≡ o.result.count)
      × (o.seen ≡ o.result.count ⊎ o.seen ≡ 0)
]

after_loop-Counted :
    (o : IoUringWaitOptions) (hi : ℕ) (at_end : Bool) (cqes : List ℕ)
    → length cqes ≤ hi
    → Counted hi (after_loop o at_end cqes)
unfolding after_loop
after_loop-Counted o hi at_end cqes h = ground arith

step-Counted :
    (o : IoUringWaitOptions) (lo hi remaining_ms : ℕ) (at_end : Bool) (cqes : List ℕ)
    (reply : Reply) (is_cancelled : Bool) (attempts : List Attempt)
    → length cqes ≤ hi
    → ((left : ℕ) (more : List ℕ)
        → length more ≤ hi
        → Counted hi (wait_loop o lo hi left at_end more attempts))
    → Counted hi (
        wait_loop o lo hi remaining_ms at_end cqes
          (record { reply = reply; is_cancelled = is_cancelled } ∷ attempts))
unfolding wait_loop on_failure
step-Counted o lo hi remaining_ms at_end cqes (completion c) is_cancelled attempts h rest =
    let left = left_after o lo remaining_ms (length cqes) in
    let more = cqes ++ c ∷ [] in
    ground (
      arith,
      length-append cqes (c ∷ []),
      rest left more,
      after_loop-Counted o hi at_end cqes h,
      after_loop-Counted o hi at_end more,
    )
step-Counted o lo hi remaining_ms at_end cqes (failed errno) is_cancelled attempts h rest =
    let left = left_after o lo remaining_ms (length cqes) in
    ground (arith, rest left cqes h, after_loop-Counted o hi at_end cqes h)

loop-Counted :
    (o : IoUringWaitOptions) (lo hi remaining_ms : ℕ) (at_end : Bool) (cqes : List ℕ)
    (attempts : List Attempt)
    → length cqes ≤ hi
    → Counted hi (wait_loop o lo hi remaining_ms at_end cqes attempts)
unfolding wait_loop
loop-Counted o lo hi remaining_ms at_end cqes [] h =
    ground (arith, after_loop-Counted o hi at_end cqes h)
loop-Counted o lo hi remaining_ms at_end cqes (a ∷ attempts) h =
    step-Counted o lo hi remaining_ms at_end cqes a.reply a.is_cancelled attempts h
      (λ left more e. loop-Counted o lo hi left at_end more attempts e)

-- A wait that ends reports as many completions as it leaves, at most the maximum. It marks all of them
-- as seen or none, and all of them if the status is `ok`.
pub wait-Counted :
    (initialized : Bool) (o : IoUringWaitOptions) (lo hi : ℕ) (at_start at_end : Bool)
    (attempts : List Attempt)
    → Counted hi (wait_completions_with_options initialized o lo hi at_start at_end attempts)
unfolding wait_completions_with_options
wait-Counted initialized o lo hi at_start at_end attempts =
    ground (arith, loop-Counted o lo hi (at_least_zero o.timeout_ms) at_end [] attempts)

peek_loop_repeats :
    {Q : Type 0} (peek : Q → Option ℕ) (fuel : ℕ) (q : Q) (c : ℕ)
    → peek q ≡ some c
    → peek_loop peek fuel q ≡ replicate fuel c
unfolding peek_loop
peek_loop_repeats peek zero q c h = refl
peek_loop_repeats peek (suc fuel) q c h = ground (arith, peek_loop_repeats peek fuel q c h)

mark_seen-replicate :
    {Q : Type 0} (seen : Q → Q) (n : ℕ) (q : Q) (c : ℕ)
    → mark_seen seen (replicate n c) q ≡ iterate seen n q
unfolding mark_seen
mark_seen-replicate seen zero q c = refl
mark_seen-replicate seen (suc n) q c = mark_seen-replicate seen n (seen q) c

-- A peek leaves the queue as it is, so `peek_completions` on a queue with a head collects that head
-- once for each completion asked for, and then moves the queue on by as many.
pub peek_repeats :
    {Q : Type 0} (peek : Q → Option ℕ) (seen : Q → Q) (max_completions : ℕ) (q : Q) (c : ℕ)
    → peek q ≡ some c
    → peek_completions peek seen true max_completions q
      ≡ (replicate max_completions c, iterate seen max_completions q)
unfolding peek_completions
peek_repeats peek seen n q c h = rw (peek_loop_repeats peek n q c h, mark_seen-replicate seen n q c)

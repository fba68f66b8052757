-- ===== src/Apps/Subscriber/Flag.antt =====
-- What becomes of a subscriber whose cancel flag is the flag that lets it run.
use usn_hft_sim.Base.{
  ℕ, ◌≡◌, refl, ap, true, false, Option, some, List, [], ◌∷◌, inl, inr, Bool-cases,
}
use usn_hft_sim.Core.Ring.{PacketRing}
use usn_hft_sim.Io.Batch.{cancelled, recv_batch, recvmmsg_with_policy, finish_ring, classify}
use usn_hft_sim.Io.BusyPoll
use usn_hft_sim.Io.BusyPoll.{ends}
use usn_hft_sim.Apps.CommandLine.{SubscriberOptions}
use usn_hft_sim.Apps.Subscriber.{Host, Turn, PollOutcome, batch_options, world_of, poll_callback}
use usn_hft_sim.Apps.Subscriber.Join.{JoinAnswers, create_and_join_multicast}
use usn_hft_sim.Apps.Subscriber.Report.{Report, Indices, percentile_us, report_of, summary_line}
use usn_hft_sim.Apps.Subscriber.Watch.{
  Look, Watch, new_subscriber, new_watch, watch, after_callback, written, subscriber_main,
}

-- The report of a subscriber that has received nothing.
abbrev pub empty_report : ℕ → Report
empty_report subscriber_id = record {
  id = subscriber_id;
  recv_total = 0;
  gaps = 0;
  reorder_events = 0;
  max_reorder_depth = 0;
  latency_p50_us = 0;
  latency_p99_us = 0;
  latency_p999_us = 0;
  latency_max_us = 0;
}

-- The loop as it ends in its first round.
abbrev cancelled_watch : SubscriberOptions → (start_time : ℕ) → Watch
cancelled_watch o start_time =
    let w : Watch = new_watch o start_time in
    record w {
      loop = record (w.loop) {
        result = record { iterations = 0; data_hits = 0; status = BusyPoll.cancelled };
      };
    }

watch_cancelled :
    (o : SubscriberOptions) (address : ℕ → ℕ) (h : Host) (start_time : ℕ) (l : Look)
    (looks : List Look)
    → l.is_running ≡ true
    → watch address h (l ∷ looks) (new_watch o start_time) ≡ some (cancelled_watch o start_time)
unfolding watch ends
watch_cancelled o address h start_time l looks runs = rw runs refl

batch_cancelled :
    (address : ℕ → ℕ) (t : Turn) (ring : PacketRing)
    → t.running_before ≡ true
    → t.running_after ≡ true
    → recv_batch address batch_options 16 (world_of t) ring
      ≡ some (record { count = 0; error = 0; status = cancelled }, ring)
unfolding recv_batch recvmmsg_with_policy finish_ring classify
batch_cancelled address t ring before after = rw (before, after) refl

-- While `g_running` is set the polling loop ends as cancelled before its first callback, whatever the
-- clock says; and the call of `recv_batch` that the callback would make returns as cancelled without
-- asking the socket, with nothing received.
pub running_cancels :
    (o : SubscriberOptions) (address : ℕ → ℕ) (h : Host) (start_time : ℕ) (l : Look)
    (looks : List Look) (t : Turn) (ring : PacketRing)
    → l.is_running ≡ true
    → t.running_before ≡ true
    → t.running_after ≡ true
    → (final : Watch) × (watch address h (l ∷ looks) (new_watch o start_time) ≡ some final)
      × (final.loop.result.status ≡ BusyPoll.cancelled)
      × (final.loop.result.iterations ≡ 0)
      × (final.loop.events ≡ [])
      × (recv_batch address batch_options 16 (world_of t) ring
          ≡ some (record { count = 0; error = 0; status = cancelled }, ring))
running_cancels o address h start_time l looks t ring runs before after = (
  cancelled_watch o start_time,
  watch_cancelled o address h start_time l looks runs,
  refl,
  refl,
  refl,
  batch_cancelled address t ring before after,
)

empty_written :
    (i : Indices) (o : SubscriberOptions) (b : ℕ) (path : List ℕ)
    → o.summary_file ≡ b ∷ path
    → written i o true (new_subscriber o) ≡ some (summary_line (empty_report o.subscriber_id))
unfolding written report_of percentile_us
empty_written i o b path named = rw named refl

-- The loop as the callback has stopped it.
abbrev stopped_watch : SubscriberOptions → (start_time : ℕ) → Look → Watch
stopped_watch o start_time l =
    let called : PollOutcome = record { has_data = false; stops = true; clears_running = false } in
    let w : Watch = after_callback l (called, new_subscriber o) (new_watch o start_time) in
    record w {
      loop = record (w.loop) { result = record (w.loop.result) { status = BusyPoll.stopped } };
    }

watch_stopped :
    (o : SubscriberOptions) (address : ℕ → ℕ) (h : Host) (start_time : ℕ) (l l' : Look)
    (looks : List Look)
    → l.is_running ≡ false
    → l.turn.is_running ≡ false
    → watch address h (l ∷ l' ∷ looks) (new_watch o start_time)
      ≡ some (stopped_watch o start_time l)
unfolding watch ends poll_callback after_callback
watch_stopped o address h start_time l l' looks cleared seen = rw (cleared, seen) refl

-- In either case the loop ends with the subscriber as it began.
ends_unheard :
    (o : SubscriberOptions) (address : ℕ → ℕ) (h : Host) (start_time : ℕ) (l l' : Look)
    (looks : List Look)
    → (l.is_running ≡ false → l.turn.is_running ≡ false)
    → (w : Watch) × (watch address h (l ∷ l' ∷ looks) (new_watch o start_time) ≡ some w)
      × (w.subscriber ≡ new_subscriber o)
unfolding after_callback
ends_unheard o address h start_time l l' looks cleared = elim (Bool-cases l.is_running) [
  | inl runs ↦ (
    cancelled_watch o start_time,
    watch_cancelled o address h start_time l (l' ∷ looks) runs,
    refl,
  )
  | inr ends ↦ (
    stopped_watch o start_time l,
    watch_stopped o address h start_time l l' looks ends (cleared ends),
    refl,
  )
]

-- The subscriber never hears anything. Once it has joined the group, with a summary file to write and a
-- flag `g_running` that is only ever cleared, it ends within two rounds, whatever the system and the
-- clock answer, and reports that nothing was received.
pub nothing_is_received :
    (i : Indices) (o : SubscriberOptions) (a : JoinAnswers) (fd : ℕ) (address : ℕ → ℕ) (h : Host)
    (start_time : ℕ) (l l' : Look) (looks : List Look) (b : ℕ) (path : List ℕ)
    → (create_and_join_multicast a).0 ≡ some fd
    → (l.is_running ≡ false → l.turn.is_running ≡ false)
    → o.summary_file ≡ b ∷ path
    → subscriber_main i o a address h start_time (l ∷ l' ∷ looks) true
      ≡ some (0, some (summary_line (empty_report o.subscriber_id)))
unfolding subscriber_main
nothing_is_received i o a fd address h start_time l l' looks b path joined cleared named =
    let (w, ended, same) = ends_unheard o address h start_time l l' looks cleared in
    rw (joined, ended, same, subscriber_main)
      (ap (λ (file : Option (List ℕ)). some (0, file)) (empty_written i o b path named))

-- ===== src/Tcp/Congestion/Growth.antt =====
-- The congestion window stays in range and grows as it should.
use usn_hft_sim.Base.{
  ℕ, zero, suc, ◌+◌, ◌-◌, ◌≤◌, ◌<◌, ◌^◌, min, ◌≡◌, ◌∙◌, arith, true, false, some, ltb, leb, ◌==◌,
  if◌then◌else◌, u32, ◌↔◌, Bool-cases, leb→le, ltb-eq-false, inl, inr,
}
use usn_hft_sim.Tcp.Congestion.{
  Controller, max_cwnd_bytes, make, can_send, avoid, avoid_congestion, cap, on_ack, on_loss,
}

-- The segment size and the window are at least 1 and at most 2 ^ 20, and the rest fits 32 bits.
pub record IsValid (c : Controller) : Type 0 where
  pub mss_pos : 0 < c.mss_bytes
  pub mss_small : c.mss_bytes ≤ max_cwnd_bytes
  pub cwnd_mss : c.mss_bytes ≤ c.cwnd_bytes
  pub cwnd_small : c.cwnd_bytes ≤ max_cwnd_bytes
  pub ssthresh_fits : c.ssthresh_bytes < 2 ^ 32
  pub accumulator_fits : c.ca_accumulator_bytes < 2 ^ 32

pub make-IsValid : (mss : ℕ) → mss ≤ max_cwnd_bytes → IsValid (make mss)
unfolding make
make-IsValid mss h = ground arith

pub on_loss-IsValid : {c : Controller} → IsValid c → IsValid (on_loss c)
unfolding on_loss
on_loss-IsValid v = ground arith

-- What the loop has done when it stops: the window has grown, no 32-bit addition has wrapped, and less
-- than a window is left in the accumulator.
record Avoided (c d : Controller) : Type 0 where
  same_mss : d.mss_bytes ≡ c.mss_bytes
  same_ssthresh : d.ssthresh_bytes ≡ c.ssthresh_bytes
  grown : c.cwnd_bytes ≤ d.cwnd_bytes
  spent : d.ca_accumulator_bytes < d.cwnd_bytes
  shrunk : d.ca_accumulator_bytes ≤ c.ca_accumulator_bytes

avoid-Avoids :
    (fuel : ℕ) (c : Controller)
    → c.ca_accumulator_bytes < fuel
    → 0 < c.mss_bytes
    → c.mss_bytes ≤ max_cwnd_bytes
    → 0 < c.cwnd_bytes
    → c.ca_accumulator_bytes < 2 ^ 32
    → c.ca_accumulator_bytes + c.cwnd_bytes < 2 ^ 32 + 2 ^ 20
    → (d : Controller) × (avoid fuel c ≡ some d) × Avoided c d
unfolding avoid
avoid-Avoids zero c enough p m q a s = absurd (omega arith)
avoid-Avoids (suc fuel) c enough p m q a s =
    elim (Bool-cases (leb c.cwnd_bytes c.ca_accumulator_bytes)) [
      | inl more ↦
          let c' : Controller = record c {
            ca_accumulator_bytes = c.ca_accumulator_bytes - c.cwnd_bytes;
            cwnd_bytes = u32 (c.cwnd_bytes + c.mss_bytes);
          } in
          let le : c.cwnd_bytes ≤ c.ca_accumulator_bytes = leb→le _ _ more in
          let (d, e, done) =
            avoid-Avoids fuel c' (omega arith) p m (omega arith) (omega arith) (omega arith) in
          (
            d,
            rw more e,
            record {
              same_mss = done.same_mss;
              same_ssthresh = done.same_ssthresh;
              grown = omega (arith, done.grown);
              spent = done.spent;
              shrunk = omega (arith, done.shrunk);
            },
          )
      | inr stop ↦ (c, rw stop, ground arith)
    ]

avoid_congestion-Avoids :
    {c : Controller} (acked : ℕ)
    → IsValid c
    → (d : Controller) × (avoid_congestion c acked ≡ some d)
      × Avoided (record c { ca_accumulator_bytes = u32 (c.ca_accumulator_bytes + u32 acked) }) d
unfolding avoid_congestion
avoid_congestion-Avoids {c} acked v =
    let acc : ℕ = u32 (c.ca_accumulator_bytes + u32 acked) in
    let bound : acc < 2 ^ 32 = omega arith in
    avoid-Avoids (suc acc) (record c { ca_accumulator_bytes = acc }) (omega arith) v.mss_pos
      v.mss_small (omega (arith, v.mss_pos, v.cwnd_mss)) bound (omega (arith, v.cwnd_small))

-- `on_ack` always returns: the loop ends, the result is valid again, and the window does not shrink,
-- for any acknowledgement of less than 2 ^ 31 bytes.
pub on_ack-IsValid :
    {c : Controller} (acked : ℕ)
    → IsValid c
    → acked < 2 ^ 31
    → (d : Controller) × (on_ack c acked ≡ some d) × IsValid d × (c.cwnd_bytes ≤ d.cwnd_bytes)
unfolding on_ack
on_ack-IsValid {c} acked v small =
    let (d, e, done) = avoid_congestion-Avoids acked v in
    elim (Bool-cases (acked == 0)) [
      | inl none_acked ↦ (c, rw none_acked, v, omega arith)
      | inr some_acked ↦ elim (Bool-cases (ltb c.cwnd_bytes c.ssthresh_bytes)) [
        | inl slow ↦ (
          cap (record c { cwnd_bytes = u32 (c.cwnd_bytes + u32 acked) }),
          rw (some_acked, slow),
          ground arith,
          ground arith,
        )
        | inr avoiding ↦ (cap d, rw (some_acked, avoiding, e), ground arith, ground arith)
      ]
    ]

-- In slow start the window grows by the bytes acknowledged, up to 2 ^ 20.
pub on_ack_slow_start :
    {c : Controller} (acked : ℕ)
    → IsValid c
    → acked < 2 ^ 31
    → c.cwnd_bytes < c.ssthresh_bytes
    → on_ack c acked ≡ some (record c { cwnd_bytes = min (c.cwnd_bytes + acked) max_cwnd_bytes })
unfolding on_ack
on_ack_slow_start {c} acked v small slow = ground arith

avoid_once :
    (fuel : ℕ) (c : Controller)
    → 1 < fuel
    → c.cwnd_bytes ≤ c.ca_accumulator_bytes
    → c.ca_accumulator_bytes < c.cwnd_bytes + (c.cwnd_bytes + c.mss_bytes)
    → c.cwnd_bytes + c.mss_bytes < 2 ^ 32
    → avoid fuel c
      ≡ some (record c {
        ca_accumulator_bytes = c.ca_accumulator_bytes - c.cwnd_bytes;
        cwnd_bytes = c.cwnd_bytes + c.mss_bytes;
      })
unfolding avoid
avoid_once zero c f le lt fits = absurd (omega arith)
avoid_once (suc zero) c f le lt fits = absurd (omega arith)
avoid_once (suc (suc fuel)) c f le lt fits = ground arith

avoid_none :
    (fuel : ℕ) (c : Controller)
    → 0 < fuel
    → c.ca_accumulator_bytes < c.cwnd_bytes
    → avoid fuel c ≡ some c
unfolding avoid
avoid_none zero c f lt = absurd (omega arith)
avoid_none (suc fuel) c f lt = ground arith

avoid_congestion_lem :
    {c : Controller} (acked : ℕ)
    → IsValid c
    → c.ca_accumulator_bytes + acked < c.cwnd_bytes + (c.cwnd_bytes + c.mss_bytes)
    → avoid_congestion c acked
      ≡ some (
          if leb c.cwnd_bytes (c.ca_accumulator_bytes + acked)
          then record c {
            cwnd_bytes = c.cwnd_bytes + c.mss_bytes;
            ca_accumulator_bytes = c.ca_accumulator_bytes + acked - c.cwnd_bytes;
          }
          else record c { ca_accumulator_bytes = c.ca_accumulator_bytes + acked })
unfolding avoid_congestion
avoid_congestion_lem {c} acked v lt =
    let acc : ℕ = c.ca_accumulator_bytes + acked in
    let exact : u32 (c.ca_accumulator_bytes + u32 acked) ≡ acc = omega arith in
    let c' : Controller = record c { ca_accumulator_bytes = acc } in
    rw exact (elim (Bool-cases (leb c.cwnd_bytes acc)) [
      | inl full ↦
          let le : c.cwnd_bytes ≤ acc = leb→le _ _ full in
          avoid_once (suc acc) c' (omega arith) le lt (omega arith) ∙ (rw full)
      | inr partial ↦ avoid_none (suc acc) c' (omega arith) (ground arith) ∙ (rw partial)
    ])

-- In congestion avoidance the acknowledged bytes are saved up; each time a window of them is
-- complete, the window grows by one segment, up to 2 ^ 20. (Stated for acknowledgements that complete
-- less than a second window.)
pub on_ack_avoidance :
    {c : Controller} (acked : ℕ)
    → IsValid c
    → 0 < acked
    → c.ca_accumulator_bytes + acked < c.cwnd_bytes + (c.cwnd_bytes + c.mss_bytes)
    → c.ssthresh_bytes ≤ c.cwnd_bytes
    → on_ack c acked
      ≡ some (
          if leb c.cwnd_bytes (c.ca_accumulator_bytes + acked)
          then record c {
            cwnd_bytes = min (c.cwnd_bytes + c.mss_bytes) max_cwnd_bytes;
            ca_accumulator_bytes = c.ca_accumulator_bytes + acked - c.cwnd_bytes;
          }
          else record c { ca_accumulator_bytes = c.ca_accumulator_bytes + acked })
unfolding on_ack
on_ack_avoidance {c} acked v pos lt high =
    let some_acked : (acked == 0) ≡ false = ground arith in
    let avoiding : ltb c.cwnd_bytes c.ssthresh_bytes ≡ false = ltb-eq-false _ _ high in
    rw (some_acked, avoiding, avoid_congestion_lem acked v lt) (ground arith)

-- After a loss the window is one segment and the controller is in slow start, whatever it was before:
-- the next acknowledgement opens the window by what it covers.
pub on_loss-on_ack :
    {c : Controller} (acked : ℕ)
    → IsValid c
    → acked < 2 ^ 31
    → on_ack (on_loss c) acked
      ≡ some (record (on_loss c) { cwnd_bytes = min (c.mss_bytes + acked) max_cwnd_bytes })
unfolding on_loss
on_loss-on_ack {c} acked v small =
    on_ack_slow_start {c = on_loss c} acked (on_loss-IsValid v) small
      (unfold on_loss in ground arith)

-- `can_send` allows exactly what fits both the congestion window and the peer's.
pub can_send_iff :
    (c : Controller) (inflight payload_len peer_window : ℕ)
    → inflight + payload_len < 2 ^ 64
    → (can_send c inflight payload_len peer_window ≡ true)
      ↔ ((inflight + payload_len ≤ c.cwnd_bytes) × (inflight + payload_len ≤ peer_window))
unfolding can_send
can_send_iff c inflight payload_len peer_window h = ground arith

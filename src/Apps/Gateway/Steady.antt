-- ===== src/Apps/Gateway/Steady.antt =====
-- What the gateway keeps, round by round.
use usn_hft_sim.Base.{
  ℕ, zero, suc, ◌+◌, ◌≤◌, ◌<◌, ◌^◌, ◌≡◌, refl, ap, ◌∙◌, inl, inr, arith, Bool, true, false,
  Bool-cases, Option, none, some, List, [], ◌∷◌, length, ◌==◌,
}
use usn_hft_sim.Base.Ints.{ℤ, pos, negsuc, eagain}
use usn_hft_sim.Base.Maps.{erase-Every, emplace-Every}
use usn_hft_sim.Core.Packet.{Packet, blank}
use usn_hft_sim.Core.Ring.{PacketRing, try_push, try_pop, size, empty}
use usn_hft_sim.Core.Ring.Inv.{IsValid, make-IsValid, try_push-IsValid}
use usn_hft_sim.Core.Ring.Positions.{try_push-write_pos, try_pop-write_pos, make_positions}
use usn_hft_sim.Io.Status.{UnifiedIoStatus, UnifiedIoResult, LoopControl, classify_loop_control}
use usn_hft_sim.Tcp.Reassembly.{fresh}
use usn_hft_sim.Tcp.Reassembly.Inv
use usn_hft_sim.Apps.CommandLine.{GatewayOptions}
use usn_hft_sim.Apps.Gateway.{Metrics, bump, Gateway, Host}
use usn_hft_sim.Apps.Gateway.Frames.{close_connection, handle_packet}
use usn_hft_sim.Apps.Gateway.Rounds.{
  drain, on_accept, on_readable, Ready, connection, readable, read_all, serve,
}
use usn_hft_sim.Apps.Gateway.Sound.{HasBuffer, IsSound}
use usn_hft_sim.Apps.Gateway.Inv.{handle_packet-IsSound}
use usn_hft_sim.Apps.Gateway.Drain.{drain_empties}
use usn_hft_sim.Apps.Gateway.Service.{new_gateway, Round, service}

-- Sound, with a valid ring whose write position is at most the limit.
abbrev Holds : ℕ → Gateway → Type 0
Holds limit g = IsSound g × IsValid g.req_ring × (g.req_ring.write_pos ≤ limit)

drain-write_pos :
    (fuel : ℕ) (h : Host) (g : Gateway)
    → IsSound g
    → (drain fuel h g).req_ring.write_pos ≡ g.req_ring.write_pos
unfolding drain
drain-write_pos zero h g s = refl
drain-write_pos (suc fuel) h g s =
    let next : Bool × Packet × PacketRing = try_pop g.req_ring blank in
    let popped : Gateway = record g { req_ring = next.2 } in
    let (s', same) = handle_packet-IsSound h next.1 popped s in
    elim (Bool-cases next.0) [
      | inl found ↦ rw found (
          drain-write_pos fuel h (handle_packet h next.1 popped) s'
          ∙ ap (λ (r : PacketRing). r.write_pos) same
          ∙ try_pop-write_pos g.req_ring blank)
      | inr over ↦ rw over refl
    ]

fresh-IsValid : Inv.IsValid fresh
fresh-IsValid = record { sorted = tt; counted = refl }

on_accept-Holds :
    (limit : ℕ) (accepted : Option (ℕ × ℕ)) (is_added : Bool) (g : Gateway)
    → Holds limit g
    → Holds limit (on_accept accepted is_added g)
unfolding on_accept
on_accept-Holds limit none is_added g v = v
on_accept-Holds limit (some (fd, peer_port)) false g v = v
on_accept-Holds limit (some (fd, peer_port)) true g ((all, orders), valid, low) =
    ((emplace-Every HasBuffer g.conn_ctx fd _ all fresh-IsValid, orders), valid, low)

push-Holds :
    (limit : ℕ) (pkt : Packet) (g : Gateway)
    → Holds limit g
    → limit + 1 < 2 ^ 64
    → Holds (limit + 1) (record g { req_ring = (try_push g.req_ring pkt).1 })
push-Holds limit pkt g (sound, valid, low) fits = (
  sound,
  try_push-IsValid pkt valid (omega arith),
  omega (arith, try_push-write_pos g.req_ring pkt),
)

-- A connection that is lost is counted and closed.
abbrev lose : (fd : ℕ) → Gateway → Gateway
lose fd g =
    let m : Metrics = g.metrics in
    close_connection fd
      (record g { metrics = record m { unexpected_disconnects = bump m.unexpected_disconnects } })

lost-Holds : (limit fd : ℕ) (g : Gateway) → Holds limit g → Holds (limit + 1) (lose fd g)
lost-Holds limit fd g ((all, orders), valid, low) =
    ((erase-Every HasBuffer g.conn_ctx fd all, orders), valid, omega arith)

on_readable-Holds :
    (limit fd : ℕ) (nread : ℤ) (errno buffer : ℕ) (g : Gateway)
    → Holds limit g
    → limit + 1 < 2 ^ 64
    → Holds (limit + 1) (on_readable fd nread errno buffer g)
unfolding on_readable
on_readable-Holds limit fd (pos zero) errno buffer g v fits = lost-Holds limit fd g v
on_readable-Holds limit fd (pos (suc n)) errno buffer g v fits = push-Holds limit _ g v fits
on_readable-Holds limit fd (negsuc n) errno buffer g v fits = elim (Bool-cases (errno == eagain)) [
  | inl again ↦ rw again (v.0, v.1, omega arith)
  | inr broken ↦ rw broken (lost-Holds limit fd g v)
]

read_all-Holds :
    (limit : ℕ) (events : List Ready) (g : Gateway)
    → Holds limit g
    → limit + length events < 2 ^ 64
    → Holds (limit + length events) (read_all events g)
unfolding read_all
read_all-Holds limit [] g v fits = (v.0, v.1, omega arith)
read_all-Holds limit (connection accepted is_added ∷ events) g v fits =
    let (sound, valid, low) =
      read_all-Holds limit events (on_accept accepted is_added g)
        (on_accept-Holds limit accepted is_added g v) (omega arith) in
    (sound, valid, omega arith)
read_all-Holds limit (readable fd nread errno buffer ∷ events) g v fits =
    let (sound, valid, low) =
      read_all-Holds (limit + 1) events (on_readable fd nread errno buffer g)
        (on_readable-Holds limit fd nread errno buffer g v (omega arith)) (omega arith) in
    (sound, valid, omega arith)

-- Between two rounds the ring is empty as well.
abbrev pub IsSteady : ℕ → Gateway → Type 0
IsSteady limit g =
    IsSound g × IsValid g.req_ring × (g.req_ring.write_pos ≤ limit) × (empty g.req_ring ≡ true)

drain-IsSteady :
    (limit : ℕ) (h : Host) (g : Gateway)
    → Holds limit g
    → IsSteady limit (drain (size g.req_ring) h g)
drain-IsSteady limit h g (sound, valid, low) =
    let (sound', valid', over) = drain_empties h g sound valid in
    (sound', valid', omega (arith, drain-write_pos (size g.req_ring) h g sound), over)

later-IsSteady : (limit more : ℕ) (g : Gateway) → IsSteady limit g → IsSteady (limit + more) g
later-IsSteady limit more g (sound, valid, low, over) = (sound, valid, omega arith, over)

by_control :
    (P : Gateway → Type 0) (control : LoopControl) (g worked : Gateway)
    → P g
    → P worked
    → let r : Bool × Gateway = elim control [
      | LoopControl.continue_work ↦ (true, worked)
      | _ ↦ (true, g)
    ] in
      P r.1
by_control P LoopControl.continue_work g worked kept done = done
by_control P LoopControl.continue_idle g worked kept done = kept
by_control P LoopControl.stop g worked kept done = kept

by_status :
    (P : Gateway → Type 0) (status : UnifiedIoStatus) (control : LoopControl) (g worked : Gateway)
    → P g
    → P worked
    → let r : Bool × Gateway = elim status [
      | UnifiedIoStatus.sys_error ↦ (false, g)
      | UnifiedIoStatus.cancelled ↦ (false, g)
      | _ ↦ elim control [ LoopControl.continue_work ↦ (true, worked) | _ ↦ (true, g) ]
    ] in
      P r.1
by_status P UnifiedIoStatus.sys_error control g worked kept done = kept
by_status P UnifiedIoStatus.cancelled control g worked kept done = kept
by_status P UnifiedIoStatus.ok control g worked kept done = by_control P control g worked kept done
by_status P UnifiedIoStatus.timeout control g worked kept done =
    by_control P control g worked kept done
by_status P UnifiedIoStatus.would_block control g worked kept done =
    by_control P control g worked kept done
by_status P UnifiedIoStatus.not_initialized control g worked kept done =
    by_control P control g worked kept done
by_status P UnifiedIoStatus.stopped control g worked kept done =
    by_control P control g worked kept done

serve-IsSteady :
    (limit : ℕ) (h : Host) (result : UnifiedIoResult) (events : List Ready) (g : Gateway)
    → IsSteady limit g
    → limit + length events < 2 ^ 64
    → IsSteady (limit + length events) (serve h result events g).1
unfolding serve
serve-IsSteady limit h result events g v fits =
    let filled : Gateway = read_all events g in
    let kept : IsSteady (limit + length events) g = later-IsSteady limit (length events) g v in
    let worked : IsSteady (limit + length events) (drain (size filled.req_ring) h filled) =
      drain-IsSteady (limit + length events) h filled
        (read_all-Holds limit events g (v.0, v.1, v.2) fits) in
    by_status (IsSteady (limit + length events)) result.status (classify_loop_control result) g
      (drain (size filled.req_ring) h filled) kept worked

abbrev pub count_events : List Round → ℕ
count_events [] = 0
count_events (r ∷ rounds) = length r.ready + count_events rounds

service-IsSteady :
    (limit : ℕ) (rounds : List Round) (g : Gateway)
    → IsSteady limit g
    → limit + count_events rounds < 2 ^ 64
    → IsSteady (limit + count_events rounds) (service rounds g).1
unfolding service
service-IsSteady limit [] g v fits = later-IsSteady limit 0 g v
service-IsSteady limit (r ∷ rounds) g v fits =
    let more : ℕ = length r.ready in
    let next : Bool × Gateway = serve r.host r.result r.ready g in
    let v' : IsSteady (limit + more) next.1 =
      serve-IsSteady limit r.host r.result r.ready g v (omega arith) in
    let (sound, valid, low, over) =
      service-IsSteady (limit + more) rounds next.1 v' (omega arith) in
    elim (Bool-cases next.0) [
      | inl on ↦ rw on (sound, valid, omega arith, over)
      | inr off ↦ rw off (v'.0, v'.1, omega arith, v'.3)
    ]

-- From its start on, in any rounds with fewer than 2 ^ 64 events together, whatever comes and whatever
-- the system answers: after each round every reassembly buffer is well formed, no order is live twice,
-- and the ring is valid and empty, so that nothing that was read is left for a later round.
pub service_is_steady :
    (o : GatewayOptions) (rounds : List Round)
    → count_events rounds < 2 ^ 64
    → let g = (service rounds (new_gateway o)).1 in
      IsSound g × IsValid g.req_ring × (empty g.req_ring ≡ true)
unfolding new_gateway
service_is_steady o rounds fits =
    let (start, nothing) = make_positions 64 in
    let (sound, valid, _, over) =
      service-IsSteady 0 rounds (new_gateway o)
        ((tt, tt), make-IsValid 64 (omega arith), omega (arith, start), nothing) (omega arith) in
    (sound, valid, over)

-- ===== src/Apps/Drivers/Children.antt =====
-- The drivers leave no child behind.
use usn_hft_sim.Base.{
  ℕ, zero, suc, ◌+◌, ◌≡◌, refl, inl, inr, arith, true, Bool-cases, Option, none, some, Option-cases,
  List, [], ◌∷◌, ◌++◌, ◌==◌,
}
use usn_hft_sim.Base.Maps.{mem, remove}
use usn_hft_sim.Apps.CommandLine.{Bytes, Doubles}
use usn_hft_sim.Apps.Drivers.{spawn_process, stop_process, asks_help, alive}
use usn_hft_sim.Apps.Drivers.Order.{with_gateway, simulate_order, order_main}
use usn_hft_sim.Apps.Drivers.Market.{
  MarketSim, stop_all, with_subscribers, start_subscribers, market_options, market_main,
}

-- Every process of the first list is in the second.
abbrev AreAmong : List ℕ → List ℕ → Type 0
AreAmong [] pids = Unit
AreAmong (x ∷ now) pids = (mem x pids ≡ true) × AreAmong now pids

remove-AreAmong :
    (p : ℕ) (now pids : List ℕ) → AreAmong now (p ∷ pids) → AreAmong (remove p now) pids
remove-AreAmong p [] pids v = tt
remove-AreAmong p (x ∷ now) pids v = elim (Bool-cases (x == p)) [
  | inl hit ↦ rw hit (remove-AreAmong p now pids v.1)
  | inr miss ↦ rw miss (ground arith, remove-AreAmong p now pids v.1)
]

stop_all-alive : (pids now : List ℕ) → AreAmong now pids → alive (stop_all pids) now ≡ []
unfolding stop_all stop_process alive
stop_all-alive [] [] v = refl
stop_all-alive [] (x ∷ now) v = cc
stop_all-alive (p ∷ pids) now v = stop_all-alive pids (remove p now) (remove-AreAmong p now pids v)

mem-last : (p : ℕ) (pids : List ℕ) → mem p (pids ++ p ∷ []) ≡ true
mem-last p [] = ground arith
mem-last p (q ∷ pids) = ground (arith, mem-last p pids)

mem-front : (x p : ℕ) (pids : List ℕ) → mem x pids ≡ true → mem x (pids ++ p ∷ []) ≡ true
mem-front x p [] h = cc
mem-front x p (q ∷ pids) h = ground (arith, mem-front x p pids)

more-AreAmong : (p : ℕ) (now pids : List ℕ) → AreAmong now pids → AreAmong now (pids ++ p ∷ [])
more-AreAmong p [] pids v = tt
more-AreAmong p (x ∷ now) pids v = (mem-front x p pids v.0, more-AreAmong p now pids v.1)

wider-AreAmong : (p : ℕ) (now pids : List ℕ) → AreAmong now pids → AreAmong now (p ∷ pids)
wider-AreAmong p [] pids v = tt
wider-AreAmong p (x ∷ now) pids v = (ground (arith, v.0), wider-AreAmong p now pids v.1)

-- Whatever the command line and the answers of `fork`: the driver of the orders has waited for every
-- child that it has started.
pub order_children_end :
    (argv : List Bytes) (gateway client : Option ℕ)
    → alive (order_main argv gateway client).1 [] ≡ []
unfolding order_main simulate_order with_gateway spawn_process stop_process alive
order_children_end argv none client = ground arith
order_children_end argv (some gateway) none = ground arith
order_children_end argv (some gateway) (some client) = ground arith

module _ (d : Doubles) where
  with_subscribers-alive :
      (o : MarketSim d) (pids now : List ℕ) (publisher : Option ℕ)
      → AreAmong now pids
      → alive (with_subscribers d o pids publisher).1 now ≡ []
  unfolding with_subscribers spawn_process stop_process alive
  with_subscribers-alive o pids now none v = stop_all-alive pids now v
  with_subscribers-alive o pids now (some publisher) v =
      stop_all-alive pids (remove publisher (publisher ∷ now)) (
        remove-AreAmong publisher (publisher ∷ now) pids
          (ground arith, wider-AreAmong publisher now pids v))

  start_subscribers-alive :
      (o : MarketSim d) (own_pid left i : ℕ) (forks : ℕ → Option ℕ) (pids now : List ℕ)
      (publisher : Option ℕ)
      → AreAmong now pids
      → alive (start_subscribers d o own_pid left i forks pids publisher).1 now ≡ []
  unfolding start_subscribers spawn_process alive
  start_subscribers-alive o own_pid zero i forks pids now publisher v =
      with_subscribers-alive o pids now publisher v
  start_subscribers-alive o own_pid (suc left) i forks pids now publisher v =
      elim (Option-cases (forks i)) [
        | inl failed ↦ rw (failed, start_subscribers) (stop_all-alive pids now v)
        | inr (pid, forked) ↦
            rw (forked, start_subscribers)
              (start_subscribers-alive o own_pid left (i + 1) forks (pids ++ pid ∷ []) (pid ∷ now)
                publisher (mem-last pid pids, more-AreAmong pid now pids v))
      ]

-- Whatever the command line and the answers of `fork`: the driver of the market has waited for every
-- child that it has started, also where it fails in the middle of starting them.
pub market_children_end :
    (d : Doubles) (argv : List Bytes) (own_pid : ℕ) (forks : ℕ → Option ℕ) (publisher : Option ℕ)
    → alive (market_main d argv own_pid forks publisher).1 [] ≡ []
unfolding market_main alive
market_children_end d argv own_pid forks publisher = elim (Bool-cases (asks_help argv)) [
  | inl help ↦ rw help refl
  | inr runs ↦ elim (Option-cases (market_options d argv)) [
    | inl unknown ↦ rw (runs, unknown, market_main) refl
    | inr (o, known) ↦
        rw (runs, known, market_main)
          (start_subscribers-alive d o own_pid o.subscribers 0 forks [] [] publisher tt)
  ]
]

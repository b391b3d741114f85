-- ===== src/Vnet/DelayFilter/Tests.antt =====
-- A filter that delays two chunks, and the theorems of Order there.
use transport.Prelude.{◌≡◌, refl, List, [], ◌∷◌, ◌++◌}
use transport.Vnet.Addr.{Ip, Addr}
use transport.Vnet.Chunk.{Chunk, new_chunk_udp}
use transport.Vnet.DelayFilter.{
  DelayFilter, new_delay_filter, set_delay, on_inbound_chunk, update_timer, schedule, process_ready,
  pushed, tick, take_case, run_case,
}
use transport.Vnet.DelayFilter.Order.{
  Event, changes, arrives, runs, run, WillWake, AllDue, HeadWaits, run-order_delayed,
  new_delay_filter-WillWake,
}

program : Unit {0}
unfolding new_delay_filter set_delay on_inbound_chunk update_timer schedule process_ready take_case
    run_case run
program = tt

abbrev host : Addr
host = record { ip = Ip.v4 0x0a000001; port = 80 }

abbrev first : Chunk
first = new_chunk_udp host host (1 ∷ [])

abbrev second : Chunk
second = new_chunk_udp host host (2 ∷ [])

abbrev filter : DelayFilter
filter = new_delay_filter 0 10

-- The delay falls between the two, so that both are due at the time 15, in their order.
abbrev events : List Event
events =
    arrives 5 first ∷ runs pushed ∷ changes 1 ∷ arrives 6 second ∷ runs pushed ∷ runs (tick 15) ∷ []

in_order :
    (run filter events).2
    ≡ record { chunk = first; deadline = 15 } ∷ record { chunk = second; deadline = 7 } ∷ []
unfolding program
in_order = refl

run-order_delayed_example :
    filter.queue ++ (run filter events).1 ≡ (run filter events).2 ++ (run filter events).0.queue
run-order_delayed_example = run-order_delayed events filter

new_delay_filter-WillWake_example :
    WillWake (run filter events).0
    × AllDue 15 (run_case (run filter events).0 (tick 15)).1
    × HeadWaits 15 (run_case (run filter events).0 (tick 15)).0.queue
new_delay_filter-WillWake_example =
    new_delay_filter-WillWake 0 10 15 events (unfold program in refl)

-- ===== src/Connect/Client/WritePump/Tests.antt =====
-- Three payloads are sent to user 7; the first is written, and the second fails.
use likegochat.Prelude.{◌≡◌, ◌≤◌, true, List, [], ◌∷◌, ◌++◌, length}
use likegochat.Connect.Samples.{two_clients}
use likegochat.Connect.Client.WritePump.{
  Event, wakes, offered, message, flushed, not_flushed, write_pump, start_pump,
}
use likegochat.Connect.Client.WritePump.Order.{accepted, write_pump_lem}

abbrev events : List Event
events =
    offered (1 ∷ [])
    ∷ offered (2 ∷ [])
    ∷ wakes (message flushed)
    ∷ offered (3 ∷ [])
    ∷ wakes (message not_flushed)
    ∷ []

write_pump_lem_example :
    ((write_pump 1 events (start_pump two_clients)).written
        ++ ((write_pump 1 events (start_pump two_clients)).broken
            ++ (write_pump 1 events (start_pump two_clients)).node.chans (two_clients.heap 1).send)
      ≡ two_clients.chans (two_clients.heap 1).send ++ accepted 1 events (start_pump two_clients))
    × (length (write_pump 1 events (start_pump two_clients)).broken ≤ 1)
    × ((write_pump 1 events (start_pump two_clients)).running ≡ true
        → (write_pump 1 events (start_pump two_clients)).broken ≡ [])
write_pump_lem_example = write_pump_lem 1 events two_clients

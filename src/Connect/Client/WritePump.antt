-- ===== src/Connect/Client/WritePump.antt =====
-- `writePump` of internal/connect/ws_handler.go: the way of the payloads from the channel of a client to
-- its socket. Nobody closes the channel, so that the branch for a closed one is never taken.
pub mod Order
mod Tests
use likegochat.Prelude.{ℕ, Bool, true, false, List, [], ◌∷◌, ◌++◌, update, if◌then◌else◌}
use likegochat.Connect.Chan.{Payload, offer}
use likegochat.Connect.Client.{Node, write_client, close_conn}

-- What becomes of a payload: `NextWriter` fails, `Close` of the writer fails, or it is on the wire.
pub data Fate : Type 0 where
  no_writer not_flushed flushed : Fate

-- The case that the `select` of a round takes; the flag of a ping says whether it could be written.
pub data Wake : Type 0 where
  done : Wake
  message : Fate → Wake
  tick : Bool → Wake

-- `written` are the payloads on the wire, oldest first, and `broken` those that were taken from the
-- channel and failed.
pub record Pump : Type 0 where
  pub node : Node
  pub written : List Payload
  pub broken : List Payload
  pub running : Bool

-- `writePump` begins.
abbrev pub start_pump : Node → Pump
start_pump n = record { node = n; written = []; broken = []; running = true }

-- The deferred function: the socket is closed, and nothing else.
unfoldable pub stop_pump : ℕ → Pump → Pump
stop_pump p s = record s {
  node = write_client p (record (s.node.heap p) { conn_open = false }) s.node;
  running = false;
}

unfoldable pub write_message : ℕ → Fate → Payload → Pump → Pump
unfolding stop_pump
write_message p no_writer m s = stop_pump p (record s { broken = s.broken ++ m ∷ [] })
write_message p not_flushed m s = stop_pump p (record s { broken = s.broken ++ m ∷ [] })
write_message p flushed m s = record s { written = s.written ++ m ∷ [] }

-- One round of the loop. A case that is not ready is not taken: the loop waits.
unfoldable pub write_round : ℕ → Wake → Pump → Pump
unfolding write_message stop_pump
write_round p done s = if (s.node.heap p).once then stop_pump p s else s
write_round p (message fate) s =
    let send = (s.node.heap p).send in
    elim (s.node.chans send) [
      | [] ↦ s
      | m ∷ rest ↦
          write_message p fate m
            (record s { node = record s.node { chans = update s.node.chans send rest } })
    ]
write_round p (tick pinged) s = if pinged then s else stop_pump p s

-- What happens at a client: its pump makes a round, somebody makes a non-blocking send on its channel,
-- or its connection is closed.
pub data Event : Type 0 where
  wakes : Wake → Event
  offered : Payload → Event
  closes : Event

pub happens : ℕ → Event → Pump → Pump
unfolding write_round
happens p (wakes w) s = if s.running then write_round p w s else s
happens p (offered m) s = record s {
  node = record s.node { chans = (offer (s.node.heap p).send m s.node.chans).0 };
}
happens p closes s = record s { node = close_conn p s.node }

pub write_pump : ℕ → List Event → Pump → Pump
write_pump p [] s = s
write_pump p (e ∷ es) s = write_pump p es (happens p e s)

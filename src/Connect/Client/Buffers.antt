-- ===== src/Connect/Client/Buffers.antt =====
-- The send buffers of the clients against their capacity.
use likegochat.Prelude.{ℕ, Bool, List, arith}
use likegochat.Connect.Chan.{IsBounded, Payload, offer-IsBounded}
use likegochat.Connect.Client.{
  Node, new_node, connect, run_command, leave_all_rooms, cleanup, try_send, RoomCmd,
}

pub new_node-IsBounded : (k : ℕ) → IsBounded (new_node k).chans
unfolding new_node
new_node-IsBounded k c = omega arith

pub connect-IsBounded : (u : ℕ) (n : Node) → IsBounded n.chans → IsBounded (connect u n).chans
unfolding connect
connect-IsBounded u n b c = ground (arith, b c)

pub cleanup-IsBounded : (p : ℕ) (n : Node) → IsBounded n.chans → IsBounded (cleanup p n).0.chans
unfolding cleanup
cleanup-IsBounded p n b c = ground (arith, b c)

pub try_send-IsBounded :
    (prefers_done : Bool) (p : ℕ) (payload : Payload) (n : Node)
    → IsBounded n.chans
    → IsBounded (try_send prefers_done p payload n).0.chans
unfolding try_send
try_send-IsBounded prefers_done p payload n b c =
    ground (arith, b c, offer-IsBounded (n.heap p).send payload n.chans b c)

module _ (hash32 : List ℕ → ℕ) where
  pub run_command-IsBounded :
      (p : ℕ) (cmd : RoomCmd) (n : Node)
      → IsBounded n.chans
      → IsBounded (run_command hash32 p cmd n).chans
  unfolding run_command
  run_command-IsBounded p cmd n b c = ground (arith, b c)

  pub leave_all_rooms-IsBounded :
      (p : ℕ) (n : Node) → IsBounded n.chans → IsBounded (leave_all_rooms hash32 p n).chans
  unfolding leave_all_rooms
  leave_all_rooms-IsBounded p n b = b

-- ===== src/Connect/Reachable.antt =====
-- The events of a connect node, from its start.
use likegochat.Connect.GrpcServer.Rooms.{
  broadcast-SameTable, broadcast-Tracked, grpc_broadcast_room-IsBounded,
}
use likegochat.Connect.Client.ReadPump.{cleanup-Tracked}
use likegochat.Connect.Client.Buffers.{
  connect-IsBounded, new_node-IsBounded, run_command-IsBounded, leave_all_rooms-IsBounded,
  cleanup-IsBounded, try_send-IsBounded,
}
use likegochat.Connect.Client.Membership.{
  Tracked, connect-Tracked, new_node-Tracked, run_command-Tracked, leave_all_rooms-Tracked,
  try_send-Tracked,
}
use likegochat.Prelude.{ℕ, ◌<◌, ◌^◌, Bool, List}
use likegochat.Connect.Chan.{Payload, IsBounded}
use likegochat.Connect.Client.{
  Node, RoomCmd, new_node, connect, run_command, leave_all_rooms, cleanup, try_send,
}
use likegochat.Connect.Client.Registered.{
  Inv, new_node-Inv, connect-Inv, SameTable-Inv, run_command-SameTable, leave_all_rooms-SameTable,
  cleanup-Inv, try_send-SameTable,
}
use likegochat.Connect.GrpcServer.{BroadcastRoomRequest, grpc_broadcast_room}

module _ (hash32 : List ℕ → ℕ) where
  -- One call at a time, each from its start to its end; `p` is a client that `ServeWS` has made. The
  -- sections of the calls that change rooms interleave in RoomManager.Interleaving.
  pub data NodeStep (n : Node) : Node → Type 0 where
    connected : (user_id : ℕ) → NodeStep n (connect user_id n)
    commanded :
        (p : ℕ) (cmd : RoomCmd) → 0 < p → p < n.next → NodeStep n (run_command hash32 p cmd n)
    left : (p : ℕ) → 0 < p → NodeStep n (leave_all_rooms hash32 p n)
    cleaned : (p : ℕ) → NodeStep n (cleanup p n).0
    pushed :
        (prefers_done : Bool) (p : ℕ) (payload : Payload)
        → NodeStep n (try_send prefers_done p payload n).0
    broadcasted : (req : BroadcastRoomRequest) → NodeStep n (grpc_broadcast_room hash32 req n).0

  pub data Reachable : Node → Type 0 where
    started : (k : ℕ) → k < 2 ^ 32 → Reachable (new_node k)
    stepped : {n m : Node} → Reachable n → NodeStep n m → Reachable m

  pub record Invs (n : Node) : Type 0 where
    pub table : Inv n
    pub rooms : Tracked hash32 n
    pub bounded : IsBounded n.chans

  NodeStep-Invs : {n m : Node} → NodeStep n m → Invs n → Invs m
  NodeStep-Invs {n} (connected u) v = record {
    table = connect-Inv u v.table;
    rooms = connect-Tracked hash32 u v.rooms;
    bounded = connect-IsBounded u n v.bounded;
  }
  NodeStep-Invs {n} (commanded p cmd lo hi) v = record {
    table = SameTable-Inv (run_command-SameTable hash32 p cmd n) v.table;
    rooms = run_command-Tracked hash32 p cmd v.rooms lo hi;
    bounded = run_command-IsBounded hash32 p cmd n v.bounded;
  }
  NodeStep-Invs {n} (left p lo) v = record {
    table = SameTable-Inv (leave_all_rooms-SameTable hash32 p n) v.table;
    rooms = leave_all_rooms-Tracked hash32 p v.rooms lo;
    bounded = leave_all_rooms-IsBounded hash32 p n v.bounded;
  }
  NodeStep-Invs {n} (cleaned p) v = record {
    table = cleanup-Inv p v.table;
    rooms = cleanup-Tracked hash32 p n v.rooms;
    bounded = cleanup-IsBounded p n v.bounded;
  }
  NodeStep-Invs {n} (pushed b p payload) v = record {
    table = SameTable-Inv (try_send-SameTable b p payload n) v.table;
    rooms = try_send-Tracked hash32 b p payload v.rooms;
    bounded = try_send-IsBounded b p payload n v.bounded;
  }
  NodeStep-Invs {n} (broadcasted req) v = record {
    table = SameTable-Inv (broadcast-SameTable hash32 req n) v.table;
    rooms = broadcast-Tracked hash32 req v.rooms;
    bounded = grpc_broadcast_room-IsBounded hash32 req n v.bounded;
  }

  -- Between whole calls, in every state that a sequence of them reaches from the start of a node, each
  -- from its start to its end and with no other in between: the table holds exactly the open clients,
  -- every member of a room is a client that has the room in its own list, and no buffer is over its
  -- capacity.
  pub Reachable-Invs : {n : Node} → Reachable n → Invs n
  Reachable-Invs (started k h) = record {
    table = new_node-Inv k;
    rooms = new_node-Tracked hash32 k h;
    bounded = new_node-IsBounded k;
  }
  Reachable-Invs (stepped run st) = NodeStep-Invs st (Reachable-Invs run)

-- ===== src/Connect/GrpcServer.antt =====
-- internal/connect/grpcserver.go: the pushes that the task layer asks a connect node for.
pub mod Pushes
pub mod Rooms
use likegochat.Prelude.{
  ℕ, suc, ◌+◌, ◌%◌, ◌^◌, ◌≡◌, Bool, true, false, List, [], ◌∷◌, Option, none, some, lookup, ◌==◌,
  if◌then◌else◌, not,
}
use likegochat.Connect.Chan.{Payload}
use likegochat.Connect.RoomManager.{broadcast_room}
use likegochat.Connect.Client.{Node, try_send}

pub record PushMsgRequest : Type 0 where
  pub to_user_id : ℕ
  pub payload : Payload
  pub msg_type : ℕ

pub record PushAllRequest : Type 0 where
  pub group_id : ℕ
  pub payload : Payload
  pub user_ids : List ℕ
  pub msg_type : ℕ

pub record BroadcastRoomRequest : Type 0 where
  pub room_id : ℕ
  pub from_user_id : ℕ
  pub payload : Payload
  pub msg_type : ℕ

pub record BroadcastRoomReply : Type 0 where
  pub success : Bool
  pub fanout : ℕ

-- `PushMsg`; the Boolean of the reply is its `Success`. `prefers_done` gives, for each client, the
-- choice that `select` makes in `trySend` where two cases are ready.
module _ (prefers_done : ℕ → Bool) where
  pub push_msg : PushMsgRequest → Node → Node × Bool
  push_msg req n = elim (lookup req.to_user_id n.clients) [
    | none ↦ (n, false)
    | some client ↦
        let (n', sent) = try_send (prefers_done client) client req.payload n in
        if not sent then (n', false) else (n', true)
  ]

  -- The clients of the users that are registered, in the order of the request.
  pub collect_clients : List ℕ → Node → List ℕ
  collect_clients [] n = []
  collect_clients (u ∷ us) n =
      let rest = collect_clients us n in
      elim (lookup u n.clients) [ none ↦ rest | some c ↦ c ∷ rest ]

  pub send_each : List ℕ → Payload → Node → ℕ → Node × ℕ
  send_each [] payload n fail = (n, fail)
  send_each (client ∷ clients) payload n fail =
      let (n', sent) = try_send (prefers_done client) client payload n in
      send_each clients payload n' (if not sent then fail + 1 else fail)

  pub push_msg_to_users : PushAllRequest → Node → Node × Bool
  unfolding collect_clients send_each
  push_msg_to_users req n =
      let (n', fail) = send_each (collect_clients req.user_ids n) req.payload n 0 in (n', fail == 0)

pub grpc_broadcast_room : (List ℕ → ℕ) → BroadcastRoomRequest → Node → Node × BroadcastRoomReply
grpc_broadcast_room hash32 req n =
    let (chans, fanout) =
      broadcast_room hash32 req.room_id req.from_user_id req.payload n.manager n.chans in
    (record n { chans = chans }, record { success = true; fanout = fanout % 2 ^ 32 })

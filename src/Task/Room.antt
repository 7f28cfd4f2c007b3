-- ===== src/Task/Room.antt =====
-- `RoomChatHandler` of internal/task/consumer.go: the messages to rooms, which go to every connect node.
pub mod Delivery
use likegochat.Prelude.{
  ℕ, Bool, true, false, List, [], ◌∷◌, Option, none, some, is_empty, if◌then◌else◌,
}
use likegochat.Prelude.Bytes.{Bytes}
use likegochat.Redis.{Redis, Result, ok, err}
use likegochat.Connect.GrpcServer.{BroadcastRoomRequest, grpc_broadcast_room}
use likegochat.Logic.ChatServer.{RoomMessage}
use likegochat.Task.Consumer.{
  Task, ConsumerMessage, ConsumeError, mark_message, wait_token, with_client, expired,
  unmarshal_failed,
}
use likegochat.Task.Routing.{load_group_node_ids}

abbrev pub broadcast_request : RoomMessage → Bytes → BroadcastRoomRequest
broadcast_request gm payload = record {
  room_id = gm.room_id;
  from_user_id = gm.from_user_id;
  payload = payload;
  msg_type = gm.msg_type;
}

module _ (r : Redis) (dial : Bytes → Bool) (hash32 : List ℕ → ℕ) where
  -- The loop over the nodes; the error of a call is only logged.
  pub broadcast_each :
      RoomMessage → Bytes → List Bytes → Task r → Task r × Result ConsumeError (Unit {0})
  broadcast_each gm payload [] t = (t, ok tt)
  broadcast_each gm payload (server_id ∷ rest) t =
      let waited = wait_token r t in
      elim waited.1 [
        | false ↦ (waited.0, err expired)
        | true ↦
            broadcast_each gm payload rest
              (with_client r dial (grpc_broadcast_room hash32 (broadcast_request gm payload))
                server_id waited.0).0
      ]

  pub handle_room_broadcast : RoomMessage → Bytes → Task r → Task r × Result ConsumeError (Unit {0})
  unfolding broadcast_each
  handle_room_broadcast gm payload t =
      let (w, got) = load_group_node_ids r t.world in
      let t' : Task r = record t { world = w } in
      elim got [
        | err e ↦ (t', err e)
        | ok node_ids ↦
            if is_empty node_ids then (t', ok tt) else broadcast_each gm payload node_ids t'
      ]

  module _ (unmarshal : Bytes → Option RoomMessage) where
    pub handle_room_message : ConsumerMessage → Task r → Task r × Result ConsumeError (Unit {0})
    unfolding handle_room_broadcast
    handle_room_message m t = elim (unmarshal m.value) [
      | none ↦ (t, err unmarshal_failed)
      | some gm ↦ handle_room_broadcast gm m.value t
    ]

    -- `ConsumeClaim` on the messages of a claim; an error is only logged.
    pub consume_room_claim : List ConsumerMessage → Task r → Task r
    unfolding handle_room_message
    consume_room_claim [] t = t
    consume_room_claim (m ∷ ms) t =
        consume_room_claim ms (mark_message r m (handle_room_message m t).0)

-- ===== src/Task/Chat.antt =====
-- `SingleChatHander` of internal/task/consumer.go: the messages from one user to another.
pub mod Delivery
pub mod EndToEnd
use likegochat.Prelude.{
  ℕ, Bool, true, false, List, [], ◌∷◌, Option, none, some, is_empty, if◌then◌else◌,
}
use likegochat.Prelude.Bytes.{Bytes}
use likegochat.Redis.{Redis, Result, ok, err, World}
use likegochat.Logic.ChatServer.{Message}
use likegochat.Task.Consumer.{
  Task, ConsumerMessage, get_route, mark_message, push_to_user, ConsumeError,
}

module _ (r : Redis) (dial : Bytes → Bool) (prefers_done : ℕ → Bool) where
  -- The push, once the route has been asked for.
  pub push_routed : Message → Bytes → World r × Result ConsumeError (Option Bytes) → Task r → Task r
  push_routed msg payload (w, err e) t = record t { world = w }
  push_routed msg payload (w, ok none) t = record t { world = w }
  push_routed msg payload (w, ok (some server_id)) t =
      if is_empty server_id
      then record t { world = w }
      else (push_to_user r dial prefers_done server_id msg.to_user_id payload msg.msg_type
          (record t { world = w })).0

  -- Every error is only logged.
  pub push_chat : Message → Bytes → Task r → Task r
  unfolding push_routed
  push_chat msg payload t = push_routed msg payload (get_route r msg.to_user_id t.world) t

  module _ (unmarshal : Bytes → Option Message) where
    pub consume_chat : ConsumerMessage → Task r → Task r
    unfolding push_chat
    consume_chat m t = elim (unmarshal m.value) [
      | none ↦ mark_message r m t
      | some msg ↦ mark_message r m (push_chat msg m.value t)
    ]

    -- `ConsumeClaim` on the messages of a claim.
    pub consume_chat_claim : List ConsumerMessage → Task r → Task r
    unfolding consume_chat
    consume_chat_claim [] t = t
    consume_chat_claim (m ∷ ms) t = consume_chat_claim ms (consume_chat m t)

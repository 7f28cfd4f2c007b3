-- ===== src/Logic/ChatServer.antt =====
-- The three calls of internal/logic/chatserver.go.
pub mod Sends
mod Tests
use likegochat.Prelude.{
  ℕ, Bool, true, false, List, [], ◌∷◌, ◌++◌, Option, none, some, if◌then◌else◌, is_empty, ◌==◌,
  ◌||◌, not, ◌≡◌, ◌⊎◌,
}
use likegochat.Prelude.Bytes.{Bytes}
use likegochat.Prelude.Decimal.{format_int}
use likegochat.Redis.{Redis, World, Result, ok, err}
use likegochat.Logic.Error.{
  Error, marshal_failed, self_message, group_id_invalid, member_check_failed, not_a_member,
  queue_failed, content_empty, topic_missing, store_missing,
}
use likegochat.Logic.MessageId.{next_message_id}
use likegochat.Logic.GroupCache.{is_group_member}
use likegochat.Connect.RoomManager.{is_nonpositive}

pub record SendMessageRequest : Type 0 where
  pub from_user_id : ℕ
  pub to_user_id : ℕ
  pub content : Bytes
  pub msg_type : ℕ
  pub cliet_msg_id : ℕ

pub record SendSmallGroupMessageRequest : Type 0 where
  pub from_user_id : ℕ
  pub group_id : ℕ
  pub content : Bytes
  pub msg_type : ℕ
  pub client_msg_id : ℕ

pub record SendRoomMessageRequest : Type 0 where
  pub from_user_id : ℕ
  pub room_id : ℕ
  pub content : Bytes
  pub msg_type : ℕ

pub record SendMessageReply : Type 0 where
  pub msg_id : ℕ
  pub timestamp : ℕ

pub record Message : Type 0 where
  pub msg_id : ℕ
  pub from_user_id : ℕ
  pub to_user_id : ℕ
  pub content : Bytes
  pub msg_type : ℕ
  pub create_time : ℕ
  pub client_msg_id : ℕ

pub record GroupMessage : Type 0 where
  pub msg_id : ℕ
  pub from_user_id : ℕ
  pub group_id : ℕ
  pub content : Bytes
  pub msg_type : ℕ
  pub create_time : ℕ
  pub client_msg_id : ℕ

pub record RoomMessage : Type 0 where
  pub msg_id : ℕ
  pub from_user_id : ℕ
  pub room_id : ℕ
  pub content : Bytes
  pub msg_type : ℕ
  pub create_time : ℕ

-- What `proto.Marshal` is called with.
pub data Outgoing : Type 0 where
  chat : Message → Outgoing
  group : GroupMessage → Outgoing
  room : RoomMessage → Outgoing

-- The message of each call, with its id and the time in milliseconds.
abbrev pub chat_message : ℕ → ℕ → SendMessageRequest → Outgoing
chat_message msg_id now req = chat (record {
  msg_id = msg_id;
  from_user_id = req.from_user_id;
  to_user_id = req.to_user_id;
  content = req.content;
  msg_type = req.msg_type;
  create_time = now;
  client_msg_id = req.cliet_msg_id;
})

abbrev pub group_message : ℕ → ℕ → SendSmallGroupMessageRequest → Outgoing
group_message msg_id now req = group (record {
  msg_id = msg_id;
  from_user_id = req.from_user_id;
  group_id = req.group_id;
  content = req.content;
  msg_type = req.msg_type;
  create_time = now;
  client_msg_id = req.client_msg_id;
})

abbrev pub room_message : ℕ → ℕ → SendRoomMessageRequest → Outgoing
room_message msg_id now req = room (record {
  msg_id = msg_id;
  from_user_id = req.from_user_id;
  room_id = req.room_id;
  content = req.content;
  msg_type = req.msg_type;
  create_time = now;
})

-- The Kafka message.
pub record ProducerMessage : Type 0 where
  pub topic : Bytes
  pub key : Bytes
  pub value : Bytes

-- `sarama.SyncProducer`: a send that is acknowledged has appended its message, and one that fails may
-- have done so.
pub record Producer : Type 1 where
  pub State : Type 0
  pub log : State → List ProducerMessage
  pub send_message : ProducerMessage → State → State × Bool
  pub acknowledged :
      (m : ProducerMessage) (k : State)
      → (send_message m k).1 ≡ true
      → log (send_message m k).0 ≡ log k ++ m ∷ []
  pub failed :
      (m : ProducerMessage) (k : State)
      → (send_message m k).1 ≡ false
      → (log (send_message m k).0 ≡ log k ++ m ∷ []) ⊎ (log (send_message m k).0 ≡ log k)

-- `has_store` says that `Store` is not nil, and `group_members` is the query of the group's rows.
pub record ChatServer : Type 0 where
  pub chat_topic : Bytes
  pub group_chat_topic : Bytes
  pub romm_chat_topic : Bytes
  pub has_store : Bool
  pub group_members : ℕ → Option (List ℕ)

module _ (r : Redis) (kafka : Producer) (marshal : Outgoing → Option Bytes) where
  pub record Logic : Type 0 where
    pub local_msg_seq : ℕ
    pub world : World r
    pub producer : kafka.State

  abbrev pub Call : Type 0
  Call = Logic → Logic × Result Error SendMessageReply

  -- The tail of each call, from the message to the reply.
  pub produce : Bytes → ℕ → Outgoing → SendMessageReply → Call
  produce topic target msg reply l = elim (marshal msg) [
    | none ↦ (l, err marshal_failed)
    | some payload ↦
        let (k, sent) =
          kafka.send_message (record { topic = topic; key = format_int target; value = payload })
            l.producer in
        (record l { producer = k }, if sent then ok reply else err queue_failed)
  ]

  -- `now` is the clock in milliseconds.
  unfoldable pub send_message : ChatServer → ℕ → SendMessageRequest → Call
  unfolding produce
  send_message s now req l =
      if req.from_user_id == req.to_user_id
      then (l, err self_message)
      else let (seq, msg_id) = next_message_id l.local_msg_seq now in
        produce s.chat_topic req.to_user_id (chat_message msg_id now req)
          (record { msg_id = msg_id; timestamp = now }) (record l { local_msg_seq = seq })

  -- From the membership check on.
  pub send_as_member : ChatServer → ℕ → SendSmallGroupMessageRequest → Call
  unfolding produce
  send_as_member s now req l =
      let (seq, msg_id) = next_message_id l.local_msg_seq now in
      produce s.group_chat_topic req.group_id (group_message msg_id now req)
        (record { msg_id = msg_id; timestamp = now }) (record l { local_msg_seq = seq })

  pub after_check :
      ChatServer
      → ℕ
      → SendSmallGroupMessageRequest
      → Logic
      → Result Error Bool
      → Logic × Result Error SendMessageReply
  unfolding send_as_member
  after_check s now req l (err e) = (l, err member_check_failed)
  after_check s now req l (ok is_member) =
      if not is_member then (l, err not_a_member) else send_as_member s now req l

  unfoldable pub send_group_message : ChatServer → ℕ → SendSmallGroupMessageRequest → Call
  unfolding after_check
  send_group_message s now req l =
      if is_nonpositive req.group_id
      then (l, err group_id_invalid)
      else if is_empty req.content
      then (l, err content_empty)
      else if is_empty s.group_chat_topic
      then (l, err topic_missing)
      else if s.has_store
      then (let (w, checked) =
            is_group_member r s.group_members req.group_id req.from_user_id l.world in
          after_check s now req (record l { world = w }) checked)
      else send_as_member s now req l

  pub send_room_message : ChatServer → ℕ → SendRoomMessageRequest → Call
  unfolding produce
  send_room_message s now req l =
      if is_nonpositive req.room_id
      then (l, err group_id_invalid)
      else if is_empty req.content
      then (l, err content_empty)
      else if is_empty s.romm_chat_topic
      then (l, err topic_missing)
      else if not s.has_store
      then (l, err store_missing)
      else let (seq, msg_id) = next_message_id l.local_msg_seq now in
        produce s.romm_chat_topic req.room_id (room_message msg_id now req)
          (record { msg_id = msg_id; timestamp = now }) (record l { local_msg_seq = seq })

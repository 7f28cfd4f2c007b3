-- ===== src/Api/Chat.antt =====
-- internal/api/handler_chat.go.
pub mod Senders
mod Tests
use likegochat.Prelude.{ℕ, Bool, Option, none, some, not, is_empty, if◌then◌else◌}
use likegochat.Prelude.Bytes.{Bytes}
use likegochat.Redis.{Redis}
use likegochat.Logic.ChatServer.{
  Outgoing, Producer, ChatServer, SendMessageRequest, SendSmallGroupMessageRequest,
  SendRoomMessageRequest, send_message, send_group_message, send_room_message,
}
use likegochat.Logic.AuthServer.{Database, Bcrypt}
use likegochat.Api.Backend.{
  Backend, Request, Response, http_error, sent, call, on_chat, call_verify, bad_request,
  unauthorized, method_not_allowed, internal_server_error,
}

pub record SendMessageReq : Type 0 where
  pub client_msg_id : ℕ
  pub to_user_id : ℕ
  pub content : Bytes
  pub msg_type : ℕ

pub record SendGroupMessageReq : Type 0 where
  pub client_msg_id : ℕ
  pub group_id : ℕ
  pub content : Bytes
  pub msg_type : ℕ

pub record SendRoomMessageReq : Type 0 where
  pub client_msg_id : ℕ
  pub room_id : ℕ
  pub content : Bytes
  pub msg_type : ℕ

abbrev pub chat_request : ℕ → SendMessageReq → SendMessageRequest
chat_request current_user_id body = record {
  from_user_id = current_user_id;
  to_user_id = body.to_user_id;
  content = body.content;
  msg_type = body.msg_type;
  cliet_msg_id = body.client_msg_id;
}

abbrev pub group_request : ℕ → SendGroupMessageReq → SendSmallGroupMessageRequest
group_request current_user_id body = record {
  from_user_id = current_user_id;
  group_id = body.group_id;
  content = body.content;
  msg_type = body.msg_type;
  client_msg_id = body.client_msg_id;
}

abbrev pub room_request : ℕ → SendRoomMessageReq → SendRoomMessageRequest
room_request current_user_id body = record {
  from_user_id = current_user_id;
  room_id = body.room_id;
  content = body.content;
  msg_type = body.msg_type;
}

module _ (r : Redis) (mysql : Database) (bcrypt : Bcrypt) (kafka : Producer)
    (marshal : Outgoing → Option Bytes) (s : ChatServer) where
  abbrev Served : Type 0
  Served = Backend r mysql bcrypt kafka marshal × Response

  -- The session of the request, or the status 401.
  pub authorized :
      Request
      → Backend r mysql bcrypt kafka marshal
      → (ℕ → Backend r mysql bcrypt kafka marshal → Served)
      → Served
  authorized req b handle =
      let (b', verified) = call_verify r mysql bcrypt kafka marshal req.authorization b in
      elim verified [ none ↦ (b', http_error unauthorized) | some u ↦ handle u b' ]

  -- The guards on the method and on the session id.
  pub guarded : Request → Backend r mysql bcrypt kafka marshal → Served → Served
  guarded req b rest =
      if not req.is_post
      then (b, http_error method_not_allowed)
      else if is_empty req.authorization
      then (b, http_error unauthorized)
      else rest

  -- `now` is the clock of the logic server.
  pub send_chat : ℕ → ℕ → SendMessageReq → Backend r mysql bcrypt kafka marshal → Served
  send_chat now u body b =
      let (b', reply) =
        call r mysql bcrypt kafka marshal
          (on_chat r mysql bcrypt kafka marshal
            (send_message r kafka marshal s now (chat_request u body)))
          b in
      (b', elim reply [ none ↦ http_error internal_server_error | some out ↦ sent out ])

  pub send_message_handler :
      (Bytes → Option SendMessageReq) → ℕ → Request → Backend r mysql bcrypt kafka marshal → Served
  unfolding authorized guarded send_chat
  send_message_handler decode now req b = guarded req b (
      authorized req b (λ u b'. elim (decode req.body) [
        | none ↦ (b', http_error bad_request)
        | some body ↦ send_chat now u body b'
      ]))

  pub send_group : ℕ → ℕ → SendGroupMessageReq → Backend r mysql bcrypt kafka marshal → Served
  send_group now u body b =
      let (b', reply) =
        call r mysql bcrypt kafka marshal
          (on_chat r mysql bcrypt kafka marshal
            (send_group_message r kafka marshal s now (group_request u body)))
          b in
      (b', elim reply [ none ↦ http_error internal_server_error | some out ↦ sent out ])

  pub send_group_message_handler :
      (Bytes → Option SendGroupMessageReq)
      → ℕ
      → Request
      → Backend r mysql bcrypt kafka marshal
      → Served
  unfolding authorized guarded send_group
  send_group_message_handler decode now req b = guarded req b (
      authorized req b (λ u b'. elim (decode req.body) [
        | none ↦ (b', http_error bad_request)
        | some body ↦ send_group now u body b'
      ]))

  pub send_room : ℕ → ℕ → SendRoomMessageReq → Backend r mysql bcrypt kafka marshal → Served
  send_room now u body b =
      let (b', reply) =
        call r mysql bcrypt kafka marshal
          (on_chat r mysql bcrypt kafka marshal
            (send_room_message r kafka marshal s now (room_request u body)))
          b in
      (b', elim reply [ none ↦ http_error internal_server_error | some out ↦ sent out ])

  -- This handler reads the body before it verifies the session.
  pub send_room_message_handler :
      (Bytes → Option SendRoomMessageReq)
      → ℕ
      → Request
      → Backend r mysql bcrypt kafka marshal
      → Served
  unfolding authorized guarded send_room
  send_room_message_handler decode now req b = guarded req b (elim (decode req.body) [
    | none ↦ (b, http_error bad_request)
    | some body ↦ authorized req b (λ u b'. send_room now u body b')
  ])

-- ===== src/Api/Chat/Tests.antt =====
-- A concrete request.
use likegochat.Prelude.{ℕ, ◌≡◌, [], ◌∷◌, Option, some, true, refl, arith, ◌<◌, ◌^◌}
use likegochat.Prelude.Bytes.{Bytes, codes, bytes_eq}
use likegochat.Prelude.Decimal.{format_int, parse_int}
use likegochat.Redis.Memory.{memory, empty_store, Store}
use likegochat.Logic.Store.{is_session_active, refresh_script, session_key, user_session_key}
use likegochat.Logic.Store.Sessions.{IsActive}
use likegochat.Logic.Store.Keys.{owner}
use likegochat.Logic.AuthServer.{verify}
use likegochat.Logic.ChatServer.{Outgoing, send_message, send_group_message, SendMessageReply}
use likegochat.Logic.MessageId.{next_message_id}
use likegochat.Logic.GroupCache.{is_group_member, group_key}
use likegochat.Logic.GroupCache.Coherence.{IsCoherent}
use likegochat.Logic.Samples.{queue, rows, server, accounts, plain, ann}
use likegochat.Api.Backend.{Backend, Request, call, on_auth, on_chat, call_verify, sent}
use likegochat.Api.Chat.{
  SendMessageReq, SendGroupMessageReq, send_message_handler, send_group_message_handler,
}
use likegochat.Api.Chat.Senders.{
  SentBy, SentByMember, send_message_handler-SentBy, send_group_message_handler-SentByMember,
}

abbrev marshal : Outgoing → Option Bytes
marshal m = some (codes "payload")

-- User 1 has logged in.
abbrev session_one : Store
session_one = refresh_script memory 60 1 (codes "s1") empty_store

abbrev backend : Backend memory accounts plain queue marshal
backend = record {
  world = record { db = session_one; net = [] };
  db = ann ∷ [];
  local_msg_seq = 0;
  producer = [];
  calls = [];
}

abbrev request : Request
request = record { is_post = true; authorization = codes "s1"; body = [] }

abbrev hello : SendMessageReq
hello = record { client_msg_id = 5; to_user_id = 2; content = codes "hi"; msg_type = 1 }

abbrev first_reply : SendMessageReply
first_reply = record { msg_id = (next_message_id 0 1000).1; timestamp = 1000 }

sends :
    (send_message_handler memory accounts plain queue marshal server
      (λ b. some hello)
      1000
      request
      backend).1
    ≡ sent first_reply
unfolding send_message_handler call call_verify on_chat on_auth verify is_session_active
    send_message refresh_script session_key user_session_key format_int parse_int bytes_eq
sends = refl

send_message_handler-SentBy_example :
    SentBy memory accounts plain queue marshal server
      (λ b. some hello)
      1000
      request
      backend
      (send_message_handler memory accounts plain queue marshal server
        (λ b. some hello)
        1000
        request
        backend).0
      first_reply
send_message_handler-SentBy_example =
    send_message_handler-SentBy memory accounts plain queue marshal server (λ b. some hello) 1000
      request backend first_reply sends

abbrev to_group : SendGroupMessageReq
to_group = record { client_msg_id = 5; group_id = 3; content = codes "hi"; msg_type = 1 }

sends_to_group :
    (send_group_message_handler memory accounts plain queue marshal server
      (λ b. some to_group)
      1000
      request
      backend).1
    ≡ sent first_reply
unfolding send_group_message_handler call call_verify on_chat on_auth verify is_session_active
    send_group_message is_group_member group_key refresh_script session_key user_session_key
    format_int parse_int bytes_eq
sends_to_group = refl

session_one-IsCoherent : IsCoherent memory rows session_one
unfolding refresh_script session_key user_session_key group_key bytes_eq
session_one-IsCoherent = record {
  cached = λ g u v hg hu h. absurd (ground (arith, h));
  set_only = λ g. refl;
}

decodes_small :
    (text : Bytes) (body : SendGroupMessageReq) → some to_group ≡ some body → body.group_id < 2 ^ 64
decodes_small text body e = ground (arith, e)

session_owner : owner memory (codes "s1") session_one ≡ some 1
unfolding owner refresh_script session_key user_session_key format_int parse_int bytes_eq
session_owner = refl

-- Only user 1 has a session.
owner_small : (u : ℕ) → IsActive memory (codes "s1") u session_one → u < 2 ^ 63
owner_small u a = ground (arith, session_owner, a.0)

send_group_message_handler-SentByMember_example :
    SentByMember memory accounts plain queue marshal server rows
      (λ b. some to_group)
      1000
      request
      backend
      (send_group_message_handler memory accounts plain queue marshal server
        (λ b. some to_group)
        1000
        request
        backend).0
      first_reply
send_group_message_handler-SentByMember_example =
    send_group_message_handler-SentByMember memory accounts plain queue marshal server rows
      (λ b. some to_group) 1000 request backend first_reply decodes_small owner_small
      session_one-IsCoherent refl refl sends_to_group

-- ===== src/Logic/ChatServer/Tests.antt =====
-- Concrete messages.
use likegochat.Logic.Samples.{queue, server, rows, rows-AreIds, empty_store-IsCoherent}
use likegochat.Prelude.Decimal.{format_int}
use likegochat.Logic.MessageId.{next_message_id}
use likegochat.Prelude.{ℕ, List, ◌≡◌, [], ◌∷◌, Option, some, true, refl, mem, arith}
use likegochat.Prelude.Bytes.{Bytes, codes, bytes_eq}
use likegochat.Redis.{World, ok, err, reply_lost}
use likegochat.Redis.Memory.{memory, empty_store}
use likegochat.Logic.Error.{self_message}
use likegochat.Logic.ChatServer.{
  Outgoing, Logic, SendMessageRequest, SendSmallGroupMessageRequest, SendMessageReply, send_message,
  send_group_message, group_message, next_message_id, format_int,
}
use likegochat.Logic.ChatServer.Sends.{
  IsQueued, Sent, send_message_self, send_message-Ends, send_group_message_lem,
}
use likegochat.Logic.GroupCache.{is_group_member, group_key, refresh_group_members_cache}
use likegochat.Logic.GroupCache.Coherence.{IsCoherent}
use likegochat.Logic.GroupCache.Answers.{
  is_group_member_lem, is_group_member-IsCoherent, refresh_group_members_cache_lem,
}

abbrev marshal : Outgoing → Option Bytes
marshal m = some (codes "payload")

abbrev fresh : Logic memory queue marshal
fresh = record { local_msg_seq = 0; world = record { db = empty_store; net = [] }; producer = [] }

abbrev to_self : SendMessageRequest
to_self = record {
  from_user_id = 1;
  to_user_id = 1;
  content = codes "hi";
  msg_type = 1;
  cliet_msg_id = 0;
}

send_message_self_example :
    send_message memory queue marshal server 1000 to_self fresh ≡ (fresh, err self_message)
send_message_self_example = send_message_self memory queue marshal server 1000 to_self fresh refl

abbrev to_two : SendMessageRequest
to_two = record to_self { to_user_id = 2 }

send_message-Ends_example :
    Sent memory queue marshal server 1000 to_two fresh
      (send_message memory queue marshal server 1000 to_two fresh)
send_message-Ends_example =
    send_message-Ends memory queue marshal server 1000 to_two fresh (λ e. ground (arith, e))

abbrev to_group : SendSmallGroupMessageRequest
to_group = record {
  from_user_id = 1;
  group_id = 3;
  content = codes "hi";
  msg_type = 1;
  client_msg_id = 0;
}

abbrev first_reply : SendMessageReply
first_reply = record { msg_id = (next_message_id 0 1000).1; timestamp = 1000 }

sends_to_group :
    (send_group_message memory queue marshal server 1000 to_group fresh).1 ≡ ok first_reply
unfolding send_group_message is_group_member group_key format_int bytes_eq
sends_to_group = refl

send_group_message_lem_example :
    (mem 1 (rows 3) ≡ true)
    × (first_reply.msg_id ≡ (next_message_id 0 1000).1)
    × IsQueued memory queue marshal server.group_chat_topic 3
        (group_message first_reply.msg_id 1000 to_group)
        []
        (send_group_message memory queue marshal server 1000 to_group fresh).0.producer
send_group_message_lem_example =
    send_group_message_lem memory queue marshal rows server 1000 to_group fresh first_reply
      (omega arith) (omega arith) empty_store-IsCoherent refl refl sends_to_group

is_member : (is_group_member memory (λ i. some (rows i)) 3 1 fresh.world).1 ≡ ok true
unfolding is_group_member group_key format_int bytes_eq
is_member = refl

is_group_member_lem_example : true ≡ mem 1 (rows 3)
is_group_member_lem_example =
    is_group_member_lem memory rows 3 1 fresh.world true (omega arith) (omega arith)
      empty_store-IsCoherent is_member

is_group_member-IsCoherent_example :
    IsCoherent memory rows (is_group_member memory (λ i. some (rows i)) 3 1 fresh.world).0.db
is_group_member-IsCoherent_example =
    is_group_member-IsCoherent memory rows 3 1 fresh.world (omega arith) (omega arith) rows-AreIds
      empty_store-IsCoherent

-- The pipeline is carried out, and its answer is lost.
abbrev cut_off : World memory
cut_off = record { db = empty_store; net = reply_lost ∷ [] }

refresh_group_members_cache_lem_example :
    ((members : List ℕ)
      → (refresh_group_members_cache memory (λ i. some (rows i)) 3 cut_off).1 ≡ ok members
      → members ≡ rows 3)
    × IsCoherent memory rows
        (refresh_group_members_cache memory (λ i. some (rows i)) 3 cut_off).0.db
refresh_group_members_cache_lem_example =
    refresh_group_members_cache_lem memory rows 3 cut_off (omega arith) rows-AreIds
      empty_store-IsCoherent

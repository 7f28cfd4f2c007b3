-- ===== src/Task/Tests.antt =====
-- Concrete runs of the consumers.
use likegochat.Prelude.{
  ◌≡◌, ◌==◌, ◌||◌, ◌∷◌, ◌++◌, [], List, false, not, some, refl, arith, map, if◌then◌else◌, true,
}
use likegochat.Prelude.Bytes.{bytes_eq_refl}
use likegochat.Prelude.Dicts.{find}
use likegochat.Redis.{refused, ok, mem_bytes}
use likegochat.Redis.Memory.{memory, empty_store}
use likegochat.Connect.Chan.{has_room}
use likegochat.Connect.Client.{Node}
use likegochat.Connect.Samples.{
  hash_zero, two_members, two_members-Invs, member_seven, members_seven, room_seven, prefers_open,
}
use likegochat.Logic.ChatServer.{
  Logic, SendMessageRequest, SendMessageReply, GroupMessage, RoomMessage, send_message,
}
use likegochat.Logic.MessageId.{next_message_id}
use likegochat.Logic.Samples.{queue, server}
use likegochat.Task.Consumer.{Task, ConsumerMessage}
use likegochat.Task.Consumer.Calls.{IsUp}
use likegochat.Task.Chat.{consume_chat_claim}
use likegochat.Task.Chat.Delivery.{IsReachable, consume_chat_claim_marked}
use likegochat.Task.Chat.EndToEnd.{Arrives, send_message-Arrives}
use likegochat.Task.Group.{consume_group}
use likegochat.Task.Group.Attempts.{to_come}
use likegochat.Task.Group.Ends.{Ends, consume_group-Ends}
use likegochat.Task.Room.{handle_room_message}
use likegochat.Task.Room.Delivery.{handle_room_message-reaches}
use likegochat.Task.Routing.{connect_nodes_key}
use likegochat.Task.Samples.{
  encode, decode_chat, decode-encode, node_b, routed, group_rows, idle, dial_all, idle-IsUp,
  route_seven,
}

abbrev hello : SendMessageRequest
hello = record {
  from_user_id = 1;
  to_user_id = 7;
  content = 104 ∷ 105 ∷ [];
  msg_type = 1;
  cliet_msg_id = 5;
}

abbrev logic : Logic memory queue encode
logic = record { local_msg_seq = 0; world = record { db = empty_store; net = [] }; producer = [] }

abbrev first_reply : SendMessageReply
first_reply = record { msg_id = (next_message_id 0 1000).1; timestamp = 1000 }

says_hello : (send_message memory queue encode server 1000 hello logic).1 ≡ ok first_reply
unfolding send_message
says_hello = refl

seven-IsReachable : IsReachable memory dial_all prefers_open 7 node_b two_members idle
seven-IsReachable = record {
  routed = route_seven;
  valid = refl;
  calm = (refl, refl);
  up = idle-IsUp;
  sound = two_members-Invs.table;
  client = 1;
  connected = members_seven;
  room = room_seven;
}

send_message-Arrives_example :
    Arrives memory queue encode dial_all prefers_open decode_chat hello []
      (send_message memory queue encode server 1000 hello logic).0.producer
      node_b
      two_members
      idle
      1
unfolding seven-IsReachable
send_message-Arrives_example =
    send_message-Arrives memory queue encode dial_all prefers_open decode_chat server 1000 hello
      logic first_reply node_b two_members idle decode-encode says_hello seven-IsReachable

abbrev two_messages : List ConsumerMessage
two_messages =
    record { topic = []; value = 1 ∷ 1 ∷ 7 ∷ 1 ∷ 9 ∷ 5 ∷ []; offset = 4 }
    ∷ record { topic = []; value = []; offset = 5 }
    ∷ []

consume_chat_claim_marked_example :
    (consume_chat_claim memory dial_all prefers_open decode_chat two_messages idle).marked
    ≡ [] ++ map (λ m. m.offset) two_messages
consume_chat_claim_marked_example =
    consume_chat_claim_marked memory dial_all prefers_open decode_chat two_messages idle

abbrev to_group : GroupMessage
to_group = record {
  msg_id = 1;
  from_user_id = 9;
  group_id = 3;
  content = [];
  msg_type = 1;
  create_time = 9;
  client_msg_id = 5;
}

-- The first round trip fails.
abbrev faulty : Task memory
faulty = record idle { world = record { db = routed; net = refused ∷ [] } }

abbrev group_value : ConsumerMessage
group_value = record { topic = []; value = 1 ∷ []; offset = 4 }

one_to_come : to_come memory faulty ≡ 1
unfolding to_come
one_to_come = refl

consume_group-Ends_example :
    Ends memory dial_all prefers_open group_rows
      (λ b. some to_group)
      (λ k. false)
      group_value
      faulty
      (consume_group memory dial_all prefers_open
        (λ i. some (group_rows i))
        (λ b. some to_group)
        2
        (λ k. false)
        0
        group_value
        faulty)
consume_group-Ends_example =
    consume_group-Ends memory dial_all prefers_open group_rows (λ b. some to_group) 2 (λ k. false) 0
      group_value faulty (λ gm e. ground (arith, e)) (omega (arith, one_to_come))

-- Node b is registered.
abbrev registered : Task memory
registered = record idle {
  world = record { db = memory.sadd connect_nodes_key (node_b ∷ []) routed; net = [] };
}

abbrev to_room : RoomMessage
to_room = record {
  msg_id = 1;
  from_user_id = 8;
  room_id = 5;
  content = [];
  msg_type = 1;
  create_time = 9;
}

registered-IsUp : IsUp memory dial_all node_b two_members registered
registered-IsUp = record {
  taken = idle-IsUp.taken;
  pooled = idle-IsUp.pooled;
  dials = idle-IsUp.dials;
  running = idle-IsUp.running;
}

one_node : memory.members connect_nodes_key registered.world.db ≡ node_b ∷ []
one_node = ground (arith, bytes_eq_refl connect_nodes_key)

node_listed : mem_bytes node_b (memory.members connect_nodes_key registered.world.db) ≡ true
node_listed = rw one_node (ground (arith, bytes_eq_refl node_b))

handle_room_message-reaches_example :
    (n' : Node) × (find node_b
        (handle_room_message memory dial_all hash_zero
          (λ b. some to_room)
          group_value
          registered).0.nodes
      ≡ some n')
    × (n'.chans 1 ≡ (
        if (7 == 8) || not (has_room two_members.chans 1)
        then two_members.chans 1
        else two_members.chans 1 ++ (1 ∷ []) ∷ []))
handle_room_message-reaches_example =
    handle_room_message-reaches memory dial_all hash_zero (λ b. some to_room) group_value to_room
      node_b two_members 7 1 registered refl refl (refl, refl) (rw one_node (refl, tt)) node_listed
      registered-IsUp two_members-Invs.rooms member_seven

-- ===== src/Task/Samples.antt =====
-- A connect node with the users 7 and 8, and the data that leads to it, for the concrete runs.
use likegochat.Prelude.{
  ℕ, ◌≡◌, refl, ◌==◌, Bool, true, List, [], ◌∷◌, Option, some, none, if◌then◌else◌, arith,
}
use likegochat.Prelude.Bytes.{Bytes, codes, bytes_eq, bytes_eq_refl}
use likegochat.Prelude.Dicts.{find}
use likegochat.Redis.Memory.{memory, empty_store, Store}
use likegochat.Connect.Registry.{user_server_key, route_ttl}
use likegochat.Connect.Registry.Routes.{route}
use likegochat.Connect.Samples.{two_members}
use likegochat.Logic.ChatServer.{Outgoing, Message, chat, group, room}
use likegochat.Logic.GroupCache.{group_key, rebuild}
use likegochat.Logic.GroupCache.Coherence.{AreIds, IsCoherent, rebuild-IsCoherent}
use likegochat.Task.ClientPool.{new_pool}
use likegochat.Task.ClientPool.Invariant.{start}
use likegochat.Task.Consumer.{Task}
use likegochat.Task.Consumer.Calls.{IsUp}

-- A codec that leaves the fields as they are.
abbrev pub encode : Outgoing → Option Bytes
encode (chat m) = some (
    m.msg_id ∷ m.from_user_id ∷ m.to_user_id ∷ m.msg_type ∷ m.create_time ∷ m.client_msg_id
    ∷ m.content)
encode (group m) = some (
    m.msg_id ∷ m.from_user_id ∷ m.group_id ∷ m.msg_type ∷ m.create_time ∷ m.client_msg_id
    ∷ m.content)
encode (room m) =
    some (m.msg_id ∷ m.from_user_id ∷ m.room_id ∷ m.msg_type ∷ m.create_time ∷ m.content)

abbrev pub decode_chat : Bytes → Option Message
decode_chat (a ∷ (b ∷ (c ∷ (d ∷ (e ∷ (f ∷ content)))))) = some (record {
  msg_id = a;
  from_user_id = b;
  to_user_id = c;
  content = content;
  msg_type = d;
  create_time = e;
  client_msg_id = f;
})
decode_chat bytes = none

pub decode-encode : (m : Message) (p : Bytes) → encode (chat m) ≡ some p → decode_chat p ≡ some m
decode-encode m p h =
    let same : (m.msg_id ∷ m.from_user_id ∷ m.to_user_id ∷ m.msg_type ∷ m.create_time
          ∷ m.client_msg_id ∷ m.content)
        ≡ p =
      ground (arith, h) in
    rw (← same) refl

abbrev pub node_b : Bytes
node_b = codes "b:1"

-- User 7 is on node b, which is registered.
abbrev pub routed : Store
routed = memory.set (user_server_key 7) node_b route_ttl empty_store

-- Group 3 has the users 7 and 9.
abbrev pub group_rows : ℕ → List ℕ
group_rows g = if g == 3 then 7 ∷ 9 ∷ [] else []

pub group_rows-AreIds : AreIds memory group_rows
group_rows-AreIds g u h = ground (arith, h)

pub routed-IsCoherent : IsCoherent memory group_rows routed
unfolding user_server_key group_key bytes_eq
routed-IsCoherent = record {
  cached = λ g u v hg hu h. absurd (ground (arith, h));
  set_only = λ g. refl;
}

abbrev pub cached : Store
cached = rebuild memory 3 (group_rows 3) routed

pub cached-IsCoherent : IsCoherent memory group_rows cached
cached-IsCoherent =
    rebuild-IsCoherent memory group_rows 3 routed (omega arith) group_rows-AreIds routed-IsCoherent

abbrev pub idle : Task memory
idle = record {
  world = record { db = routed; net = [] };
  pool = new_pool;
  nodes = (node_b, two_members) ∷ [];
  rpc = [];
  waits = [];
  marked = [];
}

abbrev pub dial_all : Bytes → Bool
dial_all addr = true

pub idle-IsUp : IsUp memory dial_all node_b two_members idle
unfolding find bytes_eq
idle-IsUp = record { taken = []; pooled = start; dials = refl; running = refl }

pub route_seven : route memory 7 routed ≡ some node_b
unfolding route bytes_eq
route_seven = ground (arith, bytes_eq_refl (user_server_key 7))

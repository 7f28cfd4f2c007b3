-- ===== src/Logic/Samples.antt =====
-- A queue, groups and accounts, for the concrete runs.
use likegochat.Redis.Memory.{memory, empty_store}
use likegochat.Prelude.{
  ℕ, List, some, ◌∷◌, arith, Option, if◌then◌else◌, true, ◌≡◌, refl, ◌++◌, none, ◌==◌, [], inr, inl,
}
use likegochat.Logic.GroupCache.Coherence.{IsCoherent, AreIds}
use likegochat.Logic.AuthServer.{Database, Bcrypt, User}
use likegochat.Prelude.Bytes.{Bytes, codes, bytes_eq, bytes_eq_refl}
use likegochat.Logic.ChatServer.{Producer, ChatServer, ProducerMessage}

-- A producer that never fails.
abbrev pub queue : Producer
queue = record {
  State = List ProducerMessage;
  log = λ k. k;
  send_message = λ m k. (k ++ m ∷ [], true);
  acknowledged = λ m k h. refl;
  failed = λ m k h. inl refl;
}

-- Group 3 has the members 1 and 2.
abbrev pub rows : ℕ → List ℕ
rows g = if g == 3 then 1 ∷ 2 ∷ [] else []

abbrev pub server : ChatServer
server = record {
  chat_topic = codes "chat";
  group_chat_topic = codes "group";
  romm_chat_topic = codes "room";
  has_store = true;
  group_members = λ g. some (rows g);
}

pub rows-AreIds : AreIds memory rows
rows-AreIds g u h = ground (arith, h)

pub empty_store-IsCoherent : IsCoherent memory rows empty_store
empty_store-IsCoherent = record {
  cached = λ g u v hg hu h. absurd (ground (arith, h));
  set_only = λ g. refl;
}

abbrev pub find_user : Bytes → List User → Option User
find_user name [] = none
find_user name (u ∷ us) =
    let rest = find_user name us in if bytes_eq u.username name then some u else rest

pub find_first : (u : User) (us : List User) → find_user u.username (u ∷ us) ≡ some u
find_first u us = ground (arith, bytes_eq_refl u.username)

pub first_created :
    (name hash : Bytes) (us : List User) (id : ℕ)
    → some 1 ≡ some id
    → find_user name (record { id = 1; username = name; password_hash = hash } ∷ us)
      ≡ some (record { id = id; username = name; password_hash = hash })
first_created name hash us id e =
    ground (arith, e, find_first (record { id = 1; username = name; password_hash = hash }) us)

pub plain_accepts : (p h : Bytes) → some p ≡ some h → bytes_eq h p ≡ true
plain_accepts p h e = ground (arith, e, bytes_eq_refl p)

abbrev pub accounts : Database
accounts = record {
  State = List User;
  user_named = find_user;
  take_user = λ name us. some (find_user name us);
  create_user =
      λ name hash us. (record { id = 1; username = name; password_hash = hash } ∷ us, some 1);
  list_groups = λ u us. some [];
  taken = λ name us. inr refl;
  created = first_created;
}

-- A hash that hides nothing.
abbrev pub plain : Bcrypt
plain = record { generate = λ p. some p; compare = bytes_eq; accepts = plain_accepts }

abbrev pub ann : User
ann = record { id = 1; username = codes "ann"; password_hash = codes "pw" }

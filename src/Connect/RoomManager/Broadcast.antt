-- ===== src/Connect/RoomManager/Broadcast.antt =====
-- Looking up a room and then broadcasting, for callers that leave the buckets shut.
use likegochat.Prelude.{ℕ, ◌≡◌, List, none, some, arith}
use likegochat.Connect.Chan.{Payload, Chans}
use likegochat.Connect.Room.{broadcast}
use likegochat.Connect.Room.Refine.{channel_of}
use likegochat.Connect.RoomManager.{RoomManager, find_room, broadcast_room}
use likegochat.Connect.RoomManager.Members.{member_of}
use likegochat.Connect.Chan.{IsBounded}
use likegochat.Connect.Room.Broadcast.{broadcast-IsBounded}
use likegochat.Prelude.{Option-cases, inl, inr}

module _ (hash32 : List ℕ → ℕ) (id : ℕ) (m : RoomManager) where
  pub broadcast_missing :
      (from : ℕ) (p : Payload) (cs : Chans)
      → find_room hash32 id m ≡ none
      → broadcast_room hash32 id from p m cs ≡ (cs, 0)
  unfolding broadcast_room
  broadcast_missing from p cs f = ground (arith, f)

  pub broadcast_found :
      (from : ℕ) (p : Payload) (cs : Chans) (r : ℕ)
      → find_room hash32 id m ≡ some r
      → broadcast_room hash32 id from p m cs ≡ broadcast from p (m.heap r) cs
  unfolding broadcast_room
  broadcast_found from p cs r f = ground (arith, f)

  pub member_of_missing : (w : ℕ) → find_room hash32 id m ≡ none → member_of hash32 id w m ≡ none
  unfolding member_of
  member_of_missing w f = ground (arith, f)

  pub member_of_found :
      (w r : ℕ) → find_room hash32 id m ≡ some r → member_of hash32 id w m ≡ channel_of w (m.heap r)
  unfolding member_of
  member_of_found w r f = ground (arith, f)

  pub broadcast_room-IsBounded :
      (from : ℕ) (p : Payload) (cs : Chans)
      → IsBounded cs
      → IsBounded (broadcast_room hash32 id from p m cs).0
  broadcast_room-IsBounded from p cs b = elim (Option-cases (find_room hash32 id m)) [
    | inl e ↦ rw (broadcast_missing from p cs e) b
    | inr (r, e) ↦ rw (broadcast_found from p cs r e) (broadcast-IsBounded from p (m.heap r) cs b)
  ]

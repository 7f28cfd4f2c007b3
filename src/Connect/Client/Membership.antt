-- ===== src/Connect/Client/Membership.antt =====
-- The rooms of the clients: a client keeps the ids of the rooms that hold its channel, so that it can
-- leave them all.
use likegochat.Connect.Room.Refine.{releases}
use likegochat.Connect.RoomManager.{RoomManager, is_nonpositive}
use text.Mathlib.Text.{◌==◌ as str_eq}
use likegochat.Connect.Chan.{has_room, Payload}
use likegochat.Prelude.{
  ◌||◌, not, inr, inl, ℕ, ◌≡◌, List, Option, ◌<◌, if◌then◌else◌, keys, Bool, some, mem, lookup,
  arith, none, false, ◌&&◌, ◌==◌, mem-keys, [], Bool-cases, inl, refl, lookup-delete, inr,
  lookup-insert, ◌^◌,
}
use likegochat.Connect.Client.{
  Node, try_send, connect, new_node, List, leave_rooms, run_command, leave_all_rooms, Option, Bool,
  some, keys, RoomManager, RoomCmd, lookup, none, false, ◌∷◌, leave_command, join_command,
  is_nonpositive, new_node,
}
use likegochat.Connect.RoomManager.Invariant.{
  Inv as ManagerInv, join_room-Inv, new_room_manager-Inv,
}
use likegochat.Connect.RoomManager.Members.{
  member_of, member_of-leave, leave_room-Inv, member_of-join, member_of-new,
}

module _ (hash32 : List ℕ → ℕ) where
  pub record Tracked (n : Node) : Type 0 where
    pub inv : ManagerInv hash32 n.manager
    pub senders : (p : ℕ) → (n.heap p).send ≡ p
    pub positive : 0 < n.next
    pub tracked :
        (id u c : ℕ)
        → member_of hash32 id u n.manager ≡ some c
        → (0 < c) × (c < n.next) × ((n.heap c).user_id ≡ u) × (lookup id (n.heap c).rooms ≡ some tt)

  -- The member's channel is that of the client `p`.
  abbrev pub is_channel : ℕ → Option ℕ → Bool
  is_channel p none = false
  is_channel p (some c) = c == p

  leave_rooms-Inv :
      (ids : List ℕ) (u s : ℕ) {m : RoomManager}
      → ManagerInv hash32 m
      → ManagerInv hash32 (leave_rooms hash32 ids u s m)
  unfolding leave_rooms
  leave_rooms-Inv [] u s v = v
  leave_rooms-Inv (id ∷ ids) u s v = leave_rooms-Inv ids u s (leave_room-Inv hash32 id u s v)

  member_of-leave_rooms :
      (ids : List ℕ) (u s j w : ℕ) {m : RoomManager}
      → ManagerInv hash32 m
      → member_of hash32 j w (leave_rooms hash32 ids u s m) ≡ (
          if mem j ids && (u == w) && releases s (member_of hash32 j w m)
          then none
          else member_of hash32 j w m)
  unfolding leave_rooms
  member_of-leave_rooms [] u s j w v = refl
  member_of-leave_rooms (id ∷ ids) u s j w {m} v = ground (
    arith,
    member_of-leave hash32 id u s j w v,
    member_of-leave_rooms ids u s j w (leave_room-Inv hash32 id u s v),
  )

  -- The user whose client leaves all its rooms is out of every room that holds the client's channel,
  -- and every other membership stays: that of another user, and that of the same user through
  -- another connection.
  pub leave_all_rooms_lem :
      (p j w : ℕ) {n : Node}
      → Tracked n
      → 0 < p
      → member_of hash32 j w (leave_all_rooms hash32 p n).manager ≡ (
          if is_channel p (member_of hash32 j w n.manager)
          then none
          else member_of hash32 j w n.manager)
  unfolding leave_all_rooms
  leave_all_rooms_lem p j w {n} v lo = ground (
    arith,
    v.tracked j w p,
    v.senders p,
    member_of-leave_rooms (keys (n.heap p).rooms) (n.heap p).user_id (n.heap p).send j w v.inv,
    mem-keys j (n.heap p).rooms {v = tt},
  )

  -- After the last command of a connection no room holds its channel.
  pub leave_all_rooms-Tracked :
      (p : ℕ) {n : Node} → Tracked n → 0 < p → Tracked (leave_all_rooms hash32 p n)
  unfolding leave_all_rooms
  leave_all_rooms-Tracked p {n} v lo = record {
    inv = leave_rooms-Inv (keys (n.heap p).rooms) (n.heap p).user_id (n.heap p).send v.inv;
    senders = λ q. ground (arith, v.senders q, v.senders p);
    positive = v.positive;
    tracked = λ id u c e. ground (arith, leave_all_rooms_lem p id u v lo, v.tracked id u c);
  }

  join_command-Tracked :
      (p id : ℕ) {n : Node} → Tracked n → 0 < p → p < n.next → Tracked (join_command hash32 p id n)
  unfolding join_command
  join_command-Tracked p id {n} v lo hi = record {
    inv = join_room-Inv hash32 id (n.heap p).user_id (n.heap p).send v.inv;
    senders = λ q. ground (arith, v.senders q, v.senders p);
    positive = v.positive;
    tracked = λ j w c e. ground (
      arith,
      v.senders p,
      v.tracked j w c,
      member_of-join hash32 id (n.heap p).user_id (n.heap p).send j w v.inv,
      lookup-insert id j tt (n.heap p).rooms,
    );
  }

  leave_command-Tracked :
      (p id : ℕ) {n : Node} → Tracked n → 0 < p → Tracked (leave_command hash32 p id n)
  unfolding leave_command
  leave_command-Tracked p id {n} v lo = record {
    inv = leave_room-Inv hash32 id (n.heap p).user_id (n.heap p).send v.inv;
    senders = λ q. ground (arith, v.senders q, v.senders p);
    positive = v.positive;
    tracked = λ j w c e. ground (
      arith,
      v.senders p,
      v.tracked j w c,
      member_of-leave hash32 id (n.heap p).user_id (n.heap p).send j w v.inv,
      lookup-delete id j (n.heap p).rooms,
    );
  }

  pub run_command-Tracked :
      (p : ℕ) (cmd : RoomCmd) {n : Node}
      → Tracked n
      → 0 < p
      → p < n.next
      → Tracked (run_command hash32 p cmd n)
  unfolding run_command
  run_command-Tracked p cmd {n} v lo hi = elim (Bool-cases (str_eq cmd.op "joinRoom")) [
    | inl a ↦ rw a (elim (Bool-cases (is_nonpositive cmd.room_id)) [
      | inl b ↦ rw b v
      | inr b ↦ rw b (join_command-Tracked p cmd.room_id v lo hi)
    ])
    | inr a ↦ rw a (elim (Bool-cases (str_eq cmd.op "leaveRoom")) [
      | inl d ↦ rw d (elim (Bool-cases (is_nonpositive cmd.room_id)) [
        | inl b ↦ rw b v
        | inr b ↦ rw b (leave_command-Tracked p cmd.room_id v lo)
      ])
      | inr d ↦ rw d v
    ])
  ]

  pub new_node-Tracked : (k : ℕ) → k < 2 ^ 32 → Tracked (new_node k)
  unfolding new_node
  new_node-Tracked k h = record {
    inv = new_room_manager-Inv hash32 k h;
    senders = λ p. refl;
    positive = omega arith;
    tracked = λ id u c e. absurd (ground (arith, member_of-new hash32 k id u, e));
  }

  connect_manager : (u : ℕ) (n : Node) → (connect u n).manager ≡ n.manager
  unfolding connect
  connect_manager u n = ground arith

  pub connect-Tracked : (u : ℕ) {n : Node} → Tracked n → Tracked (connect u n)
  unfolding connect
  connect-Tracked u {n} v = record {
    inv = rw (connect_manager u n) v.inv;
    senders = λ q. ground (arith, v.senders q);
    positive = ground (arith, v.positive);
    tracked = λ id w c e. ground (arith, connect_manager u n, v.tracked id w c);
  }

  pub try_send-Tracked :
      (b : Bool) (p : ℕ) (payload : Payload) {n : Node}
      → Tracked n
      → Tracked (try_send b p payload n).0
  unfolding try_send
  try_send-Tracked b p payload {n} v =
      elim (Bool-cases ((n.heap p).once && (b || not (has_room n.chans (n.heap p).send)))) [
        | inl e ↦ rw e v
        | inr e ↦ rw e (record {
          inv = v.inv;
          senders = v.senders;
          positive = v.positive;
          tracked = v.tracked;
        })
      ]

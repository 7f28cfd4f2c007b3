-- ===== src/Connect/RoomManager/Members.antt =====
-- Who is in which room, under each section of `JoinRoom` and `LeaveRoom`, and under whole calls.
use likegochat.Connect.RoomManager.Held.{Held, find-Held}
use likegochat.Prelude.{
  ℕ, ◌≡◌, refl, Bool, true, false, ◌&&◌, List, Option, none, some, arith, inl, inr, Option-cases,
  Bool-cases, ◌==◌, if◌then◌else◌,
}
use likegochat.Connect.Room.{new_room, is_vacant}
use likegochat.Connect.Room.Refine.{
  channel_of, channel_of-join, channel_of-leave, releases, channel_of_vacant, new_room-IsConsistent,
}
use likegochat.Connect.RoomManager.{
  RoomManager, new_room_manager, find_room, drop_room, create_room, join_at, join_room,
  leave_member, reclaim_room, leave_room,
}
use likegochat.Connect.RoomManager.Buckets.{
  find_room-new, find_room-drop, find_room-join_at, find_room-leave_member,
}
use likegochat.Connect.RoomManager.Invariant.{
  Inv, find_room-create, create_room-Inv, leave_member-Inv, reclaim_room-Inv,
}

module _ (hash32 : List ℕ → ℕ) where
  -- The channel of user `u` in room `id`.
  unfoldable pub member_of : ℕ → ℕ → RoomManager → Option ℕ
  member_of id u m = elim (find_room hash32 id m) [ none ↦ none | some r ↦ channel_of u (m.heap r) ]

  -- The bucket of `id` has the room at `r`.
  pub is_bound : ℕ → ℕ → RoomManager → Bool
  is_bound id r m = elim (find_room hash32 id m) [ none ↦ false | some q ↦ q == r ]

  pub member_of-new : (k id u : ℕ) → member_of id u (new_room_manager k) ≡ none
  unfolding member_of
  member_of-new k id u = rw (find_room-new hash32 k id, member_of)

  new_room_vacant : is_vacant new_room ≡ true
  unfolding new_room
  new_room_vacant = refl

  pub heap-create :
      (id q : ℕ) (m : RoomManager)
      → (create_room hash32 id m).heap q ≡ (if m.next_room == q then new_room else m.heap q)
  unfolding create_room
  heap-create id q m = refl

  is_bound_found :
      (id r : ℕ) (m : RoomManager) → find_room hash32 id m ≡ some r → is_bound id r m ≡ true
  unfolding is_bound
  is_bound_found id r m e = ground (arith, e)

  pub heap-drop : (id q : ℕ) (m : RoomManager) → (drop_room hash32 id m).heap q ≡ m.heap q
  unfolding drop_room
  heap-drop id q m = refl

  join_at_members :
      (id r u s j w : ℕ) {m : RoomManager}
      → Inv hash32 m
      → find_room hash32 id m ≡ some r
      → member_of j w (join_at r u s m)
        ≡ (if (id == j) && (u == w) then some s else member_of j w m)
  unfolding member_of join_at
  join_at_members id r u s j w {m} v e = elim (Option-cases (find_room hash32 j m)) [
    | inl n ↦ ground (arith, n, e, find_room-join_at hash32 r u s j m)
    | inr (q, f) ↦ ground (
      arith,
      e,
      f,
      find_room-join_at hash32 r u s j m,
      v.apart id j r e,
      channel_of-join u s (v.consistent r) w,
    )
  ]

  member_of_created :
      (id j w : ℕ) {m : RoomManager}
      → Inv hash32 m
      → find_room hash32 id m ≡ none
      → member_of j w (create_room hash32 id m) ≡ member_of j w m
  unfolding member_of
  member_of_created id j w {m} v e = elim (Option-cases (find_room hash32 j m)) [
    | inl n ↦ ground (
      arith,
      find_room-create hash32 id j m v.sized,
      channel_of_vacant new_room-IsConsistent new_room_vacant w,
      heap-create id m.next_room m,
    )
    | inr (q, f) ↦
        ground (arith, find_room-create hash32 id j m v.sized, v.made j q f, heap-create id q m)
  ]

  -- Joining sets the channel of that user in that room, and nothing else.
  pub member_of-join :
      (id u s j w : ℕ) {m : RoomManager}
      → Inv hash32 m
      → member_of j w (join_room hash32 id u s m)
        ≡ (if (id == j) && (u == w) then some s else member_of j w m)
  unfolding join_room
  member_of-join id u s j w {m} v = elim (Option-cases (find_room hash32 id m)) [
    | inl e ↦
        rw (e, join_room)
          (ground (
            arith,
            join_at_members id m.next_room u s j w (create_room-Inv hash32 id v e)
                (ground (arith, find_room-create hash32 id id m v.sized)),
            member_of_created id j w v e,
          ))
    | inr (r, e) ↦ rw (e, join_room) (join_at_members id r u s j w v e)
  ]

  -- A late leave takes the user out of the room that it has found, if a bucket still has that room,
  -- and only if the expected channel is the user's own or nil.
  pub member_of-leave_member :
      (id r u s j w : ℕ) {m : RoomManager}
      → Inv hash32 m
      → Held hash32 id r m
      → member_of j w (leave_member r u s m).0 ≡ (
          if (id == j) && (u == w) && is_bound id r m && releases s (member_of j w m)
          then none
          else member_of j w m)
  unfolding member_of leave_member is_bound
  member_of-leave_member id r u s j w {m} v h = elim (Option-cases (find_room hash32 j m)) [
    | inl n ↦ ground (arith, n, find_room-leave_member hash32 r u s j m)
    | inr (q, f) ↦ ground (
      arith,
      f,
      find_room-leave_member hash32 r u s j m,
      h.sole j,
      v.apart id j r,
      channel_of-leave u s w (m.heap r),
    )
  ]

  member_of_dropped :
      (id q j w : ℕ) {m : RoomManager}
      → Inv hash32 m
      → find_room hash32 id m ≡ some q
      → is_vacant (m.heap q) ≡ true
      → member_of j w (drop_room hash32 id m) ≡ member_of j w m
  unfolding member_of
  member_of_dropped id q j w {m} v e empty = elim (Option-cases (find_room hash32 j m)) [
    | inl n ↦ ground (arith, n, find_room-drop hash32 id j m v.sized)
    | inr (p, f) ↦ ground (
      arith,
      f,
      e,
      find_room-drop hash32 id j m v.sized,
      channel_of_vacant (v.consistent q) empty w,
      heap-drop id p m,
    )
  ]

  -- Deleting a room takes nobody out.
  pub member_of-reclaim :
      (id r j w : ℕ) {m : RoomManager}
      → Inv hash32 m
      → member_of j w (reclaim_room hash32 id r m) ≡ member_of j w m
  unfolding reclaim_room
  member_of-reclaim id r j w {m} v = elim (Option-cases (find_room hash32 id m)) [
    | inl e ↦ rw (e, reclaim_room)
    | inr (q, e) ↦
        rw (e, reclaim_room)
          (elim (Bool-cases ((q == r) && is_vacant (m.heap q))) [
            | inl h ↦ rw h (member_of_dropped id q j w v e (ground arith))
            | inr h ↦ rw h
          ])
  ]

  pub leave_room-Inv :
      (id u s : ℕ) {m : RoomManager} → Inv hash32 m → Inv hash32 (leave_room hash32 id u s m)
  unfolding leave_room
  leave_room-Inv id u s {m} v = elim (Option-cases (find_room hash32 id m)) [
    | inl e ↦ rw (e, leave_room) v
    | inr (r, e) ↦
        rw (e, leave_room)
          (elim (Bool-cases (leave_member r u s m).1) [
            | inl h ↦ rw h (reclaim_room-Inv hash32 id r (leave_member-Inv hash32 r u s v))
            | inr h ↦ rw h (leave_member-Inv hash32 r u s v)
          ])
  ]

  -- A whole leave takes out that user of that room, if the expected channel is its own or nil.
  pub member_of-leave :
      (id u s j w : ℕ) {m : RoomManager}
      → Inv hash32 m
      → member_of j w (leave_room hash32 id u s m)
        ≡ (if (id == j) && (u == w) && releases s (member_of j w m) then none else member_of j w m)
  unfolding leave_room
  member_of-leave id u s j w {m} v = elim (Option-cases (find_room hash32 id m)) [
    | inl e ↦ rw (e, leave_room) (unfold member_of in ground (arith, e))
    | inr (r, e) ↦
        rw (e, leave_room)
          (ground (
            arith,
            e,
            is_bound_found id r m e,
            member_of-leave_member id r u s j w v (find-Held hash32 id r v e),
            member_of-reclaim id r j w (leave_member-Inv hash32 r u s v),
          ))
  ]

-- ===== src/Connect/RoomManager/Invariant.antt =====
-- What holds of the manager between any two sections of its calls.
use likegochat.Prelude.{
  ℕ, ◌<◌, ◌≡◌, ◌≢◌, true, List, none, some, arith, inl, inr, Option-cases, Bool-cases, ◌==◌,
  if◌then◌else◌, ◌^◌, ◌&&◌,
}
use likegochat.Connect.Room.{Room, new_room, is_vacant}
use likegochat.Connect.Room.Refine.{
  IsConsistent, new_room-IsConsistent, join-IsConsistent, leave-IsConsistent, leave_vacant,
}
use likegochat.Connect.RoomManager.{
  RoomManager, find_room, drop_room, write_room, create_room, join_at, join_room, leave_member,
  reclaim_room, new_room_manager, bucket_by_room_id,
}
use likegochat.Connect.RoomManager.Buckets.{
  IsSized, find_room-new, find_room-bind, find_room-drop, new_room_manager-IsSized,
  drop_room-IsSized, bind_room-IsSized,
}

module _ (hash32 : List ℕ → ℕ) where
  -- No bucket leads to the room at `r`.
  abbrev pub IsDetached : ℕ → RoomManager → Type 0
  IsDetached r m = (id : ℕ) → find_room hash32 id m ≢ some r

  pub record Inv (m : RoomManager) : Type 0 where
    pub sized : IsSized m
    pub made : (id r : ℕ) → find_room hash32 id m ≡ some r → r < m.next_room
    pub apart : (i j r : ℕ) → find_room hash32 i m ≡ some r → find_room hash32 j m ≡ some r → i ≡ j
    pub consistent : (r : ℕ) → IsConsistent (m.heap r)
    pub detached : (r : ℕ) → r < m.next_room → IsDetached r m → is_vacant (m.heap r) ≡ true

  pub find_room-create :
      (id j : ℕ) (m : RoomManager)
      → IsSized m
      → find_room hash32 j (create_room hash32 id m)
        ≡ (if id == j then some m.next_room else find_room hash32 j m)
  unfolding create_room find_room bucket_by_room_id
  find_room-create id j m h = find_room-bind hash32 id m.next_room j m h

  write_room-Inv :
      (r : ℕ) (room : Room) {m : RoomManager}
      → Inv m
      → IsConsistent room
      → (r < m.next_room → IsDetached r m → is_vacant room ≡ true)
      → Inv (write_room r room m)
  unfolding write_room find_room bucket_by_room_id
  write_room-Inv r room {m} v c d = record {
    sized = v.sized;
    made = v.made;
    apart = v.apart;
    consistent = λ q. elim (Bool-cases (r == q)) [ inl e ↦ rw e c | inr e ↦ rw e (v.consistent q) ];
    detached = λ q lt free. ground (arith, d, v.detached q lt free);
  }

  pub create_room-Inv :
      (id : ℕ) {m : RoomManager}
      → Inv m
      → find_room hash32 id m ≡ none
      → Inv (create_room hash32 id m)
  unfolding create_room new_room
  create_room-Inv id {m} v e = record {
    sized = bind_room-IsSized hash32 id m.next_room m v.sized;
    made = λ j r f. ground (arith, find_room-create id j m v.sized, v.made j r);
    apart = λ i j r f g. ground (
      arith,
      find_room-create id i m v.sized,
      find_room-create id j m v.sized,
      v.made i r,
      v.made j r,
      v.apart i j r,
    );
    consistent = λ q. elim (Bool-cases (m.next_room == q)) [
      | inl h ↦ rw h new_room-IsConsistent
      | inr h ↦ rw h (v.consistent q)
    ];
    detached = λ q lt free. elim (Bool-cases (m.next_room == q)) [
      | inl h ↦ rw h
      | inr h ↦ rw h (
          v.detached q (ground arith)
            (λ j f. ground (arith, free j, find_room-create id j m v.sized)))
    ];
  }

  -- A room that a bucket holds is not detached, so joining it is safe.
  join_at-Inv :
      (id r u s : ℕ) {m : RoomManager}
      → Inv m
      → find_room hash32 id m ≡ some r
      → Inv (join_at r u s m)
  unfolding join_at
  join_at-Inv id r u s v e =
      write_room-Inv r _ v (join-IsConsistent u s (v.consistent r)) (λ lt free. absurd (free id e))

  pub join_room-Inv : (id u s : ℕ) {m : RoomManager} → Inv m → Inv (join_room hash32 id u s m)
  unfolding join_room
  join_room-Inv id u s {m} v = elim (Option-cases (find_room hash32 id m)) [
    | inl e ↦
        rw (e, join_room)
          (join_at-Inv id m.next_room u s (create_room-Inv id v e)
            (ground (arith, find_room-create id id m v.sized)))
    | inr (r, e) ↦ rw (e, join_room) (join_at-Inv id r u s v e)
  ]

  pub leave_member-Inv : (r u s : ℕ) {m : RoomManager} → Inv m → Inv (leave_member r u s m).0
  unfolding leave_member
  leave_member-Inv r u s {m} v =
      write_room-Inv r _ v (leave-IsConsistent u s (v.consistent r))
        (λ lt free. leave_vacant u s (m.heap r) (v.detached r lt free))

  drop_room-Inv :
      (id r : ℕ) {m : RoomManager}
      → Inv m
      → find_room hash32 id m ≡ some r
      → is_vacant (m.heap r) ≡ true
      → Inv (drop_room hash32 id m)
  unfolding drop_room
  drop_room-Inv id r {m} v e empty = record {
    sized = drop_room-IsSized hash32 id m v.sized;
    made = λ j q f. ground (arith, find_room-drop hash32 id j m v.sized, v.made j q);
    apart = λ i j q f g. ground (
      arith,
      find_room-drop hash32 id i m v.sized,
      find_room-drop hash32 id j m v.sized,
      v.apart i j q,
    );
    consistent = v.consistent;
    detached = λ q lt free. elim (Bool-cases (r == q)) [
      | inl h ↦ ground arith
      | inr h ↦
          v.detached q lt (λ j f. ground (arith, free j, find_room-drop hash32 id j m v.sized))
    ];
  }

  pub reclaim_room-Inv : (id r : ℕ) {m : RoomManager} → Inv m → Inv (reclaim_room hash32 id r m)
  unfolding reclaim_room
  reclaim_room-Inv id r {m} v = elim (Option-cases (find_room hash32 id m)) [
    | inl e ↦ rw (e, reclaim_room) v
    | inr (q, e) ↦
        rw (e, reclaim_room)
          (elim (Bool-cases ((q == r) && is_vacant (m.heap q))) [
            | inl h ↦ rw h (drop_room-Inv id q v e (ground arith))
            | inr h ↦ rw h v
          ])
  ]

  pub new_room_manager-Inv : (n : ℕ) → n < 2 ^ 32 → Inv (new_room_manager n)
  unfolding new_room_manager
  new_room_manager-Inv n h = record {
    sized = new_room_manager-IsSized n h;
    made = λ id r e. ground (arith, find_room-new hash32 n id);
    apart = λ i j r e f. ground (arith, find_room-new hash32 n i);
    consistent = λ r. new_room-IsConsistent;
    detached = λ r lt free. absurd (omega arith);
  }

-- ===== src/Connect/RoomManager/Occupied.antt =====
-- Empty rooms in the buckets, when the sections of a call are not interleaved.
use likegochat.Prelude.{
  ℕ, ◌≡◌, ◌≢◌, true, false, List, some, arith, inl, inr, Option-cases, Bool-cases, ◌⊎◌,
}
use likegochat.Connect.Room.{is_vacant}
use likegochat.Connect.Room.Refine.{leave_result, join_occupied}
use likegochat.Connect.RoomManager.{
  RoomManager, find_room, drop_room, join_at, join_room, leave_member, reclaim_room, leave_room,
}
use likegochat.Connect.RoomManager.Buckets.{
  find_room-drop, find_room-join_at, find_room-leave_member,
}
use likegochat.Connect.RoomManager.Invariant.{
  Inv, find_room-create, create_room-Inv, leave_member-Inv,
}
use likegochat.Connect.RoomManager.Members.{heap-create, heap-drop}

module _ (hash32 : List ℕ → ℕ) where
  abbrev pub IsOccupied : RoomManager → Type 0
  IsOccupied m = (id r : ℕ) → find_room hash32 id m ≡ some r → is_vacant (m.heap r) ≡ false

  join_at-IsOccupied :
      (r u s : ℕ) {m : RoomManager}
      → Inv hash32 m
      → ((j q : ℕ) → find_room hash32 j m ≡ some q → (q ≡ r) ⊎ (is_vacant (m.heap q) ≡ false))
      → IsOccupied (join_at r u s m)
  unfolding join_at
  join_at-IsOccupied r u s {m} v others j q f =
      ground
        (arith, others j q, find_room-join_at hash32 r u s j m, join_occupied u s (v.consistent r))

  pub join_room-IsOccupied :
      (id u s : ℕ) {m : RoomManager}
      → Inv hash32 m
      → IsOccupied m
      → IsOccupied (join_room hash32 id u s m)
  unfolding join_room
  join_room-IsOccupied id u s {m} v o = elim (Option-cases (find_room hash32 id m)) [
    | inl e ↦
        rw (e, join_room)
          (join_at-IsOccupied m.next_room u s (create_room-Inv hash32 id v e) (λ j q f.
            ground
              (arith, o j q, find_room-create hash32 id j m v.sized, heap-create hash32 id q m)))
    | inr (r, e) ↦ rw (e, join_room) (join_at-IsOccupied r u s v (λ j q f. inr (o j q f)))
  ]

  -- The room at `r` after a leave is the only one that may have become empty.
  left_occupied :
      (r u s : ℕ) (m : RoomManager)
      → IsOccupied m
      → (j q : ℕ) → find_room hash32 j (leave_member r u s m).0 ≡ some q
      → (q ≢ r) ⊎ ((leave_member r u s m).1 ≡ false)
      → is_vacant ((leave_member r u s m).0.heap q) ≡ false
  unfolding leave_member
  left_occupied r u s m o j q f d =
      ground (arith, o j q, find_room-leave_member hash32 r u s j m, leave_result u s (m.heap r))

  leave_reclaims :
      (id r u s : ℕ) (m : RoomManager)
      → find_room hash32 id m ≡ some r
      → (leave_member r u s m).1 ≡ true
      → reclaim_room hash32 id r (leave_member r u s m).0
        ≡ drop_room hash32 id (leave_member r u s m).0
  unfolding reclaim_room leave_member
  leave_reclaims id r u s m e h =
      ground (arith, find_room-leave_member hash32 r u s id m, leave_result u s (m.heap r))

  -- Once `id` is dropped, no bucket has the room that it led to.
  dropped_elsewhere :
      (id r j q : ℕ) (m : RoomManager)
      → Inv hash32 m
      → find_room hash32 id m ≡ some r
      → find_room hash32 j (drop_room hash32 id m) ≡ some q
      → (find_room hash32 j m ≡ some q) × (q ≢ r)
  dropped_elsewhere id r j q m v e f = (
    ground (arith, find_room-drop hash32 id j m v.sized),
    λ same. ground (arith, find_room-drop hash32 id j m v.sized, v.apart id j r e),
  )

  pub leave_room-IsOccupied :
      (id u s : ℕ) {m : RoomManager}
      → Inv hash32 m
      → IsOccupied m
      → IsOccupied (leave_room hash32 id u s m)
  unfolding leave_room
  leave_room-IsOccupied id u s {m} v o = elim (Option-cases (find_room hash32 id m)) [
    | inl e ↦ rw (e, leave_room) o
    | inr (r, e) ↦
        rw (e, leave_room)
          (elim (Bool-cases (leave_member r u s m).1) [
            | inl h ↦
                rw (h, leave_reclaims id r u s m e h)
                  (λ j q f.
                    let (g, ne) =
                      dropped_elsewhere id r j q (leave_member r u s m).0
                        (leave_member-Inv hash32 r u s v)
                        (rw (find_room-leave_member hash32 r u s id m) e) f in
                    rw (heap-drop hash32 id q (leave_member r u s m).0)
                      (left_occupied r u s m o j q g (inl ne)))
            | inr h ↦ rw h (λ j q f. left_occupied r u s m o j q f (inr h))
          ])
  ]

-- ===== src/Connect/RoomManager/Held.antt =====
-- What a call of `LeaveRoom` may rely on between its sections.
use likegochat.Prelude.{
  ℕ, suc, ◌<◌, ◌≡◌, refl, List, some, arith, Option-cases, inl, inr, Bool-cases, ◌==◌, ◌&&◌,
}
use likegochat.Connect.Room.{is_vacant}
use likegochat.Connect.RoomManager.{
  RoomManager, find_room, create_room, drop_room, join_at, join_room, leave_member, reclaim_room,
  some,
}
use likegochat.Connect.RoomManager.Buckets.{
  find_room-drop, find_room-join_at, find_room-leave_member,
}
use likegochat.Connect.RoomManager.Invariant.{Inv, find_room-create}

module _ (hash32 : List ℕ → ℕ) where
  -- What a call that has looked up `id` and found `r` may rely on later.
  pub record Held (id r : ℕ) (m : RoomManager) : Type 0 where
    pub allocated : r < m.next_room
    pub sole : (j : ℕ) → find_room hash32 j m ≡ some r → j ≡ id

  pub find-Held :
      {m : RoomManager} (id r : ℕ) → Inv hash32 m → find_room hash32 id m ≡ some r → Held id r m
  find-Held id r v e = record { allocated = v.made id r e; sole = λ j f. v.apart j id r f e }

  create_room-next :
      (id : ℕ) (m : RoomManager) → (create_room hash32 id m).next_room ≡ suc m.next_room
  unfolding create_room
  create_room-next id m = refl

  pub join_room-Held :
      (id u s i r : ℕ) {m : RoomManager}
      → Inv hash32 m
      → Held i r m
      → Held i r (join_room hash32 id u s m)
  unfolding join_room join_at
  join_room-Held id u s i r {m} v h = elim (Option-cases (find_room hash32 id m)) [
    | inl e ↦
        rw (e, join_room)
          (record {
            allocated = omega (arith, h.allocated, create_room-next id m);
            sole = λ j f. ground (
              arith,
              find_room-join_at hash32 m.next_room u s j (create_room hash32 id m),
              find_room-create hash32 id j m v.sized,
              h.allocated,
              h.sole j,
            );
          })
    | inr (q, e) ↦
        rw (e, join_room)
          (record {
            allocated = h.allocated;
            sole = λ j f. ground (arith, find_room-join_at hash32 q u s j m, h.sole j);
          })
  ]

  pub leave_member-Held :
      (q u s i r : ℕ) {m : RoomManager} → Held i r m → Held i r (leave_member q u s m).0
  unfolding leave_member
  leave_member-Held q u s i r {m} h = record {
    allocated = h.allocated;
    sole = λ j f. ground (arith, find_room-leave_member hash32 q u s j m, h.sole j);
  }

  pub reclaim_room-Held :
      (id q i r : ℕ) {m : RoomManager}
      → Inv hash32 m
      → Held i r m
      → Held i r (reclaim_room hash32 id q m)
  unfolding reclaim_room drop_room
  reclaim_room-Held id q i r {m} v h = elim (Option-cases (find_room hash32 id m)) [
    | inl e ↦ rw (e, reclaim_room) h
    | inr (p, e) ↦
        rw (e, reclaim_room)
          (elim (Bool-cases ((p == q) && is_vacant (m.heap p))) [
            | inl b ↦ rw b (record {
              allocated = h.allocated;
              sole = λ j f. ground (arith, find_room-drop hash32 id j m v.sized, h.sole j);
            })
            | inr b ↦ rw b h
          ])
  ]

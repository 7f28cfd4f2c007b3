-- ===== src/Connect/Room/Refine.antt =====
-- The list and the index of a room agree, and together they are a finite map from user to channel.
use likegochat.Prelude.{
  ℕ, ◌≤◌, ◌<◌, ◌≡◌, refl, ◌↔◌, Bool, true, false, not, ◌&&◌, List, [], ◌∷◌, Option, none, some,
  arith, lookup, lookup-insert, lookup-delete, count, count-append, count-remove_first,
  is_empty-count, ◌==◌, if◌then◌else◌, is_empty-remove_first, Bool-cases, inl, inr,
}
use likegochat.Connect.Room.{Room, new_room, join, nil_chan, is_vacant, leave}

pub record IsConsistent (r : Room) : Type 0 where
  pub indexed :
      (u e : ℕ) → lookup u r.index ≡ some e → (count e r.members ≡ 1) × ((r.elems e).user_id ≡ u)
  pub listed : (e : ℕ) → 0 < count e r.members → lookup (r.elems e).user_id r.index ≡ some e
  pub fresh : (e : ℕ) → r.next ≤ e → count e r.members ≡ 0

-- What the room promises its callers: the channel of each member.
unfoldable pub channel_of : ℕ → Room → Option ℕ
channel_of u r = elim (lookup u r.index) [ none ↦ none | some e ↦ some (r.elems e).send ]

-- The element of a user, or 0.
abbrev unwrap_or : Option ℕ → ℕ
unwrap_or none = 0
unwrap_or (some e) = e

pub new_room-IsConsistent : IsConsistent new_room
unfolding new_room lookup
new_room-IsConsistent = record {
  indexed = λ u e h. ground arith;
  listed = λ e h. ground arith;
  fresh = λ e h. refl;
}

module _ (u s : ℕ) {r : Room} (c : IsConsistent r) where
  open c use {indexed, listed, fresh}

  join-indexed :
      (v e : ℕ)
      → lookup v (join u s r).index ≡ some e
      → (count e (join u s r).members ≡ 1) × (((join u s r).elems e).user_id ≡ v)
  unfolding join
  join-indexed v e h = ground (
    arith,
    indexed v e,
    indexed u e,
    lookup-insert u v r.next r.index,
    count-append e r.members (r.next ∷ []),
    fresh e,
  )

  join-listed :
      (e : ℕ)
      → 0 < count e (join u s r).members
      → lookup ((join u s r).elems e).user_id (join u s r).index ≡ some e
  unfolding join
  join-listed e h = ground (
    arith,
    listed e,
    lookup-insert u u r.next r.index,
    lookup-insert u (r.elems e).user_id r.next r.index,
    count-append e r.members (r.next ∷ []),
    fresh e,
  )

  join-fresh : (e : ℕ) → (join u s r).next ≤ e → count e (join u s r).members ≡ 0
  unfolding join
  join-fresh e h = ground (arith, fresh e, count-append e r.members (r.next ∷ []))

  pub join-IsConsistent : IsConsistent (join u s r)
  join-IsConsistent = record { indexed = join-indexed; listed = join-listed; fresh = join-fresh }

  -- Joining sets the user's own channel and no other.
  pub channel_of-join :
      (v : ℕ) → channel_of v (join u s r) ≡ (if u == v then some s else channel_of v r)
  unfolding channel_of join
  channel_of-join v = ground (
    arith,
    lookup-insert u v r.next r.index,
    indexed u (unwrap_or (lookup u r.index)),
    indexed v (unwrap_or (lookup v r.index)),
    fresh (unwrap_or (lookup v r.index)),
  )

module _ (u x : ℕ) {r : Room} (c : IsConsistent r) where
  open c use {indexed, listed, fresh}

  abbrev own : ℕ
  own = unwrap_or (lookup u r.index)

  leave-indexed :
      (v e : ℕ)
      → lookup v (leave u x r).0.index ≡ some e
      → (count e (leave u x r).0.members ≡ 1) × (((leave u x r).0.elems e).user_id ≡ v)
  unfolding leave
  leave-indexed v e h = ground (
    arith,
    indexed v e,
    indexed u own,
    lookup-delete u v r.index,
    count-remove_first own e r.members,
  )

  leave-listed :
      (e : ℕ)
      → 0 < count e (leave u x r).0.members
      → lookup ((leave u x r).0.elems e).user_id (leave u x r).0.index ≡ some e
  unfolding leave
  leave-listed e h = ground (
    arith,
    listed e,
    indexed u own,
    lookup-delete u (r.elems e).user_id r.index,
    count-remove_first own e r.members,
  )

  leave-fresh : (e : ℕ) → (leave u x r).0.next ≤ e → count e (leave u x r).0.members ≡ 0
  unfolding leave
  leave-fresh e h = ground (arith, fresh e, count-remove_first own e r.members)

  pub leave-IsConsistent : IsConsistent (leave u x r).0
  leave-IsConsistent = record {
    indexed = leave-indexed;
    listed = leave-listed;
    fresh = leave-fresh;
  }

-- A leave that expects the channel `x` releases a member with channel `o`.
abbrev pub releases : ℕ → Option ℕ → Bool
releases x none = false
releases x (some d) = not (not (x == nil_chan) && not (d == x))

-- Leaving takes the user out if the expected channel is its own or nil, and else changes nothing.
pub channel_of-leave :
    (u x v : ℕ) (r : Room)
    → channel_of v (leave u x r).0
      ≡ (if (u == v) && releases x (channel_of u r) then none else channel_of v r)
unfolding channel_of leave
channel_of-leave u x v r = ground (arith, lookup-delete u v r.index)

module _ {r : Room} (c : IsConsistent r) where
  open c use {indexed, listed}

  -- An empty member list means that nobody is a member.
  pub channel_of_vacant : is_vacant r ≡ true → (v : ℕ) → channel_of v r ≡ none
  unfolding channel_of
  channel_of_vacant h v = ground (
    arith,
    indexed v (unwrap_or (lookup v r.index)),
    is_empty-count (unwrap_or (lookup v r.index)) r.members h,
  )

  pub vacant_of_channels : ((v : ℕ) → channel_of v r ≡ none) → is_vacant r ≡ true
  unfolding channel_of
  vacant_of_channels h = all_listed r.members refl
    where
      all_listed : (es : List ℕ) → r.members ≡ es → is_vacant r ≡ true
      all_listed [] q = ground (arith)
      all_listed (e ∷ es) q = ground (arith, listed e, h (r.elems e).user_id)

-- `Leave` looks at the list that it leaves behind.
pub leave_result : (u x : ℕ) (r : Room) → (leave u x r).1 ≡ is_vacant (leave u x r).0
unfolding leave
leave_result u x r = ground arith

-- Whoever joins is in the room.
pub join_occupied : (u x : ℕ) {r : Room} → IsConsistent r → is_vacant (join u x r) ≡ false
join_occupied u x {r} c = elim (Bool-cases (is_vacant (join u x r))) [
  | inl h ↦ ground (arith, channel_of_vacant (join-IsConsistent u x c) h u, channel_of-join u x c u)
  | inr h ↦ h
]

-- An empty room stays empty.
pub leave_vacant : (u x : ℕ) (r : Room) → is_vacant r ≡ true → is_vacant (leave u x r).0 ≡ true
unfolding leave
leave_vacant u x r h =
    ground (arith, is_empty-remove_first (unwrap_or (lookup u r.index)) r.members)

-- `Leave` reports whether the room is left without members.
pub leave_reports_empty :
    (u x : ℕ) {r : Room}
    → IsConsistent r
    → ((leave u x r).1 ≡ true) ↔ ((v : ℕ) → channel_of v (leave u x r).0 ≡ none)
leave_reports_empty u x {r} c = (
  λ h. channel_of_vacant (leave-IsConsistent u x c) (rw (← leave_result u x r) h),
  λ h. rw (leave_result u x r) (vacant_of_channels (leave-IsConsistent u x c) h),
)

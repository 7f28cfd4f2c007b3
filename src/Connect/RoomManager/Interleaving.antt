-- ===== src/Connect/RoomManager/Interleaving.antt =====
-- Calls of `JoinRoom` and `LeaveRoom` from many goroutines. `JoinRoom` holds the bucket's lock from
-- its lookup to its end; `LeaveRoom` has three sections, and other calls may come between them.
use likegochat.Connect.Room.Refine.{releases}
use likegochat.Connect.RoomManager.Members.{
  is_bound, member_of, member_of-join, member_of-leave_member, member_of-reclaim,
}
use likegochat.Connect.RoomManager.Held.{
  Held, join_room-Held, find-Held, leave_member-Held, reclaim_room-Held,
}
use likegochat.Prelude.{
  ℕ, ◌≡◌, List, [], ◌∷◌, some, update, if◌then◌else◌, Bool-cases, ◌==◌, inl, inr, Bool, false,
  Option, arith, ◌&&◌, true, ◌∙◌, none, refl,
}
use likegochat.Connect.RoomManager.{
  RoomManager, find_room, join_room, leave_member, reclaim_room, Bool, false, Option, none,
}
use likegochat.Connect.RoomManager.Invariant.{
  Inv, join_room-Inv, leave_member-Inv, reclaim_room-Inv,
}

-- Where a goroutine stands in `LeaveRoom`, with its local variables.
pub data Pc : Type 0 where
  idle : Pc
  found : (room_id user_id send r : ℕ) → Pc  -- before `r.Leave`
  emptied : (room_id r : ℕ) → Pc  -- before the write lock

pub record System : Type 0 where
  pub mgr : RoomManager
  pub pc : ℕ → Pc

pub data Event : Type 0 where
  joined : (room_id user_id send : ℕ) → Event
  looked : Event
  left : (room_id user_id send r : ℕ) → Event
  reclaimed : Event

module _ (hash32 : List ℕ → ℕ) where
  pub data Step (t : System) : Event → System → Type 0 where
    joins :
        (i id u s : ℕ)
        → t.pc i ≡ idle
        → Step t (joined id u s) (record t { mgr = join_room hash32 id u s t.mgr })
    looks :
        (i id u s r : ℕ)
        → t.pc i ≡ idle
        → find_room hash32 id t.mgr ≡ some r
        → Step t looked (record t { pc = update t.pc i (found id u s r) })
    leaves :
        (i id u s r : ℕ)
        → t.pc i ≡ found id u s r
        → Step t (left id u s r) (record t {
          mgr = (leave_member r u s t.mgr).0;
          pc = update t.pc i (if (leave_member r u s t.mgr).1 then emptied id r else idle);
        })
    reclaims :
        (i id r : ℕ)
        → t.pc i ≡ emptied id r
        → Step t reclaimed
            (record t { mgr = reclaim_room hash32 id r t.mgr; pc = update t.pc i idle })

  pub data Run (t : System) : List Event → System → Type 0 where
    start : Run t [] t
    next : {es : List Event} {e : Event} {p q : System} → Run t es p → Step p e q → Run t (e ∷ es) q

  -- What the locals of a goroutine say about the manager.
  abbrev pub PcHeld : RoomManager → Pc → Type 0
  PcHeld m idle = Unit {0}
  PcHeld m (found id u s r) = Held hash32 id r m
  PcHeld m (emptied id r) = Unit {0}

  pub record IsSafe (t : System) : Type 0 where
    pub inv : Inv hash32 t.mgr
    pub held : (i : ℕ) → PcHeld t.mgr (t.pc i)

  PcHeld-update :
      (m : RoomManager) (pc : ℕ → Pc)
      → ((j : ℕ) → PcHeld m (pc j))
      → (i : ℕ) (p : Pc) → PcHeld m p
      → (j : ℕ) → PcHeld m (update pc i p j)
  PcHeld-update m pc old i p h j = elim (Bool-cases (i == j)) [
    | inl e ↦ rw e h
    | inr e ↦ rw e (old j)
  ]

  PcHeld-map :
      (m n : RoomManager)
      → ((id r : ℕ) → Held hash32 id r m → Held hash32 id r n)
      → (p : Pc) → PcHeld m p
      → PcHeld n p
  PcHeld-map m n f idle h = tt
  PcHeld-map m n f (found id u s r) h = f id r h
  PcHeld-map m n f (emptied id r) h = tt

  PcHeld-left :
      (m : RoomManager) (id r : ℕ) (b : Bool) → PcHeld m (if b then emptied id r else idle)
  PcHeld-left m id r true = tt
  PcHeld-left m id r false = tt

  pub Step-IsSafe : {t q : System} {e : Event} → Step t e q → IsSafe t → IsSafe q
  Step-IsSafe {t} (joins i id u s idle_i) v = record {
    inv = join_room-Inv hash32 id u s v.inv;
    held = λ j.
        PcHeld-map t.mgr (join_room hash32 id u s t.mgr)
          (λ a r. join_room-Held hash32 id u s a r v.inv) (t.pc j) (v.held j);
  }
  Step-IsSafe {t} (looks i id u s r idle_i f) v = record {
    inv = v.inv;
    held = PcHeld-update t.mgr t.pc v.held i (found id u s r) (find-Held hash32 id r v.inv f);
  }
  Step-IsSafe {t} (leaves i id u s r at) v = record {
    inv = leave_member-Inv hash32 r u s v.inv;
    held =
        PcHeld-update (leave_member r u s t.mgr).0 t.pc
          (λ j.
            PcHeld-map t.mgr (leave_member r u s t.mgr).0
              (λ a q. leave_member-Held hash32 r u s a q) (t.pc j) (v.held j))
          i _ (PcHeld-left (leave_member r u s t.mgr).0 id r (leave_member r u s t.mgr).1);
  }
  Step-IsSafe {t} (reclaims i id r at) v = record {
    inv = reclaim_room-Inv hash32 id r v.inv;
    held =
        PcHeld-update (reclaim_room hash32 id r t.mgr) t.pc
          (λ j.
            PcHeld-map t.mgr (reclaim_room hash32 id r t.mgr)
              (λ a q. reclaim_room-Held hash32 id r a q v.inv) (t.pc j) (v.held j))
          i idle tt;
  }

  -- Whatever the interleaving, the manager keeps its invariant, and the room that a leave has found
  -- is bound to its id if it is bound at all.
  pub Run-IsSafe : {t q : System} {es : List Event} → Run t es q → IsSafe t → IsSafe q
  Run-IsSafe start v = v
  Run-IsSafe (next run st) v = Step-IsSafe st (Run-IsSafe run v)

  -- What an event makes of the channel `o` of user `w` in room `j`.
  abbrev pub effect : Event → RoomManager → ℕ → ℕ → Option ℕ → Option ℕ
  effect (joined id u s) m j w o = if (id == j) && (u == w) then some s else o
  effect looked m j w o = o
  effect (left id u s r) m j w o =
      if (id == j) && (u == w) && is_bound hash32 id r m && releases s o then none else o
  effect reclaimed m j w o = o

  -- A section of a call changes the members as its event says: a join sets the channel of that user,
  -- a late leave takes out that user if the room it has found is still bound and the channel is the
  -- expected one, and a lookup or a reclaim changes nobody's membership.
  pub Step-members :
      {t q : System} {e : Event}
      → IsSafe t
      → Step t e q
      → (j w : ℕ) → member_of hash32 j w q.mgr ≡ effect e t.mgr j w (member_of hash32 j w t.mgr)
  Step-members v (joins i id u s idle_i) j w = member_of-join hash32 id u s j w v.inv
  Step-members v (looks i id u s r idle_i f) j w = refl
  Step-members {t} v (leaves i id u s r at) j w =
      member_of-leave_member hash32 id r u s j w v.inv (rw at at (v.held i))
  Step-members v (reclaims i id r at) j w = member_of-reclaim hash32 id r j w v.inv

  -- The event is a join or a leave of user `w` in room `j`.
  abbrev pub concerns : ℕ → ℕ → Event → Bool
  concerns j w (joined id u s) = (id == j) && (u == w)
  concerns j w looked = false
  concerns j w (left id u s r) = (id == j) && (u == w)
  concerns j w reclaimed = false

  abbrev pub Unconcerned : ℕ → ℕ → List Event → Type 0
  Unconcerned j w [] = Unit {0}
  Unconcerned j w (e ∷ es) = (concerns j w e ≡ false) × Unconcerned j w es

  effect_unconcerned :
      (e : Event) (m : RoomManager) (j w : ℕ) (o : Option ℕ)
      → concerns j w e ≡ false
      → effect e m j w o ≡ o
  effect_unconcerned (joined id u s) m j w o h = rw h
  effect_unconcerned looked m j w o h = refl
  effect_unconcerned (left id u s r) m j w o h = ground arith
  effect_unconcerned reclaimed m j w o h = refl

  -- While nobody joins or leaves room `j` as user `w`, the user's membership stays as it is, however
  -- the sections of other calls interleave and whatever rooms are reclaimed meanwhile.
  pub member_of-Run :
      {t q : System} {es : List Event} (j w : ℕ)
      → IsSafe t
      → Run t es q
      → Unconcerned j w es
      → member_of hash32 j w q.mgr ≡ member_of hash32 j w t.mgr
  member_of-Run j w v start h = refl
  member_of-Run j w v (next {e = e} {p = p} run st) h =
      Step-members (Run-IsSafe run v) st j w
      ∙ effect_unconcerned e p.mgr j w _ h.0
      ∙ member_of-Run j w v run h.1

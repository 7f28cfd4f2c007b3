-- ===== src/Connect/Room/Broadcast.antt =====
-- Whom `Broadcast` of internal/connect/room.go reaches.
use Prim.Native.Nat.{min}
use mathlib.Core.List.{append-nil, append_assoc}
use likegochat.Prelude.{
  ℕ, suc, ◌+◌, ◌-◌, ◌≤◌, ◌<◌, ◌≡◌, refl, ◌≢◌, Bool, not, ◌||◌, List, [], ◌∷◌, ◌++◌, some, arith,
  ◌∙◌, inl, inr, Bool-cases, Option-cases, lookup, count, length, replicate, ◌==◌, if◌then◌else◌,
  length-append, ◌↔◌, true, false,
}
use likegochat.Connect.Chan.{
  Payload, Chans, nil_chan, send_buffer, has_room, offer, offer_effect, offer-IsBounded, IsBounded,
}
use likegochat.Connect.Room.{RoomNode, Room, collect, send_all, broadcast}
use likegochat.Connect.Room.Refine.{IsConsistent, channel_of}

-- How many more payloads a channel takes.
abbrev pub free_slots : Chans → ℕ → ℕ
free_slots cs d = if d == nil_chan then 0 else send_buffer - length (cs d)

append_copies :
    (l : List Payload) (p : Payload) (k m k' m' : ℕ)
    → k' ≡ suc k
    → m' ≡ suc m
    → (l ++ p ∷ []) ++ replicate (min k m) p ≡ l ++ replicate (min k' m') p
append_copies l p k m k' m' q r =
    let e : min k' m' ≡ suc (min k m) = omega arith in rw (append_assoc, e)

extend_effect :
    (c d k : ℕ) (p : Payload) (cs : Chans)
    → (offer c p cs).0 d ++ replicate (min k (free_slots (offer c p cs).0 d)) p
      ≡ cs d ++ replicate (min (if c == d then suc k else k) (free_slots cs d)) p
extend_effect c d k p cs = ground (
  arith,
  offer_effect c p cs d,
  length-append (cs d) (p ∷ []),
  append_copies (cs d) p k (free_slots (offer c p cs).0 d) (if c == d then suc k else k)
      (free_slots cs d),
)

-- Every channel gets as many copies as it occurs among the targets, as far as its buffer has room.
pub send_all_effect :
    (ts : List ℕ) (p : Payload) (cs : Chans) (n d : ℕ)
    → (send_all ts p cs n).0 d ≡ cs d ++ replicate (min (count d ts) (free_slots cs d)) p
unfolding send_all
send_all_effect [] p cs n d = ground (arith, append-nil (cs d))
send_all_effect (t ∷ ts) p cs n d = send_all_effect ts p _ _ d ∙ extend_effect t d (count d ts) p cs

send_all-IsBounded :
    (ts : List ℕ) (p : Payload) (cs : Chans) (n : ℕ)
    → IsBounded cs
    → IsBounded (send_all ts p cs n).0
unfolding send_all
send_all-IsBounded [] p cs n h = h
send_all-IsBounded (t ∷ ts) p cs n h = send_all-IsBounded ts p _ _ (offer-IsBounded t p cs h)

-- The targets whose buffer has room.
abbrev pub ready : Chans → List ℕ → ℕ
ready cs [] = 0
ready cs (t ∷ ts) = if has_room cs t then suc (ready cs ts) else ready cs ts

ready-offer :
    (c : ℕ) (p : Payload) (cs : Chans) (ts : List ℕ)
    → count c ts ≡ 0
    → ready (offer c p cs).0 ts ≡ ready cs ts
ready-offer c p cs [] h = refl
ready-offer c p cs (t ∷ ts) h = ground (arith, offer_effect c p cs t, ready-offer c p cs ts)

-- With distinct targets, `sent` counts those whose buffer has room.
send_all_sent :
    (ts : List ℕ) (p : Payload) (cs : Chans) (n : ℕ)
    → ((d : ℕ) → count d ts ≤ 1)
    → (send_all ts p cs n).1 ≡ n + ready cs ts
unfolding send_all
send_all_sent [] p cs n h = omega arith
send_all_sent (t ∷ ts) p cs n h = ground (
  arith,
  h t,
  offer_effect t p cs t,
  ready-offer t p cs ts,
  send_all_sent ts p (offer t p cs).0 (if (offer t p cs).1 then n + 1 else n)
      (λ d. ground (arith, h d)),
)

send_all_bounded :
    (ts : List ℕ) (p : Payload) (cs : Chans) (n : ℕ) → (send_all ts p cs n).1 ≤ n + length ts
unfolding send_all
send_all_bounded [] p cs n = omega arith
send_all_bounded (t ∷ ts) p cs n =
    ground (arith, send_all_bounded ts p (offer t p cs).0 (if (offer t p cs).1 then n + 1 else n))

offer_slots :
    (t d : ℕ) (p : Payload) (cs : Chans)
    → has_room cs t ≡ true
    → (if t == d then suc (free_slots (offer t p cs).0 d) else free_slots (offer t p cs).0 d)
      ≡ free_slots cs d
offer_slots t d p cs h = ground (arith, h, offer_effect t p cs d, length-append (cs d) (p ∷ []))

-- Every target is sent a copy exactly where no channel is named more often than it has room.
pub send_all_fits :
    (ts : List ℕ) (p : Payload) (cs : Chans) (n : ℕ)
    → ((send_all ts p cs n).1 ≡ n + length ts) ↔ ((d : ℕ) → count d ts ≤ free_slots cs d)
unfolding send_all
send_all_fits [] p cs n = (λ h d. omega arith, λ h. omega arith)
send_all_fits (t ∷ ts) p cs n =
    let cs' = (offer t p cs).0 in
    elim (Bool-cases (has_room cs t)) [
      | inl b ↦
          let rest = send_all_fits ts p cs' (n + 1) in
          let sent : (offer t p cs).1 ≡ true = ground (arith, b, offer_effect t p cs t) in
          (
            λ h d. ground (arith, offer_slots t d p cs b, rest.0 (ground (arith, h, sent)) d),
            λ h. ground (arith, sent, rest.1 (λ d. ground (arith, h d, offer_slots t d p cs b))),
          )
      | inr b ↦
          let sent : (offer t p cs).1 ≡ false = ground (arith, b, offer_effect t p cs t) in
          (
            λ h d. absurd (ground (arith, h, sent, send_all_bounded ts p cs' n)),
            λ h. absurd (ground (arith, b, h t)),
          )
    ]

-- How often a channel is collected, if one element only has it.
count-collect :
    (from d e : ℕ) (elems : ℕ → RoomNode) (es : List ℕ)
    → ((x : ℕ) → 0 < count x es → (elems x).send ≡ d → x ≡ e)
    → (elems e).send ≡ d
    → count d (collect from elems es) ≡ (if (elems e).user_id == from then 0 else count e es)
unfolding collect
count-collect from d e elems [] h q = ground arith
count-collect from d e elems (x ∷ es) h q =
    ground (arith, h x, count-collect from d e elems es (λ y m s. h y (ground arith) s) q)

collect_none :
    (from d : ℕ) (elems : ℕ → RoomNode) (es : List ℕ)
    → ((x : ℕ) → 0 < count x es → (elems x).send ≡ d → (elems x).user_id ≡ from)
    → count d (collect from elems es) ≡ 0
unfolding collect
collect_none from d elems [] h = refl
collect_none from d elems (x ∷ es) h =
    ground (arith, h x, collect_none from d elems es (λ y m s. h y (ground arith) s))

-- Nobody else's channel is the channel `d`, that of the user `v`.
abbrev pub IsExclusive : Room → ℕ → ℕ → Type 0
IsExclusive r v d = (channel_of v r ≡ some d) × ((w : ℕ) → channel_of w r ≡ some d → w ≡ v)

listed_channel :
    {r : Room} {e : ℕ}
    → IsConsistent r
    → 0 < count e r.members
    → channel_of (r.elems e).user_id r ≡ some (r.elems e).send
unfolding channel_of
listed_channel {r} {e} c h = ground (arith, c.listed e h)

-- The element of a member that alone has its channel.
element_of :
    {r : Room} {v d : ℕ}
    → IsConsistent r
    → IsExclusive r v d
    → (e : ℕ) × ((r.elems e).send ≡ d)
      × ((r.elems e).user_id ≡ v)
      × (count e r.members ≡ 1)
      × ((x : ℕ) → 0 < count x r.members → (r.elems x).send ≡ d → x ≡ e)
unfolding channel_of
element_of {r} {v} {d} c x = elim (Option-cases (lookup v r.index)) [
  | inl e ↦ absurd (ground (arith, x.0))
  | inr (e, found) ↦ (
    e,
    ground (arith, x.0),
    (c.indexed v e found).1,
    (c.indexed v e found).0,
    λ y m s. ground (arith, found, c.listed y m, x.1 (r.elems y).user_id, listed_channel c m),
  )
]

one_copy :
    (cs : Chans) (d : ℕ) (p : Payload) (b : Bool) (k : ℕ)
    → d ≢ nil_chan
    → k ≡ (if b then 0 else 1)
    → cs d ++ replicate (min k (free_slots cs d)) p
      ≡ (if b || not (has_room cs d) then cs d else cs d ++ p ∷ [])
one_copy cs d p b k nn q = elim (Bool-cases (b || not (has_room cs d))) [
  | inl e ↦ let z : min k (free_slots cs d) ≡ 0 = ground arith in rw (e, z) (append-nil (cs d))
  | inr e ↦ let z : min k (free_slots cs d) ≡ 1 = ground arith in rw (e, z)
]

-- A member that alone has its channel gets exactly one copy, unless it is the sender or its buffer
-- is full.
pub broadcast_delivers :
    (from : ℕ) (p : Payload) (r : Room) (cs : Chans) (v d : ℕ)
    → IsConsistent r
    → d ≢ nil_chan
    → IsExclusive r v d
    → (broadcast from p r cs).0 d
      ≡ (if (v == from) || not (has_room cs d) then cs d else cs d ++ p ∷ [])
unfolding broadcast
broadcast_delivers from p r cs v d c nn x =
    let (e, s, u, one, only) = element_of c x in
    send_all_effect (collect from r.elems r.members) p cs 0 d
    ∙ one_copy cs d p (v == from) _ nn
        (ground (arith, count-collect from d e r.elems r.members only s))

-- A channel that no other member has gets nothing: the sender's own, or one outside the room.
pub broadcast_spares :
    (from : ℕ) (p : Payload) (r : Room) (cs : Chans) (d : ℕ)
    → IsConsistent r
    → ((v : ℕ) → channel_of v r ≡ some d → v ≡ from)
    → (broadcast from p r cs).0 d ≡ cs d
unfolding broadcast
broadcast_spares from p r cs d c only =
    let e : count d (collect from r.elems r.members) ≡ 0 =
      collect_none from d r.elems r.members
        (λ x m s. only (r.elems x).user_id (ground (arith, listed_channel c m))) in
    let z : min (count d (collect from r.elems r.members)) (free_slots cs d) ≡ 0 = omega arith in
    send_all_effect (collect from r.elems r.members) p cs 0 d ∙ rw z (append-nil (cs d))

-- When no two members share a channel, the result counts the members other than the sender whose
-- buffer has room.
pub broadcast_counts :
    (from : ℕ) (p : Payload) (r : Room) (cs : Chans)
    → ((d : ℕ) → count d (collect from r.elems r.members) ≤ 1)
    → (broadcast from p r cs).1 ≡ ready cs (collect from r.elems r.members)
unfolding broadcast
broadcast_counts from p r cs h =
    send_all_sent (collect from r.elems r.members) p cs 0 h ∙ omega arith

pub broadcast-IsBounded :
    (from : ℕ) (p : Payload) (r : Room) (cs : Chans)
    → IsBounded cs
    → IsBounded (broadcast from p r cs).0
unfolding broadcast
broadcast-IsBounded from p r cs h = send_all-IsBounded (collect from r.elems r.members) p cs 0 h

-- ===== src/Connect/GrpcServer/Pushes.antt =====
-- What a push reports, and where its payload goes.
use Prim.Native.Nat.{min}
use likegochat.Prelude.{
  ℕ, suc, ◌≤◌, ◌+◌, ◌≡◌, refl, ◌∙◌, ◌↔◌, Bool, true, false, not, ◌&&◌, List, [], ◌∷◌, ◌++◌, none,
  some, arith, inl, inr, lookup, length, count, replicate, Option-cases, ◌==◌, if◌then◌else◌, ap,
}
use likegochat.Connect.Chan.{Payload, Chans, has_room, offer, offer_effect}
use likegochat.Connect.Room.{send_all}
use likegochat.Connect.Room.Broadcast.{free_slots, send_all_effect, send_all_fits}
use likegochat.Connect.Client.{Node}
use likegochat.Connect.Client.Registered.{Inv, try_send_open}
use likegochat.Connect.GrpcServer.{
  PushMsgRequest, PushAllRequest, push_msg, collect_clients, send_each, push_msg_to_users,
}

-- The channels of some clients.
abbrev pub channels : List ℕ → Node → List ℕ
channels [] n = []
channels (c ∷ cs) n = (n.heap c).send ∷ channels cs n

abbrev AllOpen : List ℕ → Node → Type 0
AllOpen [] n = Unit {0}
AllOpen (c ∷ cs) n = ((n.heap c).once ≡ false) × AllOpen cs n

-- How many of the users have, by the table, a connection with the channel `d`.
abbrev pub named : ℕ → List ℕ → Node → ℕ
named d [] n = 0
named d (u ∷ us) n =
    let rest = named d us n in
    elim (lookup u n.clients) [
      | none ↦ rest
      | some c ↦ if (n.heap c).send == d then suc rest else rest
    ]

module _ (prefers_done : ℕ → Bool) where
  -- In a node with a sound table a push to a registered user is reported as a success exactly when the
  -- buffer of the user's connection has room; then the payload is its last entry, and no other buffer has changed.
  pub push_msg_lem :
      (req : PushMsgRequest) (n : Node) (p : ℕ)
      → Inv n
      → lookup req.to_user_id n.clients ≡ some p
      → ((push_msg prefers_done req n).1 ≡ has_room n.chans (n.heap p).send)
        × ((d : ℕ)
            → (push_msg prefers_done req n).0.chans d ≡ (
                if ((n.heap p).send == d) && has_room n.chans (n.heap p).send
                then n.chans d ++ req.payload ∷ []
                else n.chans d))
  unfolding push_msg
  push_msg_lem req n p v e =
      let c = (n.heap p).send in
      let sent =
        try_send_open (prefers_done p) p req.payload n (v.registered req.to_user_id p e).3 in
      (
        ground (arith, e, sent, offer_effect c req.payload n.chans c),
        λ d. ground (arith, e, sent, offer_effect c req.payload n.chans d),
      )

  pub push_msg_offline :
      (req : PushMsgRequest) (n : Node)
      → lookup req.to_user_id n.clients ≡ none
      → push_msg prefers_done req n ≡ (n, false)
  unfolding push_msg
  push_msg_offline req n e = ground (arith, e)

  collect_found :
      (u : ℕ) (us : List ℕ) (n : Node) (p : ℕ)
      → lookup u n.clients ≡ some p
      → collect_clients prefers_done (u ∷ us) n ≡ p ∷ collect_clients prefers_done us n
  unfolding collect_clients
  collect_found u us n p e = ground (arith, e)

  collect_missing :
      (u : ℕ) (us : List ℕ) (n : Node)
      → lookup u n.clients ≡ none
      → collect_clients prefers_done (u ∷ us) n ≡ collect_clients prefers_done us n
  unfolding collect_clients
  collect_missing u us n e = ground (arith, e)

  collect-AllOpen : (us : List ℕ) (n : Node) → Inv n → AllOpen (collect_clients prefers_done us n) n
  collect-AllOpen [] n v = unfold collect_clients in tt
  collect-AllOpen (u ∷ us) n v = elim (Option-cases (lookup u n.clients)) [
    | inl e ↦ rw (collect_missing u us n e) (collect-AllOpen us n v)
    | inr (p, e) ↦ rw (collect_found u us n p e) ((v.registered u p e).3, collect-AllOpen us n v)
  ]

  -- Sending to open clients one after the other is sending to their channels.
  send_each_lem :
      (cs : List ℕ) (payload : Payload) (chans : Chans) (n : Node) (fail k : ℕ)
      → AllOpen cs n
      → ((send_each prefers_done cs payload (record n { chans = chans }) fail).0.chans
          ≡ (send_all (channels cs n) payload chans k).0)
        × ((send_each prefers_done cs payload (record n { chans = chans }) fail).1
              + (send_all (channels cs n) payload chans k).1
            ≡ fail + k + length cs)
  unfolding send_each send_all
  send_each_lem [] payload chans n fail k o = (refl, omega arith)
  send_each_lem (c ∷ cs) payload chans n fail k o = ground (
    arith,
    try_send_open (prefers_done c) c payload (record n { chans = chans }) o.0,
    send_each_lem cs payload (offer (n.heap c).send payload chans).0 n
        (if not (offer (n.heap c).send payload chans).1 then fail + 1 else fail)
        (if (offer (n.heap c).send payload chans).1 then k + 1 else k) o.1,
  )

  count-collect_clients :
      (d : ℕ) (us : List ℕ) (n : Node)
      → count d (channels (collect_clients prefers_done us n) n) ≡ named d us n
  count-collect_clients d [] n = unfold collect_clients in refl
  count-collect_clients d (u ∷ us) n =
      let rest = count-collect_clients d us n in
      elim (Option-cases (lookup u n.clients)) [
        | inl e ↦ rw (collect_missing u us n e) (ground (arith, e, rest))
        | inr (p, e) ↦ rw (collect_found u us n p e) (ground (arith, e, rest))
      ]

  length-channels : (cs : List ℕ) (n : Node) → length (channels cs n) ≡ length cs
  length-channels [] n = refl
  length-channels (c ∷ cs) n = ground (arith, length-channels cs n)

  push_msg_to_users_delivers :
      (req : PushAllRequest) (n : Node) (d : ℕ)
      → Inv n
      → (push_msg_to_users prefers_done req n).0.chans d
        ≡ n.chans d ++ replicate (min (named d req.user_ids n) (free_slots n.chans d)) req.payload
  unfolding push_msg_to_users
  push_msg_to_users_delivers req n d v =
      let cs = collect_clients prefers_done req.user_ids n in
      ap (λ (f : Chans). f d)
        (send_each_lem cs req.payload n.chans n 0 0 (collect-AllOpen req.user_ids n v)).0
      ∙ send_all_effect (channels cs n) req.payload n.chans 0 d
      ∙ ap (λ k. n.chans d ++ replicate (min k (free_slots n.chans d)) req.payload)
          (count-collect_clients d req.user_ids n)

  push_msg_to_users_succeeds :
      (req : PushAllRequest) (n : Node)
      → Inv n
      → ((push_msg_to_users prefers_done req n).1 ≡ true)
        ↔ ((d : ℕ) → named d req.user_ids n ≤ free_slots n.chans d)
  unfolding push_msg_to_users
  push_msg_to_users_succeeds req n v =
      let cs = collect_clients prefers_done req.user_ids n in
      let sums = send_each_lem cs req.payload n.chans n 0 0 (collect-AllOpen req.user_ids n v) in
      let fits = send_all_fits (channels cs n) req.payload n.chans 0 in
      let same = length-channels cs n in
      (
        λ h d. ground (
          arith,
          fits.0 (ground (arith, h, sums.1, same)) d,
          count-collect_clients d req.user_ids n,
        ),
        λ h. ground (
          arith,
          sums.1,
          same,
          fits.1 (λ d. ground (arith, h d, count-collect_clients d req.user_ids n)),
        ),
      )

  -- In a node with a sound table a push to several users puts one copy of the payload into the buffer of
  -- each connection for each time that its user is named, as far as the buffer has room, and changes no
  -- other buffer; and it is reported as a success exactly when no connection is named, through its user,
  -- more often than its buffer has room.
  pub push_msg_to_users_lem :
      (req : PushAllRequest) (n : Node)
      → Inv n
      → ((d : ℕ)
          → (push_msg_to_users prefers_done req n).0.chans d
            ≡ n.chans d
              ++ replicate (min (named d req.user_ids n) (free_slots n.chans d)) req.payload)
        × (((push_msg_to_users prefers_done req n).1 ≡ true)
            ↔ ((d : ℕ) → named d req.user_ids n ≤ free_slots n.chans d))
  push_msg_to_users_lem req n v =
      (λ d. push_msg_to_users_delivers req n d v, push_msg_to_users_succeeds req n v)

-- ===== src/Connect/Client/Registered.antt =====
-- The connection table of internal/connect/ws_handler.go against the clients that are open.
use likegochat.Connect.Chan.{Payload, offer}
use likegochat.Prelude.{
  ℕ, ◌≡◌, lookup, some, arith, lookup-insert, lookup-delete, ◌<◌, false, if◌then◌else◌, ◌≢◌, Option,
  Bool, ◌==◌, true, ◌⊎◌, none, Option-cases, inl, inr, refl, List, ◌∙◌,
}
use likegochat.Connect.Client.{
  Node, cleanup, connect, new_node, remove_client_if_match, add_client, lookup, new_client, some,
  false, close_conn, Option, nil_client, true, Bool, try_send, List, run_command, leave_all_rooms,
  Payload, RoomCmd,
}

pub record Inv (n : Node) : Type 0 where
  pub registered :
      (u p : ℕ)
      → lookup u n.clients ≡ some p
      → (0 < p) × (p < n.next) × ((n.heap p).user_id ≡ u) × ((n.heap p).once ≡ false)
  pub open_registered :
      (p : ℕ)
      → 0 < p
      → p < n.next
      → (n.heap p).once ≡ false
      → lookup (n.heap p).user_id n.clients ≡ some p
  pub closes : (p : ℕ) → (n.heap p).done_closes ≡ (if (n.heap p).once then 1 else 0)
  pub positive : 0 < n.next

pub new_node-Inv : (n : ℕ) → Inv (new_node n)
unfolding new_node lookup
new_node-Inv n = record {
  registered = λ u p e. ground (arith, e);
  open_registered = λ p lo hi h. ground arith;
  closes = λ p. refl;
  positive = omega arith;
}

pub connect-Inv : (u : ℕ) {n : Node} → Inv n → Inv (connect u n)
unfolding connect add_client new_client
connect-Inv u {n} v = record {
  registered = λ w p e. ground (
    arith,
    lookup-insert u w n.next n.clients,
    v.registered w p,
    v.registered u n.next,
    v.registered u p,
    v.positive,
  );
  open_registered = λ p lo hi h. ground (
    arith,
    lookup-insert u (n.heap p).user_id n.next n.clients,
    lookup-insert u u n.next n.clients,
    v.open_registered p,
  );
  closes = λ p. ground (arith, v.closes p);
  positive = ground (arith, v.positive);
}

pub remove-Inv : (u expect : ℕ) {n : Node} → Inv n → Inv (remove_client_if_match u expect n).0
unfolding remove_client_if_match
remove-Inv u expect {n} v = record {
  registered =
      λ w p e. ground (arith, lookup-delete u w n.clients, v.registered w p, v.registered u p);
  open_registered = λ p lo hi h.
      ground (arith, lookup-delete u (n.heap p).user_id n.clients, v.open_registered p);
  closes = λ p. ground (arith, v.closes p);
  positive = ground (arith, v.positive);
}

pub cleanup-Inv : (p : ℕ) {n : Node} → Inv n → Inv (cleanup p n).0
unfolding cleanup
cleanup-Inv p {n} v = remove-Inv (n.heap p).user_id p v

-- Of two connections of a user, one at most is open.
pub one_connection :
    {n : Node} (p q : ℕ)
    → Inv n
    → 0 < p
    → p < n.next
    → 0 < q
    → q < n.next
    → (n.heap p).user_id ≡ (n.heap q).user_id
    → p ≢ q
    → (n.heap p).once ≡ false
    → (n.heap q).once ≡ true
one_connection p q v lp hp lq hq same ne op =
    ground (arith, v.open_registered p lp hp op, v.open_registered q lq hq)

abbrev pub is_some_of : ℕ → Option ℕ → Bool
is_some_of p none = false
is_some_of p (some q) = q == p

-- A new connection takes the user's place in the table, and no other place changes.
pub connect_replaces :
    (u w : ℕ) {n : Node}
    → Inv n
    → lookup w (connect u n).clients ≡ (if u == w then some n.next else lookup w n.clients)
unfolding connect
connect_replaces u w {n} v = ground (arith, lookup-insert u w n.next n.clients)

-- A new connection closes the one that it replaces, and no other.
pub connect_closes :
    (u p : ℕ) {n : Node}
    → Inv n
    → p < n.next
    → ((connect u n).heap p).once
      ≡ (if is_some_of p (lookup u n.clients) then true else (n.heap p).once)
unfolding connect
connect_closes u p {n} v lt =
    ground (arith, v.registered u p, v.registered u 0, v.registered u n.next)

-- A cleanup on behalf of a connection that has been replaced changes nothing.
pub remove_stale :
    (u expect : ℕ) (n : Node)
    → expect ≢ nil_client
    → lookup u n.clients ≢ some expect
    → remove_client_if_match u expect n ≡ (n, false)
unfolding remove_client_if_match
remove_stale u expect n nn stale = ground arith

-- What a removal that reports success has done: the user is out of the table, everybody else is
-- where they were, and the connection is closed.
pub remove_success :
    (u expect : ℕ) {n : Node}
    → Inv n
    → (remove_client_if_match u expect n).1 ≡ true
    → (p : ℕ) × (lookup u n.clients ≡ some p)
      × ((expect ≡ nil_client) ⊎ (p ≡ expect))
      × (((remove_client_if_match u expect n).0.heap p).once ≡ true)
      × ((w : ℕ)
          → lookup w (remove_client_if_match u expect n).0.clients
            ≡ (if u == w then none else lookup w n.clients))
unfolding remove_client_if_match close_conn
remove_success u expect {n} v h = elim (Option-cases (lookup u n.clients)) [
  | inl e ↦ absurd (ground (arith, e))
  | inr (p, e) ↦ (
    p,
    e,
    ground (arith, e),
    ground (arith, e),
    λ w. ground (arith, e, lookup-delete u w n.clients),
  )
]

pub removes :
    (u c : ℕ) (n : Node)
    → lookup u n.clients ≡ some c
    → ((remove_client_if_match u c n).1 ≡ true)
      × (((remove_client_if_match u c n).0.heap c).once ≡ true)
unfolding remove_client_if_match close_conn
removes u c n h = (ground (arith, h), ground (arith, h))

pub cleanup_registered :
    (u c : ℕ) {n : Node}
    → Inv n
    → lookup u n.clients ≡ some c
    → cleanup c n ≡ remove_client_if_match u c n
unfolding cleanup
cleanup_registered u c {n} v h = let (lo, hi, own, open_) = v.registered u c h in rw own refl

-- The cleanup of a connection that a new one has replaced changes nothing.
pub connect-cleanup :
    (u p : ℕ) {n : Node}
    → Inv n
    → 0 < p
    → p < n.next
    → (n.heap p).user_id ≡ u
    → cleanup p (connect u n) ≡ (connect u n, false)
unfolding cleanup connect
connect-cleanup u p {n} v lo hi own =
    let same : ((connect u n).heap p).user_id ≡ u =
      ground (arith, own, v.registered u p, v.registered u 0, v.registered u n.next) in
    rw same (
      remove_stale u p (connect u n) (ground (arith, lo))
        (ground (arith, hi, connect_replaces u u v)))

-- The connection tables of two nodes are the same.
pub record SameTable (n m : Node) : Type 0 where
  pub clients : m.clients ≡ n.clients
  pub next : m.next ≡ n.next
  pub users : (p : ℕ) → (m.heap p).user_id ≡ (n.heap p).user_id
  pub onces : (p : ℕ) → (m.heap p).once ≡ (n.heap p).once
  pub counts : (p : ℕ) → (m.heap p).done_closes ≡ (n.heap p).done_closes

pub SameTable-Inv : {n m : Node} → SameTable n m → Inv n → Inv m
SameTable-Inv {n} {m} s v = record {
  registered = λ u p e. ground (arith, s.clients, s.next, s.users p, s.onces p, v.registered u p);
  open_registered =
      λ p lo hi h. ground (arith, s.clients, s.next, s.users p, s.onces p, v.open_registered p);
  closes = λ p. ground (arith, s.onces p, s.counts p, v.closes p);
  positive = ground (arith, s.next, v.positive);
}

pub SameTable-trans : {n m k : Node} → SameTable n m → SameTable m k → SameTable n k
SameTable-trans s t = record {
  clients = t.clients ∙ s.clients;
  next = t.next ∙ s.next;
  users = λ p. t.users p ∙ s.users p;
  onces = λ p. t.onces p ∙ s.onces p;
  counts = λ p. t.counts p ∙ s.counts p;
}

pub SameTable-refl : (n : Node) → SameTable n n
SameTable-refl n = record {
  clients = refl;
  next = refl;
  users = λ p. refl;
  onces = λ p. refl;
  counts = λ p. refl;
}

pub try_send-SameTable :
    (b : Bool) (p : ℕ) (payload : Payload) (n : Node) → SameTable n (try_send b p payload n).0
unfolding try_send
try_send-SameTable b p payload n = record {
  clients = ground arith;
  next = ground arith;
  users = λ q. ground arith;
  onces = λ q. ground arith;
  counts = λ q. ground arith;
}

-- A client that is open is sent to, whatever `select` prefers.
pub try_send_open :
    (b : Bool) (p : ℕ) (payload : Payload) (n : Node)
    → (n.heap p).once ≡ false
    → try_send b p payload n ≡ (
      record n { chans = (offer (n.heap p).send payload n.chans).0 },
      (offer (n.heap p).send payload n.chans).1,
    )
unfolding try_send
try_send_open b p payload n h = ground arith

module _ (hash32 : List ℕ → ℕ) (p : ℕ) where
  pub run_command-SameTable : (cmd : RoomCmd) (n : Node) → SameTable n (run_command hash32 p cmd n)
  unfolding run_command
  run_command-SameTable cmd n = record {
    clients = ground arith;
    next = ground arith;
    users = λ q. ground arith;
    onces = λ q. ground arith;
    counts = λ q. ground arith;
  }

  pub leave_all_rooms-SameTable : (n : Node) → SameTable n (leave_all_rooms hash32 p n)
  unfolding leave_all_rooms
  leave_all_rooms-SameTable n = record {
    clients = refl;
    next = refl;
    users = λ q. ground arith;
    onces = λ q. ground arith;
    counts = λ q. ground arith;
  }

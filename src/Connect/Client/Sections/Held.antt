-- ===== src/Connect/Client/Sections/Held.antt =====
-- Who holds a connection, between the sections.
use likegochat.Prelude.{
  ℕ, ◌≡◌, ◌<◌, ◌⊎◌, false, [], some, lookup, if◌then◌else◌, count, count-remove_first,
  lookup-insert, lookup-delete, arith, refl,
}
use likegochat.Connect.Client.{
  Node, new_node, new_client, close_conn, add_client, remove_client_if_match,
}
use likegochat.Connect.Client.Sections.{
  Moment, add_locked, remove_locked, close_taken, settle, added, removed, shut, Run, begun,
  continued,
}

-- Without other goroutines the sections of a call are the call.
pub add_locked-settle :
    (u c : ℕ) (n : Node)
    → let s = add_locked u c (record { node = n; closing = [] }) in
      settle s.closing s.node ≡ add_client u c n
unfolding add_locked settle add_client
add_locked-settle u c n = ground arith

pub remove_locked-settle :
    (u expect : ℕ) (n : Node)
    → let s = remove_locked u expect (record { node = n; closing = [] }) in
      (settle s.0.closing s.0.node ≡ (remove_client_if_match u expect n).0)
      × (s.1 ≡ (remove_client_if_match u expect n).1)
unfolding remove_locked settle remove_client_if_match
remove_locked-settle u expect n = (ground arith, ground arith)

pub record Held (s : Moment) : Type 0 where
  pub registered :
      (u p : ℕ)
      → lookup u s.node.clients ≡ some p
      → (0 < p)
        × (p < s.node.next)
        × ((s.node.heap p).user_id ≡ u)
        × ((s.node.heap p).once ≡ false)
        × (count p s.closing ≡ 0)
  pub open_held :
      (p : ℕ)
      → 0 < p
      → p < s.node.next
      → (s.node.heap p).once ≡ false
      → (lookup (s.node.heap p).user_id s.node.clients ≡ some p) ⊎ (count p s.closing ≡ 1)
  pub pending :
      (p : ℕ)
      → 0 < count p s.closing
      → (0 < p) × (p < s.node.next) × ((s.node.heap p).once ≡ false) × (count p s.closing ≡ 1)
  pub closes : (p : ℕ) → (s.node.heap p).done_closes ≡ (if (s.node.heap p).once then 1 else 0)
  pub positive : 0 < s.node.next

added-Held :
    (u : ℕ) (s : Moment)
    → Held s
    → Held (add_locked u s.node.next (record s { node = new_client u s.node }))
unfolding add_locked new_client
added-Held u s v = record {
  registered = λ w p e. ground (
    arith,
    e,
    lookup-insert u w s.node.next s.node.clients,
    v.registered w p,
    v.registered u p,
    v.registered u s.node.next,
    v.pending s.node.next,
    v.positive,
  );
  open_held = λ p lo hi h. ground (
    arith,
    h,
    lookup-insert u (s.node.heap p).user_id s.node.next s.node.clients,
    lookup-insert u u s.node.next s.node.clients,
    v.open_held p,
    v.registered u p,
    v.registered u s.node.next,
  );
  pending = λ p h.
      ground (
        arith,
        h,
        v.registered u p,
        v.registered u s.node.next,
        v.pending p,
        v.pending s.node.next,
      );
  closes = λ p. ground (arith, v.closes p);
  positive = ground (arith, v.positive);
}

removed-Held : (u expect : ℕ) (s : Moment) → Held s → Held (remove_locked u expect s).0
unfolding remove_locked
removed-Held u expect s v = record {
  registered =
      λ w p e. ground (arith, lookup-delete u w s.node.clients, v.registered w p, v.registered u p);
  open_held = λ p lo hi h. ground (
    arith,
    lookup-delete u (s.node.heap p).user_id s.node.clients,
    v.open_held p,
    v.registered u p,
  );
  pending = λ p h. ground (arith, h, v.registered u p, v.pending p);
  closes = λ p. ground (arith, v.closes p);
  positive = ground (arith, v.positive);
}

shut-Held : (q : ℕ) (s : Moment) → 0 < count q s.closing → Held s → Held (close_taken q s)
unfolding close_taken close_conn
shut-Held q s c v = record {
  registered = λ w p e.
      ground (arith, c, v.registered w p e, count-remove_first q p s.closing, v.pending q c);
  open_held = λ p lo hi h.
      ground (arith, c, v.open_held p lo hi, count-remove_first q p s.closing, v.pending q c);
  pending = λ p h. ground (arith, c, v.pending p, count-remove_first q p s.closing, v.pending q c);
  closes = λ p. ground (arith, v.closes p);
  positive = v.positive;
}

begun-Held : (k : ℕ) → Held (record { node = new_node k; closing = [] })
unfolding new_node lookup
begun-Held k = record {
  registered = λ u p e. ground (arith, e);
  open_held = λ p lo hi h. ground arith;
  pending = λ p h. ground (arith, h);
  closes = λ p. refl;
  positive = omega arith;
}

-- However the sections of `AddClient` and `RemoveClientIfMatch` and their closings interleave, from the
-- start of a node: the table leads only to open clients of its users, which no call is about to close; an
-- open client that the table does not lead to is about to be closed, by one call only; and no client's
-- `done` is closed twice.
pub Run-Held : {s : Moment} → Run s → Held s
Run-Held (begun k) = begun-Held k
Run-Held (continued {s} run (added u)) = added-Held u s (Run-Held run)
Run-Held (continued {s} run (removed u expect)) = removed-Held u expect s (Run-Held run)
Run-Held (continued {s} run (shut p c)) = shut-Held p s c (Run-Held run)

-- ===== src/Connect/Client/Sections.antt =====
-- `AddClient` and `RemoveClientIfMatch` of internal/connect/ws_handler.go by their sections: the part
-- under the lock, and the `closeConn` after it. Between the two, other goroutines run sections of theirs.
pub mod Held
mod Tests
use likegochat.Prelude.{
  ℕ, ◌<◌, Bool, true, false, not, ◌&&◌, List, [], ◌∷◌, none, some, lookup, insert, delete, ◌==◌,
  if◌then◌else◌, count, remove_first,
}
use likegochat.Connect.Client.{Node, nil_client, new_node, new_client, close_conn}

-- `closing` are the clients that calls have taken out of the table and not closed yet.
pub record Moment : Type 0 where
  pub node : Node
  pub closing : List ℕ

-- `AddClient` under its lock.
pub add_locked : ℕ → ℕ → Moment → Moment
add_locked user_id client s =
    let n = record s.node { clients = insert user_id client s.node.clients } in
    elim (lookup user_id s.node.clients) [
      | none ↦ record s { node = n }
      | some old ↦
          if not (old == nil_client) && not (old == client)
          then record { node = n; closing = old ∷ s.closing }
          else record s { node = n }
    ]

-- `RemoveClientIfMatch` under its lock.
pub remove_locked : ℕ → ℕ → Moment → Moment × Bool
remove_locked user_id expect s = elim (lookup user_id s.node.clients) [
  | none ↦ (s, false)
  | some cc ↦ if not (expect == nil_client) && not (cc == expect) then (s, false) else (
    record {
      node = record s.node { clients = delete user_id s.node.clients };
      closing = cc ∷ s.closing;
    },
    true,
  )
]

-- The `closeConn` of a call, after its lock.
pub close_taken : ℕ → Moment → Moment
close_taken p s = record { node = close_conn p s.node; closing = remove_first p s.closing }

-- The calls run to their ends.
unfoldable pub settle : List ℕ → Node → Node
settle [] n = n
settle (p ∷ ps) n = settle ps (close_conn p n)

-- One section of some goroutine. A client is known to its goroutine alone until it is added.
pub data Section (s : Moment) : Moment → Type 0 where
  added :
      (user_id : ℕ)
      → Section s (add_locked user_id s.node.next (record s { node = new_client user_id s.node }))
  removed : (user_id expect : ℕ) → Section s (remove_locked user_id expect s).0
  shut : (p : ℕ) → 0 < count p s.closing → Section s (close_taken p s)

-- The moments that sections, in any order, reach from the start of a node.
pub data Run : Moment → Type 0 where
  begun : (k : ℕ) → Run (record { node = new_node k; closing = [] })
  continued : {s t : Moment} → Run s → Section s t → Run t

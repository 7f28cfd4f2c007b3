-- ===== src/Task/ClientPool.antt =====
-- internal/task/rpc_client.go: the pool of gRPC connections to the connect nodes, with
-- `NewConnectClinet` of internal/common/connect_client.go. A connection is its address in `opened` and
-- `target`; `dial` says whether `grpc.NewClient` accepts an address.
pub mod Conns
pub mod Invariant
pub mod Leaks
mod Tests
use likegochat.Prelude.{
  ℕ, ◌+◌, Bool, true, false, not, List, [], ◌∷◌, ◌++◌, Option, none, some, update, ◌==◌,
  if◌then◌else◌,
}
use likegochat.Prelude.Bytes.{Bytes}
use likegochat.Prelude.Dicts.{Dict, find, put, erase}

-- `pooledConnectClient`; the client and its connection are one address.
pub record Pooled : Type 0 where
  pub server_id : Bytes
  pub conn : ℕ

pub record Pool : Type 0 where
  pub clients : Dict Pooled
  pub opened : ℕ → Bool
  pub target : ℕ → Bytes
  pub next : ℕ

pub new_pool : Pool
new_pool = record { clients = []; opened = λ c. false; target = λ c. []; next = 0 }

module _ (dial : Bytes → Bool) where
  pub new_connect_client : Bytes → Pool → Pool × Option ℕ
  new_connect_client addr p =
      if dial addr
      then (
        record p {
          opened = update p.opened p.next true;
          target = update p.target p.next addr;
          next = p.next + 1;
        },
        some p.next,
      )
      else (p, none)

  -- The part under the write lock, which looks again.
  pub get_locked : Bytes → Pool → Pool × Option ℕ
  unfolding new_connect_client
  get_locked server_id p = elim (find server_id p.clients) [
    | some entry ↦ (p, some entry.conn)
    | none ↦
        let (p', dialled) = new_connect_client server_id p in
        elim dialled [
          | none ↦ (p', none)
          | some conn ↦ (
            record p' {
              clients = put server_id (record { server_id = server_id; conn = conn }) p'.clients;
            },
            some conn,
          )
        ]
  ]

  pub get_client : Bytes → Pool → Pool × Option ℕ
  unfolding get_locked
  get_client server_id p = elim (find server_id p.clients) [
    | some entry ↦ (p, some entry.conn)
    | none ↦ get_locked server_id p
  ]

-- `Close` of a gRPC connection, which fails where it is closed already.
pub close_pooled : ℕ → Pool → Pool × Bool
close_pooled conn p = (record p { opened = update p.opened conn false }, p.opened conn)

-- The part of `CloseClient` under the lock.
pub take_client : Bytes → Pool → Pool × Option ℕ
take_client server_id p = elim (find server_id p.clients) [
  | none ↦ (p, none)
  | some entry ↦ (record p { clients = erase server_id p.clients }, some entry.conn)
]

-- The Boolean says that there is no error.
pub close_client : Bytes → Pool → Pool × Bool
unfolding take_client close_pooled
close_client server_id p =
    let (p', taken) = take_client server_id p in
    elim taken [ none ↦ (p', true) | some conn ↦ close_pooled conn p' ]

-- The part of `CloseAll` under the lock.
pub take_all : Pool → Pool × Dict Pooled
take_all p = (record p { clients = [] }, p.clients)

-- The ids of the servers whose connections failed to close.
pub close_each : Dict Pooled → Pool → Pool × List Bytes
unfolding close_pooled
close_each [] p = (p, [])
close_each ((server_id, entry) ∷ entries) p =
    let (p', closed) = close_pooled entry.conn p in
    let rest = close_each entries p' in
    (rest.0, if not closed then entry.server_id ∷ rest.1 else rest.1)

pub close_all : Pool → Pool × List Bytes
unfolding take_all close_each
close_all p = let (p', entries) = take_all p in close_each entries p'

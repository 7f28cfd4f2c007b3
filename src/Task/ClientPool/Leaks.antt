-- ===== src/Task/ClientPool/Leaks.antt =====
-- No connection of the pool is lost, however the sections of its calls interleave.
use likegochat.Task.ClientPool.Invariant.{Reach, got, Reach-Inv}
use likegochat.Prelude.{
  ℕ, ◌≡◌, ◌⊎◌, inl, inr, Bool, true, List, some, mem, arith, Option-cases, Bool-cases,
}
use likegochat.Prelude.Bytes.{Bytes, bytes_eq_refl}
use likegochat.Prelude.Dicts.{find, find-put}
use likegochat.Task.ClientPool.{Pooled, Pool, get_locked, get_client, new_connect_client}

-- However the sections of the calls interleave, an open connection is either the one that the table
-- has for its server, or it is one that a call has taken out to close.
pub Reach-found :
    (dial : Bytes → Bool) (p : Pool) (taken : List ℕ) (c : ℕ)
    → Reach dial p taken
    → p.opened c ≡ true
    → ((e : Pooled) × (find (p.target c) p.clients ≡ some e) × (e.conn ≡ c)) ⊎ (mem c taken ≡ true)
Reach-found dial p taken c h o = elim (Bool-cases (mem c taken)) [
  | inl m ↦ inr m
  | inr m ↦ inl ((Reach-Inv dial h).found c o m)
]

-- What `GetClient` returns is an open connection to the server, which the table has from then on, so
-- that a second call returns it again and changes nothing.
pub get_client-twice :
    (dial : Bytes → Bool) (server_id : Bytes) (p : Pool) (taken : List ℕ) (c : ℕ)
    → Reach dial p taken
    → (get_client dial server_id p).1 ≡ some c
    → ((get_client dial server_id p).0.opened c ≡ true)
      × ((get_client dial server_id p).0.target c ≡ server_id)
      × (get_client dial server_id (get_client dial server_id p).0 ≡ get_client dial server_id p)
unfolding get_client get_locked new_connect_client
get_client-twice dial k p taken c h g = elim (Option-cases (find k p.clients)) [
  | inr (e, f) ↦
      let one = (Reach-Inv dial h).listed k e f in
      (ground (arith, f, g, one), ground (arith, f, g, one), ground (arith, f))
  | inl f ↦ elim (Bool-cases (dial k)) [
    | inr d ↦ absurd (ground (arith, f, d, g))
    | inl d ↦ (
      ground (arith, f, d, g),
      ground (arith, f, d, g),
      ground (
        arith,
        f,
        d,
        find-put k k (record { server_id = k; conn = p.next }) p.clients,
        bytes_eq_refl k,
      ),
    )
  ]
]

pub get_client-some :
    (dial : Bytes → Bool) (server_id : Bytes) (p : Pool)
    → dial server_id ≡ true
    → ((c : ℕ) × ((get_client dial server_id p).1 ≡ some c))
unfolding get_client get_locked new_connect_client
get_client-some dial k p d = elim (Option-cases (find k p.clients)) [
  | inl f ↦ (p.next, ground (arith, f, d))
  | inr (e, f) ↦ (e.conn, ground (arith, f))
]

pub get_client-Reach :
    (dial : Bytes → Bool) (server_id : Bytes) (p : Pool) (taken : List ℕ)
    → Reach dial p taken
    → Reach dial (get_client dial server_id p).0 taken
unfolding get_client
get_client-Reach dial k p taken h = elim (Option-cases (find k p.clients)) [
  | inl f ↦ rw (get_client, f) (got k h)
  | inr (e, f) ↦ rw (get_client, f) h
]

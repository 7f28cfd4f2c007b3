-- ===== src/Task/ClientPool/Tests.antt =====
-- A pool with one connection.
use likegochat.Prelude.Bytes.{bytes_eq}
use likegochat.Prelude.{◌≡◌, ◌⊎◌, [], some, true, refl, mem}
use likegochat.Prelude.Dicts.{find, put}
use likegochat.Task.ClientPool.{Pool, Pooled, new_pool, get_locked, get_client}
use likegochat.Task.ClientPool.Leaks.{Reach-found, get_client-twice}
use likegochat.Task.ClientPool.Invariant.{Reach, start, got}
use likegochat.Task.Samples.{node_b, dial_all}

abbrev one : Pool
one = (get_locked dial_all node_b new_pool).0

one-Reach : Reach dial_all one []
one-Reach = got node_b start

one_open : one.opened 0 ≡ true
unfolding get_locked new_pool find
one_open = refl

Reach-found_example :
    ((e : Pooled) × (find (one.target 0) one.clients ≡ some e) × (e.conn ≡ 0)) ⊎ (mem 0 [] ≡ true)
Reach-found_example = Reach-found dial_all one [] 0 one-Reach one_open

gets_zero : (get_client dial_all node_b one).1 ≡ some 0
unfolding get_client get_locked new_pool find put bytes_eq
gets_zero = refl

get_client-twice_example :
    ((get_client dial_all node_b one).0.opened 0 ≡ true)
    × ((get_client dial_all node_b one).0.target 0 ≡ node_b)
    × (get_client dial_all node_b (get_client dial_all node_b one).0
        ≡ get_client dial_all node_b one)
get_client-twice_example = get_client-twice dial_all node_b one [] 0 one-Reach gets_zero

-- ===== src/Connect/Serve/Tests.antt =====
-- User 7 connects a second time to a node that serves the users 7 and 8, and is served, or not.
use likegochat.Prelude.{
  ℕ, ◌≡◌, ◌⊎◌, [], ◌∷◌, some, none, true, refl, lookup, insert, ◌==◌, if◌then◌else◌, arith,
}
use likegochat.Prelude.Bytes.{Bytes, codes, bytes_eq}
use likegochat.Redis.{delivered, refused}
use likegochat.Redis.Memory.{memory, empty_store, Store}
use likegochat.Logic.Samples.{accounts, plain}
use likegochat.Logic.Store.{
  refresh_script, is_session_active, get_text, session_key, user_session_key,
}
use likegochat.Prelude.Decimal.{format_int, parse_int}
use likegochat.Logic.Store.Sessions.{IsActive, refresh_single}
use likegochat.Logic.Store.Requests.{is_session_active_lem}
use likegochat.Logic.AuthServer.{verify}
use likegochat.Connect.Client.{connect, new_node}
use likegochat.Connect.Client.Registered.{Inv}
use likegochat.Connect.Registry.{register_user}
use likegochat.Connect.Registry.Routes.{route}
use likegochat.Connect.Samples.{two_clients, two_clients-Invs, two_clients_next}
use likegochat.Connect.Serve.{
  Site, serving, not_registered, serve_ws, verify_call, admit, disconnect,
}
use likegochat.Connect.Serve.Users.{serve_ws_lem, serve_ws_not_registered, serve_ws-disconnect}

abbrev sid : Bytes
sid = codes "s7"

abbrev node_a : Bytes
node_a = codes "a:1"

-- The session of user 7 is active.
abbrev sessions : Store
sessions = refresh_script memory 60 7 sid empty_store

abbrev site : Site memory accounts plain
site = record {
  node = two_clients;
  servers = record { world = record { db = sessions; net = [] }; db = [] };
}

session-IsActive : IsActive memory sid 7 sessions
session-IsActive = (refresh_single memory 60 7 sid sid empty_store (omega arith)).1 refl

serves : (serve_ws memory accounts plain node_a sid delivered true site).1 ≡ serving 7 3
unfolding serve_ws verify_call verify admit register_user
serves =
    ground (arith, is_session_active_lem memory sid 7 sessions session-IsActive, two_clients_next)

owner_one : (two_clients.heap 1).user_id ≡ 7
unfolding connect new_node lookup insert
owner_one = refl

serve_ws_lem_example :
    IsActive memory sid 7 sessions
    × (lookup 7 (serve_ws memory accounts plain node_a sid delivered true site).0.node.clients
        ≡ some 3)
    × (route memory 7
          (serve_ws memory accounts plain node_a sid delivered true site).0.servers.world.db
        ≡ some node_a)
    × Inv (serve_ws memory accounts plain node_a sid delivered true site).0.node
serve_ws_lem_example =
    serve_ws_lem memory accounts plain node_a sid delivered true 7 3 site two_clients-Invs.table
      (omega arith) serves

serve_ws-disconnect_example :
    disconnect memory accounts plain 1
      (serve_ws memory accounts plain node_a sid delivered true site).0
    ≡ (serve_ws memory accounts plain node_a sid delivered true site).0
serve_ws-disconnect_example =
    serve_ws-disconnect memory accounts plain node_a sid delivered true 7 3 1 site
      two_clients-Invs.table (omega arith) (omega (arith, two_clients_next)) owner_one serves

-- The registration of user 7 does not arrive.
abbrev faulty : Site memory accounts plain
faulty = record {
  node = two_clients;
  servers = record {
    world = record { db = sessions; net = delivered ∷ delivered ∷ refused ∷ [] };
    db = [];
  };
}

fails : (serve_ws memory accounts plain node_a sid delivered true faulty).1 ≡ not_registered
unfolding serve_ws verify_call verify admit register_user is_session_active get_text refresh_script
    session_key user_session_key format_int parse_int bytes_eq
fails = refl

serve_ws_not_registered_example :
    (u : ℕ) × IsActive memory sid u sessions
    × ((w : ℕ)
        → lookup w (serve_ws memory accounts plain node_a sid delivered true faulty).0.node.clients
          ≡ (if u == w then none else lookup w two_clients.clients))
    × ((route memory u
            (serve_ws memory accounts plain node_a sid delivered true faulty).0.servers.world.db
          ≡ route memory u sessions)
        ⊎ (route memory u
              (serve_ws memory accounts plain node_a sid delivered true faulty).0.servers.world.db
            ≡ some node_a))
    × Inv (serve_ws memory accounts plain node_a sid delivered true faulty).0.node
serve_ws_not_registered_example =
    serve_ws_not_registered memory accounts plain node_a sid delivered true faulty
      two_clients-Invs.table fails

-- ===== src/Connect/Registry/Tests.antt =====
-- A concrete route.
use likegochat.Prelude.{◌≡◌, [], some, none, refl, arith}
use likegochat.Prelude.Bytes.{Bytes, codes}
use likegochat.Redis.{World, ok}
use likegochat.Redis.Memory.{memory, empty_store}
use likegochat.Connect.Registry.{register_user, unregister_user}
use likegochat.Connect.Registry.Routes.{route, register-unregister}

abbrev start : World memory
start = record { db = empty_store; net = [] }

abbrev node_b : Bytes
node_b = codes "b:1"

registers : (register_user memory node_b 7 start).1 ≡ ok tt
unfolding register_user
registers = refl

unregisters : (unregister_user memory 7 (register_user memory node_b 7 start).0).1 ≡ ok tt
unfolding register_user unregister_user
unregisters = refl

register-unregister_example :
    (route memory 7 (register_user memory node_b 7 start).0.db ≡ some node_b)
    × (route memory 7 (unregister_user memory 7 (register_user memory node_b 7 start).0).0.db
        ≡ none)
register-unregister_example =
    register-unregister memory node_b 7 start (omega arith) registers unregisters

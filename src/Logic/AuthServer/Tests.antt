-- ===== src/Logic/AuthServer/Tests.antt =====
-- A concrete registration, login and logout.
use likegochat.Logic.Samples.{accounts, ann, plain, find_first}
use likegochat.Prelude.{◌≡◌, [], ◌∷◌, some, true, refl, arith}
use likegochat.Prelude.Bytes.{Bytes, codes, bytes_eq}
use likegochat.Redis.{ok}
use likegochat.Redis.Memory.{memory, empty_store}
use likegochat.Logic.Store.Sessions.{IsActive}
use likegochat.Logic.Store.{refresh_session, delete_session, session_key, user_session_key}
use likegochat.Prelude.Decimal.{format_int, parse_int}
use likegochat.Logic.AuthServer.{Servers, LoginReply, login, verify, logout}
use likegochat.Logic.AuthServer.Sessions.{login_lem, login-verify, logout_ends}

abbrev before : Servers memory accounts plain
before = record { world = record { db = empty_store; net = [] }; db = [] }

abbrev servers : Servers memory accounts plain
servers = record { world = record { db = empty_store; net = [] }; db = ann ∷ [] }

abbrev sid : Bytes
sid = codes "s1"

abbrev reply : LoginReply
reply = record { user_id = 1; session_id = sid; small_groups = [] }

named : accounts.user_named (codes "ann") servers.db ≡ some ann
named = find_first ann []

logs_in : (login memory accounts plain 60 sid (codes "ann") (codes "pw") servers).1 ≡ ok reply
unfolding login refresh_session bytes_eq
logs_in = refl

stays_calm :
    (login memory accounts plain 60 sid (codes "ann") (codes "pw") servers).0.world.net ≡ []
unfolding login refresh_session bytes_eq
stays_calm = refl

login_lem_example :
    (plain.compare ann.password_hash (codes "pw") ≡ true)
    × (reply.user_id ≡ ann.id)
    × IsActive memory reply.session_id ann.id
        (login memory accounts plain 60 sid (codes "ann") (codes "pw") servers).0.world.db
login_lem_example =
    login_lem memory accounts plain 60 sid (codes "ann") (codes "pw") ann servers reply named
      (omega arith) logs_in

login-verify_example :
    (verify memory accounts plain sid
      (login memory accounts plain 60 sid (codes "ann") (codes "pw") servers).0).1
    ≡ ok 1
login-verify_example =
    login-verify memory accounts plain 60 sid (codes "ann") (codes "pw") ann servers reply named
      (omega arith) refl logs_in stays_calm

abbrev logged_in : Servers memory accounts plain
logged_in = (login memory accounts plain 60 sid (codes "ann") (codes "pw") servers).0

logs_out_again : (logout memory accounts plain sid logged_in).1 ≡ ok true
unfolding logout login refresh_session delete_session session_key user_session_key format_int
    parse_int bytes_eq
logs_out_again = refl

logout_ends_example :
    ¬ IsActive memory sid 1 (logout memory accounts plain sid logged_in).0.world.db
logout_ends_example = logout_ends memory accounts plain sid 1 logged_in logs_out_again

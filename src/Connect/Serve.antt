-- ===== src/Connect/Serve.antt =====
-- `ServeWS` and the deferred cleanup of `readPump`, internal/connect/ws_handler.go, with the calls that
-- they make of the logic layer and of the registry.
pub mod Users
mod Tests
use likegochat.Prelude.{ℕ, Bool, Option, none, some, if◌then◌else◌, is_empty}
use likegochat.Prelude.Bytes.{Bytes}
use likegochat.Redis.{Redis, Outcome, delivered, refused, reply_lost, Result, ok, err}
use likegochat.Logic.Error.{Error}
use likegochat.Logic.AuthServer.{Database, Bcrypt, Servers, verify}
use likegochat.Connect.Client.{Node, connect, remove_client_if_match, cleanup}
use likegochat.Connect.Registry.{RegistryError, register_user, unregister_user}

abbrev unauthorized : ℕ
unauthorized = 401

-- How `ServeWS` ends: with a status, with an upgrade that has failed, with a user who could not be
-- registered, or with the pumps of a client started.
pub data End : Type 0 where
  http_error : ℕ → End
  not_upgraded not_registered : End
  serving : ℕ → ℕ → End

module _ (r : Redis) (mysql : Database) (bcrypt : Bcrypt) where
  -- A node, with the servers that it calls.
  pub record Site : Type 0 where
    pub node : Node
    pub servers : Servers r mysql bcrypt

  abbrev answer : Result Error ℕ → Option ℕ
  answer (ok u) = some u
  answer (err e) = none

  -- The call of `Verify` on its outcome; `none` is an error, of the call or of the server.
  unfoldable pub verify_call :
      Outcome → Bytes → Servers r mysql bcrypt → Servers r mysql bcrypt × Option ℕ
  verify_call delivered sid s =
      let (after, res) = verify r mysql bcrypt sid s in (after, answer res)
  verify_call refused sid s = (s, none)
  verify_call reply_lost sid s = ((verify r mysql bcrypt sid s).0, none)

  module _ (server_id : Bytes) where
    -- `ServeWS` after the upgrade: the table first, and then Redis.
    unfoldable pub admit : ℕ → Site → Site × End
    admit u s =
        let n = connect u s.node in
        let (w, registered) = register_user r server_id u s.servers.world in
        let servers : Servers r mysql bcrypt = record { world = w; db = s.servers.db } in
        elim registered [
          | ok done ↦ (record { node = n; servers = servers }, serving u s.node.next)
          | err e ↦ (
            record { node = (remove_client_if_match u s.node.next n).0; servers = servers },
            not_registered,
          )
        ]

    -- `upgrades` says whether `upgrader.Upgrade` succeeds.
    unfoldable pub serve_ws : Bytes → Outcome → Bool → Site → Site × End
    serve_ws sid outcome upgrades s =
        if is_empty sid
        then (s, http_error unauthorized)
        else let (servers, verified) = verify_call outcome sid s.servers in
          let checked : Site = record { node = s.node; servers = servers } in
          elim verified [
            | none ↦ (checked, http_error unauthorized)
            | some u ↦ if upgrades then admit u checked else (checked, not_upgraded)
          ]

  -- The deferred function of `readPump`; the error of the unregistration is dropped.
  unfoldable pub disconnect : ℕ → Site → Site
  disconnect p s =
      let (n, removed) = cleanup p s.node in
      if removed
      then record {
        node = n;
        servers = record {
          world = (unregister_user r (s.node.heap p).user_id s.servers.world).0;
          db = s.servers.db;
        };
      }
      else record { node = n; servers = s.servers }

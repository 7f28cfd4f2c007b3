-- ===== src/Logic/AuthServer/Verified.antt =====
-- What `Verify` says yes to, whatever the network does.
use likegochat.Prelude.{ℕ, ◌≡◌, Bool-cases, inl, inr, arith, is_empty}
use likegochat.Prelude.Bytes.{Bytes}
use likegochat.Redis.{Redis, ok}
use likegochat.Logic.Store.Sessions.{IsActive}
use likegochat.Logic.Store.Requests.{is_session_active-IsActive, is_session_active_keeps}
use likegochat.Logic.AuthServer.{Database, Bcrypt, Servers, verify}

module _ (r : Redis) (mysql : Database) (bcrypt : Bcrypt) where
  -- A user who is verified is the owner of an active session, and the check leaves the data.
  pub verify_lem :
      (sid : Bytes) (u : ℕ) (s : Servers r mysql bcrypt)
      → (verify r mysql bcrypt sid s).1 ≡ ok u
      → IsActive r sid u s.world.db × ((verify r mysql bcrypt sid s).0.world.db ≡ s.world.db)
  unfolding verify
  verify_lem sid u s h = elim (Bool-cases (is_empty sid)) [
    | inl e ↦ absurd (ground (arith, h, e))
    | inr e ↦ (
      is_session_active-IsActive r sid u s.world (ground (arith, h, e)),
      ground (arith, e, is_session_active_keeps r sid s.world),
    )
  ]

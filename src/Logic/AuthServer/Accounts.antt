-- ===== src/Logic/AuthServer/Accounts.antt =====
-- An account after its registration.
use likegochat.Logic.Store.{refresh_session}
use likegochat.Prelude.{
  ℕ, ◌≡◌, some, true, false, is_empty, ◌||◌, Bool-cases, inl, arith, inr, Option-cases,
}
use likegochat.Prelude.Bytes.{Bytes}
use likegochat.Redis.{Redis, ok}
use likegochat.Logic.AuthServer.{
  Database, Bcrypt, Servers, User, register, is_empty, refresh_session,
}

module _ (r : Redis) (mysql : Database) (bcrypt : Bcrypt) where
  -- A registration that succeeds has stored the name with a hash that accepts the password, and
  -- neither is empty.
  pub register_lem :
      (username password : Bytes) (s : Servers r mysql bcrypt) (id : ℕ)
      → (register r mysql bcrypt username password s).1 ≡ ok id
      → ((is_empty username || is_empty password) ≡ false)
        × (user : User) × (mysql.user_named username
              (register r mysql bcrypt username password s).0.db
            ≡ some user)
        × (user.id ≡ id)
        × (bcrypt.compare user.password_hash password ≡ true)
  unfolding register
  register_lem username password s id e =
      elim (Bool-cases (is_empty username || is_empty password)) [
        | inl f ↦ absurd (ground (arith, e, f))
        | inr f ↦ elim (Option-cases (bcrypt.generate password)) [
          | inl g ↦ absurd (ground (arith, e, f, g))
          | inr (hash, g) ↦
              let made = mysql.create_user username hash s.db in
              elim (Option-cases made.1) [
                | inl k ↦ absurd (ground (arith, e, f, g, k))
                | inr (x, k) ↦ (
                  f,
                  record { id = x; username = username; password_hash = hash },
                  ground (arith, f, g, k, mysql.created username hash s.db x k),
                  ground (arith, e, f, g, k),
                  bcrypt.accepts password hash g,
                )
              ]
        ]
      ]

-- ===== src/Logic/AuthServer/Sessions.antt =====
-- A login, the checks of its session, and its logout.
use likegochat.Logic.Store.{refresh_session, delete_session, is_session_active}
use likegochat.Prelude.{
  ℕ, ◌≡◌, ◌<◌, ◌^◌, List, [], some, true, false, Bool-cases, inl, is_empty, arith, inr,
  Option-cases, ap,
}
use likegochat.Redis.{Redis, World, ok, Result-cases, Outcome}
use likegochat.Prelude.Bytes.{Bytes}
use likegochat.Logic.Store.Sessions.{IsActive}
use likegochat.Logic.Store.Requests.{
  refresh_session_lem, is_session_active_lem, delete_session_ends,
}
use likegochat.Logic.AuthServer.{
  Database, Bcrypt, Servers, LoginReply, User, open_session, login, verify, logout, is_empty,
  refresh_session, delete_session, is_session_active,
}

module _ (r : Redis) (mysql : Database) (bcrypt : Bcrypt) where
  opens :
      (ttl : ℕ) (sid : Bytes) (u : ℕ) (s : Servers r mysql bcrypt) (reply : LoginReply)
      → u < 2 ^ 64
      → (open_session r mysql bcrypt ttl sid u s).1 ≡ ok reply
      → (reply.user_id ≡ u)
        × (reply.session_id ≡ sid)
        × IsActive r sid u (open_session r mysql bcrypt ttl sid u s).0.world.db
  unfolding open_session
  opens ttl sid u s reply h e = elim (Result-cases (refresh_session r ttl u sid s.world).1) [
    | inr (x, f) ↦ absurd (ground (arith, e, f))
    | inl (done, f) ↦ elim (Option-cases (mysql.list_groups u s.db)) [
      | inl g ↦ absurd (ground (arith, e, f, g))
      | inr (groups, g) ↦ (
        ground (arith, e, f, g),
        ground (arith, e, f, g),
        elim (refresh_session_lem r ttl u sid s.world h) [
          | inl active ↦ active
          | inr failed ↦ absurd (ground (arith, f, failed.0))
        ],
      )
    ]
  ]

  login_opens :
      (ttl : ℕ) (sid username password : Bytes) (user : User) (s : Servers r mysql bcrypt)
      (reply : LoginReply)
      → mysql.user_named username s.db ≡ some user
      → (login r mysql bcrypt ttl sid username password s).1 ≡ ok reply
      → (bcrypt.compare user.password_hash password ≡ true)
        × (login r mysql bcrypt ttl sid username password s
            ≡ open_session r mysql bcrypt ttl sid user.id s)
  unfolding login
  login_opens ttl sid username password user s reply named e = elim (mysql.taken username s.db) [
    | inl f ↦ absurd (ground (arith, e, f))
    | inr f ↦ (ground (arith, e, f, named), ground (arith, e, f, named))
  ]

  -- A login that succeeds was made with a password that the user's hash accepts, and the session that
  -- it returns is active for that user.
  pub login_lem :
      (ttl : ℕ) (sid username password : Bytes) (user : User) (s : Servers r mysql bcrypt)
      (reply : LoginReply)
      → mysql.user_named username s.db ≡ some user
      → user.id < 2 ^ 64
      → (login r mysql bcrypt ttl sid username password s).1 ≡ ok reply
      → (bcrypt.compare user.password_hash password ≡ true)
        × (reply.user_id ≡ user.id)
        × IsActive r reply.session_id user.id
            (login r mysql bcrypt ttl sid username password s).0.world.db
  login_lem ttl sid username password user s reply named h e =
      let goes = login_opens ttl sid username password user s reply named e in
      let opened = opens ttl sid user.id s reply h (ground (arith, goes.1, e)) in
      (goes.0, opened.0, rw (goes.1, opened.1) opened.2)

  verify_active :
      (sid : Bytes) (u : ℕ) (s : Servers r mysql bcrypt)
      → is_empty sid ≡ false
      → s.world.net ≡ []
      → IsActive r sid u s.world.db
      → (verify r mysql bcrypt sid s).1 ≡ ok u
  unfolding verify
  verify_active sid u s some_id quiet active =
      let calm : s.world ≡ record { db = s.world.db; net = [] } =
        ap (λ (net : List Outcome). record { db = s.world.db; net = net }) quiet in
      ground (
        arith,
        some_id,
        ap (λ (w : World r). (is_session_active r sid w).1) calm,
        is_session_active_lem r sid u s.world.db active,
      )

  -- While the network works, the session that a login has returned is verified as its user's.
  pub login-verify :
      (ttl : ℕ) (sid username password : Bytes) (user : User) (s : Servers r mysql bcrypt)
      (reply : LoginReply)
      → mysql.user_named username s.db ≡ some user
      → user.id < 2 ^ 64
      → is_empty sid ≡ false
      → (login r mysql bcrypt ttl sid username password s).1 ≡ ok reply
      → (login r mysql bcrypt ttl sid username password s).0.world.net ≡ []
      → (verify r mysql bcrypt reply.session_id
          (login r mysql bcrypt ttl sid username password s).0).1
        ≡ ok reply.user_id
  login-verify ttl sid username password user s reply named h some_id e quiet =
      let goes = login_opens ttl sid username password user s reply named e in
      let opened = opens ttl sid user.id s reply h (ground (arith, goes.1, e)) in
      rw opened.0 (
        verify_active reply.session_id user.id (login r mysql bcrypt ttl sid username password s).0
          (ground (arith, opened.1, some_id)) quiet
          (login_lem ttl sid username password user s reply named h e).2)

  -- A logout that succeeds leaves the session active for nobody, whatever the network does.
  pub logout_ends :
      (sid : Bytes) (u : ℕ) (s : Servers r mysql bcrypt)
      → (logout r mysql bcrypt sid s).1 ≡ ok true
      → ¬ IsActive r sid u (logout r mysql bcrypt sid s).0.world.db
  unfolding logout
  logout_ends sid u s e active = elim (Bool-cases (is_empty sid)) [
    | inl f ↦ absurd (ground (arith, e, f))
    | inr f ↦ elim (Result-cases (delete_session r sid s.world).1) [
      | inr (x, g) ↦ absurd (ground (arith, e, f, g))
      | inl (done, g) ↦ ground (arith, f, active.0, delete_session_ends r sid s.world g)
    ]
  ]

-- ===== src/Logic/AuthServer.antt =====
-- Registration, login, verification and logout, internal/logic/auth.go, with `CreateUser` of
-- internal/logic/store.go.
pub mod Sessions
pub mod Verified
pub mod Accounts
pub mod SmallGroups
mod Tests
use likegochat.Prelude.{
  ℕ, Bool, true, false, List, [], ◌∷◌, Option, none, some, if◌then◌else◌, is_empty, ◌||◌, not, ◌≡◌,
  ◌≢◌, ◌⊎◌,
}
use likegochat.Prelude.Bytes.{Bytes}
use likegochat.Redis.{Redis, World, Result, ok, err}
use likegochat.Logic.Error.{
  Error, empty_session, refresh_failed, username_password_required, db_error, hash_error,
  groups_failed, bad_login,
}
use likegochat.Logic.Store.{refresh_session, is_session_active, delete_session}

pub record User : Type 0 where
  pub id : ℕ
  pub username : Bytes
  pub password_hash : Bytes

pub record UserSmallGroup : Type 0 where
  pub group_id : ℕ
  pub group_name : Bytes
  pub member_count : ℕ

-- MySQL through gorm: `user_named` is the row of a name in the table of users, whose names are
-- unique; a query, or an insertion, may fail.
pub record Database : Type 1 where
  pub State : Type 0
  pub user_named : Bytes → State → Option User
  pub take_user : Bytes → State → Option (Option User)
  pub create_user : Bytes → Bytes → State → State × Option ℕ
  pub list_groups : ℕ → State → Option (List UserSmallGroup)
  pub taken :
      (name : Bytes) (s : State)
      → (take_user name s ≡ none) ⊎ (take_user name s ≡ some (user_named name s))
  pub created :
      (name hash : Bytes) (s : State) (id : ℕ)
      → (create_user name hash s).1 ≡ some id
      → user_named name (create_user name hash s).0
        ≡ some (record { id = id; username = name; password_hash = hash })

-- golang.org/x/crypto/bcrypt, which salts its hashes: `generate` is one of its runs.
pub record Bcrypt : Type 0 where
  pub generate : Bytes → Option Bytes
  pub compare : Bytes → Bytes → Bool
  pub accepts :
      (password hash : Bytes) → generate password ≡ some hash → compare hash password ≡ true

pub record LoginReply : Type 0 where
  pub user_id : ℕ
  pub session_id : Bytes
  pub small_groups : List UserSmallGroup

module _ (r : Redis) (mysql : Database) (bcrypt : Bcrypt) where
  pub record Servers : Type 0 where
    pub world : World r
    pub db : mysql.State

  pub register : Bytes → Bytes → Servers → Servers × Result Error ℕ
  register username password s =
      if is_empty username || is_empty password
      then (s, err username_password_required)
      else elim (bcrypt.generate password) [
        | none ↦ (s, err hash_error)
        | some hash ↦
            let (db, made) = mysql.create_user username hash s.db in
            (record s { db = db }, elim made [ none ↦ err db_error | some id ↦ ok id ])
      ]

  -- `Login` once the user is known; `session_id` is what `uuid.New` gives.
  pub open_session : ℕ → Bytes → ℕ → Servers → Servers × Result Error LoginReply
  open_session session_ttl session_id user_id s =
      let (w, refreshed) = refresh_session r session_ttl user_id session_id s.world in
      (
        record s { world = w },
        elim refreshed [
          | err e ↦ err refresh_failed
          | ok done ↦ elim (mysql.list_groups user_id s.db) [
            | none ↦ err groups_failed
            | some groups ↦
                ok (record { user_id = user_id; session_id = session_id; small_groups = groups })
          ]
        ],
      )

  pub login : ℕ → Bytes → Bytes → Bytes → Servers → Servers × Result Error LoginReply
  unfolding open_session
  login session_ttl session_id username password s =
      if is_empty username || is_empty password
      then (s, err username_password_required)
      else elim (mysql.take_user username s.db) [
        | none ↦ (s, err db_error)
        | some found ↦ elim found [
          | none ↦ (s, err bad_login)
          | some user ↦
              if not (bcrypt.compare user.password_hash password)
              then (s, err bad_login)
              else open_session session_ttl session_id user.id s
        ]
      ]

  unfoldable pub verify : Bytes → Servers → Servers × Result Error ℕ
  verify session_id s =
      if is_empty session_id
      then (s, err empty_session)
      else let (w, checked) = is_session_active r session_id s.world in
        (record s { world = w }, checked)

  pub logout : Bytes → Servers → Servers × Result Error Bool
  logout session_id s =
      if is_empty session_id
      then (s, err empty_session)
      else let (w, deleted) = delete_session r session_id s.world in
        (record s { world = w }, elim deleted [ err e ↦ err e | ok done ↦ ok true ])

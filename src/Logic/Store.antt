-- ===== src/Logic/Store.antt =====
-- The sessions of internal/logic/store.go.
pub mod Keys
pub mod Sessions
pub mod Requests
use likegochat.Prelude.{ℕ, List, [], ◌∷◌, ◌++◌, Option, none, some, if◌then◌else◌}
use likegochat.Prelude.Bytes.{Bytes, codes, bytes_eq}
use likegochat.Prelude.Decimal.{format_int, parse_int}
use likegochat.Redis.{Redis, M, ◌>>=◌, ◌>>◌, pure, fail, round_trip}
use likegochat.Logic.Error.{
  Error, redis_error, bad_number, invalid_session, session_expired, session_revoked,
}

abbrev pub redis_sess_prefix : Bytes
redis_sess_prefix = codes "sess:"

abbrev pub redis_user_prefix : Bytes
redis_user_prefix = codes "user_sess:"

unfoldable pub session_key : Bytes → Bytes
session_key session_id = redis_sess_prefix ++ session_id

unfoldable pub user_session_key : ℕ → Bytes
user_session_key user_id = redis_user_prefix ++ format_int user_id

module _ (r : Redis) where
  unfoldable pub get_text : Bytes → M r Error (Option Bytes)
  get_text k = round_trip redis_error (λ s. (s, r.get k s))

  pub run_script : (r.State → r.State) → M r Error (Unit {0})
  run_script f = round_trip redis_error (λ s. (f s, tt))

  -- `SessionTTL` is in seconds.
  pub create_session : ℕ → ℕ → Bytes → M r Error (Unit {0})
  unfolding run_script
  create_session session_ttl user_id session_id = run_script λ s.
      r.set (session_key session_id) (format_int user_id) session_ttl
        (r.set (user_session_key user_id) session_id session_ttl s)

  pub revoke_active_session_for_user : ℕ → M r Error (Unit {0})
  unfolding get_text run_script
  revoke_active_session_for_user user_id = do
    old ← get_text (user_session_key user_id)
    elim old [
      | none ↦ pure tt
      | some old_sid ↦ do
        run_script (r.del (session_key old_sid))
        run_script (r.del (user_session_key user_id))
    ]

  -- The Lua script of `RefreshSession`.
  unfoldable pub refresh_script : ℕ → ℕ → Bytes → r.State → r.State
  refresh_script session_ttl user_id session_id s =
      let revoked : r.State = elim (r.get (user_session_key user_id) s) [
        | none ↦ s
        | some old_sid ↦ r.del (redis_sess_prefix ++ old_sid) s
      ] in
      r.set (redis_sess_prefix ++ session_id) (format_int user_id) session_ttl
        (r.set (user_session_key user_id) session_id session_ttl revoked)

  unfoldable pub refresh_session : ℕ → ℕ → Bytes → M r Error (Unit {0})
  unfolding refresh_script run_script
  refresh_session session_ttl user_id session_id =
      run_script (refresh_script session_ttl user_id session_id)

  pub parsed : Option ℕ → M r Error ℕ
  parsed none = fail bad_number
  parsed (some user_id) = pure user_id

  unfoldable pub is_session_active : Bytes → M r Error ℕ
  unfolding get_text parsed
  is_session_active session_id = do
    val ← get_text (session_key session_id)
    elim val [
      | none ↦ fail invalid_session
      | some text ↦ do
        user_id ← parsed (parse_int text)
        active ← get_text (user_session_key user_id)
        elim active [
          | none ↦ fail session_expired
          | some active_session_id ↦
              if bytes_eq active_session_id session_id then pure user_id else fail session_revoked
        ]
    ]

  -- The Lua script of `DeleteSession`.
  pub delete_script : ℕ → Bytes → r.State → r.State
  delete_script user_id session_id s =
      let deleted = r.del (session_key session_id) s in
      elim (r.get (user_session_key user_id) deleted) [
        | none ↦ deleted
        | some current_sid ↦
            if bytes_eq current_sid session_id
            then r.del (user_session_key user_id) deleted
            else deleted
      ]

  unfoldable pub delete_session : Bytes → M r Error (Unit {0})
  unfolding get_text parsed run_script delete_script
  delete_session session_id = do
    val ← get_text (session_key session_id)
    elim val [
      | none ↦ pure tt
      | some text ↦ do
        user_id ← parsed (parse_int text)
        run_script (delete_script user_id session_id)
    ]

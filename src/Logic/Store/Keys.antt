-- ===== src/Logic/Store/Keys.antt =====
-- The two session indexes under each write to Redis.
use likegochat.Prelude.{
  ℕ, ◌^◌, ◌<◌, ◌≡◌, refl, false, Option, none, some, arith, ◌==◌, if◌then◌else◌, ◌∙◌,
}
use likegochat.Prelude.Bytes.{Bytes, bytes_eq}
use likegochat.Prelude.Decimal.{format_int, parse_int, parse_int-format_int, format_int-eq}
use likegochat.Redis.{Redis}
use likegochat.Logic.Store.{session_key, user_session_key}

session_key-eq : (a b : Bytes) → bytes_eq (session_key a) (session_key b) ≡ bytes_eq a b
unfolding session_key bytes_eq
session_key-eq a b = refl

user-ne-session : (u : ℕ) (a : Bytes) → bytes_eq (user_session_key u) (session_key a) ≡ false
unfolding session_key user_session_key bytes_eq
user-ne-session u a = refl

session-ne-user : (a : Bytes) (u : ℕ) → bytes_eq (session_key a) (user_session_key u) ≡ false
unfolding session_key user_session_key bytes_eq
session-ne-user a u = refl

user_tail :
    (u v : ℕ)
    → bytes_eq (user_session_key u) (user_session_key v) ≡ bytes_eq (format_int u) (format_int v)
unfolding user_session_key bytes_eq
user_tail u v = refl

user_session_key-eq :
    (u v : ℕ)
    → u < 2 ^ 64
    → v < 2 ^ 64
    → bytes_eq (user_session_key u) (user_session_key v) ≡ (u == v)
user_session_key-eq u v hu hv = user_tail u v ∙ format_int-eq u v hu hv

module _ (r : Redis) where
  -- The user that a session belongs to, and the session that a user has.
  unfoldable pub owner : Bytes → r.State → Option ℕ
  owner session_id s = elim (r.get (session_key session_id) s) [
    | none ↦ none
    | some t ↦ parse_int t
  ]

  unfoldable pub current : ℕ → r.State → Option Bytes
  current user_id s = r.get (user_session_key user_id) s

  pub owner-set_session :
      (a b : Bytes) (u ttl : ℕ) (s : r.State)
      → u < 2 ^ 64
      → owner b (r.set (session_key a) (format_int u) ttl s)
        ≡ (if bytes_eq a b then some u else owner b s)
  unfolding owner
  owner-set_session a b u ttl s h = ground (
    arith,
    r.get-set (session_key a) (session_key b) (format_int u) ttl s,
    session_key-eq a b,
    parse_int-format_int u h,
  )

  pub owner-set_user :
      (u : ℕ) (b v : Bytes) (ttl : ℕ) (s : r.State)
      → owner b (r.set (user_session_key u) v ttl s) ≡ owner b s
  unfolding owner
  owner-set_user u b v ttl s =
      ground (arith, r.get-set (user_session_key u) (session_key b) v ttl s, user-ne-session u b)

  pub owner-del_session :
      (a b : Bytes) (s : r.State)
      → owner b (r.del (session_key a) s) ≡ (if bytes_eq a b then none else owner b s)
  unfolding owner
  owner-del_session a b s =
      ground (arith, r.get-del (session_key a) (session_key b) s, session_key-eq a b)

  pub owner-del_user :
      (u : ℕ) (b : Bytes) (s : r.State) → owner b (r.del (user_session_key u) s) ≡ owner b s
  unfolding owner
  owner-del_user u b s =
      ground (arith, r.get-del (user_session_key u) (session_key b) s, user-ne-session u b)

  pub current-set_user :
      (u v : ℕ) (a : Bytes) (ttl : ℕ) (s : r.State)
      → u < 2 ^ 64
      → v < 2 ^ 64
      → current v (r.set (user_session_key u) a ttl s) ≡ (if u == v then some a else current v s)
  unfolding current
  current-set_user u v a ttl s hu hv = ground (
    arith,
    r.get-set (user_session_key u) (user_session_key v) a ttl s,
    user_session_key-eq u v hu hv,
  )

  pub current-set_session :
      (a t : Bytes) (v ttl : ℕ) (s : r.State)
      → current v (r.set (session_key a) t ttl s) ≡ current v s
  unfolding current
  current-set_session a t v ttl s =
      ground (arith, r.get-set (session_key a) (user_session_key v) t ttl s, session-ne-user a v)

  pub current-del_session :
      (a : Bytes) (v : ℕ) (s : r.State) → current v (r.del (session_key a) s) ≡ current v s
  unfolding current
  current-del_session a v s =
      ground (arith, r.get-del (session_key a) (user_session_key v) s, session-ne-user a v)

  pub current-del_user :
      (u v : ℕ) (s : r.State)
      → u < 2 ^ 64
      → v < 2 ^ 64
      → current v (r.del (user_session_key u) s) ≡ (if u == v then none else current v s)
  unfolding current
  current-del_user u v s hu hv =
      ground (
        arith,
        r.get-del (user_session_key u) (user_session_key v) s,
        user_session_key-eq u v hu hv,
      )

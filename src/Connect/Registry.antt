-- ===== src/Connect/Registry.antt =====
-- internal/connect/registry.go: the routes in Redis from users to connect nodes, and the set of nodes.
pub mod Routes
mod Tests
use likegochat.Prelude.{ℕ, List, [], ◌∷◌, ◌++◌, if◌then◌else◌, is_empty}
use likegochat.Prelude.Bytes.{Bytes, codes}
use likegochat.Prelude.Decimal.{format_int}
use likegochat.Redis.{Redis, M, pure, fail, round_trip}

pub data RegistryError : Type 0 where
  no_reply empty_server_id : RegistryError

abbrev pub user_server_key_prefix : Bytes
user_server_key_prefix = codes "user_server:"

abbrev pub connect_nodes_key_prefix : Bytes
connect_nodes_key_prefix = codes "connect_nodes:"

-- `24*time.Hour`, in seconds.
abbrev pub route_ttl : ℕ
route_ttl = 86400

unfoldable pub user_server_key : ℕ → Bytes
user_server_key user_id = user_server_key_prefix ++ format_int user_id

module _ (r : Redis) where
  unfoldable pub register_user : Bytes → ℕ → M r RegistryError (Unit {0})
  register_user server_id user_id =
      round_trip no_reply (λ s. (r.set (user_server_key user_id) server_id route_ttl s, tt))

  pub unregister_user : ℕ → M r RegistryError (Unit {0})
  unregister_user user_id = round_trip no_reply (λ s. (r.del (user_server_key user_id) s, tt))

  pub register_connect_node : Bytes → M r RegistryError (Unit {0})
  register_connect_node server_id =
      if is_empty server_id
      then fail empty_server_id
      else round_trip no_reply (λ s. (r.sadd connect_nodes_key_prefix (server_id ∷ []) s, tt))

  pub unregister_connect_node : Bytes → M r RegistryError (Unit {0})
  unregister_connect_node server_id =
      if is_empty server_id
      then pure tt
      else round_trip no_reply (λ s. (r.srem connect_nodes_key_prefix server_id s, tt))

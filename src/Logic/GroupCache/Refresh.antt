-- ===== src/Logic/GroupCache/Refresh.antt =====
-- A refresh of the cache where the network works.
use likegochat.Prelude.{
  ℕ, ◌≡◌, ◌∙◌, refl, ◌==◌, List, [], ◌∷◌, true, false, some, arith, Bool-cases, inl, inr, is_empty,
  map,
}
use likegochat.Prelude.Bytes.{Bytes, bytes_eq}
use likegochat.Prelude.Decimal.{format_int}
use likegochat.Redis.{Redis, World, ok}
use likegochat.Connect.Registry.{user_server_key}
use likegochat.Connect.Registry.Routes.{route}
use likegochat.Logic.GroupCache.{
  group_key, run_pipeline, refresh_group_members_cache, fill_cache, rebuild, placeholder, short_ttl,
  long_ttl,
}

apart : (g u : ℕ) → bytes_eq (group_key g) (user_server_key u) ≡ false
unfolding group_key user_server_key bytes_eq
apart g u = refl

module _ (r : Redis) (rows : ℕ → List ℕ) where
  -- The script that fills the cache leaves the routes.
  pub rebuild-route : (g u : ℕ) (s : r.State) → route r u (rebuild r g (rows g) s) ≡ route r u s
  unfolding rebuild route
  rebuild-route g u s =
      let key = group_key g in
      let j = user_server_key u in
      let cleared = r.del key s in
      let texts = λ (vs : List Bytes) (ttl : ℕ).
        r.get-expire key j ttl (r.sadd key vs cleared) ∙ r.get-sadd key j vs cleared in
      ground (
        arith,
        texts (format_int placeholder ∷ []) short_ttl,
        texts (map format_int (rows g)) long_ttl,
        r.get-del key j s,
        apart g u,
      )

  no_rows : (ms : List ℕ) → is_empty ms ≡ true → ms ≡ []
  no_rows [] h = refl
  no_rows (m ∷ ms) h = cc

  -- With no fault of the network left, a refresh fills the cache and returns the rows of the table.
  pub refresh_group_members_cache_calm :
      (g : ℕ) (w : World r)
      → (g == 0) ≡ false
      → w.net ≡ []
      → refresh_group_members_cache r (λ i. some (rows i)) g w
        ≡ (record { db = rebuild r g (rows g) w.db; net = [] }, ok (rows g))
  unfolding refresh_group_members_cache fill_cache run_pipeline
  refresh_group_members_cache_calm g w z calm = elim (Bool-cases (is_empty (rows g))) [
    | inl e ↦ ground (arith, z, calm, e, no_rows (rows g))
    | inr e ↦ ground (arith, z, calm, e)
  ]

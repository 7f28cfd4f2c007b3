-- ===== src/Logic/GroupCache/Coherence.antt =====
-- When the cache of the members agrees with the table, and the script that fills it.
use likegochat.Prelude.Decimal.{format_int, format_int-eq}
use likegochat.Prelude.Bytes.{Bytes, bytes_eq}
use likegochat.Prelude.{
  ℕ, ◌≡◌, List, true, false, none, ◌<◌, mem, ◌^◌, is_empty, map, if◌then◌else◌, [], refl, ◌==◌,
  arith, Bool-cases, inl, inr, ◌∙◌,
}
use likegochat.Redis.{Redis, mem_bytes}
use likegochat.Logic.GroupCache.{
  group_key, rebuild, Bytes, mem, is_empty, mem_bytes, format_int, map, ◌∷◌, short_ttl, placeholder,
  long_ttl,
}

module _ (r : Redis) (rows : ℕ → List ℕ) where
  -- The user ids of the table are positive int64 values.
  abbrev pub AreIds : Type 0
  AreIds = (g u : ℕ) → mem u (rows g) ≡ true → u < 2 ^ 63

  -- A group that is cached is cached as the table has it, and the key of a group never holds a text.
  pub record IsCoherent (s : r.State) : Type 0 where
    pub cached :
        (g u : ℕ) (v : Bytes)
        → g < 2 ^ 64
        → u < 2 ^ 63
        → mem_bytes v (r.members (group_key g) s) ≡ true
        → mem_bytes (format_int u) (r.members (group_key g) s) ≡ mem u (rows g)
    pub set_only : (g : ℕ) → r.get (group_key g) s ≡ none

  mem_format :
      (u : ℕ) (us : List ℕ)
      → u < 2 ^ 63
      → ((v : ℕ) → mem v us ≡ true → v < 2 ^ 63)
      → mem_bytes (format_int u) (map format_int us) ≡ mem u us
  mem_format u [] hu hs = refl
  mem_format u (v ∷ us) hu hs =
      ground (arith, format_int-eq v u, hs v, mem_format u us hu (λ w h. hs w (ground (arith, h))))

  pub group_key-eq :
      (g j : ℕ) → g < 2 ^ 64 → j < 2 ^ 64 → bytes_eq (group_key g) (group_key j) ≡ (g == j)
  unfolding group_key bytes_eq
  group_key-eq g j hg hj = format_int-eq g j hg hj

  rebuild_members :
      (g u : ℕ) (j : Bytes) (s : r.State)
      → u < 2 ^ 63
      → AreIds
      → mem_bytes (format_int u) (r.members j (rebuild r g (rows g) s)) ≡ (
          if bytes_eq (group_key g) j
          then mem u (rows g)
          else mem_bytes (format_int u) (r.members j s))
  unfolding rebuild
  rebuild_members g u j s hu ids =
      let cleared = r.del (group_key g) s in
      elim (Bool-cases (is_empty (rows g))) [
        | inl e ↦ ground (
          arith,
          e,
          r.members-expire (group_key g) j short_ttl
              (r.sadd (group_key g) (format_int placeholder ∷ []) cleared),
          r.members-sadd (group_key g) j (format_int u) (format_int placeholder ∷ []) cleared,
          r.members-del (group_key g) j s,
          format_int-eq placeholder u,
        )
        | inr e ↦ ground (
          arith,
          e,
          r.members-expire (group_key g) j long_ttl
              (r.sadd (group_key g) (map format_int (rows g)) cleared),
          r.members-sadd (group_key g) j (format_int u) (map format_int (rows g)) cleared,
          r.members-del (group_key g) j s,
          mem_format u (rows g) hu (ids g),
        )
      ]

  rebuild_other :
      (g : ℕ) (v j : Bytes) (s : r.State)
      → bytes_eq (group_key g) j ≡ false
      → mem_bytes v (r.members j (rebuild r g (rows g) s)) ≡ mem_bytes v (r.members j s)
  unfolding rebuild
  rebuild_other g v j s h =
      let cleared = r.del (group_key g) s in
      elim (Bool-cases (is_empty (rows g))) [
        | inl e ↦ ground (
          arith,
          e,
          h,
          r.members-expire (group_key g) j short_ttl
              (r.sadd (group_key g) (format_int placeholder ∷ []) cleared),
          r.members-sadd (group_key g) j v (format_int placeholder ∷ []) cleared,
          r.members-del (group_key g) j s,
        )
        | inr e ↦ ground (
          arith,
          e,
          h,
          r.members-expire (group_key g) j long_ttl
              (r.sadd (group_key g) (map format_int (rows g)) cleared),
          r.members-sadd (group_key g) j v (map format_int (rows g)) cleared,
          r.members-del (group_key g) j s,
        )
      ]

  rebuild_text :
      (g : ℕ) (j : Bytes) (s : r.State) → r.get j s ≡ none → r.get j (rebuild r g (rows g) s) ≡ none
  unfolding rebuild
  rebuild_text g j s h =
      let cleared = r.del (group_key g) s in
      let texts = λ (vs : List Bytes) (ttl : ℕ).
        r.get-expire (group_key g) j ttl (r.sadd (group_key g) vs cleared)
        ∙ r.get-sadd (group_key g) j vs cleared in
      ground (
        arith,
        h,
        texts (format_int placeholder ∷ []) short_ttl,
        texts (map format_int (rows g)) long_ttl,
        r.get-del (group_key g) j s,
      )

  pub rebuild-IsCoherent :
      (g : ℕ) (s : r.State)
      → g < 2 ^ 64
      → AreIds
      → IsCoherent s
      → IsCoherent (rebuild r g (rows g) s)
  rebuild-IsCoherent g s hg ids c = record {
    cached = λ j u v hj hu h. ground (
      arith,
      h,
      group_key-eq g j hg hj,
      rebuild_members g u (group_key j) s hu ids,
      rebuild_other g v (group_key j) s,
      rebuild_other g (format_int u) (group_key j) s,
      c.cached j u v hj hu,
    );
    set_only = λ j. rebuild_text g (group_key j) s (c.set_only j);
  }

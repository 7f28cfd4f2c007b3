-- ===== src/Logic/Store/Sessions.antt =====
-- The two session indexes under the scripts of a login and of a logout.
use likegochat.Prelude.{
  ℕ, ◌^◌, ◌<◌, ◌≡◌, refl, ◌≢◌, ◌↔◌, Bool, true, false, Option, none, some, arith, inl, inr,
  Option-cases, ◌==◌, if◌then◌else◌, ap, ◌∙◌, ◌&&◌,
}
use likegochat.Prelude.Bytes.{Bytes, bytes_eq, bytes_eq_iff, bytes_eq_refl}
use likegochat.Prelude.Decimal.{format_int}
use likegochat.Redis.{Redis}
use likegochat.Logic.Store.{session_key, user_session_key, refresh_script, delete_script}
use likegochat.Logic.Store.Keys.{
  owner, current, owner-set_session, owner-set_user, owner-del_session, owner-del_user,
  current-set_user, current-set_session, current-del_session, current-del_user,
}

abbrev holds : Bytes → Option Bytes → Bool
holds b none = false
holds b (some a) = bytes_eq a b

holds_lem : (b : Bytes) (o : Option Bytes) → holds b o ≡ true → o ≡ some b
holds_lem b none h = cc
holds_lem b (some a) h = ap some ((bytes_eq_iff a b).0 h)

module _ (r : Redis) where
  -- Both indexes agree on the session.
  abbrev pub IsActive : Bytes → ℕ → r.State → Type 0
  IsActive sid u s = (owner r sid s ≡ some u) × (current r u s ≡ some sid)

  -- The state after the script has deleted the session that the user had.
  revoked : ℕ → r.State → r.State
  revoked u s = elim (current r u s) [ none ↦ s | some old ↦ r.del (session_key old) s ]

  refresh_script_lem :
      (ttl u : ℕ) (sid : Bytes) (s : r.State)
      → refresh_script r ttl u sid s
        ≡ r.set
            (session_key sid)
            (format_int u)
            ttl
            (r.set (user_session_key u) sid ttl (revoked u s))
  unfolding refresh_script revoked current session_key
  refresh_script_lem ttl u sid s = refl

  owner-revoked :
      (u : ℕ) (b : Bytes) (s : r.State)
      → owner r b (revoked u s) ≡ (if holds b (current r u s) then none else owner r b s)
  unfolding revoked
  owner-revoked u b s = elim (Option-cases (current r u s)) [
    | inl e ↦ ground (arith, e)
    | inr (o, e) ↦ ground (arith, e, owner-del_session r o b s)
  ]

  current-revoked : (u v : ℕ) (s : r.State) → current r v (revoked u s) ≡ current r v s
  unfolding revoked
  current-revoked u v s = elim (Option-cases (current r u s)) [
    | inl e ↦ ground (arith, e)
    | inr (o, e) ↦ ground (arith, e, current-del_session r o v s)
  ]

  refresh-owner :
      (ttl u : ℕ) (sid b : Bytes) (s : r.State)
      → u < 2 ^ 64
      → owner r b (refresh_script r ttl u sid s)
        ≡ (if bytes_eq sid b then some u else if holds b (current r u s) then none else owner r b s)
  refresh-owner ttl u sid b s h =
      let stored = r.set (user_session_key u) sid ttl (revoked u s) in
      ap (owner r b) (refresh_script_lem ttl u sid s)
      ∙ owner-set_session r sid b u ttl stored h
      ∙ rw (owner-set_user r u b sid ttl (revoked u s), owner-revoked u b s)

  refresh-current :
      (ttl u v : ℕ) (sid : Bytes) (s : r.State)
      → u < 2 ^ 64
      → v < 2 ^ 64
      → current r v (refresh_script r ttl u sid s) ≡ (if u == v then some sid else current r v s)
  refresh-current ttl u v sid s hu hv =
      let stored = r.set (user_session_key u) sid ttl (revoked u s) in
      ap (current r v) (refresh_script_lem ttl u sid s)
      ∙ current-set_session r sid (format_int u) v ttl stored
      ∙ current-set_user r u v sid ttl (revoked u s) hu hv
      ∙ rw (current-revoked u v s)

  -- No session is listed under two users.
  pub record Inv (s : r.State) : Type 0 where
    pub paired :
        (u v : ℕ) (sid : Bytes)
        → u < 2 ^ 64
        → current r u s ≡ some sid
        → owner r sid s ≡ some v
        → v ≡ u
    pub apart :
        (u v : ℕ) (sid : Bytes)
        → u < 2 ^ 64
        → v < 2 ^ 64
        → current r u s ≡ some sid
        → current r v s ≡ some sid
        → u ≡ v

  -- A session id that is nowhere in use, as `uuid.New()` gives it.
  pub record IsFresh (sid : Bytes) (s : r.State) : Type 0 where
    pub unowned : owner r sid s ≡ none
    pub unlisted : (v : ℕ) → current r v s ≢ some sid

  -- A login makes the new session active, and it is then the user's only active one.
  pub refresh_single :
      (ttl u : ℕ) (sid b : Bytes) (s : r.State)
      → u < 2 ^ 64
      → IsActive b u (refresh_script r ttl u sid s) ↔ (b ≡ sid)
  refresh_single ttl u sid b s h = (
    λ a. ground (arith, a.1, refresh-current ttl u u sid s h h),
    λ e. (
      ground (arith, e, refresh-owner ttl u sid b s h, bytes_eq_refl sid),
      ground (arith, e, refresh-current ttl u u sid s h h),
    ),
  )

  -- The script of a login with a fresh session id leaves the active sessions of the other users as
  -- they are, if the indexes are consistent.
  pub refresh_spares :
      (ttl u v : ℕ) (sid b : Bytes) (s : r.State)
      → u < 2 ^ 64
      → v < 2 ^ 64
      → u ≢ v
      → Inv s
      → IsFresh sid s
      → IsActive b v (refresh_script r ttl u sid s) ↔ IsActive b v s
  refresh_spares ttl u v sid b s hu hv ne inv fresh =
      let same_current = refresh-current ttl u v sid s hu hv in
      let same_owner = refresh-owner ttl u sid b s hu in
      (
        λ a.
            ground
              (arith, a.0, a.1, same_current, same_owner, bytes_eq_iff sid b, fresh.unlisted v),
        λ a. (
          ground (
            arith,
            a.0,
            a.1,
            same_owner,
            bytes_eq_iff sid b,
            fresh.unowned,
            holds_lem b (current r u s),
            inv.paired u v b,
          ),
          ground (arith, a.1, same_current),
        ),
      )

  -- A login with a fresh session id keeps the two indexes consistent.
  pub refresh-Inv :
      (ttl u : ℕ) (sid : Bytes) (s : r.State)
      → u < 2 ^ 64
      → IsFresh sid s
      → Inv s
      → Inv (refresh_script r ttl u sid s)
  refresh-Inv ttl u sid s h fresh inv = record {
    paired = λ a v b ha c o. ground (
      arith,
      refresh-current ttl u a sid s h ha,
      refresh-owner ttl u sid b s h,
      bytes_eq_refl sid,
      bytes_eq_iff sid b,
      fresh.unlisted a,
      inv.paired a v b,
    );
    apart = λ a v b ha hv c d. ground (
      arith,
      refresh-current ttl u a sid s h ha,
      refresh-current ttl u v sid s h hv,
      fresh.unlisted a,
      fresh.unlisted v,
      inv.apart a v b,
    );
  }

  pub delete-owner :
      (u : ℕ) (sid b : Bytes) (s : r.State)
      → owner r b (delete_script r u sid s) ≡ (if bytes_eq sid b then none else owner r b s)
  unfolding delete_script
  delete-owner u sid b s =
      ground (arith, owner-del_session r sid b s, owner-del_user r u b (r.del (session_key sid) s))

  delete-current :
      (u v : ℕ) (sid : Bytes) (s : r.State)
      → u < 2 ^ 64
      → v < 2 ^ 64
      → current r v (delete_script r u sid s)
        ≡ (if (u == v) && holds sid (current r u s) then none else current r v s)
  unfolding delete_script current
  delete-current u v sid s hu hv = elim (Option-cases (current r u s)) [
    | inl e ↦ ground (arith, e, current-del_session r sid u s, current-del_session r sid v s)
    | inr (o, e) ↦ ground (
      arith,
      e,
      current-del_session r sid u s,
      current-del_session r sid v s,
      current-del_user r u v (r.del (session_key sid) s) hu hv,
    )
  ]

  -- The script of a logout ends that session.
  pub delete_script_ends :
      (u v : ℕ) (sid : Bytes) (s : r.State) → ¬ IsActive sid v (delete_script r u sid s)
  delete_script_ends u v sid s a = ground (arith, a.0, delete-owner u sid sid s, bytes_eq_refl sid)

  -- The script of a logout leaves every other session as it is, also if the user has logged in again
  -- between the lookup and the script.
  pub delete_script_spares :
      (u v : ℕ) (sid b : Bytes) (s : r.State)
      → u < 2 ^ 64
      → v < 2 ^ 64
      → b ≢ sid
      → IsActive b v (delete_script r u sid s) ↔ IsActive b v s
  delete_script_spares u v sid b s hu hv ne =
      let same_owner = delete-owner u sid b s in
      let same_current = delete-current u v sid s hu hv in
      (
        λ a. (
          ground (arith, a.0, same_owner, bytes_eq_iff sid b),
          ground (arith, a.1, same_current),
        ),
        λ a. (
          ground (arith, a.0, same_owner, bytes_eq_iff sid b),
          ground (arith, a.1, same_current, holds_lem sid (current r u s)),
        ),
      )

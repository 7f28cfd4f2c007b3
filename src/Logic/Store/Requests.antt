-- ===== src/Logic/Store/Requests.antt =====
-- What a login, a logout and the check of a session report over a network that may fail.
use likegochat.Prelude.{
  ℕ, ◌^◌, ◌<◌, ◌≡◌, refl, [], none, arith, inl, inr, Option-cases, ◌⊎◌, Bool-cases,
}
use likegochat.Prelude.Bytes.{Bytes, bytes_eq_iff, bytes_eq_refl, bytes_eq}
use likegochat.Prelude.Decimal.{parse_int}
use likegochat.Redis.{Redis, World, ok, err}
use likegochat.Logic.Error.{redis_error}
use likegochat.Logic.Store.{
  session_key, user_session_key, refresh_script, delete_script, refresh_session, is_session_active,
  delete_session, get_text, run_script, bytes_eq,
}
use likegochat.Logic.Store.Keys.{owner, current}
use likegochat.Logic.Store.Sessions.{IsActive, delete-owner, refresh_single}
use likegochat.Logic.Store.{get_text, run_script}
use likegochat.Logic.Error.{redis_error}
use likegochat.Prelude.{◌⊎◌}
use likegochat.Redis.Trips.{Reads, Writes, asks, orders}

module _ (r : Redis) where
  get_text-Reads : (k : Bytes) (w : World r) → Reads redis_error (r.get k w.db) (get_text r k) w
  unfolding get_text
  get_text-Reads k w = asks redis_error (r.get k) w.db w.net

  run_script-Writes :
      (f : r.State → r.State) (w : World r) → Writes redis_error f (run_script r f) w
  unfolding run_script
  run_script-Writes f w = orders redis_error f w.db w.net

  -- `IsSessionActive` says yes only to a session that both indexes name, whatever the network does.
  pub is_session_active-IsActive :
      (sid : Bytes) (u : ℕ) (w : World r)
      → (is_session_active r sid w).1 ≡ ok u
      → IsActive r sid u w.db
  unfolding is_session_active owner current
  is_session_active-IsActive sid u w h =
      let first = get_text-Reads (session_key sid) w in
      elim first.answer [
        | inl e ↦ elim (Option-cases (r.get (session_key sid) w.db)) [
          | inl f ↦ absurd (ground (arith, e, f, h))
          | inr (t, f) ↦ elim (Option-cases (parse_int t)) [
            | inl g ↦ absurd (ground (arith, e, f, g, h))
            | inr (v, g) ↦
                let second = get_text-Reads (user_session_key v) first.after in
                elim second.answer [
                  | inl i ↦ elim (Option-cases (r.get (user_session_key v) w.db)) [
                    | inl j ↦ absurd (ground (arith, e, f, g, i, j, first.same, h))
                    | inr (a, j) ↦ (
                      ground (arith, e, f, g, i, j, first.same, h),
                      ground (arith, e, f, g, i, j, first.same, h, bytes_eq_iff a sid),
                    )
                  ]
                  | inr i ↦ absurd (ground (arith, e, f, g, i, h))
                ]
          ]
        ]
        | inr e ↦ absurd (ground (arith, e, h))
      ]

  -- `IsSessionActive` leaves the data.
  pub is_session_active_keeps :
      (sid : Bytes) (w : World r) → (is_session_active r sid w).0.db ≡ w.db
  unfolding is_session_active
  is_session_active_keeps sid w =
      let first = get_text-Reads (session_key sid) w in
      elim first.answer [
        | inr e ↦ ground (arith, e, first.same)
        | inl e ↦ elim (Option-cases (r.get (session_key sid) w.db)) [
          | inl f ↦ ground (arith, e, f, first.same)
          | inr (t, f) ↦ elim (Option-cases (parse_int t)) [
            | inl g ↦ ground (arith, e, f, g, first.same)
            | inr (v, g) ↦
                let second = get_text-Reads (user_session_key v) first.after in
                elim second.answer [
                  | inr i ↦ ground (arith, e, f, g, i, first.same, second.same)
                  | inl i ↦ elim (Option-cases (r.get (user_session_key v) first.after.db)) [
                    | inl j ↦ ground (arith, e, f, g, i, j, first.same, second.same)
                    | inr (a, j) ↦ elim (Bool-cases (bytes_eq a sid)) [
                      | inl k ↦ ground (arith, e, f, g, i, j, k, first.same, second.same)
                      | inr k ↦ ground (arith, e, f, g, i, j, k, first.same, second.same)
                    ]
                  ]
                ]
          ]
        ]
      ]

  -- With no fault of the network left, `IsSessionActive` names the user of every session that both
  -- indexes agree on, and changes nothing.
  pub is_session_active_lem :
      (sid : Bytes) (u : ℕ) (s : r.State)
      → IsActive r sid u s
      → is_session_active r sid (record { db = s; net = [] }) ≡ (record { db = s; net = [] }, ok u)
  unfolding is_session_active owner current get_text
  is_session_active_lem sid u s a = elim (Option-cases (r.get (session_key sid) s)) [
    | inl f ↦ absurd (ground (arith, f, a.0))
    | inr (t, f) ↦ ground (arith, f, a.0, a.1, bytes_eq_refl sid)
  ]

  -- A logout that is reported as a success has ended the session, whatever the network does.
  pub delete_session_ends :
      (sid : Bytes) (w : World r)
      → (delete_session r sid w).1 ≡ ok tt
      → owner r sid (delete_session r sid w).0.db ≡ none
  unfolding delete_session owner
  delete_session_ends sid w h =
      let first = get_text-Reads (session_key sid) w in
      elim first.answer [
        | inl e ↦ elim (Option-cases (r.get (session_key sid) w.db)) [
          | inl f ↦ ground (arith, e, f, first.same)
          | inr (t, f) ↦ elim (Option-cases (parse_int t)) [
            | inl g ↦ absurd (ground (arith, e, f, g, h))
            | inr (v, g) ↦
                let script = run_script-Writes (delete_script r v sid) first.after in
                elim script.answer [
                  | inl i ↦ ground (
                    arith,
                    e,
                    f,
                    g,
                    i.0,
                    i.1,
                    delete-owner r v sid sid first.after.db,
                    bytes_eq_refl sid,
                  )
                  | inr i ↦ absurd (ground (arith, e, f, g, i.0, h))
                ]
          ]
        ]
        | inr e ↦ absurd (ground (arith, e, h))
      ]

  -- A login that is reported as a success has made its session active, and one that is reported as a
  -- failure has either done so or changed nothing.
  pub refresh_session_lem :
      (ttl u : ℕ) (sid : Bytes) (w : World r)
      → u < 2 ^ 64
      → IsActive r sid u (refresh_session r ttl u sid w).0.db
        ⊎ (((refresh_session r ttl u sid w).1 ≡ err redis_error)
            × ((refresh_session r ttl u sid w).0.db ≡ w.db))
  unfolding refresh_session
  refresh_session_lem ttl u sid w h =
      let script = run_script-Writes (refresh_script r ttl u sid) w in
      let active = (refresh_single r ttl u sid sid w.db h).1 refl in
      elim script.answer [
        | inl i ↦ inl (ground (arith, i.0, i.1, active))
        | inr i ↦ elim i.1 [
          | inl j ↦ inl (ground (arith, i.0, j, active))
          | inr j ↦ inr (ground (arith, i.0), ground (arith, i.0, j))
        ]
      ]

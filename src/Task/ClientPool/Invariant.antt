-- ===== src/Task/ClientPool/Invariant.antt =====
-- The invariant of the pool, and the sections of its calls, in any order.
use likegochat.Task.ClientPool.Conns.{
  conns-put, conns-erase, removed-mem, conns, mem-remove_first, mem-append, conns-find,
}
use likegochat.Prelude.{
  ℕ, ◌+◌, ◌<◌, ◌≡◌, ◌⊎◌, inl, inr, Bool, true, false, List, [], ◌∷◌, ◌++◌, none, some, mem,
  remove_first, ◌==◌, arith, Option-cases, Bool-cases, update,
}
use likegochat.Prelude.Bytes.{Bytes, bytes_eq_iff, bytes_eq_refl}
use likegochat.Prelude.Dicts.{find, put, find-put, find-erase}
use likegochat.Task.ClientPool.{
  Pooled, Pool, new_pool, get_locked, close_pooled, take_client, take_all, new_connect_client,
}

-- A pool with the connections that calls have taken out and not yet closed.
pub record Inv (p : Pool) (taken : List ℕ) : Type 0 where
  pub listed :
      (k : Bytes) (e : Pooled)
      → find k p.clients ≡ some e
      → (p.opened e.conn ≡ true) × (p.target e.conn ≡ k) × (mem e.conn taken ≡ false)
  pub found :
      (c : ℕ)
      → p.opened c ≡ true
      → mem c taken ≡ false
      → ((e : Pooled) × (find (p.target c) p.clients ≡ some e) × (e.conn ≡ c))
  pub fresh : (c : ℕ) → p.opened c ≡ true → c < p.next
  pub named : (c : ℕ) → mem c (conns p.clients) ≡ true → c < p.next
  pub older : (c : ℕ) → mem c taken ≡ true → c < p.next

-- The sections of the calls: what each does to the pool, and which connections are taken out.
pub data Reach (dial : Bytes → Bool) : Pool → List ℕ → Type 0 where
  start : Reach dial new_pool []
  got :
      {p : Pool} {taken : List ℕ}
      → (server_id : Bytes) → Reach dial p taken
      → Reach dial (get_locked dial server_id p).0 taken
  took :
      {p : Pool} {taken : List ℕ}
      → (server_id : Bytes) (c : ℕ) → (take_client server_id p).1 ≡ some c
      → Reach dial p taken
      → Reach dial (take_client server_id p).0 (c ∷ taken)
  took_all :
      {p : Pool} {taken : List ℕ}
      → Reach dial p taken
      → Reach dial (take_all p).0 (conns (take_all p).1 ++ taken)
  closed :
      {p : Pool} {taken : List ℕ}
      → (c : ℕ) → mem c taken ≡ true
      → Reach dial p taken
      → Reach dial (close_pooled c p).0 (remove_first c taken)

new_pool-Inv : Inv new_pool []
unfolding new_pool conns find
new_pool-Inv = record {
  listed = λ k e h. absurd (ground (arith, h));
  found = λ c h g. absurd (ground (arith, h));
  fresh = λ c h. absurd (ground (arith, h));
  named = λ c h. absurd (ground (arith, h));
  older = λ c h. absurd (ground (arith, h));
}

-- The pool after a connection to `k` has been made.
abbrev added : Bytes → Pool → Pool
added k p = record {
  clients = put k (record { server_id = k; conn = p.next }) p.clients;
  opened = update p.opened p.next true;
  target = update p.target p.next k;
  next = p.next + 1;
}

get_locked-cases :
    (dial : Bytes → Bool) (k : Bytes) (p : Pool)
    → ((get_locked dial k p).0 ≡ p)
      ⊎ ((find k p.clients ≡ none) × (get_locked dial k p ≡ (added k p, some p.next)))
unfolding get_locked new_connect_client
get_locked-cases dial k p = elim (Option-cases (find k p.clients)) [
  | inr (e, f) ↦ inl (ground (arith, f))
  | inl f ↦ elim (Bool-cases (dial k)) [
    | inr d ↦ inl (ground (arith, f, d))
    | inl d ↦ inr (f, ground (arith, f, d))
  ]
]

added-Inv :
    (k : Bytes) (p : Pool) (taken : List ℕ)
    → find k p.clients ≡ none
    → Inv p taken
    → Inv (added k p) taken
added-Inv k p taken f v =
    let entry : Pooled = record { server_id = k; conn = p.next } in
    record {
      listed = λ j e h. ground (
        arith,
        h,
        find-put k j entry p.clients,
        bytes_eq_iff k j,
        v.listed j e,
        v.fresh e.conn,
        v.older p.next,
      );
      found = λ c h g. elim (Bool-cases (p.next == c)) [
        | inl z ↦ (
          entry,
          ground (arith, z, find-put k k entry p.clients, bytes_eq_refl k),
          ground (arith, z),
        )
        | inr z ↦
            let old = v.found c (ground (arith, h, z)) g in
            (
              old.0,
              ground (
                arith,
                z,
                old.1,
                f,
                find-put k (p.target c) entry p.clients,
                bytes_eq_iff k (p.target c),
              ),
              old.2,
            )
      ];
      fresh = λ c h. ground (arith, h, v.fresh c);
      named = λ c h. ground (arith, conns-put k entry p.clients c h, v.named c);
      older = λ c h. ground (arith, v.older c h);
    }

get_locked-Inv :
    (dial : Bytes → Bool) (k : Bytes) (p : Pool) (taken : List ℕ)
    → Inv p taken
    → Inv (get_locked dial k p).0 taken
get_locked-Inv dial k p taken v = elim (get_locked-cases dial k p) [
  | inl e ↦ rw e v
  | inr (f, e) ↦ rw e (added-Inv k p taken f v)
]

take_client-Inv :
    (k : Bytes) (c : ℕ) (p : Pool) (taken : List ℕ)
    → (take_client k p).1 ≡ some c
    → Inv p taken
    → Inv (take_client k p).0 (c ∷ taken)
unfolding take_client
take_client-Inv k c p taken t v = elim (Option-cases (find k p.clients)) [
  | inl f ↦ absurd (ground (arith, f, t))
  | inr (d, f) ↦
      let same : d.conn ≡ c = ground (arith, f, t) in
      rw (f, take_client)
        (record {
          listed = λ j e h.
              let before : find j p.clients ≡ some e =
                ground (arith, h, find-erase k j p.clients) in
              let one = v.listed j e before in
              (
                one.0,
                one.1,
                ground (
                  arith,
                  h,
                  find-erase k j p.clients,
                  bytes_eq_iff k j,
                  bytes_eq_refl k,
                  one,
                  v.listed k d f,
                  same,
                ),
              );
          found = λ i h g.
              let old = v.found i h (ground (arith, g)) in
              (
                old.0,
                ground (
                  arith,
                  g,
                  old.1,
                  old.2,
                  same,
                  f,
                  find-erase k (p.target i) p.clients,
                  bytes_eq_iff k (p.target i),
                ),
                old.2,
              );
          fresh = v.fresh;
          named = λ i h. v.named i (conns-erase k p.clients i h);
          older = λ i h. ground (arith, h, v.older i, same, v.fresh i, (v.listed k d f).0);
        })
]

take_all-Inv :
    (p : Pool) (taken : List ℕ) → Inv p taken → Inv (take_all p).0 (conns (take_all p).1 ++ taken)
unfolding take_all find conns
take_all-Inv p taken v = record {
  listed = λ j e h. absurd (ground (arith, h));
  found = λ c h g.
      let split = mem-append c (conns p.clients) taken in
      let old = v.found c h (ground (arith, g, split)) in
      absurd (ground (arith, g, split, old.2, conns-find (p.target c) p.clients {e = old.0} old.1));
  fresh = v.fresh;
  named = λ c h. absurd (ground (arith, h));
  older = λ c h. ground (arith, h, mem-append c (conns p.clients) taken, v.named c, v.older c);
}

close_pooled-Inv :
    (c : ℕ) (p : Pool) (taken : List ℕ)
    → mem c taken ≡ true
    → Inv p taken
    → Inv (close_pooled c p).0 (remove_first c taken)
unfolding close_pooled
close_pooled-Inv c p taken m v = record {
  listed = λ j e h.
      let one = v.listed j e h in
      (ground (arith, m, one.0, one.2), one.1, ground (arith, one.2, removed-mem c e.conn taken));
  found = λ i h g. v.found i (ground (arith, h)) (ground (arith, g, h, mem-remove_first c i taken));
  fresh = λ i h. v.fresh i (ground (arith, h));
  named = v.named;
  older = λ i h. v.older i (removed-mem c i taken h);
}

pub Reach-Inv : (dial : Bytes → Bool) {p : Pool} {taken : List ℕ} → Reach dial p taken → Inv p taken
Reach-Inv dial start = new_pool-Inv
Reach-Inv dial (got {p} {taken} k h) = get_locked-Inv dial k p taken (Reach-Inv dial h)
Reach-Inv dial (took {p} {taken} k c t h) = take_client-Inv k c p taken t (Reach-Inv dial h)
Reach-Inv dial (took_all {p} {taken} h) = take_all-Inv p taken (Reach-Inv dial h)
Reach-Inv dial (closed {p} {taken} c m h) = close_pooled-Inv c p taken m (Reach-Inv dial h)

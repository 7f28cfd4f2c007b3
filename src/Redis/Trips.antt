-- ===== src/Redis/Trips.antt =====
-- What a round trip may do, by the fate of its request.
use likegochat.Prelude.{List, ◌≡◌, ◌⊎◌, inl, inr, [], ◌∷◌, refl, length, arith, ◌≤◌, ◌<◌}
use likegochat.Redis.{Redis, World, M, Outcome, ok, err, delivered, refused, reply_lost, round_trip}

module _ {r : Redis} {E : Type 0} (e : E) where
  -- A read leaves the data, and either answers with `a` or fails.
  pub record Reads {A : Type 0} (a : A) (m : M r E A) (w : World r) : Type 0 where
    pub after : World r
    pub same : after.db ≡ w.db
    pub answer : (m w ≡ (after, ok a)) ⊎ (m w ≡ (after, err e))

  pub asks :
      {A : Type 0} (g : r.State → A) (s : r.State) (net : List Outcome)
      → Reads (g s) (round_trip e (λ q. (q, g q))) (record { db = s; net = net })
  asks g s [] = record { after = _; same = refl; answer = inl refl }
  asks g s (delivered ∷ net) = record { after = _; same = refl; answer = inl refl }
  asks g s (refused ∷ net) = record { after = _; same = refl; answer = inr refl }
  asks g s (reply_lost ∷ net) = record { after = _; same = refl; answer = inr refl }

  -- A write takes effect or leaves the data, and it has taken effect where it is reported as a
  -- success.
  pub record Writes (f : r.State → r.State) (m : M r E (Unit {0})) (w : World r) : Type 0 where
    pub after : World r
    pub answer :
        ((m w ≡ (after, ok tt)) × (after.db ≡ f w.db))
        ⊎ ((m w ≡ (after, err e)) × ((after.db ≡ f w.db) ⊎ (after.db ≡ w.db)))

  pub orders :
      (f : r.State → r.State) (s : r.State) (net : List Outcome)
      → Writes f (round_trip e (λ q. (f q, tt))) (record { db = s; net = net })
  orders f s [] = record { after = _; answer = inl (refl, refl) }
  orders f s (delivered ∷ net) = record { after = _; answer = inl (refl, refl) }
  orders f s (refused ∷ net) = record { after = _; answer = inr (refl, inr refl) }
  orders f s (reply_lost ∷ net) = record { after = _; answer = inr (refl, inl refl) }

  -- An operation uses up outcomes of the network, and one at least where it fails.
  pub record Drains {A : Type 0} (m : M r E A) (w : World r) : Type 0 where
    pub bounded : length (m w).0.net ≤ length w.net
    pub failed : (x : E) → (m w).1 ≡ err x → length (m w).0.net < length w.net

  round_trip-Drains :
      {A : Type 0} (f : r.State → r.State × A) (s : r.State) (net : List Outcome)
      → Drains (round_trip e f) (record { db = s; net = net })
  round_trip-Drains f s [] = record {
    bounded = omega arith;
    failed = λ x h. absurd (ground (arith, h));
  }
  round_trip-Drains f s (delivered ∷ net) = record {
    bounded = omega arith;
    failed = λ x h. absurd (ground (arith, h));
  }
  round_trip-Drains f s (refused ∷ net) = record {
    bounded = omega arith;
    failed = λ x h. omega arith;
  }
  round_trip-Drains f s (reply_lost ∷ net) = record {
    bounded = omega arith;
    failed = λ x h. omega arith;
  }

  pub drains : {A : Type 0} (f : r.State → r.State × A) (w : World r) → Drains (round_trip e f) w
  drains f w = round_trip-Drains f w.db w.net

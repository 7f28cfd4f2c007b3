-- ===== src/Task/ClientPool/Conns.antt =====
-- The connections of the table of the pool, and of a list that is taken out.
use likegochat.Prelude.{
  ℕ, ◌≡◌, ◌⊎◌, true, false, List, [], ◌∷◌, ◌++◌, some, mem, remove_first, ◌==◌, ◌||◌, arith, refl,
}
use likegochat.Prelude.Bytes.{Bytes}
use likegochat.Prelude.Dicts.{Dict, find, put, erase}
use likegochat.Task.ClientPool.{Pooled}

-- The connections of the table.
unfoldable pub conns : Dict Pooled → List ℕ
conns [] = []
conns ((k, e) ∷ rest) = e.conn ∷ conns rest

pub conns-find :
    (k : Bytes) (m : Dict Pooled) {e : Pooled} → find k m ≡ some e → mem e.conn (conns m) ≡ true
unfolding find conns
conns-find k [] {e} h = cc
conns-find k ((j, d) ∷ rest) {e} h = ground (arith, h, conns-find k rest {e = e})

pub conns-put :
    (k : Bytes) (e : Pooled) (m : Dict Pooled) (c : ℕ)
    → mem c (conns (put k e m)) ≡ true
    → (c ≡ e.conn) ⊎ (mem c (conns m) ≡ true)
unfolding put conns
conns-put k e [] c h = ground arith
conns-put k e ((j, d) ∷ rest) c h = ground (arith, h, conns-put k e rest c)

pub conns-erase :
    (k : Bytes) (m : Dict Pooled) (c : ℕ)
    → mem c (conns (erase k m)) ≡ true
    → mem c (conns m) ≡ true
unfolding erase conns
conns-erase k [] c h = h
conns-erase k ((j, d) ∷ rest) c h = ground (arith, h, conns-erase k rest c)

pub mem-append : (c : ℕ) (xs ys : List ℕ) → mem c (xs ++ ys) ≡ (mem c xs || mem c ys)
mem-append c [] ys = refl
mem-append c (x ∷ xs) ys = ground (arith, mem-append c xs ys)

pub mem-remove_first :
    (a c : ℕ) (xs : List ℕ) → (a == c) ≡ false → mem c (remove_first a xs) ≡ mem c xs
mem-remove_first a c [] h = refl
mem-remove_first a c (x ∷ xs) h = ground (arith, h, mem-remove_first a c xs)

pub removed-mem : (a c : ℕ) (xs : List ℕ) → mem c (remove_first a xs) ≡ true → mem c xs ≡ true
removed-mem a c [] h = h
removed-mem a c (x ∷ xs) h = ground (arith, h, removed-mem a c xs)

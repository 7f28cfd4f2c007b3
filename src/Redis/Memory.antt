-- ===== src/Redis/Memory.antt =====
-- Redis as two functions from keys, to show that its laws can hold.
use likegochat.Prelude.{
  ◌≡◌, ◌||◌, ◌&&◌, not, List, [], ◌∷◌, ◌++◌, Option, some, none, if◌then◌else◌, refl, arith,
  Bool-cases, inl, inr,
}
use likegochat.Prelude.Bytes.{Bytes, bytes_eq, bytes_eq_iff}
use likegochat.Redis.{Redis, mem_bytes}

pub record Store : Type 0 where
  pub texts : Bytes → Option Bytes
  pub sets : Bytes → List Bytes

abbrev put : {A : Type 0} → (Bytes → A) → Bytes → A → Bytes → A
put f k a j = if bytes_eq k j then a else f j

abbrev without : Bytes → List Bytes → List Bytes
without w [] = []
without w (v ∷ vs) = let rest = without w vs in if bytes_eq v w then rest else v ∷ rest

mem-append :
    (v : Bytes) (vs ws : List Bytes) → mem_bytes v (vs ++ ws) ≡ (mem_bytes v vs || mem_bytes v ws)
mem-append v [] ws = refl
mem-append v (x ∷ vs) ws = ground (arith, mem-append v vs ws)

mem-without :
    (v w : Bytes) (vs : List Bytes)
    → mem_bytes v (without w vs) ≡ (not (bytes_eq w v) && mem_bytes v vs)
mem-without v w [] = ground arith
mem-without v w (x ∷ vs) =
    ground (arith, mem-without v w vs, bytes_eq_iff x w, bytes_eq_iff w v, bytes_eq_iff x v)

pub memory_sadd :
    (k j v : Bytes) (vs : List Bytes) (f : Bytes → List Bytes)
    → mem_bytes v (put f k (vs ++ f k) j)
      ≡ (if bytes_eq k j then mem_bytes v vs || mem_bytes v (f j) else mem_bytes v (f j))
memory_sadd k j v vs f = elim (Bool-cases (bytes_eq k j)) [
  | inl e ↦ ground (arith, e, (bytes_eq_iff k j).0 e, mem-append v vs (f j))
  | inr e ↦ ground (arith, e)
]

pub memory_srem :
    (k j v w : Bytes) (f : Bytes → List Bytes)
    → mem_bytes v (put f k (without w (f k)) j)
      ≡ (if bytes_eq k j then not (bytes_eq w v) && mem_bytes v (f j) else mem_bytes v (f j))
memory_srem k j v w f = elim (Bool-cases (bytes_eq k j)) [
  | inl e ↦ ground (arith, e, (bytes_eq_iff k j).0 e, mem-without v w (f j))
  | inr e ↦ ground (arith, e)
]

abbrev pub memory : Redis
memory = record {
  State = Store;
  get = λ k s. s.texts k;
  set = λ k v ttl s. record s { texts = put s.texts k (some v) };
  del = λ k s. record { texts = put s.texts k none; sets = put s.sets k [] };
  members = λ k s. s.sets k;
  sadd = λ k vs s. record s { sets = put s.sets k (vs ++ s.sets k) };
  srem = λ k w s. record s { sets = put s.sets k (without w (s.sets k)) };
  expire = λ k ttl s. s;
  get-set = λ k j v ttl s. refl;
  get-del = λ k j s. refl;
  get-sadd = λ k j vs s. refl;
  get-expire = λ k j ttl s. refl;
  members-del = λ k j s. refl;
  members-sadd = λ k j v vs s. memory_sadd k j v vs s.sets;
  members-srem = λ k j v w s. memory_srem k j v w s.sets;
  members-expire = λ k j ttl s. refl;
}

abbrev pub empty_store : Store
empty_store = record { texts = λ k. none; sets = λ k. [] }

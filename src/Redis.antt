-- ===== src/Redis.antt =====
-- Redis as the program uses it, through github.com/redis/go-redis: a parameter with the documented
-- laws of its commands. A key holds a text or a set, and
-- the program keeps the two kinds apart; a key that expires is deleted.
pub mod Trips
pub mod Memory
use likegochat.Prelude.{
  ℕ, ◌≡◌, Bool, ◌||◌, false, List, [], ◌∷◌, Option, none, some, if◌then◌else◌, not, ◌&&◌, ◌⊎◌, inl,
  inr, refl,
}
use likegochat.Prelude.Bytes.{Bytes, bytes_eq}

abbrev pub mem_bytes : Bytes → List Bytes → Bool
mem_bytes v [] = false
mem_bytes v (w ∷ ws) = bytes_eq w v || mem_bytes v ws

-- `set` takes the time to live in seconds; 0 stands for none.
pub record Redis : Type 1 where
  pub State : Type 0
  pub get : Bytes → State → Option Bytes
  pub set : Bytes → Bytes → ℕ → State → State
  pub del : Bytes → State → State
  pub members : Bytes → State → List Bytes
  pub sadd : Bytes → List Bytes → State → State
  pub srem : Bytes → Bytes → State → State
  pub expire : Bytes → ℕ → State → State
  pub get-set :
      (k j v : Bytes) (ttl : ℕ) (s : State)
      → get j (set k v ttl s) ≡ (if bytes_eq k j then some v else get j s)
  pub get-del :
      (k j : Bytes) (s : State) → get j (del k s) ≡ (if bytes_eq k j then none else get j s)
  pub get-sadd : (k j : Bytes) (vs : List Bytes) (s : State) → get j (sadd k vs s) ≡ get j s
  pub get-expire : (k j : Bytes) (ttl : ℕ) (s : State) → get j (expire k ttl s) ≡ get j s
  pub members-del :
      (k j : Bytes) (s : State) → members j (del k s) ≡ (if bytes_eq k j then [] else members j s)
  pub members-sadd :
      (k j v : Bytes) (vs : List Bytes) (s : State)
      → mem_bytes v (members j (sadd k vs s)) ≡ (
          if bytes_eq k j
          then mem_bytes v vs || mem_bytes v (members j s)
          else mem_bytes v (members j s))
  pub members-srem :
      (k j v w : Bytes) (s : State)
      → mem_bytes v (members j (srem k w s)) ≡ (
          if bytes_eq k j
          then not (bytes_eq w v) && mem_bytes v (members j s)
          else mem_bytes v (members j s))
  pub members-expire :
      (k j : Bytes) (ttl : ℕ) (s : State) → members j (expire k ttl s) ≡ members j s

-- What becomes of a round trip: it is carried out and answered, it never arrives, or it is carried
-- out and the answer is lost, so that the caller sees an error.
pub data Outcome : Type 0 where
  delivered refused reply_lost : Outcome

-- The server, and the outcomes of the round trips to come; after the last of them all are delivered.
pub record World (r : Redis) : Type 0 where
  pub db : r.State
  pub net : List Outcome

pub data Result (E A : Type 0) : Type 0 where
  ok : A → Result E A
  err : E → Result E A

-- Code that talks to the server.
abbrev pub M : Redis → Type 0 → Type 0 → Type 0
M r E A = World r → World r × Result E A

abbrev bind_result :
    {r : Redis} {E A B : Type 0} → World r × Result E A → (A → M r E B) → World r × Result E B
bind_result (w, ok a) f = f a w
bind_result (w, err e) f = (w, err e)

infixl 5 ◌>>=◌ ◌>>◌
abbrev pub ◌>>=◌ : {r : Redis} {E A B : Type 0} → M r E A → (A → M r E B) → M r E B
◌>>=◌ m f w = bind_result (m w) f

abbrev pub ◌>>◌ : {r : Redis} {E B : Type 0} → M r E (Unit {0}) → M r E B → M r E B
◌>>◌ m k w = bind_result (m w) (λ _. k)

abbrev pub pure : {r : Redis} {E A : Type 0} → A → M r E A
pure a w = (w, ok a)

abbrev pub fail : {r : Redis} {E A : Type 0} → E → M r E A
fail e w = (w, err e)

abbrev settle :
    {r : Redis} {E A : Type 0}
    → E
    → Outcome
    → r.State
    → List Outcome
    → r.State × A
    → World r × Result E A
settle e delivered s net (s', a) = (record { db = s'; net = net }, ok a)
settle e refused s net (s', a) = (record { db = s; net = net }, err e)
settle e reply_lost s net (s', a) = (record { db = s'; net = net }, err e)

-- One round trip, with the error that a failed one gives.
abbrev pub round_trip : {r : Redis} {E A : Type 0} → E → (r.State → r.State × A) → M r E A
round_trip e f w = elim w.net [
  | [] ↦ settle e delivered w.db [] (f w.db)
  | o ∷ net ↦ settle e o w.db net (f w.db)
]

pub Result-cases :
    {E A : Type 0} (x : Result E A) → ((a : A) × (x ≡ ok a)) ⊎ ((e : E) × (x ≡ err e))
Result-cases (ok a) = inl (a, refl)
Result-cases (err e) = inr (e, refl)

pub Outcome-cases : (o : Outcome) → (o ≡ delivered) ⊎ (o ≡ refused) ⊎ (o ≡ reply_lost)
Outcome-cases delivered = inl refl
Outcome-cases refused = inr (inl refl)
Outcome-cases reply_lost = inr (inr refl)

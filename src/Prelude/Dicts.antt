-- ===== src/Prelude/Dicts.antt =====
-- Go maps with string keys: association lists in which a key stands once.
use likegochat.Prelude.{
  ◌≡◌, refl, Bool, false, ◌||◌, List, [], ◌∷◌, Option, none, some, if◌then◌else◌, arith,
}
use likegochat.Prelude.Bytes.{Bytes, bytes_eq, bytes_eq_iff, bytes_eq_refl}

abbrev pub Dict {ℓ} : Type ℓ → Type ℓ
Dict V = List (Bytes × V)

-- Whether a key is the name of an entry.
abbrev pub has_key {ℓ} : {V : Type ℓ} → Bytes → Dict V → Bool
has_key k [] = false
has_key k ((j, v) ∷ rest) = bytes_eq j k || has_key k rest

abbrev pub IsDict {ℓ} : {V : Type ℓ} → Dict V → Type 0
IsDict [] = Unit {0}
IsDict ((j, v) ∷ rest) = (has_key j rest ≡ false) × IsDict rest

module _ {ℓ} {V : Type ℓ} where
  unfoldable pub find : Bytes → Dict V → Option V
  find k [] = none
  find k ((j, v) ∷ rest) = if bytes_eq j k then some v else find k rest

  unfoldable pub put : Bytes → V → Dict V → Dict V
  put k v [] = (k, v) ∷ []
  put k v ((j, old) ∷ rest) = if bytes_eq j k then (k, v) ∷ rest else (j, old) ∷ put k v rest

  unfoldable pub erase : Bytes → Dict V → Dict V
  erase k [] = []
  erase k ((j, old) ∷ rest) =
      let kept = erase k rest in if bytes_eq j k then kept else (j, old) ∷ kept

  pub find-put :
      (k j : Bytes) (v : V) (m : Dict V)
      → find j (put k v m) ≡ (if bytes_eq k j then some v else find j m)
  unfolding find put
  find-put k j v [] = refl
  find-put k j v ((i, old) ∷ rest) =
      ground (arith, find-put k j v rest, bytes_eq_iff i k, bytes_eq_iff k j, bytes_eq_iff i j)

  pub find-erase :
      (k j : Bytes) (m : Dict V) → find j (erase k m) ≡ (if bytes_eq k j then none else find j m)
  unfolding find erase
  find-erase k j [] = ground arith
  find-erase k j ((i, old) ∷ rest) =
      ground (arith, find-erase k j rest, bytes_eq_iff i k, bytes_eq_iff k j, bytes_eq_iff i j)

  pub has_key-put :
      (k j : Bytes) (v : V) (m : Dict V) → has_key j (put k v m) ≡ (bytes_eq k j || has_key j m)
  unfolding put
  has_key-put k j v [] = refl
  has_key-put k j v ((i, old) ∷ rest) =
      ground (arith, has_key-put k j v rest, bytes_eq_iff i k, bytes_eq_refl k)

  pub put-IsDict : (k : Bytes) (v : V) (m : Dict V) → IsDict m → IsDict (put k v m)
  unfolding put
  put-IsDict k v [] d = (refl, tt)
  put-IsDict k v ((i, old) ∷ rest) d = ground (
    arith,
    d.0,
    d.1,
    put-IsDict k v rest d.1,
    has_key-put k i v rest,
    bytes_eq_iff i k,
    bytes_eq_iff k i,
  )

  pub find_missing : (k : Bytes) (m : Dict V) → has_key k m ≡ false → find k m ≡ none
  unfolding find
  find_missing k [] h = refl
  find_missing k ((i, old) ∷ rest) h = ground (arith, h, find_missing k rest)

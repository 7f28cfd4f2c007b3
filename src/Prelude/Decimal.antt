-- ===== src/Prelude/Decimal.antt =====
-- `strconv.FormatInt(x, 10)` and `strconv.ParseInt(s, 10, 64)`. An int64 is its bit pattern.
use likegochat.Prelude.Bytes.{bytes_eq, bytes_eq_iff}
use likegochat.Prelude.{
  ℕ, zero, suc, ◌+◌, ◌-◌, ◌*◌, ◌/◌, ◌%◌, ◌^◌, ◌≤◌, ◌<◌, ◌≡◌, refl, Bool, true, false, ◌||◌, [], ◌∷◌,
  Option, none, some, inl, inr, arith, ltb, leb, ◌==◌, if◌then◌else◌, Bool-cases, ◌∙◌, ap, sym,
}
use likegochat.Prelude.Bytes.{Bytes}

-- The decimal digits of a number, put in front of `rest`; one round of fuel for each digit.
emit : ℕ → ℕ → Bytes → Bytes
emit zero n rest = rest
emit (suc f) n rest =
    let more = emit f (n / 10) ((b'0' + n % 10) ∷ rest) in
    if ltb n 10 then (b'0' + n) ∷ rest else more

unfoldable pub format_int : ℕ → Bytes
unfolding emit
format_int x = if ltb x (2 ^ 63) then emit 20 x [] else b'-' ∷ emit 20 (2 ^ 64 - x) []

scan : ℕ → Bytes → Option ℕ
scan acc [] = some acc
scan acc (c ∷ s) =
    let rest = scan (acc * 10 + (c - b'0')) s in if ltb c b'0' || ltb b'9' c then none else rest

-- A magnitude of at least one digit.
magnitude : Bytes → Option ℕ
unfolding scan
magnitude [] = none
magnitude (c ∷ s) = scan 0 (c ∷ s)

-- `none` is ErrSyntax or ErrRange.
signed : Bool → Option ℕ → Option ℕ
signed neg none = none
signed false (some n) = if ltb n (2 ^ 63) then some n else none
signed true (some n) = if leb n (2 ^ 63) then some ((2 ^ 64 - n) % 2 ^ 64) else none

unfoldable pub parse_int : Bytes → Option ℕ
unfolding magnitude signed
parse_int [] = none
parse_int (c ∷ s) =
    if c == b'-'
    then signed true (magnitude s)
    else if c == b'+'
    then signed false (magnitude s)
    else signed false (magnitude (c ∷ s))

abbrev pow10 : ℕ → ℕ
pow10 zero = 1
pow10 (suc f) = pow10 f * 10

scan_digit :
    (acc d m : ℕ) (rest : Bytes)
    → d < 10
    → acc * 10 + d ≡ m
    → scan acc ((b'0' + d) ∷ rest) ≡ scan m rest
unfolding scan
scan_digit acc d m rest h e =
    let low : ltb (b'0' + d) b'0' ≡ false = ground arith in
    let high : ltb b'9' (b'0' + d) ≡ false = ground arith in
    let value : b'0' + d - b'0' ≡ d = omega arith in rw (low, high, value) (ap (λ k. scan k rest) e)

scan-emit :
    (f n : ℕ) (rest : Bytes) → n < pow10 (suc f) → scan 0 (emit (suc f) n rest) ≡ scan n rest
unfolding emit
scan-emit zero n rest h =
    let small : ltb n 10 ≡ true = ground arith in
    rw small (scan_digit 0 n n rest (omega arith) (omega arith))
scan-emit (suc f) n rest h = elim (Bool-cases (ltb n 10)) [
  | inl small ↦ rw small (scan_digit 0 n n rest (ground arith) (omega arith))
  | inr big ↦ rw big (
      scan-emit f (n / 10) ((b'0' + n % 10) ∷ rest) (omega arith)
      ∙ scan_digit (n / 10) (n % 10) n rest (omega arith) (omega arith))
]

-- The first byte of a number is a digit.
emit_head :
    (f n : ℕ) (rest : Bytes)
    → n < pow10 (suc f)
    → (c : ℕ) × (s : Bytes) × (emit (suc f) n rest ≡ c ∷ s) × (b'0' ≤ c) × (c ≤ b'9')
unfolding emit
emit_head zero n rest h =
    let small : ltb n 10 ≡ true = ground arith in
    (b'0' + n, rest, rw small, omega arith, omega arith)
emit_head (suc f) n rest h = elim (Bool-cases (ltb n 10)) [
  | inl small ↦ (b'0' + n, rest, rw small, omega arith, ground arith)
  | inr big ↦
      let (c, s, e, lo, hi) = emit_head f (n / 10) ((b'0' + n % 10) ∷ rest) (omega arith) in
      (c, s, rw big e, lo, hi)
]

magnitude-emit : (n : ℕ) → n < 10 ^ 20 → magnitude (emit 20 n []) ≡ some n
unfolding magnitude scan
magnitude-emit n h =
    let (c, s, e, lo, hi) = emit_head 19 n [] h in
    ap magnitude e ∙ ap (scan 0) (sym e) ∙ scan-emit 19 n [] h

parse_unsigned :
    (c : ℕ) (s : Bytes) → b'0' ≤ c → parse_int (c ∷ s) ≡ signed false (magnitude (c ∷ s))
unfolding parse_int
parse_unsigned c s lo = ground arith

parse_negative : (s : Bytes) → parse_int (b'-' ∷ s) ≡ signed true (magnitude s)
unfolding parse_int
parse_negative s = refl

-- What was printed is read back, over the whole range of an int64.
pub parse_int-format_int : (x : ℕ) → x < 2 ^ 64 → parse_int (format_int x) ≡ some x
unfolding format_int signed
parse_int-format_int x h = elim (Bool-cases (ltb x (2 ^ 63))) [
  | inl small ↦
      let (c, s, e, lo, hi) = emit_head 19 x [] (omega arith) in
      rw small (
        ap parse_int e
        ∙ parse_unsigned c s lo
        ∙ ap (λ b. signed false (magnitude b)) (sym e)
        ∙ rw (magnitude-emit x (omega arith)) (rw small))
  | inr big ↦
      let n = 2 ^ 64 - x in
      let fits : leb n (2 ^ 63) ≡ true = ground arith in
      let back : (2 ^ 64 - n) % 2 ^ 64 ≡ x = ground arith in
      rw big (
        parse_negative (emit 20 n [])
        ∙ rw (magnitude-emit n (omega arith)) (rw fits (ap some back)))
]

pub format_int_injective : (x y : ℕ) → x < 2 ^ 64 → y < 2 ^ 64 → format_int x ≡ format_int y → x ≡ y
format_int_injective x y hx hy e =
    ground (arith, parse_int-format_int x hx, parse_int-format_int y hy)

pub format_int-eq :
    (x y : ℕ) → x < 2 ^ 64 → y < 2 ^ 64 → bytes_eq (format_int x) (format_int y) ≡ (x == y)
format_int-eq x y hx hy =
    ground (arith, bytes_eq_iff (format_int x) (format_int y), format_int_injective x y hx hy)

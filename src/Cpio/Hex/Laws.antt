-- ===== src/Cpio/Hex/Laws.antt =====
-- A field that `_write_int` wrote is read back by `_read_int`.
use avbroot.Prelude.{
  Bool-cases, Option, inl, inr, none, ℕ, zero, suc, ◌+◌, ◌*◌, ◌/◌, ◌%◌, ◌^◌, ◌<◌, Bool, true, false,
  ◌&&◌, ◌≡◌, refl, ap, sym, ◌∙◌, some, [], ◌∷◌, ◌==◌, arith, length, append-nil,
}
use avbroot.Prelude.Int.{ℤ, negate, pos, negsuc, IsU32}
use avbroot.Result.{ok, value_error}
use avbroot.Stream.{Bytes}
use avbroot.Stream.Ends.{Ends, Fine, Ends-bind, Ends-lift, Ends-read_exact}
use avbroot.Stream.Laws.{
  Reads, Writes, Reads-cast, Reads-bind, Reads-read_exact, Reads-lift_end, Writes-check,
  Writes-write,
}
use avbroot.Cpio.Hex.{
  is_space, skip_spaces, digit_value, scan_digits, drop_prefix, starts_with_underscore, is_empty,
  finish, magnitude, as_int, signed, int_base_16, read_int, hex_digit, hex, write_int,
}
use native.Mathlib.Nat.{pow-suc, div-add-mod, div-div-eq-div-mul}

&&_false : (b : Bool) → (b && false) ≡ false
&&_false true = refl
&&_false false = refl

-- A digit that the program writes is read as its value, and is no other mark.
record IsDigitOf (c d : ℕ) : Type 0 where
  pub value : digit_value c ≡ some d
  pub no_space : is_space c ≡ false
  pub no_minus : (c == b'-') ≡ false
  pub no_plus : (c == b'+') ≡ false
  pub no_underscore : (c == b'_') ≡ false
  pub no_x : (c == b'x') ≡ false
  pub no_X : (c == b'X') ≡ false

hex_digit-IsDigitOf : (d : ℕ) → d < 16 → IsDigitOf (hex_digit d) d
unfolding hex_digit digit_value is_space
hex_digit-IsDigitOf d h = ground arith

length-hex : (w n : ℕ) → length (hex w n) ≡ w
unfolding hex
length-hex zero n = refl
length-hex (suc w) n = ap suc (length-hex w n)

top_digit : (w n : ℕ) → IsDigitOf (hex_digit (n / 16 ^ w % 16)) (n / 16 ^ w % 16)
top_digit w n = hex_digit-IsDigitOf (n / 16 ^ w % 16) (omega arith)

scale : (p q : ℕ) → p * q ≡ 16 * (p * (q / 16)) + p * (q % 16)
scale p q = ap (λ (t : ℕ). p * t) (sym (div-add-mod q 16)) ∙ spread (q / 16) (q % 16)
  where
    spread : (a b : ℕ) → p * (16 * a + b) ≡ 16 * (p * a) + p * b
    spread a b = omega arith

quotient : (p n : ℕ) → 16 * (p * (n / p / 16)) + n % (p * 16) ≡ n
quotient p n = rw (div-div-eq-div-mul n p 16) (regroup (n / (p * 16)) ∙ div-add-mod n (p * 16))
  where
    regroup : (a : ℕ) → 16 * (p * a) + n % (p * 16) ≡ p * 16 * a + n % (p * 16)
    regroup a = omega arith

mod_split : (p n : ℕ) → n % (p * 16) ≡ n / p % 16 * p + n % p
mod_split p n = omega (arith, div-add-mod n p, scale p (n / p), quotient p n)

next_value :
    (value n w : ℕ)
    → (value * 16 + n / 16 ^ w % 16) * 16 ^ w + n % 16 ^ w ≡ value * 16 ^ suc w + n % 16 ^ suc w
next_value value n w = rw (pow-suc 16 w, mod_split (16 ^ w) n) (omega arith)

scan_digit :
    (underscore : Bool) (count value c d : ℕ) (s : Bytes)
    → digit_value c ≡ some d
    → scan_digits underscore count value (c ∷ s) ≡ scan_digits false (count + 1) (value * 16 + d) s
unfolding scan_digits
scan_digit underscore count value c d s h = rw (h, scan_digits)

scan_hex :
    (w n count value : ℕ)
    → scan_digits false count value (hex w n) ≡ some (count + w, value * 16 ^ w + n % 16 ^ w, [])
unfolding scan_digits hex
scan_hex zero n count value =
    let e : count ≡ count + 0 = omega arith in
    let v : value ≡ value * 1 + n % 1 = omega arith in λ i. some (e i, v i, [])
scan_hex (suc w) n count value =
    let d = n / 16 ^ w % 16 in
    let e : count + 1 + w ≡ count + suc w = omega arith in
    scan_digit false count value (hex_digit d) d (hex w n) (top_digit w n).value
    ∙ (scan_hex w n (count + 1) (value * 16 + d) ∙ λ i. some (e i, next_value value n w i, []))

drop_prefix-hex : (w n : ℕ) → drop_prefix (hex (suc (suc w)) n) ≡ hex (suc (suc w)) n
unfolding drop_prefix hex
drop_prefix-hex w n =
    let next = top_digit w n in
    rw (next.no_x, next.no_X) (rw (&&_false (hex_digit (n / 16 ^ suc w % 16) == b'0')))

starts_with-hex : (w n : ℕ) → starts_with_underscore (hex (suc w) n) ≡ false
unfolding starts_with_underscore hex
starts_with-hex w n = (top_digit w n).no_underscore

magnitude-hex : (n : ℕ) → n < 2 ^ 32 → magnitude (hex 8 n) ≡ some n
unfolding magnitude finish skip_spaces is_empty
magnitude-hex n h =
    rw (drop_prefix-hex 6 n, starts_with-hex 7 n, scan_hex 8 n 0 0) (ap some (omega arith))

signed-hex : (w n : ℕ) → signed (hex (suc w) n) ≡ as_int pos (magnitude (hex (suc w) n))
unfolding signed hex
signed-hex w n = rw ((top_digit w n).no_minus, (top_digit w n).no_plus)

skip_spaces-hex : (w n : ℕ) → skip_spaces (hex (suc w) n) ≡ hex (suc w) n
unfolding skip_spaces hex
skip_spaces-hex w n = rw ((top_digit w n).no_space)

int_base_16-hex : (n : ℕ) → n < 2 ^ 32 → int_base_16 (hex 8 n) ≡ ok (pos n)
unfolding int_base_16 as_int
int_base_16-hex n h = rw (skip_spaces-hex 7 n, signed-hex 7 n, magnitude-hex n h)

unfoldable pub field_chunk : ℤ → Bytes
field_chunk (pos n) = hex 8 n
field_chunk (negsuc n) = []

pub Writes-int : (v : ℤ) (p : ℕ) → IsU32 v → Writes (write_int v) p (field_chunk v)
unfolding write_int field_chunk
Writes-int (pos n) p h = Writes-check value_error (ground arith) (Writes-write _ p)
Writes-int (negsuc n) p h = absurd h

pub Reads-int : (v : ℤ) (p : ℕ) → IsU32 v → Reads read_int p (field_chunk v) v
unfolding read_int field_chunk
Reads-int (pos n) p h = Reads-cast (append-nil _) (
    Reads-bind _ (Reads-read_exact 8 p (hex 8 n) (length-hex 8 n))
      (Reads-lift_end (pos n) (int_base_16-hex n h)))
Reads-int (negsuc n) p h = absurd h

as_int-Fine : (sign : ℕ → ℤ) (o : Option ℕ) → Fine (λ n. Unit) (as_int sign o)
unfolding as_int
as_int-Fine sign none = refl
as_int-Fine sign (some n) = tt

signed-Fine : (s : Bytes) → Fine (λ n. Unit) (signed s)
unfolding signed
signed-Fine [] = as_int-Fine pos (magnitude [])
signed-Fine (c ∷ s) = elim (Bool-cases (c == b'-')) [
  | inl h ↦ rw h (as_int-Fine negate (magnitude s))
  | inr h ↦ elim (Bool-cases (c == b'+')) [
    | inl h' ↦ rw (h, h') (as_int-Fine pos (magnitude s))
    | inr h' ↦ rw (h, h') (as_int-Fine pos (magnitude (c ∷ s)))
  ]
]

-- Whatever the field holds, it is read as a number or refused with an exception.
pub Ends-int : Ends (λ n. Unit) read_int
unfolding read_int int_base_16
Ends-int = Ends-bind (Ends-read_exact 8) λ digits h. Ends-lift _ (signed-Fine (skip_spaces digits))

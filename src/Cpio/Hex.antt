-- ===== src/Cpio/Hex.antt =====
-- avbroot/formats/cpio.py, `_read_int` and `_write_int`: header fields of eight hexadecimal digits.
-- `int(data, 16)` is Python's: blanks around the number, a sign, the prefix 0x and single
-- underscores between digits are allowed.
pub mod Laws
use avbroot.Prelude.{
  ℕ, zero, suc, ◌+◌, ◌-◌, ◌*◌, ◌/◌, ◌%◌, ◌^◌, Bool, true, false, ◌&&◌, ◌||◌, Option, none, some, [],
  ◌∷◌, ltb, leb, ◌==◌, if◌then◌else◌,
}
use avbroot.Prelude.Int.{ℤ, pos, negsuc, negate}
use avbroot.Result.{Result, ok, err, value_error}
use avbroot.Stream.{Bytes, Parser, ◌>>=◌, lift, read_exact, Writer, ◌⨟◌, check, write}

is_space : ℕ → Bool
is_space c = c == b' ' || (leb 9 c && leb c 13)

skip_spaces : Bytes → Bytes
skip_spaces [] = []
skip_spaces (c ∷ s) = let rest = skip_spaces s in if is_space c then rest else c ∷ s

digit_value : ℕ → Option ℕ
digit_value c =
    if leb b'0' c && leb c b'9'
    then some (c - b'0')
    else if leb b'a' c && leb c b'f'
    then some (c - b'a' + 10)
    else if leb b'A' c && leb c b'F'
    then some (c - b'A' + 10)
    else none

-- The longest run of digits and single underscores: how many digits, their value, and what follows.
-- `none` for two underscores in a row, or one at the end.
scan_digits : Bool → ℕ → ℕ → Bytes → Option (ℕ × ℕ × Bytes)
scan_digits underscore count value [] = if underscore then none else some (count, value, [])
scan_digits underscore count value (c ∷ s) = elim (digit_value c) [
  | some d ↦ scan_digits false (count + 1) (value * 16 + d) s
  | none ↦ elim (c == b'_') [
    | true ↦ elim underscore [ true ↦ none | false ↦ scan_digits true count value s ]
    | false ↦ if underscore then none else some (count, value, c ∷ s)
  ]
]

drop_underscore : Bytes → Bytes
drop_underscore [] = []
drop_underscore (c ∷ s) = if c == b'_' then s else c ∷ s

drop_prefix : Bytes → Bytes
drop_prefix [] = []
drop_prefix (c ∷ []) = c ∷ []
drop_prefix (c ∷ d ∷ s) =
    if c == b'0' && (d == b'x' || d == b'X') then drop_underscore s else c ∷ d ∷ s

starts_with_underscore : Bytes → Bool
starts_with_underscore [] = false
starts_with_underscore (c ∷ s) = c == b'_'

is_empty : Bytes → Bool
is_empty [] = true
is_empty (c ∷ s) = false

finish : Option (ℕ × ℕ × Bytes) → Option ℕ
finish none = none
finish (some (count, value, rest)) =
    if count == 0 then none else if is_empty (skip_spaces rest) then some value else none

magnitude : Bytes → Option ℕ
magnitude s =
    let body = drop_prefix s in
    if starts_with_underscore body then none else finish (scan_digits false 0 0 body)

as_int : (ℕ → ℤ) → Option ℕ → Result ℤ
as_int sign none = err value_error
as_int sign (some n) = ok (sign n)

signed : Bytes → Result ℤ
signed [] = as_int pos (magnitude [])
signed (c ∷ s) =
    if c == b'-'
    then as_int negate (magnitude s)
    else if c == b'+'
    then as_int pos (magnitude s)
    else as_int pos (magnitude (c ∷ s))

-- `int(data, 16)`.
pub int_base_16 : Bytes → Result ℤ
int_base_16 s = signed (skip_spaces s)

unfoldable pub read_int : Parser ℤ
read_int = do digits ← read_exact 8; lift (int_base_16 digits)

hex_digit : ℕ → ℕ
hex_digit d = if ltb d 10 then b'0' + d else b'a' + d - 10

-- `b'%0wx' % n`, for a number of at most `w` digits.
unfoldable pub hex : ℕ → ℕ → Bytes
unfolding hex_digit
hex zero n = []
hex (suc w) n = hex_digit (n / 16 ^ w % 16) ∷ hex w n

unfoldable pub write_int : ℤ → Writer
write_int (pos n) = check (leb n 0xffffffff) value_error ⨟ write (hex 8 n)
write_int (negsuc n) = check false value_error ⨟ write []

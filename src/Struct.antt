-- ===== src/Struct.antt =====
-- Python's `struct` for the formats that the code uses: fixed byte strings (`16s`), and unsigned
-- integers of 2, 4 and 8 bytes (`H`, `I`, `Q`), little endian and with no alignment (`<`).
pub mod Laws
use avbroot.Prelude.{
  ℕ, zero, suc, ◌+◌, ◌*◌, ◌/◌, ◌%◌, ◌^◌, List, [], ◌∷◌, ◌++◌, take, drop, replicate, ltb, ◌==◌,
  if◌then◌else◌,
}
use avbroot.Result
use avbroot.Result.{Result, ok, err, struct_error}
use avbroot.Stream.{Bytes, Parser, ◌>>=◌, pure, read_exact, Writer, write_result}

pub data Field : Type 0 where
  chars : ℕ → Field
  uint : ℕ → Field

abbrev pub u16 : Field
u16 = uint 2

abbrev pub u32 : Field
u32 = uint 4

abbrev pub u64 : Field
u64 = uint 8

abbrev pub Value : Field → Type 0
Value (chars n) = Bytes
Value (uint w) = ℕ

-- The tuple that `unpack` returns and that `pack` takes.
abbrev pub Values : List Field → Type 0
Values [] = Unit
Values (f ∷ fs) = Value f × Values fs

abbrev pub field_size : Field → ℕ
field_size (chars n) = n
field_size (uint w) = w

abbrev pub calcsize : List Field → ℕ
calcsize [] = 0
calcsize (f ∷ fs) = field_size f + calcsize fs

-- `int.to_bytes(w, 'little')` and `int.from_bytes(data, 'little')`.
unfoldable pub to_le : ℕ → ℕ → Bytes
to_le zero n = []
to_le (suc w) n = (n % 256) ∷ to_le w (n / 256)

unfoldable pub from_le : Bytes → ℕ
from_le [] = 0
from_le (b ∷ bs) = b + 256 * from_le bs

-- A byte string is cut off, or filled up with null bytes, to its field's size.
unfoldable pub fit : ℕ → Bytes → Bytes
fit n v = take n (v ++ replicate n 0)

unfoldable pub pack_field : (f : Field) → Value f → Result Bytes
pack_field (chars n) v = ok (fit n v)
pack_field (uint w) n = if ltb n (256 ^ w) then ok (to_le w n) else err struct_error

unfoldable pub pack : (fs : List Field) → Values fs → Result Bytes
pack [] vs = ok []
pack (f ∷ fs) (v, vs) =
    Result.◌>>=◌ (pack_field f v) λ head. Result.◌>>=◌ (pack fs vs) λ rest. ok (head ++ rest)

unfoldable pub unpack_field : (f : Field) → Bytes → Value f
unpack_field (chars n) bs = take n bs
unpack_field (uint w) bs = from_le (take w bs)

-- For a buffer of `calcsize fs` bytes, which is what each call has read.
unfoldable pub unpack : (fs : List Field) → Bytes → Values fs
unpack [] bs = tt
unpack (f ∷ fs) bs = (unpack_field f bs, unpack fs (drop (field_size f) bs))

-- `fmt.unpack(util.read_exact(f, fmt.size))`
unfoldable pub read_struct : (fs : List Field) → Parser (Values fs)
read_struct fs = do raw ← read_exact (calcsize fs); pure (unpack fs raw)

-- `f.write(fmt.pack(...))`
unfoldable pub write_struct : (fs : List Field) → Values fs → Writer
write_struct fs vs = write_result (pack fs vs)

-- `data.rstrip(b'\0')`
unfoldable pub nul_cons : ℕ → Bytes → Bytes
nul_cons x [] = if x == 0 then [] else x ∷ []
nul_cons x (y ∷ ys) = x ∷ y ∷ ys

unfoldable pub rstrip_nul : Bytes → Bytes
rstrip_nul [] = []
rstrip_nul (x ∷ xs) = nul_cons x (rstrip_nul xs)

-- ===== src/Padding.antt =====
-- avbroot/formats/padding.py: alignment to a page boundary.
pub mod Laws
use avbroot.Prelude.{
  ℕ, zero, suc, ◌+◌, ◌-◌, ◌/◌, ◌%◌, bit_and, Bool, replicate, length, ◌==◌, if◌then◌else◌,
}
use avbroot.Result.{Result, ok, err, value_error}
use avbroot.Stream.{
  Bytes, InFile, Parser, ◌>>=◌, ◌>>◌, pure, lift, tell, seek_cur, read, Writer, write, write_result,
}

-- `int.bit_count`, by the binary digits; the fuel is the number itself, which halving reaches.
count_bits : ℕ → ℕ → ℕ
count_bits zero n = 0
count_bits (suc fuel) n = n % 2 + count_bits fuel (n / 2)

unfoldable pub bit_count : ℕ → ℕ
unfolding count_bits
bit_count n = count_bits n n

unfoldable pub is_power_of_2 : ℕ → Bool
unfolding bit_count
is_power_of_2 n = bit_count n == 1

-- The difference is not negative, since the masked offset is below the page size.
unfoldable pub calc : ℕ → ℕ → Result ℕ
calc offset page_size =
    if is_power_of_2 page_size
    then ok (bit_and (page_size - bit_and offset (page_size - 1)) (page_size - 1))
    else err value_error

-- `f.seek(padding, os.SEEK_CUR)` or `f.read(padding)`
unfoldable pub skip_bytes : ℕ → Parser (Unit {0})
skip_bytes padding f = if f.seekable then seek_cur padding f else (read padding >> pure tt) f

unfoldable pub read_skip : ℕ → Parser ℕ
read_skip page_size = do
  offset ← tell
  padding ← lift (calc offset page_size)
  skip_bytes padding
  pure padding

abbrev pub zeros : ℕ → Bytes
zeros n = replicate n 0

abbrev pub write_zeros : Result ℕ → Writer
write_zeros (ok n) out = write (zeros n) out
write_zeros (err e) out = err e

unfoldable pub write_padding : ℕ → Writer
write_padding page_size out = write_zeros (calc (length out) page_size) out

-- ===== src/Main/ExtraFields.antt =====
-- avbroot/main.py, `strip_bad_extra_fields`: the extra fields of a zip entry.
pub mod Laws
use avbroot.Prelude.{
  ℕ, zero, suc, ◌+◌, Bool, not, ◌||◌, List, [], ◌∷◌, ◌++◌, length, take, drop, ◌==◌, if◌then◌else◌,
}
use avbroot.Result.{Result, ok, err, struct_error, out_of_fuel, ◌>>=◌}
use avbroot.Stream.{Bytes}
use avbroot.Struct.{Field, Values, u16, unpack}

-- `'<HH'`: record_sig, record_len
abbrev pub extra_header : List Field
extra_header = u16 ∷ u16 ∷ []

-- `struct.unpack('<HH', extra[offset:offset + 4])`, which needs all four bytes.
unfoldable pub read_extra_header : Bytes → Result (Values extra_header)
read_extra_header extra =
    if length (take 4 extra) == 4 then ok (unpack extra_header (take 4 extra)) else err struct_error

unfoldable pub is_kept : ℕ → Bool
is_kept record_sig = not (record_sig == 0x0001 || record_sig == 0xd935)

abbrev pub kept_part : ℕ → ℕ → Bytes → Bytes
kept_part record_sig record_len extra =
    if is_kept record_sig then take (4 + record_len) extra else []

-- The loop, on what follows the offset; each record takes four bytes or more, so the length is fuel
-- enough.
unfoldable pub strip_loop : ℕ → Bytes → Result Bytes
strip_loop fuel [] = ok []
strip_loop zero (b ∷ extra) = err out_of_fuel
strip_loop (suc fuel) (b ∷ extra) =
    read_extra_header (b ∷ extra) >>= λ (record_sig, (record_len, _)).
    strip_loop fuel (drop (4 + record_len) (b ∷ extra)) >>= λ new_extra.
    ok (kept_part record_sig record_len (b ∷ extra) ++ new_extra)

unfoldable pub strip_bad_extra_fields : Bytes → Result Bytes
strip_bad_extra_fields extra = strip_loop (length extra) extra

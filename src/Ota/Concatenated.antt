-- ===== src/Ota/Concatenated.antt =====
-- avbroot/ota.py, `_ConcatenatedFileDescriptor`. A range's `data_or_fp` is the bytes that it holds:
-- those of the byte string, or those of the file, which is read after a seek. `read` changes no
-- attribute of the object, so it returns the bytes only.
pub mod Laws
use avbroot.Prelude.{
  ℕ, zero, suc, ◌+◌, ◌-◌, min, Bool, true, false, ◌&&◌, Option, none, some, List, [], ◌∷◌, ◌++◌,
  length, take, drop, leb, ltb, if◌then◌else◌,
}
use avbroot.Prelude.Int.{ℤ}
use avbroot.Result.{Result, ok, err, exception, value_error, out_of_fuel}
use avbroot.Stream.{Bytes}

-- `_FileRange`
pub record FileRange : Type 0 where
  pub start : ℕ
  pub end : ℕ
  pub content : Bytes

pub record Concatenated : Type 0 where
  pub ranges : List FileRange
  pub offset : ℕ

abbrev is_last : List FileRange → Bool
is_last [] = true
is_last (r ∷ rs) = false

-- `_get_range`, and whether the range is `self.ranges[-1]`.
unfoldable pub get_range : List FileRange → ℕ → Option (FileRange × Bool)
get_range [] offset = none
get_range (r ∷ rs) offset =
    let next = get_range rs offset in
    if leb r.start offset && ltb offset r.end then some (r, is_last rs) else next

-- `_eof_offset`
unfoldable pub eof_offset : List FileRange → ℕ
eof_offset [] = 0
eof_offset (r ∷ []) = r.end
eof_offset (r ∷ s ∷ rs) = eof_offset (s ∷ rs)

abbrev pub add_range : ℕ → Bytes → Concatenated → Concatenated
add_range size content c =
    let start = eof_offset c.ranges in
    record c {
      ranges = c.ranges ++ (record { start = start; end = start + size; content = content } ∷ []);
    }

-- `add_file`, for a file that stands at `pos`, and `add_bytes`.
unfoldable pub add_file : Bytes → ℕ → Concatenated → Concatenated
add_file content pos c = add_range pos content c

unfoldable pub add_bytes : Bytes → Concatenated → Concatenated
add_bytes content c = add_range (length content) content c

abbrev pub limit : Option ℕ → ℕ → ℕ
limit none to_read = to_read
limit (some size) to_read = min to_read size

abbrev pub reduce : Option ℕ → ℕ → Option ℕ
reduce none to_read = none
reduce (some size) to_read = some (size - to_read)

-- The body of the loop for the range found; `again` is the loop with what is left to read.
unfoldable pub read_range :
    Option ℕ → Bytes → ℕ → FileRange → Bool → (Option ℕ → Bytes → Result Bytes) → Result Bytes
read_range size buf offset r last again =
    let to_read = limit size (r.end - offset) in
    let chunk = take to_read (drop (offset - r.start) r.content) in
    let next = again (reduce size to_read) (buf ++ chunk) in
    if ltb (length chunk) to_read then if last then ok (buf ++ chunk) else err exception else next

-- `if not range: break`
unfoldable pub read_found :
    Option ℕ
    → Bytes
    → ℕ
    → Option (FileRange × Bool)
    → (Option ℕ → Bytes → Result Bytes)
    → Result Bytes
read_found size buf offset none again = ok buf
read_found size buf offset (some (r, last)) again = read_range size buf offset r last again

abbrev pub is_done : Option ℕ → Bool
is_done none = false
is_done (some zero) = true
is_done (some (suc n)) = false

-- The loop of `read`, which has no bound of its own if there is no size.
unfoldable pub read_loop : ℕ → List FileRange → ℕ → Option ℕ → Bytes → Result Bytes
read_loop zero ranges offset size buf = if is_done size then ok buf else err out_of_fuel
read_loop (suc fuel) ranges offset size buf =
    let more =
      read_found size buf offset (get_range ranges offset) (read_loop fuel ranges offset) in
    if is_done size then ok buf else more

unfoldable pub read_sized : ℕ → Concatenated → Result Bytes
read_sized size c = read_loop size c.ranges c.offset (some size) []

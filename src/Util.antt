-- ===== src/Util.antt =====
-- avbroot/util.py: intervals, and the loops that move a file's bytes through a buffer. `hasher` is
-- an object of `hashlib`: its state and `update` are parameters.
pub mod Pieces
pub mod Copy
pub mod Zero
use avbroot.Prelude.{
  ℕ, zero, suc, ◌+◌, ◌-◌, min, Bool, true, false, ◌&&◌, List, [], ◌∷◌, ◌++◌, length, take, drop,
  leb, ltb, ◌==◌, if◌then◌else◌, replicate,
}
use avbroot.Prelude.Text.{bytes_eq}
use avbroot.Result.{Result, ok, err, io_error, out_of_fuel}
use avbroot.Stream.{Bytes, InFile, move}

-- `Range`, a half-open interval.
pub record Range : Type 0 where
  pub start : ℕ
  pub end : ℕ

-- `__contains__`, `__bool__`, `size` (of an interval that does not end before its start) and `__lt__`.
unfoldable pub contains : Range → ℕ → Bool
contains r item = leb r.start item && ltb item r.end

unfoldable pub is_inhabited : Range → Bool
is_inhabited r = ltb r.start r.end

unfoldable pub size : Range → ℕ
size r = r.end - r.start

unfoldable pub range_lt : Range → Range → Bool
range_lt r s =
    if ltb r.start s.start then true else if r.start == s.start then ltb r.end s.end else false

-- `f.readinto(view)` for a view of `n` bytes: what it holds then.
abbrev pub chunk_of : ℕ → InFile → Bytes
chunk_of n f = take n (drop f.pos f.bytes)

module _ {H : Type 0} (update : H → Bytes → H) where
  -- `hash_file`; each round but the last reads a byte, so one more than the file's length is enough.
  unfoldable pub hash_loop : ℕ → ℕ → InFile → H → Result (H × InFile)
  hash_loop zero buf_size f h = err out_of_fuel
  hash_loop (suc fuel) buf_size f h = elim (chunk_of buf_size f) [
    | [] ↦ ok (h, f)
    | b ∷ c ↦ hash_loop fuel buf_size (move f (length (b ∷ c))) (update h (b ∷ c))
  ]

  unfoldable pub hash_file : ℕ → InFile → H → Result (H × InFile)
  hash_file buf_size f h = hash_loop (suc (length f.bytes)) buf_size f h

  -- `copyfileobj_n`: the input file, the hash and the bytes of the output file so far. `size` counts
  -- down by at least one in each round, so it is fuel enough for itself.
  unfoldable pub copy_loop : ℕ → ℕ → ℕ → InFile → H → Bytes → Result (InFile × (H × Bytes))
  copy_loop fuel buf_size zero f h out = ok (f, (h, out))
  copy_loop zero buf_size (suc n) f h out = err out_of_fuel
  copy_loop (suc fuel) buf_size (suc n) f h out = elim (chunk_of (min buf_size (suc n)) f) [
    | [] ↦ err io_error
    | b ∷ c ↦
        copy_loop fuel buf_size (suc n - length (b ∷ c)) (move f (length (b ∷ c)))
          (update h (b ∷ c)) (out ++ (b ∷ c))
  ]

  unfoldable pub copyfileobj_n : ℕ → ℕ → InFile → H → Bytes → Result (InFile × (H × Bytes))
  copyfileobj_n buf_size size f h out = copy_loop size buf_size size f h out

-- `zero_n`
unfoldable pub zero_loop : ℕ → ℕ → ℕ → Bytes → Result Bytes
zero_loop fuel buf_size zero out = ok out
zero_loop zero buf_size (suc n) out = err out_of_fuel
zero_loop (suc fuel) buf_size (suc n) out =
    let to_write = min buf_size (suc n) in
    zero_loop fuel buf_size (suc n - to_write) (out ++ replicate to_write 0)

unfoldable pub zero_n : ℕ → ℕ → Bytes → Result Bytes
zero_n buf_size size out = zero_loop size buf_size size out

-- `is_zero`: the view is compared in blocks of at most 16384 bytes.
abbrev pub zero_block : ℕ
zero_block = 16384

unfoldable pub is_zero_loop : ℕ → Bytes → Result Bool
is_zero_loop fuel [] = ok true
is_zero_loop zero (b ∷ view) = err out_of_fuel
is_zero_loop (suc fuel) (b ∷ view) =
    let n = min (length (b ∷ view)) zero_block in
    let rest = is_zero_loop fuel (drop n (b ∷ view)) in
    if bytes_eq (take n (b ∷ view)) (replicate n 0) then rest else ok false

unfoldable pub is_zero : Bytes → Result Bool
is_zero view = is_zero_loop (length view) view

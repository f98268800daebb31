-- ===== src/Stream.antt =====
-- Binary files as the code uses them. An input file is its bytes, a position and whether it has a
-- `seek` method (`io.BytesIO` and disk files have, `Lz4Legacy` has not; `gzip`'s own `seek` reads
-- and discards, as the code does where there is none). Every output file is written from its start
-- without a seek, so it is the bytes written so far, and `tell` is their number.
pub mod Ends
pub mod Laws
pub mod Random
use avbroot.Prelude.{
  ℕ, ◌+◌, Bool, true, false, List, [], ◌∷◌, ◌++◌, length, take, drop, ◌==◌, if◌then◌else◌,
}
use avbroot.Result.{Result, Error, ok, err, eof_error}

abbrev pub Bytes : Type 0
Bytes = List ℕ

pub record InFile : Type 0 where
  pub bytes : Bytes
  pub pos : ℕ
  pub seekable : Bool

abbrev pub Parser {ℓ} : Type ℓ → Type ℓ
Parser A = InFile → Result (A × InFile)

abbrev pub move : InFile → ℕ → InFile
move f n = record f { pos = f.pos + n }

unfoldable pub pure {ℓ} : {A : Type ℓ} → A → Parser A
pure a f = ok (a, f)

unfoldable pub raise {ℓ} : {A : Type ℓ} → Error → Parser A
raise e f = err e

-- `if not test: raise e`.
unfoldable pub require : Bool → Error → Parser (Unit {0})
require true e f = ok (tt, f)
require false e f = err e

unfoldable pub lift {ℓ} : {A : Type ℓ} → Result A → Parser A
lift (ok a) f = ok (a, f)
lift (err e) f = err e

unfoldable pub tell : Parser ℕ
tell f = ok (f.pos, f)

-- `f.seek(n)`, for a file that has it.
unfoldable pub seek_set : ℕ → Parser (Unit {0})
seek_set n f = ok (tt, record f { pos = n })

-- `f.seek(n, os.SEEK_CUR)`: the position may pass the end.
unfoldable pub seek_cur : ℕ → Parser (Unit {0})
seek_cur n f = ok (tt, move f n)

module _ {ℓ κ} {A : Type ℓ} {B : Type κ} where
  abbrev pub continue : Result (A × InFile) → (A → Parser B) → Result (B × InFile)
  continue (ok (a, f)) k = k a f
  continue (err e) k = err e

  infixl 5 ◌>>=◌ ◌>>◌
  -- Opening this opens the primitive parsers too.
  unfoldable pub ◌>>=◌ : Parser A → (A → Parser B) → Parser B
  unfolding pure raise require lift tell seek_set seek_cur
  (p >>= k) f = continue (p f) k

  abbrev pub ◌>>◌ : Parser A → Parser B → Parser B
  p >> q = p >>= λ _. q

-- `f.read(n)`: less than `n` bytes at the end of the file.
unfoldable pub read : ℕ → Parser Bytes
read n f = let chunk = take n (drop f.pos f.bytes) in ok (chunk, move f (length chunk))

-- `util.read_exact`
unfoldable pub read_exact : ℕ → Parser Bytes
unfolding read ◌>>=◌
read_exact n = do chunk ← read n; require (length chunk == n) eof_error; pure chunk

-- An output file: the bytes written so far, or the exception that ended the writing.
abbrev pub Writer : Type 0
Writer = Bytes → Result Bytes

-- `f.write(data)`
unfoldable pub write : Bytes → Writer
write chunk out = ok (out ++ chunk)

unfoldable pub skip : Writer
skip out = ok out

-- `if not test: raise e`.
unfoldable pub check : Bool → Error → Writer
check true e out = ok out
check false e out = err e

-- `f.write(pack(...))`, where packing may raise.
unfoldable pub write_result : Result Bytes → Writer
write_result (ok chunk) out = ok (out ++ chunk)
write_result (err e) out = err e

abbrev pub run_then : Result Bytes → Writer → Result Bytes
run_then (ok out) w = w out
run_then (err e) w = err e

infixr 5 ◌⨟◌
-- One statement after the other. Opening this opens the primitive writers too.
unfoldable pub ◌⨟◌ : Writer → Writer → Writer
unfolding write skip check write_result
(v ⨟ w) out = run_then (v out) w

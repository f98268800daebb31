-- ===== src/Result.antt =====
-- Python's exceptions as values. `wrong_format` is formats/bootimage.py's `WrongFormat`, a subclass
-- of `ValueError`; the others are the built-in classes that the modelled code raises, and the
-- `struct.error` and `lzma`/`lz4` failures of the standard library and of lz4.
use avbroot.Prelude.{Bool, true, false}

pub data Error : Type 0 where
  eof_error value_error wrong_format exception struct_error overflow_error io_error : Error
  attribute_error index_error key_error runtime_error assertion_error codec_error type_error : Error
  -- No exception of the program: a loop of the model ended for want of fuel.
  out_of_fuel : Error

pub data Result {ℓ} (A : Type ℓ) : Type ℓ where
  ok : A → Result A
  err : Error → Result A

module _ {ℓ κ} {A : Type ℓ} {B : Type κ} where
  infixl 5 ◌>>=◌ ◌>>◌
  abbrev pub ◌>>=◌ : Result A → (A → Result B) → Result B
  err e >>= k = err e
  ok a >>= k = k a

  abbrev pub ◌>>◌ : Result A → Result B → Result B
  m >> next = m >>= λ _. next

abbrev pub guard : Bool → Error → Result (Unit {0})
guard true e = ok tt
guard false e = err e

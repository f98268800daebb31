-- ===== src/Struct/Laws.antt =====
-- `unpack` reads back what `pack` wrote.
use avbroot.Prelude.{
  ℕ, zero, suc, ◌+◌, ◌-◌, ◌*◌, ◌/◌, ◌^◌, ◌≤◌, ◌<◌, ◌≡◌, refl, sym, ap, ◌∙◌, List, [], ◌∷◌, ◌++◌,
  take, drop, replicate, length, arith, length-append, length-take, length-replicate, take_front,
  drop_front, lt→ltb, append_assoc, append-nil,
}
use avbroot.Result.{ok}
use avbroot.Stream.{Bytes}
use avbroot.Stream.Laws.{
  Reads, Reads-cast, Reads-bind, Reads-pure, Reads-read_exact, Writes, Writes-result,
}
use avbroot.Struct.{
  read_struct, write_struct, Field, chars, uint, Value, Values, field_size, calcsize, to_le,
  from_le, fit, pack_field, pack, unpack_field, unpack, nul_cons, rstrip_nul,
}
use native.Mathlib.Nat.{pow-suc}

-- Every integer is in its field's range.
abbrev pub FieldFits : (f : Field) → Value f → Type 0
FieldFits (chars n) v = Unit
FieldFits (uint w) n = n < 256 ^ w

abbrev pub Fits : (fs : List Field) → Values fs → Type 0
Fits [] vs = Unit
Fits (f ∷ fs) (v, vs) = FieldFits f v × Fits fs vs

-- The bytes of a record of fields, and the values that are read back from them.
unfoldable pub field_bytes : (f : Field) → Value f → Bytes
field_bytes (chars n) v = fit n v
field_bytes (uint w) n = to_le w n

unfoldable pub encode : (fs : List Field) → Values fs → Bytes
encode [] vs = []
encode (f ∷ fs) (v, vs) = field_bytes f v ++ encode fs vs

abbrev pub field_stored : (f : Field) → Value f → Value f
field_stored (chars n) v = fit n v
field_stored (uint w) n = n

abbrev pub stored : (fs : List Field) → Values fs → Values fs
stored [] vs = tt
stored (f ∷ fs) (v, vs) = (field_stored f v, stored fs vs)

pub length-to_le : (w n : ℕ) → length (to_le w n) ≡ w
unfolding to_le
length-to_le zero n = refl
length-to_le (suc w) n = ap suc (length-to_le w (n / 256))

quotient_lt : (p n : ℕ) → n < p * 256 → n / 256 < p
quotient_lt p n h = omega arith

pub from_le-to_le : (w n : ℕ) → n < 256 ^ w → from_le (to_le w n) ≡ n
unfolding to_le from_le
from_le-to_le zero n h = omega arith
from_le-to_le (suc w) n h =
    omega (arith, from_le-to_le w (n / 256) (quotient_lt (256 ^ w) n (rw pow-suc at h)))

pub length-fit : (n : ℕ) (v : Bytes) → length (fit n v) ≡ n
unfolding fit
length-fit n v = omega (
  arith,
  length-take n (v ++ replicate n 0),
  length-append v (replicate n 0),
  length-replicate {A = ℕ} n 0,
)

length-field_bytes : (f : Field) (v : Value f) → length (field_bytes f v) ≡ field_size f
unfolding field_bytes
length-field_bytes (chars n) v = length-fit n v
length-field_bytes (uint w) n = length-to_le w n

pub length-encode : (fs : List Field) (vs : Values fs) → length (encode fs vs) ≡ calcsize fs
unfolding encode
length-encode [] vs = refl
length-encode (f ∷ fs) (v, vs) = omega (
  arith,
  length-append (field_bytes f v) (encode fs vs),
  length-field_bytes f v,
  length-encode fs vs,
)

pack_field_lem : (f : Field) (v : Value f) → FieldFits f v → pack_field f v ≡ ok (field_bytes f v)
unfolding pack_field field_bytes
pack_field_lem (chars n) v h = refl
pack_field_lem (uint w) n h = rw (lt→ltb _ _ h)

pub pack-encode : (fs : List Field) (vs : Values fs) → Fits fs vs → pack fs vs ≡ ok (encode fs vs)
unfolding pack encode
pack-encode [] vs h = refl
pack-encode (f ∷ fs) (v, vs) (hv, hvs) = rw (pack_field_lem f v hv, pack-encode fs vs hvs)

drop_field :
    (f : Field) (v : Value f) (rest : Bytes) → drop (field_size f) (field_bytes f v ++ rest) ≡ rest
drop_field f v rest = rw (← length-field_bytes f v) (drop_front (field_bytes f v) rest)

take_field :
    (f : Field) (v : Value f) (rest : Bytes)
    → take (field_size f) (field_bytes f v ++ rest) ≡ field_bytes f v
take_field f v rest = rw (← length-field_bytes f v) (take_front (field_bytes f v) rest)

unpack_field_lem :
    (f : Field) (v : Value f) (rest : Bytes)
    → FieldFits f v
    → unpack_field f (field_bytes f v ++ rest) ≡ field_stored f v
unfolding unpack_field
unpack_field_lem (chars n) v rest h = take_field (chars n) v rest ∙ (unfold field_bytes in refl)
unpack_field_lem (uint w) n rest h =
    rw (take_field (uint w) n rest) (unfold field_bytes in from_le-to_le w n h)

-- Each integer is read back as it was, each byte string as it fits its field.
pub unpack-encode :
    (fs : List Field) (vs : Values fs) (rest : Bytes)
    → Fits fs vs
    → unpack fs (encode fs vs ++ rest) ≡ stored fs vs
unfolding unpack encode
unpack-encode [] vs rest h = refl
unpack-encode (f ∷ fs) (v, vs) rest (hv, hvs) =
    rw (append_assoc (field_bytes f v) (encode fs vs) rest) (
      rw (unpack_field_lem f v (encode fs vs ++ rest) hv, drop_field f v (encode fs vs ++ rest))
        (ap (λ t. (field_stored f v, t)) (unpack-encode fs vs rest hvs)))

rstrip_nul-zeros : (n : ℕ) → rstrip_nul (replicate n 0) ≡ []
unfolding rstrip_nul nul_cons
rstrip_nul-zeros zero = refl
rstrip_nul-zeros (suc n) = rw (rstrip_nul-zeros n)

rstrip_nul-append : (v : Bytes) (n : ℕ) → rstrip_nul (v ++ replicate n 0) ≡ rstrip_nul v
unfolding rstrip_nul
rstrip_nul-append [] n = rstrip_nul-zeros n
rstrip_nul-append (x ∷ xs) n = ap (nul_cons x) (rstrip_nul-append xs n)

take-replicate : (n m : ℕ) → n ≤ m → take n (replicate m 0) ≡ replicate {A = ℕ} n 0
take-replicate zero m h = refl
take-replicate (suc n) zero h = absurd (omega arith)
take-replicate (suc n) (suc m) h = ap (λ t. 0 ∷ t) (take-replicate n m (omega arith))

take_padded :
    (v : Bytes) (n m : ℕ)
    → length v ≤ n
    → n ≤ m + length v
    → take n (v ++ replicate m 0) ≡ v ++ replicate (n - length v) 0
take_padded [] n m h k = take-replicate n m (omega arith) ∙ ap (λ t. replicate t 0) (sub_zero n)
  where
    sub_zero : (n : ℕ) → n ≡ n - 0
    sub_zero n = omega arith
take_padded (x ∷ xs) zero m h k = absurd (omega arith)
take_padded (x ∷ xs) (suc n) m h k =
    ap (λ t. x ∷ t)
      (take_padded xs n m (omega arith) (omega arith) ∙ ap (λ t. xs ++ replicate t 0) less)
  where
    less : n - length xs ≡ suc n - length (x ∷ xs)
    less = omega arith

pub fit_short : (v : Bytes) (n : ℕ) → length v ≤ n → fit n v ≡ v ++ replicate (n - length v) 0
unfolding fit
fit_short v n h = take_padded v n n h (omega arith)

-- A text without null bytes at its end that fits its field is read back as it was.
pub rstrip_nul-fit :
    (n : ℕ) (v : Bytes) → length v ≤ n → rstrip_nul v ≡ v → rstrip_nul (fit n v) ≡ v
rstrip_nul-fit n v h e = rw (fit_short v n h) (rstrip_nul-append v (n - length v) ∙ e)

-- A byte string of its field's size is stored as it is.
pub fit_exact : (n : ℕ) (v : Bytes) → length v ≡ n → fit n v ≡ v
unfolding fit
fit_exact n v e = rw (← e) (take_front v _)

pub Writes-struct :
    (fs : List Field) (vs : Values fs) (pos : ℕ)
    → Fits fs vs
    → Writes (write_struct fs vs) pos (encode fs vs)
unfolding write_struct
Writes-struct fs vs pos h = Writes-result (encode fs vs) pos (pack-encode fs vs h)

-- What `write_struct` wrote, `read_struct` reads.
pub Reads-struct :
    (fs : List Field) (vs : Values fs) (pos : ℕ)
    → Fits fs vs
    → Reads (read_struct fs) pos (encode fs vs) (stored fs vs)
unfolding read_struct
Reads-struct fs vs pos h =
    let whole : unpack fs (encode fs vs) ≡ stored fs vs =
      ap (unpack fs) (sym (append-nil (encode fs vs))) ∙ unpack-encode fs vs [] h in
    Reads-cast (append-nil (encode fs vs)) (
      Reads-bind _ (Reads-read_exact _ pos (encode fs vs) (length-encode fs vs))
        (rw whole (Reads-pure (stored fs vs) _)))

-- ===== src/Main/ExtraFields/Laws.antt =====
-- Which records are left.
use avbroot.Prelude.{
  ℕ, zero, suc, ◌+◌, ◌^◌, ◌≤◌, ◌<◌, ◌≡◌, refl, sym, ap, ◌∙◌, List, [], ◌∷◌, ◌++◌, length, take,
  drop, All, arith, append_assoc, append-nil, length-append, take_front, drop_front, if◌then◌else◌,
  Bool-cases, inl, inr, ◌==◌,
}
use avbroot.Result.{Result, ok, ◌>>=◌}
use avbroot.Stream.{Bytes}
use avbroot.Struct.{unpack}
use avbroot.Struct.Laws.{encode, length-encode, unpack-encode}
use avbroot.Main.ExtraFields.{
  extra_header, read_extra_header, is_kept, kept_part, strip_loop, strip_bad_extra_fields,
}

pub record ExtraField : Type 0 where
  pub record_sig : ℕ
  pub body : Bytes

abbrev header_bytes : ExtraField → Bytes
header_bytes r = encode extra_header (r.record_sig, (length r.body, tt))

abbrev record_bytes : ExtraField → Bytes
record_bytes r = header_bytes r ++ r.body

abbrev pub extra_bytes : List ExtraField → Bytes
extra_bytes [] = []
extra_bytes (r ∷ rs) = record_bytes r ++ extra_bytes rs

-- The records that are neither alignment nor zip64 sizes, told by their signatures.
abbrev pub kept : List ExtraField → List ExtraField
kept [] = []
kept (r ∷ rs) =
    if r.record_sig == 0x0001
    then kept rs
    else if r.record_sig == 0xd935
    then kept rs
    else r ∷ kept rs

abbrev pub FieldFits16 : ExtraField → Type 0
FieldFits16 r = (r.record_sig < 2 ^ 16) × (length r.body < 2 ^ 16)

header_size : (r : ExtraField) → length (header_bytes r) ≡ 4
header_size r = length-encode extra_header (r.record_sig, (length r.body, tt))

header_front : (r : ExtraField) (rest : Bytes) → take 4 (record_bytes r ++ rest) ≡ header_bytes r
header_front r rest =
    ap (take 4) (append_assoc (header_bytes r) r.body rest)
    ∙ ap (λ n. take n (header_bytes r ++ (r.body ++ rest))) (sym (header_size r))
    ∙ take_front (header_bytes r) (r.body ++ rest)

read_header_lem :
    (r : ExtraField) (rest : Bytes)
    → FieldFits16 r
    → read_extra_header (record_bytes r ++ rest) ≡ ok (r.record_sig, (length r.body, tt))
unfolding read_extra_header
read_header_lem r rest (sig, size) =
    rw (header_front r rest, header_size r)
      (ap ok (
        ap (unpack extra_header) (sym (append-nil (header_bytes r)))
        ∙ unpack-encode extra_header (r.record_sig, (length r.body, tt)) []
            (omega arith, (omega arith, tt))))

length-record : (r : ExtraField) → length (record_bytes r) ≡ 4 + length r.body
length-record r = omega (arith, length-append (header_bytes r) r.body, header_size r)

abbrev round : ℕ → Bytes → Result Bytes
round fuel extra = read_extra_header extra >>= λ (record_sig, (record_len, _)).
    strip_loop fuel (drop (4 + record_len) extra) >>= λ new_extra.
    ok (kept_part record_sig record_len extra ++ new_extra)

loop_round :
    (fuel : ℕ) (extra : Bytes) → 0 < length extra → strip_loop (suc fuel) extra ≡ round fuel extra
unfolding strip_loop
loop_round fuel [] h = absurd (omega arith)
loop_round fuel (b ∷ extra) h = refl

abbrev stripped : ℕ → ExtraField → Bytes → Result Bytes
stripped fuel r rest = strip_loop fuel rest >>= λ new.
    ok ((if is_kept r.record_sig then record_bytes r else []) ++ new)

loop_step :
    (fuel : ℕ) (r : ExtraField) (rest : Bytes)
    → FieldFits16 r
    → strip_loop (suc fuel) (record_bytes r ++ rest) ≡ stripped fuel r rest
loop_step fuel r rest fits =
    let all = record_bytes r ++ rest in
    let size = length-record r in
    let back : drop (4 + length r.body) all ≡ rest =
      ap (λ n. drop n all) (sym size) ∙ drop_front (record_bytes r) rest in
    let front : take (4 + length r.body) all ≡ record_bytes r =
      ap (λ n. take n all) (sym size) ∙ take_front (record_bytes r) rest in
    loop_round fuel all (omega (arith, length-append (record_bytes r) rest, size))
    ∙ rw (read_header_lem r rest fits, back, front) refl

extra_bytes-kept :
    (r : ExtraField) (rs : List ExtraField)
    → ok ((if is_kept r.record_sig then record_bytes r else []) ++ extra_bytes (kept rs))
      ≡ ok (extra_bytes (kept (r ∷ rs)))
unfolding is_kept
extra_bytes-kept r rs = elim (Bool-cases (r.record_sig == 0x0001)) [
  | inl zip64 ↦ rw zip64 refl
  | inr h ↦ elim (Bool-cases (r.record_sig == 0xd935)) [
    | inl alignment ↦ rw (h, alignment) refl
    | inr g ↦ rw (h, g) refl
  ]
]

strip_loop_lem :
    (fuel : ℕ) (rs : List ExtraField)
    → All FieldFits16 rs
    → length (extra_bytes rs) ≤ fuel
    → strip_loop fuel (extra_bytes rs) ≡ ok (extra_bytes (kept rs))
strip_loop_lem fuel [] fits room = unfold strip_loop in refl
strip_loop_lem zero (r ∷ rs) fits room =
    absurd (omega (arith, length-append (record_bytes r) (extra_bytes rs), length-record r))
strip_loop_lem (suc fuel) (r ∷ rs) (one, more) room =
    loop_step fuel r (extra_bytes rs) one
    ∙ rw
        (strip_loop_lem fuel rs more
          (omega (arith, length-append (record_bytes r) (extra_bytes rs), length-record r)))
        (extra_bytes-kept r rs)

-- From extra data that is a sequence of records, each with a 16-bit signature and a body of fewer
-- than 2^16 bytes, `strip_bad_extra_fields` removes the records with the signatures 0x0001 and
-- 0xd935, and leaves the others as they are and in their order.
pub strip_bad_extra_fields_lem :
    (rs : List ExtraField)
    → All FieldFits16 rs
    → strip_bad_extra_fields (extra_bytes rs) ≡ ok (extra_bytes (kept rs))
unfolding strip_bad_extra_fields
strip_bad_extra_fields_lem rs fits = strip_loop_lem (length (extra_bytes rs)) rs fits (omega arith)

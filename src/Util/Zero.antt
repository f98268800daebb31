-- ===== src/Util/Zero.antt =====
-- Null bytes, written and recognised in blocks.
use avbroot.Prelude.{
  ℕ, zero, suc, ◌-◌, ◌≤◌, ◌<◌, ◌≡◌, refl, sym, ap, ◌∙◌, min, Bool, true, false, [], ◌∷◌, ◌++◌,
  length, take, drop, arith, if◌then◌else◌, Bool-cases, inl, inr, append_assoc, append-nil,
  length-take, length-drop, ◌&&◌, ◌==◌,
}
use avbroot.Prelude.Text.{bytes_eq}
use avbroot.Result.{ok}
use avbroot.Stream.{Bytes}
use avbroot.Util.{zero_loop, zero_n, zero_block, is_zero_loop, is_zero}
use avbroot.Util.Pieces.{nulls, nulls-append, sum_back, take-drop}

zero_loop_lem :
    (fuel buf size : ℕ) (out : Bytes)
    → 0 < buf
    → size ≤ fuel
    → zero_loop fuel buf size out ≡ ok (out ++ nulls size)
unfolding zero_loop
zero_loop_lem fuel buf zero out pos room = ap ok (sym (append-nil out))
zero_loop_lem zero buf (suc n) out pos room = absurd (omega arith)
zero_loop_lem (suc fuel) buf (suc n) out pos room =
    let m = min buf (suc n) in
    zero_loop_lem fuel buf (suc n - m) (out ++ nulls m) pos (omega arith)
    ∙ ap ok (
        append_assoc out (nulls m) (nulls (suc n - m))
        ∙ ap (λ z. out ++ z)
            (nulls-append m (suc n - m) ∙ ap nulls (sum_back m (suc n) (omega arith))))

-- With a buffer that is not empty, `zero_n` appends exactly `size` null bytes.
pub zero_n_lem :
    (buf_size size : ℕ) (out : Bytes)
    → 0 < buf_size
    → zero_n buf_size size out ≡ ok (out ++ nulls size)
unfolding zero_n
zero_n_lem buf_size size out pos = zero_loop_lem size buf_size size out pos (omega arith)

-- Every byte of the view is null.
abbrev pub all_zero : Bytes → Bool
all_zero [] = true
all_zero (b ∷ view) = b == 0 && all_zero view

bytes_eq-nulls : (view : Bytes) → bytes_eq view (nulls (length view)) ≡ all_zero view
unfolding bytes_eq
bytes_eq-nulls [] = refl
bytes_eq-nulls (b ∷ view) = ap (λ t. b == 0 && t) (bytes_eq-nulls view)

all_zero-append : (xs ys : Bytes) → all_zero (xs ++ ys) ≡ (all_zero xs && all_zero ys)
all_zero-append [] ys = refl
all_zero-append (x ∷ xs) ys = elim (Bool-cases (x == 0)) [
  | inl h ↦ rw h (all_zero-append xs ys)
  | inr h ↦ rw h refl
]

block_zero :
    (n : ℕ) (view : Bytes)
    → n ≤ length view
    → bytes_eq (take n view) (nulls n) ≡ all_zero (take n view)
block_zero n view h =
    ap (λ k. bytes_eq (take n view) (nulls k))
      (sym (length-take n view ∙ (let e : min n (length view) ≡ n = omega arith in e)))
    ∙ bytes_eq-nulls (take n view)

if-and : (a b : Bool) → (if a then ok b else ok false) ≡ ok (a && b)
if-and true b = refl
if-and false b = refl

is_zero_loop_lem :
    (fuel : ℕ) (view : Bytes) → length view ≤ fuel → is_zero_loop fuel view ≡ ok (all_zero view)
unfolding is_zero_loop
is_zero_loop_lem fuel [] h = refl
is_zero_loop_lem zero (b ∷ view) h = absurd (omega arith)
is_zero_loop_lem (suc fuel) (b ∷ view) h =
    let all = b ∷ view in
    let n = min (length all) zero_block in
    rw
      (
        is_zero_loop_lem fuel (drop n all) (omega (arith, length-drop n all)),
        block_zero n all (omega arith),
      )
      (if-and (all_zero (take n all)) (all_zero (drop n all))
        ∙ ap ok (sym (all_zero-append (take n all) (drop n all)) ∙ ap all_zero (take-drop n all)))

-- `is_zero`, which compares blocks of at most 16384 bytes, ends and says whether every byte is
-- null.
pub is_zero_lem : (view : Bytes) → is_zero view ≡ ok (all_zero view)
unfolding is_zero
is_zero_lem view = is_zero_loop_lem (length view) view (omega arith)

-- ===== src/Padding/Laws.antt =====
-- What the padding is, and that readers skip what writers add.
use avbroot.Prelude.{
  ℕ, zero, suc, ◌+◌, ◌-◌, ◌*◌, ◌/◌, ◌%◌, ◌^◌, ◌≤◌, ◌<◌, ◌≡◌, ◌≢◌, ◌↔◌, refl, sym, ap, ◌∙◌, Bool,
  true, false, length, take, drop, arith, ==_iff, if◌then◌else◌, ◌==◌, length-replicate,
  length-append, length-take, append-nil, ◌++◌, Bool-cases, inl, inr,
}
use avbroot.Prelude.Bits.{bit_and-mask, pow_pos}
use avbroot.Result.{ok, err, value_error}
use avbroot.Stream.{Bytes, InFile, ◌>>=◌, pure, read, write, move, seek_cur, pure, ◌>>◌}
use avbroot.Stream.Laws.{Reads, Writes, Reads-lift, Reads-tell, Reads-bind, Reads-pure, Reads-cast}
use avbroot.Padding.{count_bits, is_power_of_2, calc, skip_bytes, read_skip, zeros, write_padding}
use native.Mathlib.Nat.{
  pow-suc, sub-zero, add-zero, mod_self, mod-eq_of_lt, div-add-mod, mod-lt, mul-mod_right,
}

count_bits-zero : (fuel : ℕ) → count_bits fuel 0 ≡ 0
unfolding count_bits
count_bits-zero zero = refl
count_bits-zero (suc fuel) = omega (arith, count_bits-zero fuel)

count_bits-pow : (k fuel : ℕ) → 2 ^ k ≤ fuel → count_bits fuel (2 ^ k) ≡ 1
unfolding count_bits
count_bits-pow zero zero h = absurd (omega arith)
count_bits-pow zero (suc fuel) h = omega (arith, count_bits-zero fuel)
count_bits-pow (suc k) zero h = absurd (omega (arith, pow_pos (suc k)))
count_bits-pow (suc k) (suc fuel) h =
    let even : 2 ^ suc k % 2 ≡ 0 = omega (arith, pow-suc 2 k) in
    let half : 2 ^ suc k / 2 ≡ 2 ^ k = omega (arith, pow-suc 2 k) in
    rw (even, half) (omega (arith, count_bits-pow k fuel (omega (arith, pow-suc 2 k, pow_pos k))))

count_bits-eq-zero : (fuel n : ℕ) → n ≤ fuel → count_bits fuel n ≡ 0 → n ≡ 0
unfolding count_bits
count_bits-eq-zero zero n h e = omega arith
count_bits-eq-zero (suc fuel) n h e =
    omega (arith, count_bits-eq-zero fuel (n / 2) (omega arith) (omega arith))

count_bits-eq-one : (fuel n : ℕ) → n ≤ fuel → count_bits fuel n ≡ 1 → (k : ℕ) × (n ≡ 2 ^ k)
unfolding count_bits
count_bits-eq-one zero n h e = absurd (omega arith)
count_bits-eq-one (suc fuel) n h e = elim (Bool-cases (n % 2 == 0)) [
  | inl even ↦
      let rest_even : n % 2 ≡ 0 = (==_iff _ _).0 even in
      let (k, p) = count_bits-eq-one fuel (n / 2) (omega arith) (omega arith) in
      (suc k, omega (arith, pow-suc 2 k))
  | inr odd ↦ (0, ground (arith, count_bits-eq-zero fuel (n / 2)))
]

is_power_of_2-pow : (k : ℕ) → is_power_of_2 (2 ^ k) ≡ true
unfolding is_power_of_2
is_power_of_2-pow k = rw (count_bits-pow k (2 ^ k) (omega arith))

-- `is_power_of_2` holds of the powers of two and of nothing else, 0 included.
pub is_power_of_2_iff : (n : ℕ) → (is_power_of_2 n ≡ true) ↔ ((k : ℕ) × (n ≡ 2 ^ k))
unfolding is_power_of_2
is_power_of_2_iff n = (
  λ h. count_bits-eq-one n n (omega arith) ((==_iff _ 1).0 h),
  λ (k, e). rw e (is_power_of_2-pow k),
)

pub calc-pow : (k offset : ℕ) → calc offset (2 ^ k) ≡ ok ((2 ^ k - offset % 2 ^ k) % 2 ^ k)
unfolding calc
calc-pow k offset =
    rw (is_power_of_2-pow k, bit_and-mask k offset, bit_and-mask k (2 ^ k - offset % 2 ^ k))

-- A padding brings the offset to a page boundary and is below the page size.
pub record IsPadding (offset page_size padding : ℕ) : Type 0 where
  pub below : padding < page_size
  pub aligned : (offset + padding) % page_size ≡ 0

align_up : (p o : ℕ) → 0 < p → (o + (p - o % p) % p) % p ≡ 0
align_up p o h = elim (Bool-cases (o % p == 0)) [
  | inl e ↦
      let none_needed : (p - o % p) % p ≡ 0 = rw ((==_iff _ _).0 e, sub-zero) (mod_self p) in
      rw (none_needed, add-zero) ((==_iff _ _).0 e)
  | inr e ↦
      let pos : 0 < o % p = ground arith in
      let rest : (p - o % p) % p ≡ p - o % p = mod-eq_of_lt (omega arith) in
      let next_page : o + (p - o % p) ≡ p * (o / p + 1) =
        omega (arith, div-add-mod o p, mod-lt o h) in
      rw (rest, next_page) (mul-mod_right p (o / p + 1))
]

-- There is one padding at most, so it is the least one.
pub IsPadding-unique : (p o a b : ℕ) → IsPadding o p a → IsPadding o p b → a ≡ b
IsPadding-unique p o a b x y = grind arith

-- For a page size that is a power of two `calc` returns the padding: less than a page, and it
-- brings the offset to a page boundary.
pub calc-IsPadding :
    (k offset : ℕ) → (n : ℕ) × (calc offset (2 ^ k) ≡ ok n) × IsPadding offset (2 ^ k) n
calc-IsPadding k offset = (
  (2 ^ k - offset % 2 ^ k) % 2 ^ k,
  calc-pow k offset,
  record { below = mod-lt _ (pow_pos k); aligned = align_up (2 ^ k) offset (pow_pos k) },
)

-- For a page size that is no power of two, 0 included, `calc` raises ValueError.
pub calc-not_power :
    (page_size offset : ℕ) → ((k : ℕ) → page_size ≢ 2 ^ k) → calc offset page_size ≡ err value_error
unfolding calc
calc-not_power page_size offset h = elim (Bool-cases (is_power_of_2 page_size)) [
  | inl e ↦ let (k, p) = (is_power_of_2_iff page_size).0 e in absurd (h k p)
  | inr e ↦ rw e
]

-- The padding behind `offset` for pages of `2 ^ k` bytes.
unfoldable pub pad : ℕ → ℕ → ℕ
pad k offset = (2 ^ k - offset % 2 ^ k) % 2 ^ k

pub pad_aligned : (k offset : ℕ) → offset % 2 ^ k ≡ 0 → pad k offset ≡ 0
unfolding pad
pad_aligned k offset h = rw (h, sub-zero) (mod_self (2 ^ k))

-- Behind the padding there is none to add.
pub pad_again : (k offset : ℕ) → pad k (offset + pad k offset) ≡ 0
pad_again k offset = pad_aligned k _ (unfold pad in align_up (2 ^ k) offset (pow_pos k))

-- Behind the padding the first page is full.
pub page-le-padded : (k offset : ℕ) → 0 < offset → 2 ^ k ≤ offset + pad k offset
unfolding pad
page-le-padded k offset h =
    let aligned = align_up (2 ^ k) offset (pow_pos k) in
    whole (2 ^ k) (offset + (2 ^ k - offset % 2 ^ k) % 2 ^ k) (omega arith) aligned
  where
    whole : (p n : ℕ) → 0 < n → n % p ≡ 0 → p ≤ n
    whole p n pos e = grind arith

pub Writes-padding :
    (k : ℕ) {page_size : ℕ} (pos : ℕ)
    → page_size ≡ 2 ^ k
    → Writes (write_padding page_size) pos (zeros (pad k pos))
unfolding write_padding write pad
Writes-padding k pos e = record { at = λ out h. rw (e, h, calc-pow k pos) }

skip_taken :
    (n : ℕ) (f : InFile) (rest : Bytes)
    → drop f.pos f.bytes ≡ zeros n ++ rest
    → length (take n (drop f.pos f.bytes)) ≡ n
skip_taken n f rest h =
    let enough : length (drop f.pos f.bytes) ≡ n + length rest =
      ap length h
      ∙ length-append (zeros n) rest
      ∙ ap (λ t. t + length rest) (length-replicate n 0) in
    omega (arith, length-take n (drop f.pos f.bytes))

skip_either :
    (b : Bool) (n : ℕ) (f : InFile) (rest : Bytes)
    → drop f.pos f.bytes ≡ zeros n ++ rest
    → (if b then seek_cur n f else (read n >> pure tt) f) ≡ ok (tt, move f n)
unfolding read ◌>>=◌
skip_either true n f rest h = refl
skip_either false n f rest h = ap (λ m. ok (tt, move f m)) (skip_taken n f rest h)

-- A reader passes over the padding, whether it seeks or reads, when the padding is in the file.
Reads-skip_bytes : (n pos : ℕ) → Reads (skip_bytes n) pos (zeros n) tt
unfolding skip_bytes
Reads-skip_bytes n pos = record {
  at = λ f rest hp h.
      skip_either f.seekable n f rest h ∙ ap (λ m. ok (tt, move f m)) (sym (length-replicate n 0));
}

-- What `write_padding` adds, `read_skip` skips.
pub Reads-padding :
    (k : ℕ) {page_size : ℕ} (pos : ℕ)
    → page_size ≡ 2 ^ k
    → Reads (read_skip page_size) pos (zeros (pad k pos)) (pad k pos)
unfolding read_skip pad
Reads-padding k pos e = Reads-tell _ (
    Reads-lift _ _ (rw e (calc-pow k pos))
      (Reads-cast (append-nil _) (Reads-bind _ (Reads-skip_bytes _ pos) (Reads-pure _ _))))

-- ===== src/Util/Pieces.antt =====
-- Lists cut into pieces.
use avbroot.Prelude.{
  ℕ, zero, suc, ◌+◌, ◌-◌, ◌≤◌, ◌≡◌, refl, sym, ap, ◌∙◌, List, [], ◌∷◌, ◌++◌, length, take, drop,
  replicate, arith,
}
use avbroot.Stream.{Bytes}

zero_plus : (n : ℕ) → n ≡ 0 + n
zero_plus n = omega arith

suc_plus : (m n : ℕ) → suc (m + n) ≡ suc m + n
suc_plus m n = omega arith

pub sum_back : (k n : ℕ) → k ≤ n → k + (n - k) ≡ n
sum_back k n h = omega arith

pub sum_pos : (p k n : ℕ) → k ≤ n → p + k + (n - k) ≡ p + n
sum_pos p k n h = omega arith

abbrev pub nulls : ℕ → Bytes
nulls n = replicate n 0

pub nulls-append : (m n : ℕ) → nulls m ++ nulls n ≡ nulls (m + n)
nulls-append zero n = ap nulls (zero_plus n)
nulls-append (suc m) n = ap (λ t. 0 ∷ t) (nulls-append m n) ∙ ap nulls (suc_plus m n)

module _ {ℓ} {A : Type ℓ} where
  pub nil_of : (xs : List A) → length xs ≡ 0 → xs ≡ []
  nil_of [] h = refl
  nil_of (x ∷ xs) h = absurd (omega arith)

  pub take-drop : (n : ℕ) (xs : List A) → take n xs ++ drop n xs ≡ xs
  take-drop zero xs = refl
  take-drop (suc n) [] = refl
  take-drop (suc n) (x ∷ xs) = ap (λ t. x ∷ t) (take-drop n xs)

  take-nil : (n : ℕ) → take {A = A} n [] ≡ []
  take-nil zero = refl
  take-nil (suc n) = refl

  pub take-split : (m n : ℕ) (xs : List A) → take m xs ++ take n (drop m xs) ≡ take (m + n) xs
  take-split zero n xs = ap (λ k. take k xs) (zero_plus n)
  take-split (suc m) n [] = take-nil n ∙ sym (take-nil (suc m + n))
  take-split (suc m) n (x ∷ xs) =
      ap (λ t. x ∷ t) (take-split m n xs) ∙ ap (λ k. take k (x ∷ xs)) (suc_plus m n)

  pub take-length-take : (m : ℕ) (xs : List A) → take (length (take m xs)) xs ≡ take m xs
  take-length-take zero xs = refl
  take-length-take (suc m) [] = refl
  take-length-take (suc m) (x ∷ xs) = ap (λ t. x ∷ t) (take-length-take m xs)

  pub take-front : (n : ℕ) (xs ys : List A) → n ≤ length xs → take n xs ≡ take n (xs ++ ys)
  take-front zero xs ys h = refl
  take-front (suc n) [] ys h = absurd (omega arith)
  take-front (suc n) (x ∷ xs) ys h = ap (λ t. x ∷ t) (take-front n xs ys (omega arith))

  pub take_whole : (n : ℕ) (xs : List A) → length xs ≤ n → take n xs ≡ xs
  take_whole zero [] h = refl
  take_whole zero (x ∷ xs) h = absurd (omega arith)
  take_whole (suc n) [] h = refl
  take_whole (suc n) (x ∷ xs) h = ap (λ t. x ∷ t) (take_whole n xs (omega arith))

  pub slice-front :
      (k n : ℕ) (xs ys : List A)
      → k + n ≤ length xs
      → take n (drop k xs) ≡ take n (drop k (xs ++ ys))
  slice-front zero n xs ys h = take-front n xs ys (omega arith)
  slice-front (suc k) n [] ys h = absurd (omega arith)
  slice-front (suc k) n (x ∷ xs) ys h = slice-front k n xs ys (omega arith)

  pub drop-behind :
      (k : ℕ) (xs ys : List A) → length xs ≤ k → drop k (xs ++ ys) ≡ drop (k - length xs) ys
  drop-behind k [] ys h = ap (λ m. drop m ys) (omega arith)
  drop-behind zero (x ∷ xs) ys h = absurd (omega arith)
  drop-behind (suc k) (x ∷ xs) ys h =
      drop-behind k xs ys (omega arith) ∙ ap (λ m. drop m ys) (omega arith)

  pub drop-front : (k : ℕ) (xs ys : List A) → k ≤ length xs → drop k (xs ++ ys) ≡ drop k xs ++ ys
  drop-front zero xs ys h = refl
  drop-front (suc k) [] ys h = absurd (omega arith)
  drop-front (suc k) (x ∷ xs) ys h = drop-front k xs ys (omega arith)

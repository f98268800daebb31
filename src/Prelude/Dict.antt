-- ===== src/Prelude/Dict.antt =====
-- Python's dictionaries with keys of bytes, as association lists in the order of insertion. No two
-- entries have the same key.
use Prim.Native.Nat.{ℕ}
use mathlib.Core.Path.{◌≡◌, refl, sym, ap, ◌∙◌}
use mathlib.Core.Logic.{inl, inr}
use mathlib.Core.Bool.{Bool, true, false, ◌&&◌, ◌||◌}
use mathlib.Core.Option.{Option, none, some}
use mathlib.Core.List.{List, [], ◌∷◌}
use native.Mathlib.Omega.{arith}
use avbroot.Prelude.Tests.{if◌then◌else◌, Bool-cases}
use avbroot.Prelude.Text.{bytes_eq, bytes_eq→eq}

abbrev pub elem : List ℕ → List (List ℕ) → Bool
elem n [] = false
elem n (m ∷ ms) = bytes_eq m n || elem n ms

-- No two of the names are the same.
abbrev pub AreDistinct : List (List ℕ) → Type 0
AreDistinct [] = Unit
AreDistinct (n ∷ ns) = (elem n ns ≡ false) × AreDistinct ns

pub bytes_eq_sym : (xs ys : List ℕ) → bytes_eq xs ys ≡ bytes_eq ys xs
unfolding bytes_eq
bytes_eq_sym [] [] = refl
bytes_eq_sym [] (y ∷ ys) = refl
bytes_eq_sym (x ∷ xs) [] = refl
bytes_eq_sym (x ∷ xs) (y ∷ ys) = ground (arith, bytes_eq_sym xs ys)

module _ {ℓ} {A : Type ℓ} where
  abbrev pub lookup : List ℕ → List (List ℕ × A) → Option A
  lookup n [] = none
  lookup n ((m, a) ∷ xs) = let more = lookup n xs in if bytes_eq m n then some a else more

  -- `del d[n]`, where it is there.
  abbrev pub without : List ℕ → List (List ℕ × A) → List (List ℕ × A)
  without n [] = []
  without n ((m, a) ∷ xs) = let more = without n xs in if bytes_eq m n then more else (m, a) ∷ more

  abbrev pub without_all : List (List ℕ) → List (List ℕ × A) → List (List ℕ × A)
  without_all [] xs = xs
  without_all (n ∷ ns) xs = without_all ns (without n xs)

  abbrev pub is_empty : List (List ℕ × A) → Bool
  is_empty [] = true
  is_empty (x ∷ xs) = false

  -- Every key is one of the names.
  abbrev pub covers : List (List ℕ) → List (List ℕ × A) → Bool
  covers ns [] = true
  covers ns ((m, a) ∷ xs) = elem m ns && covers ns xs

  pub lookup-without_self :
      (n : List ℕ) (xs : List (List ℕ × A)) → lookup n xs ≡ none → without n xs ≡ xs
  lookup-without_self n [] h = refl
  lookup-without_self n ((m, a) ∷ xs) h = elim (Bool-cases (bytes_eq m n)) [
    | inl g ↦
        absurd
          (let bad : some a ≡ none = ap (λ b. if b then some a else lookup n xs) (sym g) ∙ h in cc)
    | inr g ↦
        let h' : lookup n xs ≡ none = ap (λ b. if b then some a else lookup n xs) (sym g) ∙ h in
        rw g (ap (λ t. (m, a) ∷ t) (lookup-without_self n xs h'))
  ]

  pub lookup-without_other :
      (n m : List ℕ) (xs : List (List ℕ × A))
      → bytes_eq n m ≡ false
      → lookup m (without n xs) ≡ lookup m xs
  lookup-without_other n m [] h = refl
  lookup-without_other n m ((k, a) ∷ xs) h = elim (Bool-cases (bytes_eq k n)) [
    | inl g ↦
        let e : k ≡ n = bytes_eq→eq k n g in
        let other : bytes_eq k m ≡ false = ap (λ t. bytes_eq t m) e ∙ h in
        rw (g, other) (lookup-without_other n m xs h)
    | inr g ↦ rw g (ap (λ t. if bytes_eq k m then some a else t) (lookup-without_other n m xs h))
  ]

  without_all-cons :
      (ns : List (List ℕ)) (m : List ℕ) (a : A) (xs : List (List ℕ × A))
      → without_all ns ((m, a) ∷ xs)
        ≡ (if elem m ns then without_all ns xs else (m, a) ∷ without_all ns xs)
  without_all-cons [] m a xs = refl
  without_all-cons (n ∷ ns) m a xs = elim (Bool-cases (bytes_eq m n)) [
    | inl g ↦ rw (g, sym (bytes_eq_sym m n) ∙ g) refl
    | inr g ↦ rw (g, sym (bytes_eq_sym m n) ∙ g) (without_all-cons ns m a (without n xs))
  ]

  pub is_empty-without_all :
      (ns : List (List ℕ)) (xs : List (List ℕ × A)) → is_empty (without_all ns xs) ≡ covers ns xs
  is_empty-without_all [] [] = refl
  is_empty-without_all (n ∷ ns) [] = is_empty-without_all ns []
  is_empty-without_all ns ((m, a) ∷ xs) = elim (Bool-cases (elem m ns)) [
    | inl g ↦ rw (without_all-cons ns m a xs, g) (is_empty-without_all ns xs)
    | inr g ↦ rw (without_all-cons ns m a xs, g) refl
  ]

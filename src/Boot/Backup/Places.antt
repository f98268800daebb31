-- ===== src/Boot/Backup/Places.antt =====
-- Where the objects stand, and which of them a rename changes.
use avbroot.Prelude.{
  ℕ, ◌+◌, ◌≤◌, ◌≡◌, inl, inr, refl, sym, ap, ◌∙◌, true, false, Option, some, List, [], ◌∷◌, ◌++◌,
  Bool-cases, ◌==◌, arith,
}
use avbroot.Prelude.Text.{bytes_eq, bytes_eq→eq, bytes_eq_self}
use avbroot.Stream.{Bytes}
use avbroot.Cpio.Entry.{CpioEntry}
use avbroot.Boot.Backup.{Object, objects, name_of, by_name, is_place, rename}
use avbroot.Boot.Backup.Names.{IsIn, by_name-IsIn}

pub IsIn-append : (x : Object) (os more : List Object) → IsIn x os → IsIn x (os ++ more)
IsIn-append x [] more h = absurd h
IsIn-append x (o ∷ os) more (inl e) = inl e
IsIn-append x (o ∷ os) more (inr h) = inr (IsIn-append x os more h)

pub IsIn-last : (x : Object) (os : List Object) → IsIn x (os ++ (x ∷ []))
IsIn-last x [] = inl refl
IsIn-last x (o ∷ os) = inr (IsIn-last x os)

-- The objects of the old list stand in different places.
objects-place :
    (k : ℕ) (es : List CpioEntry) (o : Object)
    → IsIn o (objects k es)
    → (i : ℕ) × (o.place ≡ some i) × (k ≤ i)
unfolding objects
objects-place k [] o h = absurd h
objects-place k (e ∷ es) o (inl h) = (k, ap (λ t. t.place) (sym h), omega arith)
objects-place k (e ∷ es) o (inr h) =
    let (i, p, b) = objects-place (k + 1) es o h in (i, p, omega arith)

same_place :
    (k : ℕ) (es : List CpioEntry) (o p : Object)
    → IsIn o (objects k es)
    → IsIn p (objects k es)
    → is_place o.place p.place ≡ true
    → o ≡ p
unfolding objects
same_place k [] o p h g t = absurd h
same_place k (e ∷ es) o p (inl h) (inl g) t = sym h ∙ g
same_place k (e ∷ es) o p (inl h) (inr g) t =
    let (i, at, b) = objects-place (k + 1) es p g in
    let t' : (k == i) ≡ true = sym (rw (ap (λ x. x.place) (sym h), at) refl) ∙ t in
    absurd (ground arith)
same_place k (e ∷ es) o p (inr h) (inl g) t =
    let (i, at, b) = objects-place (k + 1) es o h in
    let t' : (i == k) ≡ true = sym (rw (ap (λ x. x.place) (sym g), at) refl) ∙ t in
    absurd (ground arith)
same_place k (e ∷ es) o p (inr h) (inr g) t = same_place (k + 1) es o p h g t

pub rename-IsIn :
    (place : Option ℕ) (name : Bytes) (x : Object) (os : List Object)
    → is_place place x.place ≡ false
    → IsIn x os
    → IsIn x (rename place name os)
unfolding rename
rename-IsIn place name x [] h there = absurd there
rename-IsIn place name x (o ∷ os) h (inl e) =
    let h' : is_place place o.place ≡ false = ap (λ t. is_place place t.place) e ∙ h in
    rw h' (inl e)
rename-IsIn place name x (o ∷ os) h (inr there) = elim (Bool-cases (is_place place o.place)) [
  | inl g ↦ rw g (inr (rename-IsIn place name x os h there))
  | inr g ↦ rw g (inr (rename-IsIn place name x os h there))
]

-- An object of another name is not renamed with this one.
pub other_place :
    (es : List CpioEntry) (n m : Bytes) (o p : Object)
    → by_name n (objects 0 es) ≡ some o
    → by_name m (objects 0 es) ≡ some p
    → bytes_eq n m ≡ false
    → is_place o.place p.place ≡ false
other_place es n m o p found_o found_p differ =
    let (named_o, in_o) = by_name-IsIn n (objects 0 es) o found_o in
    let (named_p, in_p) = by_name-IsIn m (objects 0 es) p found_p in
    elim (Bool-cases (is_place o.place p.place)) [
      | inl t ↦
          let e : o ≡ p = same_place 0 es o p in_o in_p t in
          let same : n ≡ m =
            sym (bytes_eq→eq (name_of o) n named_o)
            ∙ ap name_of e
            ∙ bytes_eq→eq (name_of p) m named_p in
          absurd (
            let bad : true ≡ false =
              sym (bytes_eq_self m) ∙ ap (λ t. bytes_eq t m) (sym same) ∙ differ in
            cc)
      | inr t ↦ t
    ]

-- ===== src/Boot/Backup/Names.antt =====
-- The names of a list of entries, and the entry that a name stands for.
use avbroot.Prelude.{
  ◌≡◌, ◌⊎◌, inl, inr, refl, sym, ap, ◌∙◌, Bool, true, false, some, List, [], ◌∷◌, Bool-cases,
  Option-cases,
}
use avbroot.Prelude.Text.{bytes_eq, bytes_eq→eq}
use avbroot.Prelude.Dict.{elem, AreDistinct}
use avbroot.Stream.{Bytes}
use avbroot.Boot.Backup.{Object, name_of, names_of, by_name, filter_names}

abbrev pub IsIn : Object → List Object → Type 0
IsIn x [] = ⊥
IsIn x (o ∷ os) = (o ≡ x) ⊎ IsIn x os

some_injective : {o p : Object} → some o ≡ some p → o ≡ p
some_injective h = cc

pub by_name-IsIn :
    (n : Bytes) (os : List Object) (o : Object)
    → by_name n os ≡ some o
    → (bytes_eq (name_of o) n ≡ true) × IsIn o os
unfolding by_name
by_name-IsIn n [] o h = cc
by_name-IsIn n (x ∷ xs) o h = elim (Bool-cases (bytes_eq (name_of x) n)) [
  | inl e ↦ elim (Option-cases (by_name n xs)) [
    | inl missing ↦
        let same : x ≡ o = some_injective (sym (rw (e, missing) refl) ∙ h) in
        (ap (λ t. bytes_eq (name_of t) n) (sym same) ∙ e, inl same)
    | inr (p, found) ↦
        let same : p ≡ o = some_injective (sym (rw (e, found) refl) ∙ h) in
        let (named, there) = by_name-IsIn n xs o (found ∙ ap some same) in (named, inr there)
  ]
  | inr e ↦ let (named, there) = by_name-IsIn n xs o (sym (rw e refl) ∙ h) in (named, inr there)
]

-- Every name stands for an entry.
pub by_name-names :
    (n : Bytes) (os : List Object)
    → elem n (names_of os) ≡ true
    → (o : Object) × (by_name n os ≡ some o)
unfolding by_name names_of
by_name-names n [] h = cc
by_name-names n (x ∷ xs) h = elim (Bool-cases (bytes_eq (name_of x) n)) [
  | inl e ↦ elim (Option-cases (by_name n xs)) [
    | inl missing ↦ (x, rw (e, missing) refl)
    | inr (p, found) ↦ (p, rw (e, found) refl)
  ]
  | inr e ↦
      let h' : elem n (names_of xs) ≡ true = elim (Bool-cases (elem (name_of x) (names_of xs))) [
        | inl seen ↦ sym (rw seen refl) ∙ h
        | inr new ↦ sym (rw (new, e) refl) ∙ h
      ] in
      let (o, found) = by_name-names n xs h' in (o, rw e found)
]

pub names_of-AreDistinct : (os : List Object) → AreDistinct (names_of os)
unfolding names_of
names_of-AreDistinct [] = tt
names_of-AreDistinct (x ∷ xs) = elim (Bool-cases (elem (name_of x) (names_of xs))) [
  | inl seen ↦ rw seen (names_of-AreDistinct xs)
  | inr new ↦ rw new (new, names_of-AreDistinct xs)
]

pub elem-filter :
    (keep : Bytes → Bool) (n : Bytes) (ns : List Bytes)
    → keep n ≡ true
    → elem n (filter_names keep ns) ≡ elem n ns
unfolding filter_names
elem-filter keep n [] k = refl
elem-filter keep n (m ∷ ms) k = elim (Bool-cases (bytes_eq m n)) [
  | inl e ↦ let kept : keep m ≡ true = ap keep (bytes_eq→eq m n e) ∙ k in rw (kept, e) refl
  | inr e ↦ elim (Bool-cases (keep m)) [
    | inl kept ↦ rw (kept, e) (elem-filter keep n ms k)
    | inr gone ↦ rw (gone, e) (elem-filter keep n ms k)
  ]
]

pub filter-elem :
    (keep : Bytes → Bool) (n : Bytes) (ns : List Bytes)
    → elem n (filter_names keep ns) ≡ true
    → elem n ns ≡ true
unfolding filter_names
filter-elem keep n [] h = h
filter-elem keep n (m ∷ ms) h = elim (Bool-cases (bytes_eq m n)) [
  | inl e ↦ rw e refl
  | inr e ↦
      let h' : elem n (filter_names keep ms) ≡ true = elim (Bool-cases (keep m)) [
        | inl kept ↦ sym (rw (kept, e) refl) ∙ h
        | inr gone ↦ sym (rw gone refl) ∙ h
      ] in
      rw e (filter-elem keep n ms h')
]

pub filter-AreDistinct :
    (keep : Bytes → Bool) (ns : List Bytes) → AreDistinct ns → AreDistinct (filter_names keep ns)
unfolding filter_names
filter-AreDistinct keep [] d = tt
filter-AreDistinct keep (m ∷ ms) (d, ds) = elim (Bool-cases (keep m)) [
  | inl kept ↦ rw kept (elim (Bool-cases (elem m (filter_names keep ms))) [
    | inl there ↦ absurd (let bad : true ≡ false = sym (filter-elem keep m ms there) ∙ d in cc)
    | inr new ↦ (new, filter-AreDistinct keep ms ds)
  ])
  | inr gone ↦ rw gone (filter-AreDistinct keep ms ds)
]

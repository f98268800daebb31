-- ===== src/Cpio/Archive/Laws.antt =====
-- The order in which `save` writes its entries.
use avbroot.Prelude.{
  sym, if◌then◌else◌, ◌∙◌, ◌≡◌, refl, ap, true, false, List, [], ◌∷◌, arith, Bool-cases, inl, inr,
}
use avbroot.Prelude.Text.{bytes_le, bytes_eq, bytes_eq→eq}
use avbroot.Stream.{Bytes}
use avbroot.Cpio.Entry.{CpioEntry}
use avbroot.Cpio.Archive.{insert_entry, sort_entries}

bytes_le_total : (xs ys : Bytes) → bytes_le xs ys ≡ false → bytes_le ys xs ≡ true
unfolding bytes_le
bytes_le_total [] ys h = cc
bytes_le_total (x ∷ xs) [] h = refl
bytes_le_total (x ∷ xs) (y ∷ ys) h = ground (arith, bytes_le_total xs ys)

-- Nothing in the list has a smaller name than the entry in front of it.
abbrev IsBelow : CpioEntry → List CpioEntry → Type 0
IsBelow e [] = Unit
IsBelow e (x ∷ xs) = bytes_le e.name x.name ≡ true

abbrev pub IsSorted : List CpioEntry → Type 0
IsSorted [] = Unit
IsSorted (e ∷ es) = IsBelow e es × IsSorted es

insert-IsBelow :
    (x e : CpioEntry) (es : List CpioEntry)
    → IsBelow x es
    → bytes_le x.name e.name ≡ true
    → IsBelow x (insert_entry e es)
unfolding insert_entry
insert-IsBelow x e [] b h = h
insert-IsBelow x e (y ∷ ys) b h = elim (Bool-cases (bytes_le e.name y.name)) [
  | inl l ↦ rw l h
  | inr l ↦ rw l b
]

insert-IsSorted : (e : CpioEntry) (es : List CpioEntry) → IsSorted es → IsSorted (insert_entry e es)
unfolding insert_entry
insert-IsSorted e [] s = (tt, tt)
insert-IsSorted e (x ∷ xs) (b, s) = elim (Bool-cases (bytes_le e.name x.name)) [
  | inl l ↦ rw l (l, (b, s))
  | inr l ↦ rw l (insert-IsBelow x e xs b (bytes_le_total e.name x.name l), insert-IsSorted e xs s)
]

sort_entries-IsSorted : (es : List CpioEntry) → IsSorted (sort_entries es)
unfolding sort_entries
sort_entries-IsSorted [] = tt
sort_entries-IsSorted (e ∷ es) = insert-IsSorted e (sort_entries es) (sort_entries-IsSorted es)

-- The entries of one name, in their order.
abbrev pub named : Bytes → List CpioEntry → List CpioEntry
named n [] = []
named n (e ∷ es) = if bytes_eq e.name n then e ∷ named n es else named n es

bytes_le_self : (xs : Bytes) → bytes_le xs xs ≡ true
bytes_le_self xs = elim (Bool-cases (bytes_le xs xs)) [ inl h ↦ h | inr h ↦ bytes_le_total xs xs h ]

-- An entry passes only entries of other names.
swap-named :
    (n : Bytes) (e x : CpioEntry) (es : List CpioEntry)
    → bytes_le e.name x.name ≡ false
    → named n (x ∷ e ∷ es) ≡ named n (e ∷ x ∷ es)
swap-named n e x es l = elim (Bool-cases (bytes_eq e.name n)) [
  | inr he ↦ rw he refl
  | inl he ↦ elim (Bool-cases (bytes_eq x.name n)) [
    | inr hx ↦ rw hx refl
    | inl hx ↦
        let same : e.name ≡ x.name = bytes_eq→eq e.name n he ∙ sym (bytes_eq→eq x.name n hx) in
        let le : bytes_le e.name x.name ≡ true =
          ap (λ m. bytes_le m x.name) same ∙ bytes_le_self x.name in
        cc
  ]
]

named_step :
    (n : Bytes) (x : CpioEntry) (es fs : List CpioEntry)
    → named n es ≡ named n fs
    → named n (x ∷ es) ≡ named n (x ∷ fs)
named_step n x es fs h = ap (λ l. if bytes_eq x.name n then x ∷ l else l) h

named-insert :
    (n : Bytes) (e : CpioEntry) (es : List CpioEntry)
    → named n (insert_entry e es) ≡ named n (e ∷ es)
unfolding insert_entry
named-insert n e [] = refl
named-insert n e (x ∷ xs) = elim (Bool-cases (bytes_le e.name x.name)) [
  | inl l ↦ rw l refl
  | inr l ↦
      rw l
        (named_step n x (insert_entry e xs) (e ∷ xs) (named-insert n e xs) ∙ swap-named n e x xs l)
]

named-sort : (n : Bytes) (es : List CpioEntry) → named n (sort_entries es) ≡ named n es
unfolding sort_entries
named-sort n [] = refl
named-sort n (e ∷ es) =
    named-insert n e (sort_entries es) ∙ named_step n e (sort_entries es) es (named-sort n es)

-- The entries that `save` sorts are in the order of their names, and those of each name are the
-- same as before, in the order they had.
pub sort_entries_lem :
    (es : List CpioEntry) (name : Bytes)
    → IsSorted (sort_entries es) × (named name (sort_entries es) ≡ named name es)
sort_entries_lem es name = (sort_entries-IsSorted es, named-sort name es)

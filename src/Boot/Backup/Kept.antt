-- ===== src/Boot/Backup/Kept.antt =====
-- What holds of all the entries with the backup, and which of the new ones are among them.
use avbroot.Prelude.{
  ◌≡◌, inl, inr, refl, sym, ap, ◌∙◌, true, false, Option, none, some, ℕ, List, [], ◌∷◌, ◌++◌, All,
  Bool-cases, Option-cases,
}
use mathlib.Core.Path.{subst}
use avbroot.Prelude.Text.{codes, bytes_eq, bytes_eq→eq}
use avbroot.Prelude.Dict.{elem, AreDistinct}
use avbroot.Result.{Result, ok, err, key_error}
use avbroot.Stream.{Bytes}
use avbroot.Cpio.Entry.{CpioEntry, set_name}
use avbroot.Boot.Backup.{
  Object, fresh, objects, name_of, names_of, by_name, is_place, rename, backup_prefix, add_backups,
  apply_magisk_backup,
}
use avbroot.Boot.Backup.Names.{IsIn}
use avbroot.Boot.Backup.Places.{IsIn-append}
use avbroot.Boot.Backup.Laws.{apply_magisk_backup-Steps}

pub names_of-by_name :
    (n : Bytes) (os : List Object) (o : Object)
    → by_name n os ≡ some o
    → elem n (names_of os) ≡ true
unfolding by_name names_of
names_of-by_name n [] o h = absurd cc
names_of-by_name n (x ∷ xs) o h = elim (Bool-cases (bytes_eq (name_of x) n)) [
  | inl e ↦ elim (Bool-cases (elem (name_of x) (names_of xs))) [
    | inl seen ↦ rw seen (ap (λ t. elem t (names_of xs)) (sym (bytes_eq→eq (name_of x) n e)) ∙ seen)
    | inr new ↦ rw (new, e) refl
  ]
  | inr e ↦
      let there : elem n (names_of xs) ≡ true = names_of-by_name n xs o (sym (rw e refl) ∙ h) in
      elim (Bool-cases (elem (name_of x) (names_of xs))) [
        | inl seen ↦ rw seen there
        | inr new ↦ rw (new, e) there
      ]
]

no_place : (p : Option ℕ) → is_place p none ≡ false
no_place none = refl
no_place (some i) = refl

pub All-append {ℓ} :
    {A : Type ℓ} (Q : A → Type 0) (xs ys : List A) → All Q xs → All Q ys → All Q (xs ++ ys)
All-append Q [] ys h g = g
All-append Q (x ∷ xs) ys (h, hs) g = (h, All-append Q xs ys hs g)

-- A property that every object with a name under `.backup/` has.
module _ (Q : Object → Type 0)
    (renamed_Q : (o : Object) (n : Bytes)
      → Q (record o { entry = set_name (codes ".backup/" ++ n) o.entry })) where
  rename-All :
      (place : Option ℕ) (n : Bytes) (os : List Object)
      → All Q os
      → All Q (rename place (backup_prefix ++ n) os)
  unfolding rename
  rename-All place n [] h = tt
  rename-All place n (o ∷ os) (h, hs) = elim (Bool-cases (is_place place o.place)) [
    | inl e ↦ rw e (renamed_Q o n, rename-All place n os hs)
    | inr e ↦ rw e (h, rename-All place n os hs)
  ]

  add_backups-All :
      (old : List Object) (ns : List Bytes) (new out : List Object)
      → add_backups old ns new ≡ ok out
      → All Q new
      → All Q out
  unfolding add_backups
  add_backups-All old [] new out h all = subst (All Q) (let e : new ≡ out = cc in e) all
  add_backups-All old (n ∷ ns) new out h all = elim (Option-cases (by_name n old)) [
    | inl missing ↦ absurd (
        let failed : Result (List Object) = err key_error in
        let bad : failed ≡ ok out = sym (rw missing refl) ∙ h in cc)
    | inr (o, found) ↦
        add_backups-All old ns
          (rename o.place (backup_prefix ++ name_of o) new
            ++ (record o { entry = set_name (codes ".backup/" ++ name_of o) o.entry } ∷ []))
          out (sym (rw found refl) ∙ h)
          (All-append Q _ _ (rename-All o.place (name_of o) new all) (renamed_Q o (name_of o), tt))
  ]

  -- The directory and the list of what was added have such a name, or the name `.backup`.
  pub apply_magisk_backup-All :
      (in_some_order : List Bytes → List Bytes) (es : List CpioEntry) (new out : List Object)
      → ((ns : List Bytes) → AreDistinct ns → AreDistinct (in_some_order ns))
      → ((ns : List Bytes) (n : Bytes) → elem n (in_some_order ns) ≡ elem n ns)
      → apply_magisk_backup in_some_order (objects 0 es) new ≡ ok out
      → ((e : CpioEntry) → e.name ≡ codes ".backup" → Q (fresh e))
      → ((e : CpioEntry) → e.name ≡ codes ".backup/.rmlist" → Q (fresh e))
      → All Q new
      → All Q out × ((x : Object) → IsIn x new → x.place ≡ none → IsIn x out)
  apply_magisk_backup-All in_some_order es new out distinct same done dir_Q rmlist_Q all =
      let s = apply_magisk_backup-Steps in_some_order es new distinct same in
      let b = s.backups in
      let dir = s.dir in
      let rmlist = s.rmlist in
      let e : s.backed ++ (fresh rmlist ∷ []) ≡ out = let g = sym s.applied ∙ done in cc in
      subst (λ t. All Q t × ((x : Object) → IsIn x new → x.place ≡ none → IsIn x t)) e
        (
          All-append Q s.backed (fresh rmlist ∷ [])
              (add_backups-All (objects 0 es) _ (new ++ (fresh dir ∷ [])) s.backed s.looped
                (All-append Q new _ all (dir_Q dir s.dir_name, tt)))
              (rmlist_Q rmlist s.rmlist_name, tt),
          λ x there free. IsIn-append x s.backed (fresh rmlist ∷ []) (
              b.keeps x (IsIn-append x new (fresh dir ∷ []) there)
                (λ n o h found. ap (is_place o.place) free ∙ no_place o.place)),
        )

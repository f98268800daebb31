-- ===== src/Boot/Backup/Laws.antt =====
-- What is kept of the old entries.
use avbroot.Prelude.{
  or_true, ◌≡◌, ◌⊎◌, inl, inr, refl, sym, ap, ◌∙◌, Bool, true, false, not, ◌||◌, some, List, [],
  ◌∷◌, ◌++◌, Bool-cases,
}
use mathlib.Core.Path.{subst}
use avbroot.Prelude.Text.{codes, bytes_eq, bytes_eq→eq, bytes_eq_self}
use avbroot.Prelude.Dict.{bytes_eq_sym, elem, AreDistinct}
use avbroot.Result.{ok}
use avbroot.Stream.{Bytes}
use avbroot.Cpio.Entry.{CpioEntry, new_directory, new_file}
use avbroot.Boot.Backup.{
  Object, fresh, objects, name_of, names_of, by_name, content_differs, added, lost, is_place,
  rename, backup_prefix, renamed, add_backups, sort_names, join_names, apply_magisk_backup,
}
use avbroot.Boot.Backup.Names.{
  IsIn, by_name-IsIn, by_name-names, names_of-AreDistinct, elem-filter, filter-elem,
  filter-AreDistinct,
}
use avbroot.Boot.Backup.Places.{IsIn-append, IsIn-last, rename-IsIn, other_place}

some_same : {o p : Object} → some o ≡ some p → o ≡ p
some_same h = cc

-- All the names stand for old entries.
abbrev AreNames : List CpioEntry → List Bytes → Type 0
AreNames es ns = (n : Bytes) → elem n ns ≡ true → (o : Object) × (by_name n (objects 0 es) ≡ some o)

differ :
    (n m : Bytes) (ns : List Bytes) → elem n ns ≡ false → elem m ns ≡ true → bytes_eq n m ≡ false
differ n m ns h g = elim (Bool-cases (bytes_eq n m)) [
  | inl e ↦
      absurd (let bad : true ≡ false = sym (ap (λ t. elem t ns) (bytes_eq→eq n m e) ∙ g) ∙ h in cc)
  | inr e ↦ e
]

-- The loop succeeds, keeps what it does not rename, and adds the renamed objects.
pub record Backups (es : List CpioEntry) (ns : List Bytes) (new out : List Object) : Type 0 where
  pub keeps :
      (x : Object)
      → IsIn x new
      → ((n : Bytes) (o : Object)
          → elem n ns ≡ true
          → by_name n (objects 0 es) ≡ some o
          → is_place o.place x.place ≡ false)
      → IsIn x out
  pub adds :
      (n : Bytes) (o : Object)
      → elem n ns ≡ true
      → by_name n (objects 0 es) ≡ some o
      → IsIn (renamed o) out

add_backups_lem :
    (es : List CpioEntry) (ns : List Bytes) (new : List Object)
    → AreDistinct ns
    → AreNames es ns
    → (out : List Object) × (add_backups (objects 0 es) ns new ≡ ok out) × Backups es ns new out
unfolding add_backups
add_backups_lem es [] new d names =
    (new, refl, record { keeps = λ x h f. h; adds = λ n o h f. absurd cc })
add_backups_lem es (n ∷ ns) new (d, ds) names =
    let (o, found) = names n (rw (bytes_eq_self n) refl) in
    let later : AreNames es ns = λ m h. names m (rw h (or_true (bytes_eq n m))) in
    let next = rename o.place (backup_prefix ++ name_of o) new ++ (renamed o ∷ []) in
    let (out, done, b) = add_backups_lem es ns next ds later in
    let keeps : (x : Object)
        → IsIn x new
        → ((m : Bytes) (p : Object)
            → elem m (n ∷ ns) ≡ true
            → by_name m (objects 0 es) ≡ some p
            → is_place p.place x.place ≡ false)
        → IsIn x out =
      λ x h f.
        b.keeps x
          (IsIn-append x (rename o.place (backup_prefix ++ name_of o) new) (renamed o ∷ []) (
            rename-IsIn o.place (backup_prefix ++ name_of o) x new
              (f n o (rw (bytes_eq_self n) refl) found) h))
          (λ m p g found_p. f m p (rw g (or_true (bytes_eq n m))) found_p) in
    let here : IsIn (renamed o) out =
      b.keeps (renamed o) (IsIn-last (renamed o) (rename o.place (backup_prefix ++ name_of o) new))
        (λ m p g found_p.
          other_place es m n p o found_p found (bytes_eq_sym m n ∙ differ n m ns d g)) in
    let adds : (m : Bytes) (p : Object)
        → elem m (n ∷ ns) ≡ true
        → by_name m (objects 0 es) ≡ some p
        → IsIn (renamed p) out =
      λ m p g found_p. elim (Bool-cases (bytes_eq n m)) [
        | inl e ↦
            let same : o ≡ p =
              some_same
                (sym found ∙ ap (λ t. by_name t (objects 0 es)) (bytes_eq→eq n m e) ∙ found_p) in
            subst (λ t. IsIn (renamed t) out) same here
        | inr e ↦ b.adds m p (ap (λ t. t || elem m ns) (sym e) ∙ g) found_p
      ] in
    (out, rw found done, record { keeps = keeps; adds = adds })

-- The new entries have one of that name with the same content.
abbrev pub IsKept : Object → Bytes → List Object → Type 0
IsKept o n new =
    (p : Object) × (by_name n new ≡ some p)
    × (let e = o.entry in let f = p.entry in bytes_eq e.content f.content ≡ true)

-- An entry with the same content and mode, under `.backup/` and the old name.
abbrev pub IsBackedUp : Object → Bytes → List Object → Type 0
IsBackedUp o n out =
    (x : Object) × IsIn x out
    × (name_of x ≡ codes ".backup/" ++ n)
    × (let e = o.entry in let f = x.entry in (f.content ≡ e.content) × (f.mode ≡ e.mode))

renamed-IsBackedUp :
    (es : List CpioEntry) (n : Bytes) (o : Object) (out : List Object)
    → by_name n (objects 0 es) ≡ some o
    → IsIn (renamed o) out
    → IsBackedUp o n out
renamed-IsBackedUp es n o out found there =
    let (named, in_old) = by_name-IsIn n (objects 0 es) o found in
    let same : name_of o ≡ n = bytes_eq→eq (name_of o) n named in
    (renamed o, there, ap (λ t. codes ".backup/" ++ t) same, (refl, refl))

backup_directory :
    (e : CpioEntry) × (new_directory (codes ".backup") 0 ≡ ok e) × (e.name ≡ codes ".backup")
unfolding new_directory
backup_directory = (_, refl, refl)

rmlist_file :
    (content : Bytes)
    → (e : CpioEntry) × (new_file (codes ".backup/.rmlist") 0 content ≡ ok e)
      × (e.name ≡ codes ".backup/.rmlist")
unfolding new_file
rmlist_file content = (_, refl, refl)

lost-elem :
    (old new : List Object) (n : Bytes)
    → elem n (lost old new) ≡ true
    → elem n (names_of old) ≡ true
unfolding lost
lost-elem old new n h = filter-elem _ n (names_of old) h

lost-AreDistinct : (old new : List Object) → AreDistinct (lost old new)
unfolding lost
lost-AreDistinct old new = filter-AreDistinct _ (names_of old) (names_of-AreDistinct old)

or_false : (a b : Bool) → (a || b) ≡ false → (a ≡ false) × (b ≡ false)
or_false false b h = (refl, h)
or_false true b h = cc

not-false : (a : Bool) → not a ≡ false → a ≡ true
not-false true h = refl
not-false false h = cc

IsKept-or_lost :
    (old new : List Object) (n : Bytes) (o : Object)
    → elem n (names_of old) ≡ true
    → by_name n old ≡ some o
    → IsKept o n new ⊎ (elem n (lost old new) ≡ true)
unfolding lost
IsKept-or_lost old new n o h found =
    let keep : Bytes → Bool =
      λ m. not (elem m (names_of new)) || content_differs (by_name m old) (by_name m new) in
    elim (Bool-cases (keep n)) [
      | inl gone ↦ inr (elem-filter keep n (names_of old) gone ∙ h)
      | inr kept ↦
          let (there, same) =
            or_false (not (elem n (names_of new))) (content_differs (by_name n old) (by_name n new))
              kept in
          let (p, found_p) = by_name-names n new (not-false (elem n (names_of new)) there) in
          inl (
            p,
            found_p,
            not-false _ (
                ap (λ t. content_differs t (some p)) (sym found)
                ∙ ap (content_differs (by_name n old)) (sym found_p)
                ∙ same),
          )
    ]

-- The steps of `_apply_magisk_backup`.
pub record Steps (in_some_order : List Bytes → List Bytes) (es : List CpioEntry) (new : List Object)
    : Type 0 where
  pub dir : CpioEntry
  pub dir_name : dir.name ≡ codes ".backup"
  pub rmlist : CpioEntry
  pub rmlist_name : rmlist.name ≡ codes ".backup/.rmlist"
  pub backed : List Object
  pub looped :
      add_backups (objects 0 es) (in_some_order (lost (objects 0 es) new)) (new ++ (fresh dir ∷ []))
      ≡ ok backed
  pub backups :
      Backups es (in_some_order (lost (objects 0 es) new)) (new ++ (fresh dir ∷ [])) backed
  pub applied :
      apply_magisk_backup in_some_order (objects 0 es) new ≡ ok (backed ++ (fresh rmlist ∷ []))

pub apply_magisk_backup-Steps :
    (in_some_order : List Bytes → List Bytes) (es : List CpioEntry) (new : List Object)
    → ((ns : List Bytes) → AreDistinct ns → AreDistinct (in_some_order ns))
    → ((ns : List Bytes) (n : Bytes) → elem n (in_some_order ns) ≡ elem n ns)
    → Steps in_some_order es new
unfolding apply_magisk_backup
apply_magisk_backup-Steps in_some_order es new distinct same =
    let old = objects 0 es in
    let ns = in_some_order (lost old new) in
    let (dir, dir_made, dir_name) = backup_directory in
    let (rmlist, rmlist_made, rmlist_name) =
      rmlist_file (join_names (sort_names (added old new))) in
    let names : AreNames es ns =
      λ n h. by_name-names n old (lost-elem old new n (sym (same (lost old new) n) ∙ h)) in
    let (out, done, b) =
      add_backups_lem es ns (new ++ (fresh dir ∷ []))
        (distinct (lost old new) (lost-AreDistinct old new)) names in
    record {
      dir = dir;
      dir_name = dir_name;
      rmlist = rmlist;
      rmlist_name = rmlist_name;
      backed = out;
      looped = done;
      backups = b;
      applied = rw (dir_made, done, rmlist_made) refl;
    }

-- Whatever the order in which the sets are iterated (each name once), `_apply_magisk_backup`
-- succeeds, and for every name of the old ramdisk the entry that the name stands for is either one
-- whose content the new entry of that name has, or the result has an entry whose name is
-- `.backup/` and that name, with the content and the mode of the old entry.
pub apply_magisk_backup-keeps :
    (in_some_order : List Bytes → List Bytes) (es : List CpioEntry) (new : List Object)
    → ((ns : List Bytes) → AreDistinct ns → AreDistinct (in_some_order ns))
    → ((ns : List Bytes) (n : Bytes) → elem n (in_some_order ns) ≡ elem n ns)
    → (out : List Object) × (apply_magisk_backup in_some_order (objects 0 es) new ≡ ok out)
      × ((n : Bytes)
          → elem n (names_of (objects 0 es)) ≡ true
          → (o : Object) × (by_name n (objects 0 es) ≡ some o)
            × (IsKept o n new ⊎ IsBackedUp o n out))
apply_magisk_backup-keeps in_some_order es new distinct same =
    let old = objects 0 es in
    let s = apply_magisk_backup-Steps in_some_order es new distinct same in
    let b = s.backups in
    let rmlist = s.rmlist in
    (
      s.backed ++ (fresh rmlist ∷ []),
      s.applied,
      λ n h.
          let (o, found) = by_name-names n old h in
          (
            o,
            found,
            elim (IsKept-or_lost old new n o h found) [
              | inl kept ↦ inl kept
              | inr gone ↦ inr (
                  renamed-IsBackedUp es n o (s.backed ++ (fresh rmlist ∷ [])) found (
                    IsIn-append (renamed o) s.backed (fresh rmlist ∷ [])
                      (b.adds n o (same (lost old new) n ∙ gone) found)))
            ],
          ),
    )

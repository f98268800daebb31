-- ===== src/Boot/Magisk/Entries.antt =====
-- The entries that the patch makes.
use avbroot.Prelude.{
  ℕ, ◌≡◌, ◌⊎◌, inl, inr, refl, sym, ap, ◌∙◌, false, Option, none, some, append-nil, append_assoc,
  List, [], ◌∷◌, ◌++◌, All, Bool-cases,
}
use avbroot.Prelude.Int.{pos}
use avbroot.Prelude.Text.{codes, bytes_eq}
use avbroot.Result.{ok}
use avbroot.Stream.{Bytes}
use avbroot.Cpio.Entry.{CpioEntry, new_directory, new_file}
use avbroot.Boot.Backup.{Object, fresh, name_of}
use avbroot.Boot.Backup.Names.{IsIn}
use avbroot.Boot.Backup.Places.{IsIn-append}
use avbroot.Boot.Magisk.{without_init, entries_of, open_file, add_xz_files}

abbrev pub Has : CpioEntry → List CpioEntry → Type 0
Has e [] = ⊥
Has e (x ∷ xs) = (x ≡ e) ⊎ Has e xs

-- An entry of that name, mode and content.
abbrev pub HasFile : List CpioEntry → Bytes → ℕ → Bytes → Type 0
HasFile es name mode content =
    (e : CpioEntry) × Has e es × (e.name ≡ name) × (e.mode ≡ pos mode) × (e.content ≡ content)

-- Another name than `init`, or that content.
abbrev pub IsInit : Bytes → CpioEntry → Type 0
IsInit magiskinit e = (bytes_eq e.name (codes "init") ≡ false) ⊎ (e.content ≡ magiskinit)

abbrev pub IsInitObject : Bytes → Object → Type 0
IsInitObject magiskinit o = IsInit magiskinit o.entry

-- A new object with that name, mode and content.
abbrev pub Adds : List Object → Bytes → ℕ → Bytes → Type 0
Adds os name mode content =
    (o : Object) × IsIn o os
    × (o.place ≡ none)
    × (let e = o.entry in (e.name ≡ name) × (e.mode ≡ pos mode) × (e.content ≡ content))

pub IsIn-entries : (o : Object) (os : List Object) → IsIn o os → Has o.entry (entries_of os)
IsIn-entries o [] h = h
IsIn-entries o (x ∷ os) (inl e) = inl (ap (λ t. t.entry) e)
IsIn-entries o (x ∷ os) (inr h) = inr (IsIn-entries o os h)

pub All-entries :
    (Q : CpioEntry → Type 0) (os : List Object) → All (λ o. Q o.entry) os → All Q (entries_of os)
All-entries Q [] h = tt
All-entries Q (o ∷ os) (h, hs) = (h, All-entries Q os hs)

pub without_init-All :
    (magiskinit : Bytes) (os : List Object) → All (IsInitObject magiskinit) (without_init os)
unfolding without_init
without_init-All magiskinit [] = tt
without_init-All magiskinit (o ∷ os) = elim (Bool-cases (bytes_eq (name_of o) (codes "init"))) [
  | inl e ↦ rw e (without_init-All magiskinit os)
  | inr e ↦ rw e (inl e, without_init-All magiskinit os)
]

pub without_init-IsIn :
    (o : Object) (os : List Object)
    → bytes_eq (name_of o) (codes "init") ≡ false
    → IsIn o os
    → IsIn o (without_init os)
unfolding without_init
without_init-IsIn o [] h there = there
without_init-IsIn o (x ∷ os) h (inl e) =
    rw (ap (λ t. bytes_eq (name_of t) (codes "init")) e ∙ h) (inl e)
without_init-IsIn o (x ∷ os) h (inr there) =
    elim (Bool-cases (bytes_eq (name_of x) (codes "init"))) [
      | inl e ↦ rw e (without_init-IsIn o os h there)
      | inr e ↦ rw e (inr (without_init-IsIn o os h there))
    ]

pub IsIn-behind : (o : Object) (xs ys : List Object) → IsIn o ys → IsIn o (xs ++ ys)
IsIn-behind o [] ys h = h
IsIn-behind o (x ∷ xs) ys h = inr (IsIn-behind o xs ys h)

pub Adds-append :
    (xs ys : List Object) (name : Bytes) (mode : ℕ) (content : Bytes)
    → Adds xs name mode content
    → Adds (xs ++ ys) name mode content
Adds-append xs ys name mode content (o, there, free, holds) =
    (o, IsIn-append o xs ys there, free, holds)

pub Adds-behind :
    (xs ys : List Object) (name : Bytes) (mode : ℕ) (content : Bytes)
    → Adds ys name mode content
    → Adds (xs ++ ys) name mode content
Adds-behind xs ys name mode content (o, there, free, holds) =
    (o, IsIn-behind o xs ys there, free, holds)

sbin_file :
    (target content : Bytes)
    → (e : CpioEntry) × (new_file (codes "overlay.d/sbin/" ++ target) 0o644 content ≡ ok e)
      × (e.name ≡ codes "overlay.d/sbin/" ++ target)
      × (e.mode ≡ pos 0o100644)
      × (e.content ≡ content)
unfolding new_file
sbin_file target content = (_, refl, refl, refl, refl)

pub init_file :
    (content : Bytes)
    → (e : CpioEntry) × (new_file (codes "init") 0o750 content ≡ ok e)
      × (e.name ≡ codes "init")
      × (e.mode ≡ pos 0o100750)
      × (e.content ≡ content)
unfolding new_file
init_file content = (_, refl, refl, refl, refl)

pub config_file :
    (content : Bytes)
    → (e : CpioEntry) × (new_file (codes ".backup/.magisk") 0 content ≡ ok e)
      × (e.name ≡ codes ".backup/.magisk")
      × (e.mode ≡ pos 0o100000)
      × (e.content ≡ content)
unfolding new_file
config_file content = (_, refl, refl, refl, refl)

pub overlay_directory :
    (e : CpioEntry) × (new_directory (codes "overlay.d") 0o750 ≡ ok e)
    × (e.name ≡ codes "overlay.d")
    × (e.mode ≡ pos 0o040750)
    × (e.content ≡ [])
unfolding new_directory
overlay_directory = (_, refl, refl, refl, refl)

pub sbin_directory :
    (e : CpioEntry) × (new_directory (codes "overlay.d/sbin") 0o750 ≡ ok e)
    × (e.name ≡ codes "overlay.d/sbin")
    × (e.mode ≡ pos 0o040750)
    × (e.content ≡ [])
unfolding new_directory
sbin_directory = (_, refl, refl, refl, refl)

module _ (apk : Bytes → Option Bytes) (xz sha1_hex : Bytes → Bytes) where
  -- The file is in the APK, and its compressed content among the objects.
  abbrev pub IsAdded : List Object → Bytes × Bytes → Type 0
  IsAdded os (source, target) =
      (content : Bytes) × (apk source ≡ some content)
      × Adds os (codes "overlay.d/sbin/" ++ target) 0o100644 (xz content)

  abbrev pub IsThere : Bytes × Bytes → Type 0
  IsThere (source, target) = (content : Bytes) × (apk source ≡ some content)

  IsAdded-append :
      (files : List (Bytes × Bytes)) (xs ys : List Object)
      → All (IsAdded ys) files
      → All (IsAdded (xs ++ ys)) files
  IsAdded-append [] xs ys h = tt
  IsAdded-append ((source, target) ∷ files) xs ys ((content, found, added), hs) =
      ((content, found, Adds-behind xs ys _ _ _ added), IsAdded-append files xs ys hs)

  pub open_file_lem :
      (source content : Bytes)
      → apk source ≡ some content
      → open_file apk xz sha1_hex source ≡ ok content
  open_file_lem source content h = rw (h, open_file) refl

  add_step :
      (source target : Bytes) (files : List (Bytes × Bytes)) (os : List Object) (content : Bytes)
      (e : CpioEntry)
      → apk source ≡ some content
      → new_file (codes "overlay.d/sbin/" ++ target) 0o644 (xz content) ≡ ok e
      → add_xz_files apk xz sha1_hex ((source, target) ∷ files) os
        ≡ add_xz_files apk xz sha1_hex files (os ++ (fresh e ∷ []))
  unfolding add_xz_files
  add_step source target files os content e found made =
      rw (open_file_lem source content found, made) refl

  pub add_xz_files_lem :
      (magiskinit : Bytes) (files : List (Bytes × Bytes)) (os : List Object)
      → All IsThere files
      → (more : List Object) × (add_xz_files apk xz sha1_hex files os ≡ ok (os ++ more))
        × All (IsAdded more) files
        × All (IsInitObject magiskinit) more
  unfolding add_xz_files bytes_eq
  add_xz_files_lem magiskinit [] os h = ([], ap ok (sym (append-nil os)), tt, tt)
  add_xz_files_lem magiskinit ((source, target) ∷ files) os ((content, found), hs) =
      let (e, made, name, mode, holds) = sbin_file target (xz content) in
      let (more, done, all, other) = add_xz_files_lem magiskinit files (os ++ (fresh e ∷ [])) hs in
      (
        fresh e ∷ more,
        add_step source target files os content e found made
            ∙ done
            ∙ ap ok (append_assoc os (fresh e ∷ []) more),
        (
          (content, found, (fresh e, inl refl, refl, (name, mode, holds))),
          IsAdded-append files (fresh e ∷ []) more all,
        ),
        (inl (ap (λ n. bytes_eq n (codes "init")) name), other),
      )

pub Adds-kept :
    (kept more : List Object) (e init : CpioEntry) (name : Bytes) (mode : ℕ)
    → IsIn (fresh e) kept
    → e.name ≡ name
    → e.mode ≡ pos mode
    → e.content ≡ []
    → Adds ((kept ++ (fresh init ∷ [])) ++ more) name mode []
Adds-kept kept more e init name mode there named moded holds =
    Adds-append (kept ++ (fresh init ∷ [])) more name mode [] (
      Adds-append kept (fresh init ∷ []) name mode [] (fresh e, there, refl, (named, moded, holds)))

pub Adds-HasFile :
    (new out : List Object) (name : Bytes) (mode : ℕ) (content : Bytes)
    → ((x : Object) → IsIn x new → x.place ≡ none → IsIn x out)
    → Adds new name mode content
    → HasFile (entries_of out) name mode content
Adds-HasFile new out name mode content stay (o, there, free, (named, moded, holds)) =
    (o.entry, IsIn-entries o out (stay o there free), named, moded, holds)

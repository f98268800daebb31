-- ===== src/Boot/Magisk/Init.antt =====
-- The old `init` and the new one.
use avbroot.Prelude.{
  ◌≡◌, ◌⊎◌, inl, inr, refl, sym, ap, ◌∙◌, Bool, true, false, none, some, List, [], ◌∷◌, ◌++◌, All,
  Option-cases, if◌then◌else◌,
}
use mathlib.Core.Path.{subst}
use avbroot.Prelude.Text.{codes, bytes_eq, bytes_eq→eq}
use avbroot.Prelude.Dict.{elem}
use avbroot.Stream.{Bytes}
use avbroot.Cpio.Entry.{CpioEntry}
use avbroot.Boot.Backup.{Object, fresh, objects, names_of, by_name}
use avbroot.Boot.Backup.Names.{IsIn, by_name-IsIn}
use avbroot.Boot.Backup.Laws.{IsKept, IsBackedUp}
use avbroot.Boot.Backup.Kept.{names_of-by_name}
use avbroot.Boot.Magisk.{without_init, entries_of}
use avbroot.Boot.Magisk.Entries.{
  Has, IsInitObject, IsIn-entries, without_init-All, without_init-IsIn, IsIn-behind,
}

pub kept_lem :
    (has_ramdisk : Bool) (loaded : List CpioEntry) (overlay sbin : CpioEntry) (magiskinit : Bytes)
    → (has_ramdisk ≡ true) ⊎ (loaded ≡ [])
    → overlay.name ≡ codes "overlay.d"
    → sbin.name ≡ codes "overlay.d/sbin"
    → (let all = objects 0 loaded ++ (fresh overlay ∷ fresh sbin ∷ []) in
        let kept = if has_ramdisk then without_init all else all in
        All (IsInitObject magiskinit) kept × IsIn (fresh overlay) kept × IsIn (fresh sbin) kept)
unfolding bytes_eq objects
kept_lem true loaded overlay sbin magiskinit h o s =
    let all = objects 0 loaded ++ (fresh overlay ∷ fresh sbin ∷ []) in
    (
      without_init-All magiskinit all,
      without_init-IsIn (fresh overlay) all (ap (λ n. bytes_eq n (codes "init")) o)
          (IsIn-behind (fresh overlay) (objects 0 loaded) _ (inl refl)),
      without_init-IsIn (fresh sbin) all (ap (λ n. bytes_eq n (codes "init")) s)
          (IsIn-behind (fresh sbin) (objects 0 loaded) _ (inr (inl refl))),
    )
kept_lem false loaded overlay sbin magiskinit (inl bad) o s = absurd cc
kept_lem false loaded overlay sbin magiskinit (inr none_loaded) o s = rw none_loaded (
  (inl (ap (λ n. bytes_eq n (codes "init")) o), (inl (ap (λ n. bytes_eq n (codes "init")) s), tt)),
  inl refl,
  inr (inl refl),
)

-- The old `init`, if there is one, is the new one, or stands under `.backup/`.
abbrev pub IsInitKept : List CpioEntry → Bytes → List CpioEntry → Type 0
IsInitKept loaded magiskinit es =
    (by_name (codes "init") (objects 0 loaded) ≡ none)
    ⊎ ((o : Object) × (by_name (codes "init") (objects 0 loaded) ≡ some o)
        × (let old = o.entry in
            (old.content ≡ magiskinit)
            ⊎ ((e : CpioEntry) × Has e es
                × (e.name ≡ codes ".backup/init")
                × (e.content ≡ old.content)
                × (e.mode ≡ old.mode))))

All-IsIn : (Q : Object → Type 0) (os : List Object) (o : Object) → All Q os → IsIn o os → Q o
All-IsIn Q [] o h there = absurd there
All-IsIn Q (x ∷ os) o (h, hs) (inl e) = subst Q e h
All-IsIn Q (x ∷ os) o (h, hs) (inr there) = All-IsIn Q os o hs there

init_content :
    (magiskinit : Bytes) (new : List Object) (p : Object)
    → All (IsInitObject magiskinit) new
    → by_name (codes "init") new ≡ some p
    → (let e = p.entry in e.content) ≡ magiskinit
init_content magiskinit new p all found =
    let (named, there) = by_name-IsIn (codes "init") new p found in
    elim (All-IsIn (IsInitObject magiskinit) new p all there) [
      | inl other_name ↦ absurd (let bad : true ≡ false = sym named ∙ other_name in cc)
      | inr same ↦ same
    ]

pub init_kept :
    (loaded : List CpioEntry) (magiskinit : Bytes) (new out : List Object)
    → All (IsInitObject magiskinit) new
    → ((n : Bytes)
        → elem n (names_of (objects 0 loaded)) ≡ true
        → (o : Object) × (by_name n (objects 0 loaded) ≡ some o)
          × (IsKept o n new ⊎ IsBackedUp o n out))
    → IsInitKept loaded magiskinit (entries_of out)
init_kept loaded magiskinit new out all keeps =
    elim (Option-cases (by_name (codes "init") (objects 0 loaded))) [
      | inl missing ↦ inl missing
      | inr (p, there) ↦
          let (o, found, kept) =
            keeps (codes "init") (names_of-by_name (codes "init") (objects 0 loaded) p there) in
          inr (
            o,
            found,
            elim kept [
              | inl (q, found_q, same) ↦
                  inl (bytes_eq→eq _ _ same ∙ init_content magiskinit new q all found_q)
              | inr (x, there_x, name, (content, mode)) ↦
                  inr (x.entry, IsIn-entries x out there_x, name, content, mode)
            ],
          )
    ]

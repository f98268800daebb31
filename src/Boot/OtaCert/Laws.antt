-- ===== src/Boot/OtaCert/Laws.antt =====
-- What `OtaCertPatch` does to each ramdisk, and when it fails.
use avbroot.Prelude.{
  suc, ◌+◌, ◌<◌, ◌^◌, ◌≡◌, ◌⊎◌, inl, inr, refl, sym, ap, ◌∙◌, Bool, true, false, ◌||◌, none, some,
  List, [], ◌∷◌, ◌++◌, length, map, All, Bool-cases, if◌then◌else◌,
}
use avbroot.Prelude.Text.{bytes_eq}
use avbroot.Result.{ok, err, exception}
use avbroot.Stream.{Bytes}
use avbroot.Cpio.Entry.{CpioEntry, set_content}
use avbroot.Cpio.Entry.Laws.{IsStorable}
use avbroot.Cpio.Archive.{is_hard_link, clear_inode, sort_entries, first_inode}
use avbroot.Cpio.Archive.RoundTrip.{IsSavable}
use avbroot.Compression.Lz4.{Lz4Block}
use avbroot.Compression.Auto.{Gzip, Format}
use avbroot.BootImage.Detect.{BootImage}
use avbroot.Boot.Ramdisk.{load_ramdisk}
use avbroot.Boot.Ramdisk.Laws.{load_ramdisk-save_ramdisk}
use avbroot.Boot.Image.{ramdisks_of, with_ramdisks}
use avbroot.Boot.OtaCert.{otacerts_path, replace_first, patch_ramdisk, patch_ramdisks, patch}

abbrev pub has_path : List CpioEntry → Bool
has_path [] = false
has_path (e ∷ es) = bytes_eq e.name otacerts_path || has_path es

abbrev pub HasNoPath : List CpioEntry → Type 0
HasNoPath es = All (λ e. bytes_eq e.name otacerts_path ≡ false) es

-- The entries around the first one of the path.
abbrev pub Splits : List CpioEntry → List CpioEntry → CpioEntry → List CpioEntry → Type 0
Splits es front e back =
    (es ≡ front ++ (e ∷ back)) × (bytes_eq e.name otacerts_path ≡ true) × HasNoPath front

replace-found :
    (content : Bytes) (es : List CpioEntry)
    → has_path es ≡ true
    → (front : List CpioEntry) × (e : CpioEntry) × (back : List CpioEntry) × Splits es front e back
      × (replace_first otacerts_path content es ≡ some (front ++ (set_content content e ∷ back)))
unfolding replace_first
replace-found content [] h = cc
replace-found content (x ∷ xs) h = elim (Bool-cases (bytes_eq x.name otacerts_path)) [
  | inl g ↦ ([], x, xs, (refl, g, tt), rw g refl)
  | inr g ↦
      let h' : has_path xs ≡ true = ap (λ b. b || has_path xs) (sym g) ∙ h in
      let (front, e, back, (cut, named, none_before), replaced) = replace-found content xs h' in
      (x ∷ front, e, back, (ap (λ t. x ∷ t) cut, named, (g, none_before)), rw (g, replaced) refl)
]

replace-missing :
    (content : Bytes) (es : List CpioEntry)
    → has_path es ≡ false
    → replace_first otacerts_path content es ≡ none
unfolding replace_first
replace-missing content [] h = refl
replace-missing content (x ∷ xs) h = elim (Bool-cases (bytes_eq x.name otacerts_path)) [
  | inl g ↦ let bad : true ≡ false = ap (λ b. b || has_path xs) (sym g) ∙ h in cc
  | inr g ↦
      let h' : has_path xs ≡ false = ap (λ b. b || has_path xs) (sym g) ∙ h in
      rw (g, replace-missing content xs h') refl
]

no_path-HasNoPath : (es : List CpioEntry) → has_path es ≡ false → HasNoPath es
no_path-HasNoPath [] h = tt
no_path-HasNoPath (x ∷ xs) h = elim (Bool-cases (bytes_eq x.name otacerts_path)) [
  | inl g ↦ let bad : true ≡ false = ap (λ b. b || has_path xs) (sym g) ∙ h in cc
  | inr g ↦ (g, no_path-HasNoPath xs (ap (λ b. b || has_path xs) (sym g) ∙ h))
]

content-IsSavable :
    (content : Bytes) (e : CpioEntry)
    → length content < 2 ^ 32
    → IsSavable e
    → IsSavable (set_content content e)
unfolding is_hard_link
content-IsSavable content e small s =
    let t : IsStorable (clear_inode e) = s.storable in
    record {
      storable = record {
        magic = t.magic;
        namesize = t.namesize;
        filesize = refl;
        ino_u32 = t.ino_u32;
        mode_u32 = t.mode_u32;
        uid_u32 = t.uid_u32;
        gid_u32 = t.gid_u32;
        nlink_u32 = t.nlink_u32;
        mtime_u32 = t.mtime_u32;
        filesize_u32 = small;
        dev_maj_u32 = t.dev_maj_u32;
        dev_min_u32 = t.dev_min_u32;
        rdev_maj_u32 = t.rdev_maj_u32;
        rdev_min_u32 = t.rdev_min_u32;
        namesize_u32 = t.namesize_u32;
        chksum_u32 = t.chksum_u32;
      };
      not_trailer = s.not_trailer;
      format = s.format;
      has_format = s.has_format;
      no_hard_link = s.no_hard_link;
    }

replaced-IsSavable :
    (content : Bytes) (front : List CpioEntry) (e : CpioEntry) (back : List CpioEntry)
    → length content < 2 ^ 32
    → All IsSavable (front ++ (e ∷ back))
    → All IsSavable (front ++ (set_content content e ∷ back))
replaced-IsSavable content [] e back small (s, ss) = (content-IsSavable content e small s, ss)
replaced-IsSavable content (x ∷ xs) e back small (s, ss) =
    (s, replaced-IsSavable content xs e back small ss)

length-replaced :
    (content : Bytes) (front : List CpioEntry) (e : CpioEntry) (back : List CpioEntry)
    → length (front ++ (set_content content e ∷ back)) ≡ length (front ++ (e ∷ back))
length-replaced content [] e back = refl
length-replaced content (x ∷ xs) e back = ap suc (length-replaced content xs e back)

module _ (zip : Gzip) (lz4 : Lz4Block) where
  -- A ramdisk whose entries can be saved again.
  pub record IsLoaded (r : Bytes) : Type 0 where
    pub entries : List CpioEntry
    pub format : Format
    pub loads : load_ramdisk zip lz4 r ≡ ok (entries, some format)
    pub savable : All IsSavable entries
    pub room : first_inode + length entries < 2 ^ 32

  abbrev pub has_otacerts : (rs : List Bytes) → All IsLoaded rs → Bool
  has_otacerts [] ls = false
  has_otacerts (r ∷ rs) (l, ls) = has_path l.entries || has_otacerts rs ls

  module _ (otacerts_zip : Bytes) where
    -- A ramdisk without the entry is as it was; in another one the first such entry has the new
    -- content, in the same format.
    abbrev pub IsPatched : (r : Bytes) → IsLoaded r → Bytes → Type 0
    IsPatched r l new =
        (HasNoPath l.entries × (new ≡ r))
        ⊎ ((front : List CpioEntry) × (e : CpioEntry) × (back : List CpioEntry) × Splits l.entries
              front e back
            × (load_ramdisk zip lz4 new
                ≡ ok (
                  map clear_inode (sort_entries (front ++ (set_content otacerts_zip e ∷ back))),
                  some l.format,
                )))

    abbrev pub ArePatched : (rs : List Bytes) → All IsLoaded rs → List Bytes → Type 0
    ArePatched [] ls [] = Unit
    ArePatched [] ls (n ∷ ns) = ⊥
    ArePatched (r ∷ rs) ls [] = ⊥
    ArePatched (r ∷ rs) (l, ls) (n ∷ ns) = IsPatched r l n × ArePatched rs ls ns

    patch_ramdisk-found :
        (r : Bytes) (l : IsLoaded r)
        → length otacerts_zip < 2 ^ 32
        → has_path l.entries ≡ true
        → (new : Bytes) × (patch_ramdisk zip lz4 otacerts_zip r ≡ ok (new, true))
          × IsPatched r l new
    unfolding patch_ramdisk
    patch_ramdisk-found r l small h =
        let (front, e, back, (cut, named, before), replaced) =
          replace-found otacerts_zip l.entries h in
        let savable' : All IsSavable (front ++ (set_content otacerts_zip e ∷ back)) =
          replaced-IsSavable otacerts_zip front e back small (rw (← cut) l.savable) in
        let (new, saved, again) =
          load_ramdisk-save_ramdisk zip lz4 (front ++ (set_content otacerts_zip e ∷ back)) l.format
            savable' (rw (length-replaced otacerts_zip front e back, ← cut) l.room) in
        (new, rw (l.loads, replaced, saved) refl, inr (front, e, back, (cut, named, before), again))

    patch_ramdisk-missing :
        (r : Bytes) (l : IsLoaded r)
        → has_path l.entries ≡ false
        → patch_ramdisk zip lz4 otacerts_zip r ≡ ok (r, false)
    unfolding patch_ramdisk
    patch_ramdisk-missing r l h = rw (l.loads, replace-missing otacerts_zip l.entries h) refl

    patch_ramdisk_lem :
        (r : Bytes) (l : IsLoaded r)
        → length otacerts_zip < 2 ^ 32
        → (new : Bytes) × (patch_ramdisk zip lz4 otacerts_zip r ≡ ok (new, has_path l.entries))
          × IsPatched r l new
    patch_ramdisk_lem r l small = elim (Bool-cases (has_path l.entries)) [
      | inl h ↦ rw h (patch_ramdisk-found r l small h)
      | inr h ↦ rw h (r, patch_ramdisk-missing r l h, inl (no_path-HasNoPath l.entries h, refl))
    ]

    patch_ramdisks_lem :
        (rs : List Bytes) (ls : All IsLoaded rs)
        → length otacerts_zip < 2 ^ 32
        → (news : List Bytes) × (patch_ramdisks zip lz4 otacerts_zip rs
            ≡ ok (news, has_otacerts rs ls))
          × ArePatched rs ls news
    unfolding patch_ramdisks
    patch_ramdisks_lem [] ls small = ([], refl, tt)
    patch_ramdisks_lem (r ∷ rs) (l, ls) small =
        let (new, done, p) = patch_ramdisk_lem r l small in
        let (news, rest, ps) = patch_ramdisks_lem rs ls small in
        (new ∷ news, rw (done, rest) refl, (p, ps))

    -- For an image whose ramdisks load and hold entries that can be saved again, and a new
    -- otacerts.zip of fewer than 2^32 bytes, `OtaCertPatch.patch` leaves each ramdisk without the
    -- entry as it was, gives the first such entry of each other ramdisk the new content, keeps the
    -- format and the other entries (sorted by name, inode numbers cleared), and returns the image with
    -- these ramdisks; it raises if no ramdisk has the entry.
    pub patch_certs_lem :
        (image : BootImage) (ls : All IsLoaded (ramdisks_of image))
        → length otacerts_zip < 2 ^ 32
        → (news : List Bytes) × ArePatched (ramdisks_of image) ls news
          × (patch zip lz4 otacerts_zip image ≡ (
              if has_otacerts (ramdisks_of image) ls
              then ok (with_ramdisks news image)
              else err exception))
    unfolding patch
    patch_certs_lem image ls small =
        let (news, done, ps) = patch_ramdisks_lem (ramdisks_of image) ls small in
        (news, ps, rw done refl)

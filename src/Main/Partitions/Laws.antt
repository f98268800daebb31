-- ===== src/Main/Partitions/Laws.antt =====
-- What the required images are.
use avbroot.Prelude.{
  or_true, ◌≡◌, inl, inr, refl, sym, ap, ◌∙◌, Bool, true, false, ◌||◌, some, List, [], ◌∷◌, ◌++◌,
  append-nil, All, Bool-cases, Option-cases,
}
use avbroot.Prelude.Text.{codes, bytes_eq, bytes_eq_self, bytes_eq→eq}
use avbroot.Prelude.Dict.{elem, lookup}
use avbroot.Result.{ok}
use avbroot.Stream.{Bytes}
use avbroot.Main.Partitions.{
  partition_priorities, set_of, find_candidate, contains_text, vbmeta_prefix, vbmeta_types,
  types_loop, get_partitions_by_type, select_required, rootpatch, root_image, get_required_images,
}

-- The vbmeta partitions, each under its own type.
vbmeta-required : (ps : List Bytes) → select_required (vbmeta_types ps) ≡ vbmeta_types ps
unfolding select_required vbmeta_types bytes_eq
vbmeta-required [] = refl
vbmeta-required (p ∷ ps) = elim (Bool-cases (contains_text (codes "vbmeta") p)) [
  | inl e ↦ rw (e, vbmeta-required ps) refl
  | inr e ↦ rw e (vbmeta-required ps)
]

some_same : {p q : Bytes} → some p ≡ some q → p ≡ q
some_same h = cc

set_of-elem : (p : Bytes) (ps : List Bytes) → elem p (set_of ps) ≡ elem p ps
unfolding set_of
set_of-elem p [] = refl
set_of-elem p (q ∷ ps) = elim (Bool-cases (elem q (set_of ps))) [
  | inl seen ↦ elim (Bool-cases (bytes_eq q p)) [
    | inl e ↦
        let there : elem p (set_of ps) ≡ true =
          ap (λ t. elem t (set_of ps)) (sym (bytes_eq→eq q p e)) ∙ seen in
        rw (seen, there, e) refl
    | inr e ↦ rw (seen, e) (set_of-elem p ps)
  ]
  | inr new ↦ rw new (ap (λ b. bytes_eq q p || b) (set_of-elem p ps))
]

abbrev pub AreIn : List Bytes → List (Bytes × Bytes) → Type 0
AreIn all images = All (λ (k, v). elem v all ≡ true) images

candidate-IsIn :
    (all candidates : List Bytes) (p : Bytes)
    → find_candidate all candidates ≡ some p
    → elem p all ≡ true
unfolding find_candidate
candidate-IsIn all [] p h = cc
candidate-IsIn all (c ∷ cs) p h = elim (Bool-cases (elem c all)) [
  | inl e ↦
      let same : c ≡ p = some_same (sym (rw e refl) ∙ h) in ap (λ t. elem t all) (sym same) ∙ e
  | inr e ↦ candidate-IsIn all cs p (sym (rw e refl) ∙ h)
]

AreIn-behind :
    (all : List Bytes) (q : Bytes) (images : List (Bytes × Bytes))
    → AreIn all images
    → AreIn (q ∷ all) images
AreIn-behind all q [] h = tt
AreIn-behind all q ((k, v) ∷ images) (h, hs) =
    (rw h (or_true (bytes_eq q v)), AreIn-behind all q images hs)

vbmeta-AreIn : (ps : List Bytes) → AreIn ps (vbmeta_types ps)
unfolding vbmeta_types
vbmeta-AreIn [] = tt
vbmeta-AreIn (p ∷ ps) = elim (Bool-cases (contains_text (codes "vbmeta") p)) [
  | inl e ↦ rw e (rw (bytes_eq_self p) refl, AreIn-behind ps p (vbmeta_types ps) (vbmeta-AreIn ps))
  | inr e ↦ rw e (AreIn-behind ps p (vbmeta_types ps) (vbmeta-AreIn ps))
]

lookup-IsIn :
    (all : List Bytes) (k v : Bytes) (images : List (Bytes × Bytes))
    → AreIn all images
    → lookup k images ≡ some v
    → elem v all ≡ true
lookup-IsIn all k v [] a h = cc
lookup-IsIn all k v ((l, w) ∷ images) (a, more) h = elim (Bool-cases (bytes_eq l k)) [
  | inl e ↦
      let same : w ≡ v = some_same (sym (rw e refl) ∙ h) in ap (λ t. elem t all) (sym same) ∙ a
  | inr e ↦ lookup-IsIn all k v images more (sym (rw e refl) ∙ h)
]

root-IsIn :
    (all : List Bytes) (by_type : List (Bytes × Bytes)) (boot_partition : Bytes)
    → AreIn all by_type
    → elem boot_partition all ≡ true
    → (r : Bytes) × (root_image all by_type boot_partition ≡ ok r) × (elem r all ≡ true)
unfolding root_image
root-IsIn all by_type boot_partition a h = elim (Option-cases (lookup boot_partition by_type)) [
  | inl e ↦ (boot_partition, rw (e, h) refl, h)
  | inr (p, e) ↦ (p, rw e refl, lookup-IsIn all boot_partition p by_type a e)
]

lookup-prefixed :
    (p : Bytes) (ps : List Bytes)
    → elem p ps ≡ true
    → contains_text (codes "vbmeta") p ≡ true
    → lookup (vbmeta_prefix ++ p) (vbmeta_types ps) ≡ some p
unfolding vbmeta_types bytes_eq
lookup-prefixed p [] h c = cc
lookup-prefixed p (q ∷ ps) h c = elim (Bool-cases (bytes_eq q p)) [
  | inl e ↦
      let same : q ≡ p = bytes_eq→eq q p e in
      let c' : contains_text (codes "vbmeta") q ≡ true =
        ap (contains_text (codes "vbmeta")) same ∙ c in
      rw (c', e) (ap some same)
  | inr e ↦
      let h' : elem p ps ≡ true = ap (λ b. b || elem p ps) (sym e) ∙ h in
      elim (Bool-cases (contains_text (codes "vbmeta") q)) [
        | inl d ↦ rw (d, e) (lookup-prefixed p ps h' c)
        | inr d ↦ rw d (lookup-prefixed p ps h' c)
      ]
]

lookup-append :
    (k : Bytes) (xs ys : List (Bytes × Bytes)) (v : Bytes)
    → lookup k xs ≡ some v
    → lookup k (xs ++ ys) ≡ some v
lookup-append k [] ys v h = cc
lookup-append k ((l, w) ∷ xs) ys v h = elim (Bool-cases (bytes_eq l k)) [
  | inl e ↦ rw e (sym (rw e refl) ∙ h)
  | inr e ↦ rw e (lookup-append k xs ys v (sym (rw e refl) ∙ h))
]

AreIn-append :
    (all : List Bytes) (xs ys : List (Bytes × Bytes))
    → AreIn all xs
    → AreIn all ys
    → AreIn all (xs ++ ys)
AreIn-append all [] ys h g = g
AreIn-append all (x ∷ xs) ys (h, hs) g = (h, AreIn-append all xs ys hs g)

AreIn-set_of :
    (ps : List Bytes) (images : List (Bytes × Bytes)) → AreIn (set_of ps) images → AreIn ps images
AreIn-set_of ps [] h = tt
AreIn-set_of ps ((k, v) ∷ images) (h, hs) = (sym (set_of-elem v ps) ∙ h, AreIn-set_of ps images hs)

abbrev AreCandidates : List Bytes → Bytes → Bytes → Bytes → Type 0
AreCandidates all kernel ramdisk otacerts =
    (find_candidate all (codes "boot" ∷ []) ≡ some kernel)
    × (find_candidate all (codes "init_boot" ∷ codes "boot" ∷ []) ≡ some ramdisk)
    × (find_candidate all (codes "recovery" ∷ codes "vendor_boot" ∷ codes "boot" ∷ [])
        ≡ some otacerts)

types_lem :
    (all : List Bytes) (kernel ramdisk otacerts : Bytes)
    → AreCandidates all kernel ramdisk otacerts
    → types_loop all partition_priorities
      ≡ ok (
          (codes "@gki_kernel", kernel)
          ∷ (codes "@gki_ramdisk", ramdisk)
          ∷ (codes "@otacerts", otacerts)
          ∷ vbmeta_types all)
unfolding types_loop
types_lem all kernel ramdisk otacerts (k, r, o) = rw (k, r, o) refl

selected :
    (all : List Bytes) (kernel ramdisk otacerts : Bytes)
    → select_required (
        (codes "@gki_kernel", kernel)
        ∷ (codes "@gki_ramdisk", ramdisk)
        ∷ (codes "@otacerts", otacerts)
        ∷ vbmeta_types all)
      ≡ (codes "@otacerts", otacerts) ∷ vbmeta_types all
unfolding select_required bytes_eq
selected all kernel ramdisk otacerts = rw (vbmeta-required all) refl

-- The images hold the otacerts partition, every vbmeta partition, and partitions of the manifest only.
abbrev pub AreRequired : List Bytes → Bytes → List (Bytes × Bytes) → Type 0
AreRequired partitions otacerts images =
    AreIn partitions images
    × (lookup (codes "@otacerts") images ≡ some otacerts)
    × ((p : Bytes)
        → elem p partitions ≡ true
        → contains_text (codes "vbmeta") p ≡ true
        → lookup (vbmeta_prefix ++ p) images ≡ some p)

required_front :
    (partitions : List Bytes) (otacerts : Bytes) (more : List (Bytes × Bytes))
    → elem otacerts (set_of partitions) ≡ true
    → AreIn (set_of partitions) more
    → AreRequired partitions otacerts
        (((codes "@otacerts", otacerts) ∷ vbmeta_types (set_of partitions)) ++ more)
unfolding bytes_eq
required_front partitions otacerts more h a =
    let all = set_of partitions in
    (
      AreIn-set_of partitions (((codes "@otacerts", otacerts) ∷ vbmeta_types all) ++ more)
          (h, AreIn-append all (vbmeta_types all) more (vbmeta-AreIn all) a),
      refl,
      λ p g c.
          lookup-append (vbmeta_prefix ++ p) (vbmeta_types all) more p
            (lookup-prefixed p all (set_of-elem p partitions ∙ g) c),
    )

-- If the manifest has a candidate for each of the three types and the boot partition,
-- `get_required_images` returns images that are partitions of the manifest, with the first
-- candidate for the OTA certificates and every partition with vbmeta in its name, each under its
-- own type.
pub get_required_images_lem :
    (partitions : List Bytes) (boot_partition : Bytes) (with_root : Bool)
    (kernel ramdisk otacerts : Bytes)
    → find_candidate (set_of partitions) (codes "boot" ∷ []) ≡ some kernel
    → find_candidate (set_of partitions) (codes "init_boot" ∷ codes "boot" ∷ []) ≡ some ramdisk
    → find_candidate
        (set_of partitions)
        (codes "recovery" ∷ codes "vendor_boot" ∷ codes "boot" ∷ [])
      ≡ some otacerts
    → elem boot_partition partitions ≡ true
    → (images : List (Bytes × Bytes)) × (get_required_images partitions boot_partition with_root
        ≡ ok images)
      × AreRequired partitions otacerts images
unfolding get_required_images get_partitions_by_type
get_required_images_lem partitions boot_partition false kernel ramdisk otacerts k r o b =
    let all = set_of partitions in
    (
      ((codes "@otacerts", otacerts) ∷ vbmeta_types all) ++ [],
      rw (types_lem all kernel ramdisk otacerts (k, r, o), selected all kernel ramdisk otacerts)
          (ap ok (sym (append-nil ((codes "@otacerts", otacerts) ∷ vbmeta_types all)))),
      required_front partitions otacerts [] (candidate-IsIn all _ otacerts o) tt,
    )
get_required_images_lem partitions boot_partition true kernel ramdisk otacerts k r o b =
    let all = set_of partitions in
    let by_type =
      (codes "@gki_kernel", kernel)
      ∷ (codes "@gki_ramdisk", ramdisk)
      ∷ (codes "@otacerts", otacerts)
      ∷ vbmeta_types all in
    let types_in : AreIn all by_type = (
      candidate-IsIn all _ kernel k,
      (candidate-IsIn all _ ramdisk r, (candidate-IsIn all _ otacerts o, vbmeta-AreIn all)),
    ) in
    let (root, found, there) =
      root-IsIn all by_type boot_partition types_in (set_of-elem boot_partition partitions ∙ b) in
    (
      ((codes "@otacerts", otacerts) ∷ vbmeta_types all) ++ ((rootpatch, root) ∷ []),
      rw
          (
            types_lem all kernel ramdisk otacerts (k, r, o),
            selected all kernel ramdisk otacerts,
            found,
          )
          refl,
      required_front partitions otacerts ((rootpatch, root) ∷ []) (candidate-IsIn all _ otacerts o)
          (there, tt),
    )

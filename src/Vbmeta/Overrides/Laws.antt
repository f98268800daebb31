-- ===== src/Vbmeta/Overrides/Laws.antt =====
-- Which override each of the images has.
use avbroot.Prelude.{
  ◌≡◌, ◌⊎◌, ◌+◌, take, drop, inl, inr, refl, sym, ap, ◌∙◌, true, false, ◌==◌, none, some, List, [],
  ◌∷◌, ◌++◌, All, Bool-cases, or_true, or_left, or_right, if◌then◌else◌,
}
use avbroot.Prelude.Text.{bytes_eq, bytes_eq→eq, bytes_eq_self}
use avbroot.Prelude.Dict.{elem, AreDistinct, lookup}
use avbroot.Result.{ok}
use avbroot.Stream.{Bytes}
use avbroot.Vbmeta.{Descriptor, chain_partition, hash, hashtree, other, Image, Avb}
use avbroot.Vbmeta.Overrides.{
  Overrides, describes, find_descriptor, public_key_of, add_override, overrides_loop,
  get_descriptor_overrides,
}

abbrev pub names {ℓ} : {A : Type ℓ} → List (Bytes × A) → List Bytes
names [] = []
names ((n, a) ∷ xs) = n ∷ names xs

lookup-other {ℓ} :
    {A : Type ℓ} (n m : Bytes) (a : A) (xs : List (Bytes × A))
    → bytes_eq m n ≡ false
    → lookup n (xs ++ ((m, a) ∷ [])) ≡ lookup n xs
lookup-other n m a [] h = rw h refl
lookup-other n m a ((k, b) ∷ xs) h =
    ap (λ t. if bytes_eq k n then some b else t) (lookup-other n m a xs h)

lookup-added {ℓ} :
    {A : Type ℓ} (n : Bytes) (a : A) (xs : List (Bytes × A))
    → lookup n xs ≡ none
    → lookup n (xs ++ ((n, a) ∷ [])) ≡ some a
lookup-added n a [] h = rw (bytes_eq_self n) refl
lookup-added n a ((k, b) ∷ xs) h = elim (Bool-cases (bytes_eq k n)) [
  | inl e ↦ absurd (let bad : some b ≡ none = sym (rw e refl) ∙ h in cc)
  | inr e ↦ rw e (lookup-added n a xs (sym (rw e refl) ∙ h))
]

-- Neither a key nor a descriptor.
abbrev pub HasNone : List (Bytes × Bytes) → List (Bytes × Descriptor) → Bytes → Type 0
HasNone keys descriptors n = (lookup n keys ≡ none) × (lookup n descriptors ≡ none)

abbrev Same : Overrides → Overrides → Bytes → Type 0
Same (keys, descriptors) (keys', descriptors') n =
    (lookup n keys' ≡ lookup n keys) × (lookup n descriptors' ≡ lookup n descriptors)

elem_other :
    (n m : Bytes) (ns : List Bytes) → elem n ns ≡ false → elem m ns ≡ true → bytes_eq n m ≡ false
elem_other n m ns h g = elim (Bool-cases (bytes_eq n m)) [
  | inl e ↦
      absurd (let bad : true ≡ false = sym (ap (λ t. elem t ns) (bytes_eq→eq n m e) ∙ g) ∙ h in cc)
  | inr e ↦ e
]

-- A hash or hashtree descriptor of the partition.
abbrev pub IsOf : Bytes → Descriptor → Type 0
IsOf name (chain_partition n key rest) = ⊥
IsOf name (hash n rest) = n ≡ name
IsOf name (hashtree n rest) = n ≡ name
IsOf name (other rest) = ⊥

-- The first descriptor of the partition.
abbrev pub IsFirst : Bytes → List Descriptor → Descriptor → Type 0
IsFirst name ds d =
    (front : List Descriptor) × (back : List Descriptor) × (ds ≡ front ++ (d ∷ back))
    × IsOf name d
    × All (λ e. ¬ IsOf name e) front

IsOf-describes : (name : Bytes) (d : Descriptor) → IsOf name d → describes name d ≡ true
IsOf-describes name (chain_partition n key rest) h = absurd h
IsOf-describes name (hash n rest) h = ap (λ t. bytes_eq t name) h ∙ bytes_eq_self name
IsOf-describes name (hashtree n rest) h = ap (λ t. bytes_eq t name) h ∙ bytes_eq_self name
IsOf-describes name (other rest) h = absurd h

describes-IsOf : (name : Bytes) (d : Descriptor) → describes name d ≡ true → IsOf name d
describes-IsOf name (chain_partition n key rest) h = cc
describes-IsOf name (hash n rest) h = bytes_eq→eq n name h
describes-IsOf name (hashtree n rest) h = bytes_eq→eq n name h
describes-IsOf name (other rest) h = cc

find-front :
    (name : Bytes) (front back : List Descriptor) (d : Descriptor)
    → IsOf name d
    → All (λ e. ¬ IsOf name e) front
    → find_descriptor name (front ++ (d ∷ back)) ≡ some d
unfolding find_descriptor
find-front name [] back d h none_before = rw (IsOf-describes name d h) refl
find-front name (e ∷ front) back d h (not_e, none_before) = elim (Bool-cases (describes name e)) [
  | inl same ↦ absurd (not_e (describes-IsOf name e same))
  | inr other_one ↦ rw other_one (find-front name front back d h none_before)
]

find-IsFirst :
    (name : Bytes) (ds : List Descriptor) (d : Descriptor)
    → IsFirst name ds d
    → find_descriptor name ds ≡ some d
find-IsFirst name ds d (front, back, split, h, none_before) =
    ap (find_descriptor name) split ∙ find-front name front back d h none_before

module _ {Location : Type 0} (avb : Avb Location) where
  -- The image parses, and is signed or describes itself.
  abbrev pub IsOverridable : Bytes × Location → Type 0
  IsOverridable (name, path) =
      (image : Image) × (avb.parse_image path ≡ ok image)
      × (((image.header.public_key_size == 0) ≡ false)
          ⊎ (((image.header.public_key_size == 0) ≡ true)
              × ((d : Descriptor) × IsFirst name image.descriptors d)))

  -- A signed image has its public key, which stands behind the header and the authentication block, for
  -- override, another one the descriptor of itself, and no image
  -- has both.
  abbrev pub HasOverride :
      List (Bytes × Bytes) → List (Bytes × Descriptor) → Bytes × Location → Type 0
  HasOverride keys descriptors (name, path) =
      (image : Image) × (avb.parse_image path ≡ ok image)
      × ((((image.header.public_key_size == 0) ≡ false)
            × (lookup name keys
                ≡ some (
                    take image.header.public_key_size (
                      drop
                        (avb.header_size + image.header.authentication_data_block_size
                          + image.header.public_key_offset)
                        image.vbmeta_blob)))
            × (lookup name descriptors ≡ none))
          ⊎ (((image.header.public_key_size == 0) ≡ true)
              × (lookup name keys ≡ none)
              × ((d : Descriptor) × IsFirst name image.descriptors d
                  × (lookup name descriptors ≡ some d))))

  add_key :
      (name : Bytes) (image : Image) (keys : List (Bytes × Bytes))
      (descriptors : List (Bytes × Descriptor))
      → (image.header.public_key_size == 0) ≡ false
      → add_override avb name image (keys, descriptors)
        ≡ ok (keys ++ ((name, public_key_of avb image) ∷ []), descriptors)
  unfolding add_override
  add_key name image keys descriptors h = rw h refl

  add_own :
      (name : Bytes) (image : Image) (d : Descriptor) (keys : List (Bytes × Bytes))
      (descriptors : List (Bytes × Descriptor))
      → (image.header.public_key_size == 0) ≡ true
      → find_descriptor name image.descriptors ≡ some d
      → add_override avb name image (keys, descriptors) ≡ ok (keys, descriptors ++ ((name, d) ∷ []))
  unfolding add_override
  add_own name image d keys descriptors h found = rw (h, found) refl

  loop_lem :
      (images : List (Bytes × Location)) (keys : List (Bytes × Bytes))
      (descriptors : List (Bytes × Descriptor))
      → AreDistinct (names images)
      → All IsOverridable images
      → ((n : Bytes) → elem n (names images) ≡ true → HasNone keys descriptors n)
      → (keys' : List (Bytes × Bytes)) × (descriptors' : List (Bytes × Descriptor))
        × (overrides_loop avb images (keys, descriptors) ≡ ok (keys', descriptors'))
        × ((n : Bytes)
            → elem n (names images) ≡ false
            → Same (keys, descriptors) (keys', descriptors') n)
        × All (HasOverride keys' descriptors') images
  unfolding overrides_loop
  loop_lem [] keys descriptors d os free = (keys, descriptors, refl, (λ n h. (refl, refl)), tt)
  loop_lem ((name, path) ∷ images) keys descriptors (d, ds) ((image, parsed, inl signed), os) free =
      let (no_key, no_descriptor) = free name (rw (bytes_eq_self name) refl) in
      let key = public_key_of avb image in
      let free' : (n : Bytes)
          → elem n (names images) ≡ true
          → HasNone (keys ++ ((name, key) ∷ [])) descriptors n =
        λ n h.
          let (k, e) = free n (rw h (or_true (bytes_eq name n))) in
          (lookup-other n name key keys (elem_other name n (names images) d h) ∙ k, e) in
      let (keys', descriptors', done, same, all) =
        loop_lem images (keys ++ ((name, key) ∷ [])) descriptors ds os free' in
      let (same_key, same_descriptor) = same name d in
      (
        keys',
        descriptors',
        rw (parsed, no_key, no_descriptor, add_key name image keys descriptors signed) done,
        (λ n h.
            let (k, e) = same n (or_right (bytes_eq name n) (elem n (names images)) h) in
            (
              k
                  ∙ lookup-other n name key keys
                      (or_left (bytes_eq name n) (elem n (names images)) h),
              e,
            )),
        (
          (
            image,
            parsed,
            inl (
              signed,
              same_key ∙ lookup-added name key keys no_key,
              same_descriptor ∙ no_descriptor,
            ),
          ),
          all,
        ),
      )
  loop_lem ((name, path) ∷ images) keys descriptors (d, ds)
        ((image, parsed, inr (unsigned, (own, found))), os) free =
      let (no_key, no_descriptor) = free name (rw (bytes_eq_self name) refl) in
      let free' : (n : Bytes)
          → elem n (names images) ≡ true
          → HasNone keys (descriptors ++ ((name, own) ∷ [])) n =
        λ n h.
          let (k, e) = free n (rw h (or_true (bytes_eq name n))) in
          (k, lookup-other n name own descriptors (elem_other name n (names images) d h) ∙ e) in
      let (keys', descriptors', done, same, all) =
        loop_lem images keys (descriptors ++ ((name, own) ∷ [])) ds os free' in
      let (same_key, same_descriptor) = same name d in
      (
        keys',
        descriptors',
        rw
            (
              parsed,
              no_key,
              no_descriptor,
              add_own name image own keys descriptors unsigned
                  (find-IsFirst name image.descriptors own found),
            )
            done,
        (λ n h.
            let (k, e) = same n (or_right (bytes_eq name n) (elem n (names images)) h) in
            (
              k,
              e
                  ∙ lookup-other n name own descriptors
                      (or_left (bytes_eq name n) (elem n (names images)) h),
            )),
        (
          (
            image,
            parsed,
            inr (
              unsigned,
              same_key ∙ no_key,
              (own, found, same_descriptor ∙ lookup-added name own descriptors no_descriptor),
            ),
          ),
          all,
        ),
      )

  -- For images of distinct names that all parse, each signed or with a hash or hashtree descriptor
  -- of its name, `_get_descriptor_overrides` returns for each signed image the bytes of its public
  -- key, which stand in the vbmeta blob behind the header and the authentication block at the key's
  -- offset, and for each other one the first hash or hashtree descriptor of its name, for no image
  -- both, and nothing for any other name.
  pub get_descriptor_overrides_lem :
      (images : List (Bytes × Location))
      → AreDistinct (names images)
      → All IsOverridable images
      → (keys : List (Bytes × Bytes)) × (descriptors : List (Bytes × Descriptor))
        × (get_descriptor_overrides avb images ≡ ok (keys, descriptors))
        × ((n : Bytes) → elem n (names images) ≡ false → HasNone keys descriptors n)
        × All (HasOverride keys descriptors) images
  unfolding get_descriptor_overrides
  get_descriptor_overrides_lem images d os = loop_lem images [] [] d os (λ n h. (refl, refl))

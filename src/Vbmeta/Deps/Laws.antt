-- ===== src/Vbmeta/Deps/Laws.antt =====
-- The graph has an entry for everything that it refers to.
use avbroot.Prelude.{
  or_true, ◌≡◌, refl, sym, ap, ◌∙◌, inl, inr, true, ◌||◌, none, some, Option, List, [], ◌∷◌, ◌++◌,
  All, Bool-cases,
}
use avbroot.Prelude.Text.{bytes_eq, bytes_eq_self}
use avbroot.Prelude.Dict.{elem}
use avbroot.Result.{ok}
use avbroot.Stream.{Bytes}
use avbroot.Vbmeta.{Descriptor, Image, Avb}
use avbroot.Vbmeta.Deps.{
  Graph, set_default, add_name, add_dep, refers_to, add_reference, add_descriptors, deps_loop,
  get_vbmeta_deps,
}

abbrev pub names {ℓ} : {A : Type ℓ} → List (Bytes × A) → List Bytes
names [] = []
names ((n, a) ∷ xs) = n ∷ names xs

abbrev pub HasName {ℓ} : {A : Type ℓ} → List (Bytes × A) → Bytes → Type 0
HasName xs n = elem n (names xs) ≡ true

-- Everything that the entries of `g` refer to has an entry in `whole`.
abbrev pub IsClosedIn : Graph → Graph → Type 0
IsClosedIn whole g = All (λ (n, ds). All (HasName whole) ds) g

HasName-behind :
    {A : Type 0} (x m : Bytes) (a : A) (xs : List (Bytes × A))
    → HasName xs x
    → HasName ((m, a) ∷ xs) x
HasName-behind x m a xs h = rw h (or_true (bytes_eq m x))

-- A name stays, when the entries behind the first keep theirs.
cons_keeps :
    (x n : Bytes) (ds es : List Bytes) (g h : Graph)
    → (HasName g x → HasName h x)
    → HasName ((n, ds) ∷ g) x
    → HasName ((n, es) ∷ h) x
cons_keeps x n ds es g h keep has = elim (Bool-cases (bytes_eq n x)) [
  | inl e ↦ rw e refl
  | inr e ↦ HasName-behind x n es h (keep (ap (λ b. b || elem x (names g)) (sym e) ∙ has))
]

set_default-keeps : (name x : Bytes) (g : Graph) → HasName g x → HasName (set_default name g) x
set_default-keeps name x [] h = cc
set_default-keeps name x ((n, ds) ∷ g) h = elim (Bool-cases (bytes_eq n name)) [
  | inl e ↦ rw e h
  | inr e ↦ rw e (cons_keeps x n ds ds g (set_default name g) (set_default-keeps name x g) h)
]

set_default-HasName : (name : Bytes) (g : Graph) → HasName (set_default name g) name
set_default-HasName name [] = rw (bytes_eq_self name) refl
set_default-HasName name ((n, ds) ∷ g) = elim (Bool-cases (bytes_eq n name)) [
  | inl e ↦ rw (e, e) refl
  | inr e ↦ rw e (HasName-behind name n ds (set_default name g) (set_default-HasName name g))
]

set_default-closed :
    (whole g : Graph) (name : Bytes) → IsClosedIn whole g → IsClosedIn whole (set_default name g)
set_default-closed whole [] name h = (tt, tt)
set_default-closed whole ((n, ds) ∷ g) name (h, hs) = elim (Bool-cases (bytes_eq n name)) [
  | inl e ↦ rw e (h, hs)
  | inr e ↦ rw e (h, set_default-closed whole g name hs)
]

add_dep-keeps : (name d x : Bytes) (g : Graph) → HasName g x → HasName (add_dep name d g) x
add_dep-keeps name d x [] h = h
add_dep-keeps name d x ((n, ds) ∷ g) h = elim (Bool-cases (bytes_eq n name)) [
  | inl e ↦ rw e h
  | inr e ↦ rw e (cons_keeps x n ds ds g (add_dep name d g) (add_dep-keeps name d x g) h)
]

All-behind :
    (P : Bytes → Type 0) (ds : List Bytes) (d : Bytes) → All P ds → P d → All P (ds ++ (d ∷ []))
All-behind P [] d ps p = (p, tt)
All-behind P (x ∷ xs) d (q, ps) p = (q, All-behind P xs d ps p)

add_name-closed :
    (whole : Graph) (ds : List Bytes) (d : Bytes)
    → All (HasName whole) ds
    → HasName whole d
    → All (HasName whole) (add_name d ds)
add_name-closed whole ds d hs h = elim (Bool-cases (elem d ds)) [
  | inl e ↦ rw e hs
  | inr e ↦ rw e (All-behind (HasName whole) ds d hs h)
]

add_dep-closed :
    (whole g : Graph) (name d : Bytes)
    → IsClosedIn whole g
    → HasName whole d
    → IsClosedIn whole (add_dep name d g)
add_dep-closed whole [] name d hs h = tt
add_dep-closed whole ((n, ds) ∷ g) name d (p, hs) h = elim (Bool-cases (bytes_eq n name)) [
  | inl e ↦ rw e (add_name-closed whole ds d p h, hs)
  | inr e ↦ rw e (p, add_dep-closed whole g name d hs h)
]

All-weaken :
    {P Q : Bytes → Type 0} → ((x : Bytes) → P x → Q x) → (ds : List Bytes) → All P ds → All Q ds
All-weaken f [] ps = tt
All-weaken f (d ∷ ds) (p, ps) = (f d p, All-weaken f ds ps)

closed_later :
    (g whole later : Graph)
    → ((x : Bytes) → HasName whole x → HasName later x)
    → IsClosedIn whole g
    → IsClosedIn later g
closed_later [] whole later keep h = tt
closed_later ((n, ds) ∷ g) whole later keep (h, hs) =
    (All-weaken keep ds h, closed_later g whole later keep hs)

abbrev pub IsClosed : Graph → Type 0
IsClosed g = IsClosedIn g g

set_default-IsClosed : (g : Graph) (name : Bytes) → IsClosed g → IsClosed (set_default name g)
set_default-IsClosed g name h =
    set_default-closed (set_default name g) g name
      (closed_later g g (set_default name g) (λ x. set_default-keeps name x g) h)

add_reference-IsClosed :
    (g : Graph) (name : Bytes) (r : Option Bytes) → IsClosed g → IsClosed (add_reference name r g)
add_reference-IsClosed g name none h = h
add_reference-IsClosed g name (some d) h =
    let after = set_default d (add_dep name d g) in
    let keep : (x : Bytes) → HasName g x → HasName after x =
      λ x has. set_default-keeps d x (add_dep name d g) (add_dep-keeps name d x g has) in
    set_default-closed after (add_dep name d g) d (
      add_dep-closed after g name d (closed_later g g after keep h)
        (set_default-HasName d (add_dep name d g)))

add_descriptors-IsClosed :
    (ds : List Descriptor) (g : Graph) (name : Bytes)
    → IsClosed g
    → IsClosed (add_descriptors name ds g)
unfolding add_descriptors
add_descriptors-IsClosed [] g name h = h
add_descriptors-IsClosed (d ∷ ds) g name h =
    add_descriptors-IsClosed ds (add_reference name (refers_to d) g) name
      (add_reference-IsClosed g name (refers_to d) h)

module _ {Location : Type 0} (avb : Avb Location) where
  abbrev pub IsParsed : Bytes × Location → Type 0
  IsParsed (name, path) = (image : Image) × (avb.parse_image path ≡ ok image)

  deps_loop-IsClosed :
      (images : List (Bytes × Location)) (g : Graph)
      → All IsParsed images
      → IsClosed g
      → (out : Graph) × (deps_loop avb images g ≡ ok out) × IsClosed out
  unfolding deps_loop
  deps_loop-IsClosed [] g ps h = (g, refl, h)
  deps_loop-IsClosed ((name, path) ∷ images) g ((image, parsed), ps) h =
      let next = add_descriptors name image.descriptors (set_default name g) in
      let (out, done, closed) = deps_loop-IsClosed images next ps (
        add_descriptors-IsClosed image.descriptors (set_default name g) name
          (set_default-IsClosed g name h)) in
      (out, rw parsed done, closed)

  -- For images that all parse, `get_vbmeta_deps` returns a graph that has an entry for every
  -- partition that one of its entries refers to.
  pub get_vbmeta_deps-IsClosed :
      (images : List (Bytes × Location))
      → All IsParsed images
      → (out : Graph) × (get_vbmeta_deps avb images ≡ ok out) × IsClosed out
  unfolding get_vbmeta_deps
  get_vbmeta_deps-IsClosed images ps = deps_loop-IsClosed images [] ps tt

-- ===== src/Main/Zip/Search.antt =====
-- The first loop of `patch_ota_zip`, and the swap behind it.
use avbroot.Prelude.{
  ℕ, suc, ◌+◌, ◌≡◌, inl, inr, refl, sym, ap, ◌∙◌, Bool, true, false, ◌&&◌, ◌||◌, List, [], ◌∷◌,
  ◌++◌, length, All, Bool-cases, or_true, arith,
}
use avbroot.Prelude.Text.{bytes_eq, bytes_eq_self, bytes_eq→eq}
use avbroot.Prelude.Dict.{elem, bytes_eq_sym}
use avbroot.Stream.{Bytes}
use avbroot.Main.Zip.{
  path_payload, path_properties, Info, remove_name, Scan, is_some, is_nil, is_done, scan_step,
  scan_loop,
}

-- Neither the payload nor its properties.
abbrev pub IsOther : Info → Type 0
IsOther i =
    (bytes_eq i.filename path_payload ≡ false) × (bytes_eq i.filename path_properties ≡ false)

abbrev pub filenames : List Info → List Bytes
filenames [] = []
filenames (i ∷ is) = i.filename ∷ filenames is

abbrev both : Scan → Bool
both s = is_some s.i_payload && is_some s.i_properties

pub and_false : (a : Bool) → (a && false) ≡ false
and_false true = refl
and_false false = refl

one_more : (i n : ℕ) → i + 1 + n ≡ i + suc n
one_more i n = omega arith

-- Other entries are passed over until both are found.
pub scan_loop-others :
    (i : ℕ) (xs rest : List Info) (s : Scan)
    → All IsOther xs
    → both s ≡ false
    → (m : List Bytes) × (scan_loop i (xs ++ rest) s
        ≡ scan_loop (i + length xs) rest (record s { missing = m }))
unfolding scan_loop
scan_loop-others i [] rest s os h =
    (s.missing, ap (λ k. scan_loop k rest s) (let e : i ≡ i + 0 = omega arith in e))
scan_loop-others i (x ∷ xs) rest s ((p, q), os) h =
    let left = remove_name x.filename s.missing in
    let (m, more) = scan_loop-others (i + 1) xs rest (record s { missing = left }) os h in
    (
      m,
      rw (p, q, h, and_false (is_nil left))
          (more ∙ ap (λ k. scan_loop k rest (record s { missing = m })) (one_more i (length xs))),
    )

-- They change no index.
pub scan_loop-same :
    (i : ℕ) (xs : List Info) (s : Scan)
    → All IsOther xs
    → (let r = scan_loop i xs s in (r.i_payload ≡ s.i_payload) × (r.i_properties ≡ s.i_properties))
unfolding scan_loop
scan_loop-same i [] s os = (refl, refl)
scan_loop-same i (x ∷ xs) s ((p, q), os) =
    let next = record s { missing = remove_name x.filename s.missing } in
    elim (Bool-cases (is_done next)) [
      | inl e ↦ rw (p, q, e) (refl, refl)
      | inr e ↦ rw (p, q, e) (scan_loop-same (i + 1) xs next os)
    ]

remove-elem :
    (n m : Bytes) (ms : List Bytes)
    → elem m (remove_name n ms) ≡ true
    → (elem m ms ≡ true) × (bytes_eq n m ≡ false)
unfolding remove_name
remove-elem n m [] h = cc
remove-elem n m (k ∷ ks) h = elim (Bool-cases (bytes_eq k n)) [
  | inl e ↦
      let (there, differ) = remove-elem n m ks (sym (rw e refl) ∙ h) in
      (rw there (or_true (bytes_eq k m)), differ)
  | inr e ↦ elim (Bool-cases (bytes_eq k m)) [
    | inl same ↦
        (rw same refl, bytes_eq_sym n m ∙ ap (λ t. bytes_eq t n) (sym (bytes_eq→eq k m same)) ∙ e)
    | inr differs ↦
        let (there, differ) = remove-elem n m ks (sym (rw (e, differs) refl) ∙ h) in
        (rw there (or_true (bytes_eq k m)), differ)
  ]
]

step-missing :
    (i : ℕ) (x : Info) (s : Scan)
    → (let r = scan_step i x s in r.missing) ≡ remove_name x.filename s.missing
step-missing i x s = elim (Bool-cases (bytes_eq x.filename path_payload)) [
  | inl p ↦ rw p refl
  | inr p ↦ elim (Bool-cases (bytes_eq x.filename path_properties)) [
    | inl q ↦ rw (p, q) refl
    | inr q ↦ rw (p, q) refl
  ]
]

and_left : (a b : Bool) → (a && b) ≡ true → a ≡ true
and_left true b h = refl
and_left false b h = cc

nothing : (ms : List Bytes) → ((m : Bytes) → elem m ms ≡ true → elem m [] ≡ true) → is_nil ms ≡ true
nothing [] h = refl
nothing (m ∷ ms) h = absurd (let bad : false ≡ true = h m (rw (bytes_eq_self m) refl) in cc)

-- Nothing is missing when every file that was missing is in the list.
pub scan_loop-finds :
    (i : ℕ) (xs : List Info) (s : Scan)
    → ((m : Bytes) → elem m s.missing ≡ true → elem m (filenames xs) ≡ true)
    → (let r = scan_loop i xs s in is_nil r.missing) ≡ true
unfolding scan_loop
scan_loop-finds i [] s h = nothing s.missing h
scan_loop-finds i (x ∷ xs) s h =
    let next = scan_step i x s in
    elim (Bool-cases (is_done next)) [
      | inl e ↦ rw e (and_left (is_nil next.missing) (both next) e)
      | inr e ↦
          let h' : (m : Bytes) → elem m next.missing ≡ true → elem m (filenames xs) ≡ true = λ m g.
            let (there, differ) =
              remove-elem x.filename m s.missing (ap (elem m) (sym (step-missing i x s)) ∙ g) in
            ap (λ b. b || elem m (filenames xs)) (sym differ) ∙ h m there in
          rw e (scan_loop-finds (i + 1) xs next h')
    ]

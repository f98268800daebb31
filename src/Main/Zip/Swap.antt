-- ===== src/Main/Zip/Swap.antt =====
-- Where `patch_ota_zip` finds the payload and its properties, and the order that it puts them in.
use avbroot.Prelude.{
  ℕ, ◌+◌, ◌≡◌, inl, inr, refl, sym, ap, ◌∙◌, Bool, true, false, none, some, List, [], ◌∷◌, ◌++◌,
  append_assoc, length, length-append, All, Bool-cases, ltb, arith,
}
use avbroot.Prelude.Text.{bytes_eq, bytes_eq_self}
use avbroot.Stream.{Bytes}
use avbroot.Main.Zip.{
  path_payload, path_properties, Info, required_files, remove_name, Scan, is_nil, is_done,
  scan_step, scan_loop, scan, at, put, swap, order_payload,
}
use avbroot.Main.Zip.Search.{IsOther, and_false, scan_loop-others, scan_loop-same}

properties_no_payload : bytes_eq path_properties path_payload ≡ false
unfolding bytes_eq
properties_no_payload = refl

-- The indices of a scan.
abbrev Finds : Scan → ℕ → ℕ → Type 0
Finds s i j = (s.i_payload ≡ some i) × (s.i_properties ≡ some j)

-- The last of the two is found, and whatever follows changes no index.
Finds-last :
    (k : ℕ) (x : Info) (xs : List Info) (s : Scan) (i j : ℕ)
    → All IsOther xs
    → Finds (scan_step k x s) i j
    → Finds (scan_loop k (x ∷ xs) s) i j
unfolding scan_loop
Finds-last k x xs s i j os (p, q) =
    let next = scan_step k x s in
    let (e, f) = scan_loop-same (k + 1) xs next os in
    elim (Bool-cases (is_done next)) [ inl d ↦ rw d (p, q) | inr d ↦ rw d (e ∙ p, f ∙ q) ]

plain : (n : ℕ) → 0 + n ≡ n
plain n = omega arith

-- The payload stands in front.
Finds-in_order :
    (xs ys zs : List Info) (p q : Info) (missing : List Bytes)
    → All IsOther xs
    → All IsOther ys
    → All IsOther zs
    → p.filename ≡ path_payload
    → q.filename ≡ path_properties
    → Finds
        (scan_loop 0
          (xs ++ (p ∷ (ys ++ (q ∷ zs))))
          (record { missing = missing; i_payload = none; i_properties = none }))
        (length xs)
        (length xs + 1 + length ys)
unfolding scan_loop
Finds-in_order xs ys zs p q missing ox oy oz ep eq =
    let is_p : bytes_eq p.filename path_payload ≡ true =
      ap (λ t. bytes_eq t path_payload) ep ∙ bytes_eq_self path_payload in
    let is_q : bytes_eq q.filename path_properties ≡ true =
      ap (λ t. bytes_eq t path_properties) eq ∙ bytes_eq_self path_properties in
    let not_p : bytes_eq q.filename path_payload ≡ false =
      ap (λ t. bytes_eq t path_payload) eq ∙ properties_no_payload in
    let (m, first) =
      scan_loop-others 0 xs (p ∷ (ys ++ (q ∷ zs)))
        (record { missing = missing; i_payload = none; i_properties = none }) ox refl in
    let left = remove_name p.filename m in
    let (n, second) =
      scan_loop-others (length xs + 1) ys (q ∷ zs)
        (record { missing = left; i_payload = some (length xs); i_properties = none }) oy refl in
    let last : Scan = record { missing = n; i_payload = some (length xs); i_properties = none } in
    rw (first, plain (length xs), is_p, and_false (is_nil left), second)
      (Finds-last (length xs + 1 + length ys) q zs last (length xs) (length xs + 1 + length ys) oz
        (rw (not_p, is_q) (refl, refl)))

-- The properties stand in front.
Finds-reversed :
    (xs ys zs : List Info) (p q : Info) (missing : List Bytes)
    → All IsOther xs
    → All IsOther ys
    → All IsOther zs
    → p.filename ≡ path_payload
    → q.filename ≡ path_properties
    → Finds
        (scan_loop 0
          (xs ++ (q ∷ (ys ++ (p ∷ zs))))
          (record { missing = missing; i_payload = none; i_properties = none }))
        (length xs + 1 + length ys)
        (length xs)
unfolding scan_loop
Finds-reversed xs ys zs p q missing ox oy oz ep eq =
    let is_p : bytes_eq p.filename path_payload ≡ true =
      ap (λ t. bytes_eq t path_payload) ep ∙ bytes_eq_self path_payload in
    let is_q : bytes_eq q.filename path_properties ≡ true =
      ap (λ t. bytes_eq t path_properties) eq ∙ bytes_eq_self path_properties in
    let not_p : bytes_eq q.filename path_payload ≡ false =
      ap (λ t. bytes_eq t path_payload) eq ∙ properties_no_payload in
    let (m, first) =
      scan_loop-others 0 xs (q ∷ (ys ++ (p ∷ zs)))
        (record { missing = missing; i_payload = none; i_properties = none }) ox refl in
    let left = remove_name q.filename m in
    let (n, second) =
      scan_loop-others (length xs + 1) ys (p ∷ zs)
        (record { missing = left; i_payload = none; i_properties = some (length xs) }) oy refl in
    let last : Scan = record { missing = n; i_payload = none; i_properties = some (length xs) } in
    rw (first, plain (length xs), not_p, is_q, and_false (is_nil left), second)
      (Finds-last (length xs + 1 + length ys) p zs last (length xs + 1 + length ys) (length xs) oz
        (rw is_p (refl, refl)))

at-front : (xs rest : List Info) (x d : Info) → at (length xs) d (xs ++ (x ∷ rest)) ≡ x
unfolding at
at-front [] rest x d = refl
at-front (y ∷ xs) rest x d = at-front xs rest x d

put-front :
    (xs rest : List Info) (x v : Info) → put (length xs) v (xs ++ (x ∷ rest)) ≡ xs ++ (v ∷ rest)
unfolding put
put-front [] rest x v = refl
put-front (y ∷ xs) rest x v = ap (λ t. y ∷ t) (put-front xs rest x v)

swap-some :
    (i j : ℕ) (xs rest : List Info) (x : Info)
    → (d : Info) × (let l = xs ++ (x ∷ rest) in swap i j l ≡ put j (at i d l) (put i (at j d l) l))
unfolding swap
swap-some i j [] rest x = (x, refl)
swap-some i j (y ∷ xs) rest x = (y, refl)

-- The entries with the payload in front are swapped from the other order.
swap_lem :
    (xs ys zs : List Info) (p q : Info)
    → swap (length xs + 1 + length ys) (length xs) (xs ++ (q ∷ (ys ++ (p ∷ zs))))
      ≡ xs ++ (p ∷ (ys ++ (q ∷ zs)))
swap_lem xs ys zs p q =
    let i = length xs + 1 + length ys in
    let front = xs ++ (q ∷ ys) in
    let n : length front ≡ i = omega (arith, length-append xs (q ∷ ys)) in
    let cut : (v : Info) → front ++ (v ∷ zs) ≡ xs ++ (q ∷ (ys ++ (v ∷ zs))) =
      λ v. append_assoc xs (q ∷ ys) (v ∷ zs) in
    let (d, e) = swap-some i (length xs) xs (ys ++ (p ∷ zs)) q in
    let l = xs ++ (q ∷ (ys ++ (p ∷ zs))) in
    let at_i : at i d l ≡ p =
      ap (λ k. at k d l) (sym n) ∙ ap (at (length front) d) (sym (cut p)) ∙ at-front front zs p d in
    let put_i : put i q l ≡ xs ++ (q ∷ (ys ++ (q ∷ zs))) =
      ap (λ k. put k q l) (sym n)
      ∙ ap (put (length front) q) (sym (cut p))
      ∙ put-front front zs p q
      ∙ cut q in
    e ∙ rw (at_i, at-front xs (ys ++ (p ∷ zs)) q d, put_i) (put-front xs (ys ++ (q ∷ zs)) q p)

-- The archive's entries, with the payload in front of its properties or behind them.
abbrev pub entries : Bool → List Info → List Info → List Info → Info → Info → List Info
entries false xs ys zs p q = xs ++ (p ∷ (ys ++ (q ∷ zs)))
entries true xs ys zs p q = xs ++ (q ∷ (ys ++ (p ∷ zs)))

not_before : (m n : ℕ) → ltb (m + 1 + n) m ≡ false
not_before m n = ground arith

before : (m n : ℕ) → ltb m (m + 1 + n) ≡ true
before m n = ground arith

pub order_payload_lem :
    (reversed : Bool) (xs ys zs : List Info) (p q : Info)
    → All IsOther xs
    → All IsOther ys
    → All IsOther zs
    → p.filename ≡ path_payload
    → q.filename ≡ path_properties
    → (let s = scan (entries reversed xs ys zs p q) in
        order_payload s.i_payload s.i_properties (entries reversed xs ys zs p q))
      ≡ entries false xs ys zs p q
order_payload_lem false xs ys zs p q ox oy oz ep eq =
    let (i, j) = Finds-in_order xs ys zs p q required_files ox oy oz ep eq in
    rw (i, j, not_before (length xs) (length ys)) refl
order_payload_lem true xs ys zs p q ox oy oz ep eq =
    let (i, j) = Finds-reversed xs ys zs p q required_files ox oy oz ep eq in
    rw (i, j, before (length xs) (length ys)) (swap_lem xs ys zs p q)

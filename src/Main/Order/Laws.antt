-- ===== src/Main/Order/Laws.antt =====
-- The images that are left to be patched.
use avbroot.Prelude.{
  ℕ, zero, suc, ◌≤◌, ◌<◌, ◌≡◌, inl, inr, refl, sym, ap, ◌∙◌, Bool, true, false, ◌&&◌, not, List, [],
  ◌∷◌, length, All, arith, Bool-cases,
}
use avbroot.Prelude.Text.{bytes_eq, bytes_eq→eq, bytes_eq_self}
use avbroot.Prelude.Dict.{elem}
use avbroot.Result.{ok}
use avbroot.Stream.{Bytes}
use avbroot.Vbmeta.Deps.{Graph}
use avbroot.Main.Order.{restrict, is_nil, unneeded, prune_loop, prune}

-- No vbmeta image of the graph is without dependencies.
abbrev pub IsPruned : List Bytes → Graph → Type 0
IsPruned vbmeta_images = All (λ (n, ds). (elem n vbmeta_images && is_nil ds) ≡ false)

restrict_le : (keep : Bytes → Bool) (g : Graph) → length (restrict keep g) ≤ length g
unfolding restrict
restrict_le keep [] = omega arith
restrict_le keep ((n, ds) ∷ g) = elim (Bool-cases (keep n)) [
  | inl e ↦ rw e (omega (arith, restrict_le keep g))
  | inr e ↦ rw e (omega (arith, restrict_le keep g))
]

-- A round takes a node away.
restrict_lt :
    (vbmeta_images : List Bytes) (g : Graph) (names : List Bytes)
    → ((n : Bytes) → elem n (unneeded vbmeta_images g) ≡ true → elem n names ≡ true)
    → is_nil (unneeded vbmeta_images g) ≡ false
    → length (restrict (λ n. not (elem n names)) g) < length g
unfolding restrict unneeded
restrict_lt vbmeta_images [] names h some = cc
restrict_lt vbmeta_images ((n, ds) ∷ g) names h some =
    elim (Bool-cases (elem n vbmeta_images && is_nil ds)) [
      | inl e ↦
          let gone : elem n names ≡ true = h n (rw (e, bytes_eq_self n) refl) in
          rw gone (omega (arith, restrict_le (λ m. not (elem m names)) g))
      | inr e ↦
          let less =
            restrict_lt vbmeta_images g names (λ m there. h m (rw e there))
              (sym (rw e refl) ∙ some) in
          elim (Bool-cases (elem n names)) [
            | inl gone ↦ rw gone (omega (arith, less))
            | inr kept ↦ rw kept (omega (arith, less))
          ]
    ]

nil-IsPruned :
    (vbmeta_images : List Bytes) (g : Graph)
    → is_nil (unneeded vbmeta_images g) ≡ true
    → IsPruned vbmeta_images g
unfolding unneeded
nil-IsPruned vbmeta_images [] h = tt
nil-IsPruned vbmeta_images ((n, ds) ∷ g) h = elim (Bool-cases (elem n vbmeta_images && is_nil ds)) [
  | inl e ↦ absurd (let bad : false ≡ true = sym (rw e refl) ∙ h in cc)
  | inr e ↦ (e, nil-IsPruned vbmeta_images g (sym (rw e refl) ∙ h))
]

abbrev pub nodes : Graph → List Bytes
nodes [] = []
nodes ((n, ds) ∷ g) = n ∷ nodes g

restrict-nodes :
    (keep : Bytes → Bool) (n : Bytes) (g : Graph)
    → keep n ≡ true
    → elem n (nodes (restrict keep g)) ≡ elem n (nodes g)
unfolding restrict
restrict-nodes keep n [] k = refl
restrict-nodes keep n ((m, ds) ∷ g) k = elim (Bool-cases (bytes_eq m n)) [
  | inl e ↦ let kept : keep m ≡ true = ap keep (bytes_eq→eq m n e) ∙ k in rw (kept, e) refl
  | inr e ↦ elim (Bool-cases (keep m)) [
    | inl kept ↦ rw (kept, e) (restrict-nodes keep n g k)
    | inr gone ↦ rw (gone, e) (restrict-nodes keep n g k)
  ]
]

left_true : (a b : Bool) → (a && b) ≡ true → a ≡ true
left_true true b h = refl
left_true false b h = cc

-- Only vbmeta images are taken away.
other-stays :
    (vbmeta_images : List Bytes) (n : Bytes) (g : Graph)
    → elem n vbmeta_images ≡ false
    → elem n (unneeded vbmeta_images g) ≡ false
unfolding unneeded
other-stays vbmeta_images n [] h = refl
other-stays vbmeta_images n ((m, ds) ∷ g) h =
    elim (Bool-cases (elem m vbmeta_images && is_nil ds)) [
      | inl e ↦ elim (Bool-cases (bytes_eq m n)) [
        | inl same ↦ absurd (
            let bad : true ≡ false =
              sym (left_true (elem m vbmeta_images) (is_nil ds) e)
              ∙ ap (λ t. elem t vbmeta_images) (bytes_eq→eq m n same)
              ∙ h in
            cc)
        | inr differ ↦ rw (e, differ) (other-stays vbmeta_images n g h)
      ]
      | inr e ↦ rw e (other-stays vbmeta_images n g h)
    ]

-- What the loop leaves of a graph.
abbrev pub IsLeft : List Bytes → Graph → Graph → Type 0
IsLeft vbmeta_images g out =
    IsPruned vbmeta_images out
    × ((n : Bytes) → elem n vbmeta_images ≡ false → elem n (nodes out) ≡ elem n (nodes g))

prune_loop_lem :
    (fuel : ℕ) (vbmeta_images : List Bytes) (g : Graph)
    → length g ≤ fuel
    → (out : Graph) × (prune_loop fuel vbmeta_images g ≡ ok out) × IsLeft vbmeta_images g out
unfolding prune_loop unneeded
prune_loop_lem zero vbmeta_images [] h = ([], refl, (tt, λ n e. refl))
prune_loop_lem zero vbmeta_images (n ∷ g) h = absurd (omega arith)
prune_loop_lem (suc fuel) vbmeta_images g h =
    elim (Bool-cases (is_nil (unneeded vbmeta_images g))) [
      | inl e ↦ (g, rw e refl, (nil-IsPruned vbmeta_images g e, λ n o. refl))
      | inr e ↦
          let names = unneeded vbmeta_images g in
          let next = restrict (λ n. not (elem n names)) g in
          let less = restrict_lt vbmeta_images g names (λ n there. there) e in
          let (out, done, (pruned, stays)) =
            prune_loop_lem fuel vbmeta_images next (omega (arith, less)) in
          (
            out,
            rw e done,
            (
              pruned,
              λ n o.
                  stays n o
                  ∙ restrict-nodes (λ m. not (elem m names)) n g
                      (ap not (other-stays vbmeta_images n g o)),
            ),
          )
    ]

-- The loop of `get_vbmeta_patch_order` ends for every graph; no vbmeta image without dependencies
-- is left, and every node that is no vbmeta image stays.
pub prune_lem :
    (vbmeta_images : List Bytes) (g : Graph)
    → (out : Graph) × (prune vbmeta_images g ≡ ok out) × IsLeft vbmeta_images g out
unfolding prune
prune_lem vbmeta_images g = prune_loop_lem (length g) vbmeta_images g (omega arith)

-- ===== src/Main/Order.antt =====
-- avbroot/main.py, `get_vbmeta_patch_order`: which vbmeta images are patched, and in which order.
-- Python's graphlib is a parameter.
pub mod Laws
use avbroot.Prelude.{
  ℕ, zero, suc, ◌+◌, Bool, true, false, ◌&&◌, ◌||◌, not, Option, none, some, List, [], ◌∷◌, length,
  if◌then◌else◌,
}
use avbroot.Prelude.Text.{bytes_eq}
use avbroot.Prelude.Dict.{elem, lookup}
use avbroot.Result.{Result, ok, err, key_error, out_of_fuel, ◌>>=◌}
use avbroot.Stream.{Bytes}
use avbroot.Vbmeta.{Avb}
use avbroot.Vbmeta.Deps.{Graph, get_vbmeta_deps}

unfoldable pub filter_names : (Bytes → Bool) → List Bytes → List Bytes
filter_names keep [] = []
filter_names keep (n ∷ ns) = let rest = filter_names keep ns in if keep n then n ∷ rest else rest

-- `{n: {d for d in deps if keep(d)} for n, deps in graph.items() if keep(n)}`
unfoldable pub restrict : (Bytes → Bool) → Graph → Graph
restrict keep [] = []
restrict keep ((n, ds) ∷ g) =
    let rest = restrict keep g in if keep n then (n, filter_names keep ds) ∷ rest else rest

abbrev pub is_nil : List Bytes → Bool
is_nil [] = true
is_nil (n ∷ ns) = false

-- `set(n for n, d in dep_graph.items() if n in vbmeta_images and not d)`
unfoldable pub unneeded : List Bytes → Graph → List Bytes
unneeded vbmeta_images [] = []
unneeded vbmeta_images ((n, ds) ∷ g) =
    let rest = unneeded vbmeta_images g in
    if elem n vbmeta_images && is_nil ds then n ∷ rest else rest

-- The loop; each round but the last takes a node away, so the number of the nodes is fuel enough.
unfoldable pub prune_loop : ℕ → List Bytes → Graph → Result Graph
prune_loop zero vbmeta_images g =
    if is_nil (unneeded vbmeta_images g) then ok g else err out_of_fuel
prune_loop (suc fuel) vbmeta_images g =
    let names = unneeded vbmeta_images g in
    let more = prune_loop fuel vbmeta_images (restrict (λ n. not (elem n names)) g) in
    if is_nil names then ok g else more

unfoldable pub prune : List Bytes → Graph → Result Graph
prune vbmeta_images g = prune_loop (length g) vbmeta_images g

abbrev pub has_path : {Location : Type 0} → Bytes → List (Bytes × Location) → Bool
has_path n [] = false
has_path n ((m, p) ∷ paths) = bytes_eq m n || has_path n paths

module _ {Location : Type 0} (avb : Avb Location) (static_order : Graph → Result (List Bytes)) where
  abbrev pub add_path :
      Bytes → Option Location → Result (List (Bytes × Location)) → Result (List (Bytes × Location))
  add_path n none rest = err key_error
  add_path n (some p) rest = rest >>= λ ps. ok ((n, p) ∷ ps)

  -- `{n: image_paths[n] for n in vbmeta_images}`
  unfoldable pub paths_of : List (Bytes × Location) → List Bytes → Result (List (Bytes × Location))
  paths_of image_paths [] = ok []
  paths_of image_paths (n ∷ ns) = add_path n (lookup n image_paths) (paths_of image_paths ns)

  unfoldable pub get_vbmeta_patch_order :
      List (Bytes × Location) → List Bytes → Result (Graph × List Bytes)
  get_vbmeta_patch_order image_paths vbmeta_images = paths_of image_paths vbmeta_images >>= λ paths.
      get_vbmeta_deps avb paths >>= λ deps.
      prune vbmeta_images (restrict (λ n. has_path n image_paths) deps) >>= λ dep_graph.
      static_order dep_graph >>= λ full_order.
      ok (dep_graph, filter_names (λ n. elem n vbmeta_images) full_order)

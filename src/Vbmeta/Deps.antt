-- ===== src/Vbmeta/Deps.antt =====
-- avbroot/vbmeta.py, `get_vbmeta_deps`: which partitions each vbmeta image refers to. A set is the list
-- of its elements, each once.
pub mod Laws
use avbroot.Prelude.{ℕ, Bool, true, false, Option, none, some, List, [], ◌∷◌, ◌++◌, if◌then◌else◌}
use avbroot.Prelude.Text.{bytes_eq}
use avbroot.Prelude.Dict.{elem, lookup}
use avbroot.Result.{Result, ok, err, ◌>>=◌}
use avbroot.Stream.{Bytes}
use avbroot.Vbmeta.{Descriptor, chain_partition, hash, hashtree, other, Header, Image, Avb}

abbrev pub Graph : Type 0
Graph = List (Bytes × List Bytes)

-- `deps.setdefault(name, set())`
abbrev pub set_default : Bytes → Graph → Graph
set_default name [] = (name, []) ∷ []
set_default name ((n, ds) ∷ g) =
    let more = set_default name g in if bytes_eq n name then (n, ds) ∷ g else (n, ds) ∷ more

abbrev pub add_name : Bytes → List Bytes → List Bytes
add_name d ds = if elem d ds then ds else ds ++ (d ∷ [])

-- `deps[name].add(d)`, for a name that is there.
abbrev pub add_dep : Bytes → Bytes → Graph → Graph
add_dep name d [] = []
add_dep name d ((n, ds) ∷ g) =
    let more = add_dep name d g in
    if bytes_eq n name then (n, add_name d ds) ∷ g else (n, ds) ∷ more

-- The partition that a descriptor refers to.
abbrev pub refers_to : Descriptor → Option Bytes
refers_to (chain_partition n key rest) = some n
refers_to (hash n rest) = some n
refers_to (hashtree n rest) = some n
refers_to (other rest) = none

abbrev pub add_reference : Bytes → Option Bytes → Graph → Graph
add_reference name none g = g
add_reference name (some d) g = set_default d (add_dep name d g)

-- The inner loop.
unfoldable pub add_descriptors : Bytes → List Descriptor → Graph → Graph
add_descriptors name [] g = g
add_descriptors name (d ∷ ds) g = add_descriptors name ds (add_reference name (refers_to d) g)

module _ {Location : Type 0} (avb : Avb Location) where
  unfoldable pub deps_loop : List (Bytes × Location) → Graph → Result Graph
  deps_loop [] g = ok g
  deps_loop ((name, path) ∷ images) g = avb.parse_image path >>= λ image.
      deps_loop images (add_descriptors name image.descriptors (set_default name g))

  unfoldable pub get_vbmeta_deps : List (Bytes × Location) → Result Graph
  get_vbmeta_deps images = deps_loop images []

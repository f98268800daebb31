-- ===== src/Tests/Images.antt =====
-- avbroot/main.py and the dictionaries of avbroot/formats/bootimage.py: concrete runs.
use avbroot.Prelude.{◌≡◌, refl, true, List, [], ◌∷◌}
use avbroot.Prelude.Text.{codes, bytes_eq}
use avbroot.Result.{ok}
use avbroot.Stream.{Bytes}
use avbroot.BootImage.Detect.{boot_v3}
use avbroot.BootImage.Dict.{to_dict, create_from_dict}
use avbroot.BootImage.Dict.RoundTrip.{without_sections, create_from_dict-to_dict}
use avbroot.Main.Partitions.{set_of, find_candidate, get_required_images}
use avbroot.Main.Partitions.Laws.{AreRequired, get_required_images_lem}
use avbroot.Vbmeta.Deps.{Graph}
use avbroot.Main.Order.{prune}
use avbroot.Main.Order.Laws.{IsLeft, prune_lem}
use avbroot.Tests.Formats.{small_boot}

create_from_dict-to_dict_example :
    create_from_dict (to_dict (boot_v3 small_boot)) ≡ ok (without_sections (boot_v3 small_boot))
create_from_dict-to_dict_example = create_from_dict-to_dict (boot_v3 small_boot)

abbrev partitions : List Bytes
partitions = codes "boot" ∷ codes "system" ∷ codes "vbmeta" ∷ codes "vendor_boot" ∷ []

get_required_images_lem_example :
    (images : List (Bytes × Bytes)) × (get_required_images partitions (codes "boot") true
      ≡ ok images)
    × AreRequired partitions (codes "vendor_boot") images
unfolding set_of find_candidate bytes_eq
get_required_images_lem_example =
    get_required_images_lem partitions (codes "boot") true (codes "boot") (codes "boot")
      (codes "vendor_boot") refl refl refl refl

-- The image vbmeta_system refers to nothing that is patched, and vbmeta only to it.
abbrev dep_graph : Graph
dep_graph =
    (codes "vbmeta", codes "vbmeta_system" ∷ [])
    ∷ (codes "vbmeta_system", [])
    ∷ (codes "boot", [])
    ∷ []

prune_lem_example :
    (out : Graph) × (prune (codes "vbmeta" ∷ codes "vbmeta_system" ∷ []) dep_graph ≡ ok out)
    × IsLeft (codes "vbmeta" ∷ codes "vbmeta_system" ∷ []) dep_graph out
prune_lem_example = prune_lem (codes "vbmeta" ∷ codes "vbmeta_system" ∷ []) dep_graph

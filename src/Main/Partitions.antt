-- ===== src/Main/Partitions.antt =====
-- avbroot/main.py, `get_partitions_by_type` and `get_required_images`. The set of the partition names
-- is a list of them, each once.
pub mod Laws
use avbroot.Prelude.{
  ℕ, Bool, true, false, ◌||◌, not, Option, none, some, List, [], ◌∷◌, ◌++◌, length, take,
  if◌then◌else◌,
}
use avbroot.Prelude.Text.{codes, bytes_eq}
use avbroot.Prelude.Dict.{elem, lookup}
use avbroot.Result.{Result, ok, err, value_error, ◌>>=◌}
use avbroot.Stream.{Bytes}

-- `PARTITION_PRIORITIES`
abbrev pub partition_priorities : List (Bytes × List Bytes)
partition_priorities =
    (codes "@gki_kernel", codes "boot" ∷ [])
    ∷ (codes "@gki_ramdisk", codes "init_boot" ∷ codes "boot" ∷ [])
    ∷ (codes "@otacerts", codes "recovery" ∷ codes "vendor_boot" ∷ codes "boot" ∷ [])
    ∷ []

-- `set(p.partition_name for p in manifest.partitions)`
unfoldable pub set_of : List Bytes → List Bytes
set_of [] = []
set_of (p ∷ ps) = let rest = set_of ps in if elem p rest then rest else p ∷ rest

-- `next((p for p in candidates if p in all_partitions), None)`
unfoldable pub find_candidate : List Bytes → List Bytes → Option Bytes
find_candidate all_partitions [] = none
find_candidate all_partitions (p ∷ ps) =
    let more = find_candidate all_partitions ps in if elem p all_partitions then some p else more

abbrev pub starts_with : Bytes → Bytes → Bool
starts_with m text = bytes_eq (take (length m) text) m

-- `m in text`
unfoldable pub contains_text : Bytes → Bytes → Bool
contains_text m [] = starts_with m []
contains_text m (c ∷ text) = let later = contains_text m text in starts_with m (c ∷ text) || later

abbrev pub vbmeta_prefix : Bytes
vbmeta_prefix = codes "@vbmeta:"

-- The second loop.
unfoldable pub vbmeta_types : List Bytes → List (Bytes × Bytes)
vbmeta_types [] = []
vbmeta_types (p ∷ ps) =
    let rest = vbmeta_types ps in
    if contains_text (codes "vbmeta") p then (vbmeta_prefix ++ p, p) ∷ rest else rest

abbrev pub with_candidate :
    Bytes → Option Bytes → Result (List (Bytes × Bytes)) → Result (List (Bytes × Bytes))
with_candidate type none rest = err value_error
with_candidate type (some p) rest = rest >>= λ by_type. ok ((type, p) ∷ by_type)

-- The first loop, with the second behind it.
unfoldable pub types_loop : List Bytes → List (Bytes × List Bytes) → Result (List (Bytes × Bytes))
types_loop all_partitions [] = ok (vbmeta_types all_partitions)
types_loop all_partitions ((type, candidates) ∷ priorities) =
    with_candidate type (find_candidate all_partitions candidates)
      (types_loop all_partitions priorities)

unfoldable pub get_partitions_by_type : List Bytes → Result (List (Bytes × Bytes))
get_partitions_by_type partitions = types_loop (set_of partitions) partition_priorities

-- `k == '@otacerts' or k.startswith('@vbmeta:')`
abbrev pub is_required : Bytes → Bool
is_required k = bytes_eq k (codes "@otacerts") || starts_with vbmeta_prefix k

unfoldable pub select_required : List (Bytes × Bytes) → List (Bytes × Bytes)
select_required [] = []
select_required ((k, v) ∷ by_type) =
    let rest = select_required by_type in if is_required k then (k, v) ∷ rest else rest

abbrev pub rootpatch : Bytes
rootpatch = codes "@rootpatch"

abbrev pub or_partition : List Bytes → Bytes → Option Bytes → Result Bytes
or_partition all_partitions boot_partition (some p) = ok p
or_partition all_partitions boot_partition none =
    if elem boot_partition all_partitions then ok boot_partition else err value_error

-- The image that the root patch is for.
unfoldable pub root_image : List Bytes → List (Bytes × Bytes) → Bytes → Result Bytes
root_image all_partitions by_type boot_partition =
    or_partition all_partitions boot_partition (lookup boot_partition by_type)

unfoldable pub get_required_images : List Bytes → Bytes → Bool → Result (List (Bytes × Bytes))
get_required_images partitions boot_partition with_root =
    get_partitions_by_type partitions >>= λ by_type.
    let images = select_required by_type in
    let rooted = root_image (set_of partitions) by_type boot_partition >>= λ p.
    ok (images ++ ((rootpatch, p) ∷ [])) in
    if with_root then rooted else ok images

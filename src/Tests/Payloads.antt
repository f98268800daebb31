-- ===== src/Tests/Payloads.antt =====
-- avbroot/ota.py: concrete runs.
use avbroot.Prelude.{
  ◌≡◌, refl, false, Option, none, some, List, [], ◌∷◌, ◌++◌, length, take, drop, arith,
  append_assoc, append-nil, if◌then◌else◌,
}
use avbroot.Prelude.Text.{bytes_eq}
use avbroot.Result.{ok, err, out_of_fuel}
use avbroot.Stream.{Bytes}
use avbroot.Ota.Payload.{Partition, recompute_offsets, write_blobs}
use avbroot.Ota.Payload.Laws.{HasData, FindsData, recompute_offsets-FindsData}
use avbroot.Ota.Concatenated.{FileRange, get_range, read_loop, read_sized}
use avbroot.Ota.Concatenated.Laws.{IsChained, contents, read_within, read_across, read_all_lem}

abbrev original : Bytes
original = 9 ∷ 9 ∷ 1 ∷ 2 ∷ 3 ∷ 4 ∷ 5 ∷ []

abbrev image : Bytes
image = 7 ∷ 8 ∷ 7 ∷ []

abbrev partitions : List Partition
partitions =
    record {
      partition_name = 1 ∷ [];
      operations = record { data_offset = 40; data_length = 3 } ∷ [];
    }
    ∷ record {
      partition_name = 2 ∷ [];
      operations =
          record { data_offset = 3; data_length = 2 }
          ∷ record { data_offset = 0; data_length = 1 }
          ∷ [];
    }
    ∷ []

-- The first of the two partitions has a new image.
abbrev new_images : Bytes → Option Bytes
new_images name = if bytes_eq name (1 ∷ []) then some image else none

abbrev same_contents : Bytes → Bytes
same_contents content = content

partitions-HasData :
    HasData ◌++◌ append_assoc append-nil original 2 same_contents new_images partitions
unfolding bytes_eq
partitions-HasData = ((omega arith, tt), ((omega arith, (omega arith, tt)), tt))

recompute_offsets-FindsData_example :
    (blob : Bytes) × (write_blobs ◌++◌ original 2 same_contents
        (recompute_offsets new_images partitions).data_list
        []
        (0 ∷ [])
      ≡ ok ([] ++ blob, (0 ∷ []) ++ blob))
    × (length blob ≡ (recompute_offsets new_images partitions).offset)
    × FindsData ◌++◌ append_assoc append-nil original 2 same_contents new_images blob partitions
        (recompute_offsets new_images partitions).changed
recompute_offsets-FindsData_example =
    recompute_offsets-FindsData ◌++◌ append_assoc append-nil original 2 same_contents new_images
      partitions [] (0 ∷ []) partitions-HasData

abbrev first_range : FileRange
first_range = record { start = 0; end = 3; content = 1 ∷ 2 ∷ 3 ∷ [] }

abbrev two_ranges : List FileRange
two_ranges = first_range ∷ record { start = 3; end = 5; content = 4 ∷ 5 ∷ [] } ∷ []

two_ranges-IsChained : IsChained 0 two_ranges
two_ranges-IsChained = (refl, refl, (refl, refl, tt))

get_range_run : get_range two_ranges 1 ≡ some (first_range, false)
unfolding get_range
get_range_run = refl

read_within_example :
    read_sized 2 (record { ranges = two_ranges; offset = 1 })
    ≡ ok (take 2 (drop 1 (contents two_ranges)))
read_within_example =
    read_within two_ranges 1 first_range false two_ranges-IsChained get_range_run 2 (omega arith)

read_across_example :
    read_sized 4 (record { ranges = two_ranges; offset = 1 })
    ≡ ok (drop 1 first_range.content ++ take 2 (drop 1 first_range.content))
read_across_example =
    read_across two_ranges 1 first_range false two_ranges-IsChained get_range_run 4 (omega arith)
      (omega arith)

read_all_lem_example : read_loop 50 two_ranges 1 none [] ≡ err out_of_fuel
read_all_lem_example =
    read_all_lem two_ranges 1 first_range false two_ranges-IsChained get_range_run 50 []

-- ===== src/Tests/Streams.antt =====
-- avbroot/util.py and the loops over archives: concrete runs.
use avbroot.Prelude.{
  ◌+◌, ◌≤◌, ◌≡◌, ◌≢◌, true, false, [], ◌∷◌, ◌++◌, length, take, drop, replicate, leb, arith,
  if◌then◌else◌, append_assoc, append-nil, All,
}
use avbroot.Result.{ok, err, io_error, out_of_fuel}
use avbroot.Stream.{InFile, move}
use avbroot.Util.{hash_file, copyfileobj_n, zero_n, is_zero}
use avbroot.Prelude.Text.{codes}
use avbroot.Util.Copy.{copyfileobj_n_lem, hash_file_lem}
use avbroot.Util.Zero.{zero_n_lem, all_zero, is_zero_lem}
use avbroot.Cpio.Archive.{load, sort_entries}
use avbroot.Cpio.Archive.Laws.{IsSorted, named, sort_entries_lem}
use avbroot.Cpio.Archive.Loads.{IsLoaded, load_terminates, load-IsLoaded}
use avbroot.Tests.Formats.{hello, hello_archive}

abbrev numbers : InFile
numbers = record { bytes = 1 ∷ 2 ∷ 3 ∷ 4 ∷ 5 ∷ []; pos = 1; seekable = true }

-- A hasher that keeps what it was given.
copyfileobj_n_lem_example : copyfileobj_n ◌++◌ 2 3 numbers [] (9 ∷ []) ≡ (
    if leb 3 (length (drop 1 numbers.bytes))
    then ok (
      move numbers 3,
      ([] ++ take 3 (drop 1 numbers.bytes), (9 ∷ []) ++ take 3 (drop 1 numbers.bytes)),
    )
    else err io_error)
copyfileobj_n_lem_example =
    copyfileobj_n_lem ◌++◌ append_assoc append-nil 2 3 numbers [] (9 ∷ []) (omega arith)

hash_file_lem_example :
    hash_file ◌++◌ 2 numbers []
    ≡ ok ([] ++ drop 1 numbers.bytes, move numbers (length (drop 1 numbers.bytes)))
hash_file_lem_example = hash_file_lem ◌++◌ append_assoc append-nil 2 numbers [] (omega arith)

zero_n_lem_example : zero_n 4 10 (7 ∷ []) ≡ ok ((7 ∷ []) ++ replicate 10 0)
zero_n_lem_example = zero_n_lem 4 10 (7 ∷ []) (omega arith)

is_zero_lem_example : is_zero (0 ∷ 0 ∷ 1 ∷ []) ≡ ok (all_zero (0 ∷ 0 ∷ 1 ∷ []))
is_zero_lem_example = is_zero_lem (0 ∷ 0 ∷ 1 ∷ [])

sort_entries_lem_example :
    IsSorted (sort_entries (hello ∷ hello ∷ []))
    × (named (codes "init") (sort_entries (hello ∷ hello ∷ []))
        ≡ named (codes "init") (hello ∷ hello ∷ []))
sort_entries_lem_example = sort_entries_lem (hello ∷ hello ∷ []) (codes "init")

load_terminates_example : load true false numbers ≢ err out_of_fuel
load_terminates_example = load_terminates true false numbers

load-IsLoaded_example :
    All IsLoaded (sort_entries (hello ∷ []))
    × (hello_archive.0 ≡ hello_archive.0)
    × (0 ≤ 0 + length hello_archive.0)
load-IsLoaded_example =
    load-IsLoaded false true (record { bytes = hello_archive.0; pos = 0; seekable = false })
      (record { bytes = hello_archive.0; pos = 0 + length hello_archive.0; seekable = false })
      (sort_entries (hello ∷ [])) hello_archive.2

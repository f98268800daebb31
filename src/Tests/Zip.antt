-- ===== src/Tests/Zip.antt =====
-- avbroot/main.py: concrete runs.
use avbroot.Prelude.{◌≡◌, List, [], ◌∷◌, arith}
use avbroot.Result.{ok}
use avbroot.Main.ExtraFields.{strip_bad_extra_fields}
use avbroot.Main.ExtraFields.Laws.{ExtraField, extra_bytes, kept, strip_bad_extra_fields_lem}

-- A zip64 record and one that is kept.
abbrev fields : List ExtraField
fields =
    record { record_sig = 1; body = 5 ∷ 6 ∷ [] } ∷ record { record_sig = 2; body = 7 ∷ [] } ∷ []

strip_bad_extra_fields_lem_example :
    strip_bad_extra_fields (extra_bytes fields) ≡ ok (extra_bytes (kept fields))
strip_bad_extra_fields_lem_example =
    strip_bad_extra_fields_lem fields ((omega arith, omega arith), ((omega arith, omega arith), tt))

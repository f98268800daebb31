-- ===== src/Tests/Archives.antt =====
-- avbroot/main.py, `patch_ota_zip`: an archive with the properties in front of the payload.
use avbroot.Prelude.{
  ◌≡◌, inl, inr, refl, sym, ap, ◌∙◌, true, ◌||◌, List, [], ◌∷◌, ◌++◌, All, Bool-cases,
}
use avbroot.Prelude.Text.{bytes_eq, bytes_eq→eq, codes}
use avbroot.Prelude.Dict.{elem}
use avbroot.Result.{Result, ok}
use avbroot.Stream.{Bytes}
use avbroot.Main.ExtraFields.{strip_bad_extra_fields, strip_loop}
use avbroot.Main.Zip.{
  path_metadata, path_metadata_pb, path_otacert, path_payload, path_properties, Info, Copied,
  patch_ota_zip, required_files,
}
use avbroot.Main.Zip.Search.{filenames}
use avbroot.Main.Zip.Swap.{entries}
use avbroot.Main.Zip.Laws.{IsReadable, all_copied, entry_with, patch_ota_zip_lem}

covered :
    (rs names : List Bytes)
    → All (λ r. elem r names ≡ true) rs
    → (m : Bytes) → elem m rs ≡ true
    → elem m names ≡ true
covered [] names all m h = cc
covered (r ∷ rs) names (first, all) m h = elim (Bool-cases (bytes_eq r m)) [
  | inl e ↦ ap (λ t. elem t names) (sym (bytes_eq→eq r m e)) ∙ first
  | inr e ↦ covered rs names all m (ap (λ b. b || elem m rs) (sym e) ∙ h)
]

abbrev file : Bytes → Bytes → Info
file name content = record { filename = name; extra = []; is_stored = true; content = content }

-- The new payload is the old one with a byte behind it, and the properties are one byte.
abbrev patch : Bytes → Result (Bytes × Bytes)
patch payload = ok (payload ++ (9 ∷ []), 8 ∷ [])

abbrev front : List Info
front = file path_metadata (1 ∷ []) ∷ []

abbrev middle : List Info
middle = file path_otacert (2 ∷ []) ∷ file (codes "care_map.pb") (3 ∷ []) ∷ []

abbrev back : List Info
back = file path_metadata_pb (4 ∷ []) ∷ []

abbrev payload : Info
payload = file path_payload (5 ∷ [])

abbrev properties : Info
properties = file path_properties (6 ∷ [])

no_extra : (name content : Bytes) → IsReadable (file name content)
unfolding strip_bad_extra_fields strip_loop
no_extra name content = ([], refl)

present :
    All
      (λ r. elem r (filenames (entries true front middle back payload properties)) ≡ true)
      required_files
unfolding bytes_eq
present = (refl, (refl, (refl, (refl, (refl, tt)))))

patch_ota_zip_lem_example :
    (t : Copied) × (patch_ota_zip (7 ∷ []) patch (entries true front middle back payload properties)
      ≡ ok t)
    × (t.written
        ≡ all_copied (7 ∷ []) front
          ++ (entry_with payload (5 ∷ 9 ∷ [])
              ++ (all_copied (7 ∷ []) middle
                  ++ (entry_with properties (8 ∷ []) ++ all_copied (7 ∷ []) back))))
unfolding bytes_eq
patch_ota_zip_lem_example =
    patch_ota_zip_lem (7 ∷ []) patch true front middle back payload properties (5 ∷ 9 ∷ []) (8 ∷ [])
      ((refl, refl), tt) ((refl, refl), ((refl, refl), tt)) ((refl, refl), tt)
      (no_extra path_metadata (1 ∷ []), tt)
      (no_extra path_otacert (2 ∷ []), (no_extra (codes "care_map.pb") (3 ∷ []), tt))
      (no_extra path_metadata_pb (4 ∷ []), tt) refl refl refl refl (no_extra path_payload (5 ∷ []))
      (no_extra path_properties (6 ∷ [])) refl
      (covered required_files (filenames (entries true front middle back payload properties))
        present)

-- ===== src/Main/Zip.antt =====
-- avbroot/main.py, `patch_ota_zip`: the entries of the archive, and what becomes of each. Python's
-- zipfile and the patch of the payload are parameters; an archive that is written is the list of its
-- entries.
pub mod Search
pub mod Swap
pub mod Laws
use avbroot.Prelude.{
  ℕ, zero, suc, ◌+◌, Bool, true, false, ◌&&◌, ◌||◌, not, Option, none, some, List, [], ◌∷◌, ◌++◌,
  ltb, ◌==◌, if◌then◌else◌,
}
use avbroot.Prelude.Text.{codes, bytes_eq}
use avbroot.Prelude.Dict.{elem}
use avbroot.Result.{Result, ok, err, exception, type_error, ◌>>=◌, ◌>>◌, guard}
use avbroot.Stream.{Bytes}
use avbroot.Main.ExtraFields.{strip_bad_extra_fields}

abbrev pub path_metadata : Bytes
path_metadata = codes "META-INF/com/android/metadata"

abbrev pub path_metadata_pb : Bytes
path_metadata_pb = codes "META-INF/com/android/metadata.pb"

abbrev pub path_otacert : Bytes
path_otacert = codes "META-INF/com/android/otacert"

abbrev pub path_payload : Bytes
path_payload = codes "payload.bin"

abbrev pub path_properties : Bytes
path_properties = codes "payload_properties.txt"

-- `ZipInfo`, with the content of the entry.
pub record Info : Type 0 where
  pub filename : Bytes
  pub extra : Bytes
  pub is_stored : Bool
  pub content : Bytes

-- An entry that is written.
pub record Written : Type 0 where
  pub info : Info
  pub data_written : Bytes

abbrev pub required_files : List Bytes
required_files =
    path_metadata ∷ path_metadata_pb ∷ path_otacert ∷ path_payload ∷ path_properties ∷ []

-- `missing.remove(name)`
unfoldable pub remove_name : Bytes → List Bytes → List Bytes
remove_name n [] = []
remove_name n (m ∷ ms) = let rest = remove_name n ms in if bytes_eq m n then rest else m ∷ rest

-- The state of the first loop; `none` is -1.
pub record Scan : Type 0 where
  pub missing : List Bytes
  pub i_payload : Option ℕ
  pub i_properties : Option ℕ

abbrev pub is_some : Option ℕ → Bool
is_some none = false
is_some (some i) = true

abbrev pub is_nil : List Bytes → Bool
is_nil [] = true
is_nil (n ∷ ns) = false

abbrev pub is_done : Scan → Bool
is_done s = is_nil s.missing && (is_some s.i_payload && is_some s.i_properties)

-- The body of the loop.
abbrev pub scan_step : ℕ → Info → Scan → Scan
scan_step i info s =
    if bytes_eq info.filename path_payload
    then record s { missing = remove_name info.filename s.missing; i_payload = some i }
    else if bytes_eq info.filename path_properties
    then record s { missing = remove_name info.filename s.missing; i_properties = some i }
    else record s { missing = remove_name info.filename s.missing }

unfoldable pub scan_loop : ℕ → List Info → Scan → Scan
scan_loop i [] s = s
scan_loop i (info ∷ infos) s =
    let next = scan_step i info s in
    let rest = scan_loop (i + 1) infos next in if is_done next then next else rest

abbrev pub scan : List Info → Scan
scan infos =
    scan_loop 0 infos (record { missing = required_files; i_payload = none; i_properties = none })

-- `infos[i]`, or the given entry for an index that there is not.
unfoldable pub at : ℕ → Info → List Info → Info
at i other [] = other
at zero other (x ∷ xs) = x
at (suc i) other (x ∷ xs) = at i other xs

-- `infos[i] = info`
unfoldable pub put : ℕ → Info → List Info → List Info
put i info [] = []
put zero info (x ∷ xs) = info ∷ xs
put (suc i) info (x ∷ xs) = x ∷ put i info xs

unfoldable pub swap : ℕ → ℕ → List Info → List Info
swap i j [] = []
swap i j (x ∷ xs) = put j (at i x (x ∷ xs)) (put i (at j x (x ∷ xs)) (x ∷ xs))

-- `if i_payload > i_properties`
abbrev pub order_payload : Option ℕ → Option ℕ → List Info → List Info
order_payload (some i) (some j) infos = if ltb j i then swap i j infos else infos
order_payload (some i) none infos = infos
order_payload none j infos = infos

-- The state of the second loop, with the archive that is written.
pub record Copied : Type 0 where
  pub properties : Option Bytes
  pub metadata_info : Option Info
  pub metadata_pb : Option Info
  pub written : List Written

abbrev pub add_entry : Info → Bytes → Copied → Copied
add_entry info content s = record s {
  written = s.written ++ (record { info = info; data_written = content } ∷ []);
}

-- `f_out.write(properties)`
abbrev pub write_properties : Option Bytes → Info → Copied → Result Copied
write_properties none info s = err type_error
write_properties (some properties) info s = ok (add_entry info properties s)

module _ (cert_ota : Bytes) (patch_payload : Bytes → Result (Bytes × Bytes)) where
  -- The body of the loop: the entry, and its copy with the extra fields cleaned. `patch_payload` returns
  -- the new payload and its properties.
  unfoldable pub copy_entry : Info → Info → Copied → Result Copied
  copy_entry info out_info s =
      let payload =
        guard info.is_stored exception
        >> (patch_payload info.content >>= λ (new, properties).
            ok (record (add_entry out_info new s) { properties = some properties })) in
      let properties = guard info.is_stored exception >> write_properties s.properties out_info s in
      if bytes_eq info.filename path_metadata
      then ok (record s { metadata_info = some out_info })
      else if bytes_eq info.filename path_metadata_pb
      then ok (record s { metadata_pb = some out_info })
      else if bytes_eq info.filename path_otacert
      then ok (add_entry out_info cert_ota s)
      else if bytes_eq info.filename path_payload
      then payload
      else if bytes_eq info.filename path_properties
      then properties
      else ok (add_entry out_info info.content s)

  unfoldable pub copy_loop : List Info → Copied → Result Copied
  copy_loop [] s = ok s
  copy_loop (info ∷ infos) s = strip_bad_extra_fields info.extra >>= λ extra.
      copy_entry info (record info { extra = extra }) s >>= copy_loop infos

  -- What stands in the new archive in front of the metadata that `add_metadata` generates.
  unfoldable pub patch_ota_zip : List Info → Result Copied
  patch_ota_zip infos =
      let s = scan infos in
      guard (is_nil s.missing) exception
      >> copy_loop (order_payload s.i_payload s.i_properties infos)
          (record { properties = none; metadata_info = none; metadata_pb = none; written = [] })

-- ===== src/BootImage/Detect/Laws.antt =====
-- When the classes refuse a file as not theirs.
use avbroot.Prelude.{
  ℕ, zero, suc, ◌+◌, ◌≤◌, ◌≡◌, refl, sym, ap, ◌∙◌, Bool, true, false, ◌&&◌, ==_iff, List, [], ◌∷◌,
  ◌++◌, length, take, drop, leb, arith, length-take, drop-drop,
}
use avbroot.Prelude.Text.{bytes_eq}
use avbroot.Result.{ok, err, wrong_format}
use avbroot.Stream.{Bytes, InFile, Parser, ◌>>=◌, pure, read_exact, move, require}
use avbroot.Stream.Random.{bind_eq}
use avbroot.Struct.{Field, calcsize, fit, from_le, unpack, unpack_field, read_struct}
use avbroot.Struct.Laws.{Fits, encode, unpack-encode}
use avbroot.BootImage.Format.{
  boot_magic, vendor_boot_magic, boot_img_hdr_v0, boot_img_hdr_v3, vendor_boot_img_hdr_v3,
}
use avbroot.BootImage.V0
use avbroot.BootImage.V0.{HeaderV0, header_v0}
use avbroot.BootImage.V3
use avbroot.BootImage.V3.{HeaderV3, header_v3, header_v3_values}
use avbroot.BootImage.Vendor.{VendorHeader, vendor_header, vendor_header_values}
use avbroot.BootImage.Version.{Version34, v3, v4, number}

-- A slice of the front of a file is a slice of the file.
module _ {ℓ} {A : Type ℓ} where
  pub take-take : (m k : ℕ) (xs : List A) → m ≤ k → take m (take k xs) ≡ take m xs
  take-take zero k xs h = refl
  take-take (suc m) zero xs h = absurd (omega arith)
  take-take (suc m) (suc k) [] h = refl
  take-take (suc m) (suc k) (x ∷ xs) h = ap (λ t. x ∷ t) (take-take m k xs (omega arith))

  pub slice-take :
      (n m k : ℕ) (xs : List A) → n + m ≤ k → take m (drop n (take k xs)) ≡ take m (drop n xs)
  slice-take zero m k xs h = take-take m k xs (omega arith)
  slice-take (suc n) m zero xs h = absurd (omega arith)
  slice-take (suc n) m (suc k) [] h = refl
  slice-take (suc n) m (suc k) (x ∷ xs) h = slice-take n m k xs (omega arith)

-- The version number that stands at the same place in the headers of versions 0 to 4.
abbrev pub version_field : Bytes → ℕ
version_field bytes = from_le (take 4 (drop 40 bytes))

pub version_v0 :
    (bytes : Bytes)
    → HeaderV0.header_version (header_v0 (unpack boot_img_hdr_v0 bytes)) ≡ version_field bytes
unfolding unpack unpack_field
version_v0 bytes = simp drop-drop

pub version_v3 :
    (bytes : Bytes)
    → HeaderV3.header_version (header_v3 (unpack boot_img_hdr_v3 bytes)) ≡ version_field bytes
unfolding unpack unpack_field
version_v3 bytes = simp drop-drop

-- A file with enough bytes gives its header.
module _ (bytes : Bytes) (seekable : Bool) where
  abbrev pub start : InFile
  start = record { bytes = bytes; pos = 0; seekable = seekable }

  pub read_enough :
      (n : ℕ) → n ≤ length bytes → read_exact n start ≡ ok (take n bytes, move start n)
  unfolding read_exact
  read_enough n h =
      let all : length (take n bytes) ≡ n = omega (arith, length-take n bytes) in
      rw (all, (==_iff n n).1 refl)

  pub read_struct_enough :
      (fs : List Field)
      → calcsize fs ≤ length bytes
      → read_struct fs start ≡ ok (unpack fs (take (calcsize fs) bytes), move start (calcsize fs))
  unfolding read_struct pure
  read_struct_enough fs h = bind_eq _ _ (read_enough (calcsize fs) h)

  -- Two guards of which one fails.
  pub guards_fail :
      {A : Type 0} (b c : Bool) (k : Unit {0} → Parser A) (f : InFile)
      → (b && c) ≡ false
      → (require b wrong_format >>= λ _. require c wrong_format >>= k) f ≡ err wrong_format
  unfolding ◌>>=◌
  guards_fail true c k f h = rw h
  guards_fail false c k f h = refl

  pub guard_fails :
      {A : Type 0} (b : Bool) (k : Unit {0} → Parser A) (f : InFile)
      → b ≡ false
      → (require b wrong_format >>= k) f ≡ err wrong_format
  unfolding ◌>>=◌
  guard_fails b k f h = rw h

  pub magic_v0 :
      HeaderV0.magic (header_v0 (unpack boot_img_hdr_v0 (take 1632 bytes))) ≡ take 8 bytes
  unfolding unpack unpack_field
  magic_v0 = take-take 8 1632 bytes (omega arith)

  pub number_v0 :
      HeaderV0.header_version (header_v0 (unpack boot_img_hdr_v0 (take 1632 bytes)))
      ≡ version_field bytes
  number_v0 = version_v0 (take 1632 bytes) ∙ ap from_le (slice-take 40 4 1632 bytes (omega arith))

  pub magic_v3 :
      HeaderV3.magic (header_v3 (unpack boot_img_hdr_v3 (take 1580 bytes))) ≡ take 8 bytes
  unfolding unpack unpack_field
  magic_v3 = take-take 8 1580 bytes (omega arith)

  -- A file that is long enough, and that has another magic or a higher version, is not of version 0 to 2.
  pub v0_rejects :
      1632 ≤ length bytes
      → (bytes_eq (take 8 bytes) boot_magic && leb (version_field bytes) 2) ≡ false
      → V0.from_file start ≡ err wrong_format
  unfolding V0.from_file V0.read_header pure
  v0_rejects long h =
      bind_eq _ _ (bind_eq _ _ (read_struct_enough boot_img_hdr_v0 long))
      ∙ guards_fail _ _ _ _ (rw (magic_v0, number_v0) h)

  pub v3_rejects :
      1580 ≤ length bytes
      → bytes_eq (take 8 bytes) boot_magic ≡ false
      → V3.from_file start ≡ err wrong_format
  unfolding V3.from_file V3.read_header pure
  v3_rejects long h =
      bind_eq _ _ (bind_eq _ _ (read_struct_enough boot_img_hdr_v3 long))
      ∙ guard_fails _ _ _ (rw magic_v3 h)

-- The header version of an image of version 3 or 4, where the other class looks for it.
pub version-of_v3 :
    (h : HeaderV3) (more : Bytes)
    → Fits boot_img_hdr_v3 (header_v3_values h)
    → version_field (encode boot_img_hdr_v3 (header_v3_values h) ++ more) ≡ h.header_version
version-of_v3 h more fits =
    sym (version_v3 _)
    ∙ ap (λ t. HeaderV3.header_version (header_v3 t))
        (unpack-encode boot_img_hdr_v3 (header_v3_values h) more fits)

pub magic-of_vendor :
    (h : VendorHeader) (more : Bytes)
    → Fits vendor_boot_img_hdr_v3 (vendor_header_values h)
    → take 8 (encode vendor_boot_img_hdr_v3 (vendor_header_values h) ++ more) ≡ fit 8 h.magic
unfolding unpack unpack_field
magic-of_vendor h more fits =
    ap (λ t. VendorHeader.magic (vendor_header t))
      (unpack-encode vendor_boot_img_hdr_v3 (vendor_header_values h) more fits)

pub new_version : (v : Version34) → leb (number v) 2 ≡ false
new_version v3 = refl
new_version v4 = refl

pub &&_false : (b : Bool) → (b && false) ≡ false
&&_false true = refl
&&_false false = refl

pub vendor_magic_differs : bytes_eq (fit 8 vendor_boot_magic) boot_magic ≡ false
unfolding bytes_eq fit
vendor_magic_differs = refl

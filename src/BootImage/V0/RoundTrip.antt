-- ===== src/BootImage/V0/RoundTrip.antt =====
-- An image of version 0, 1 or 2 that `generate` wrote is read back by `_from_file`.
use avbroot.Prelude.{
  ℕ, ◌+◌, ◌≡◌, refl, sym, ap, Bool, true, Option, none, [], ◌++◌, length, leb, ltb, not, ◌&&◌,
  append-nil, arith,
}
use avbroot.Prelude.Text.{bytes_eq}
use avbroot.Result.{ok, value_error, wrong_format}
use avbroot.Stream.{Bytes, ◌⨟◌}
use avbroot.Stream.Laws.{
  Reads, Reads-bind, Reads-pure, Reads-require, Reads-pure_eq, Reads-cast, Writes, Writes-then,
  Writes-check,
}
use avbroot.Struct.{fit}
use avbroot.Struct.Laws.{
  encode, stored, length-encode, Reads-struct, Writes-struct, rstrip_nul-fit, fit_exact,
}
use avbroot.Padding.{zeros}
use avbroot.Padding.Laws.{pad, Reads-padding, Writes-padding}
use avbroot.BootImage.Format.{boot_magic, boot_img_hdr_v0}
use avbroot.BootImage.Section.{
  is_none, write_section, write_ramdisk, Sections, first_ramdisk, as_ramdisks,
}
use avbroot.BootImage.Section.Laws.{
  IsSection, IsOneRamdisk, section_bytes, Reads-section, Writes-section, Writes-ramdisk,
  first_ramdisk-IsSection, as_ramdisks-first, one_ramdisk,
}
use avbroot.BootImage.V0.{
  Extra, v0, v1, v2, version, BootV0, HeaderV0, header_v0, header_v0_values, read_header,
  read_sections, build, from_file, header_of, header_size_v0, write_extra_sections, check_sections,
  generate,
}
use avbroot.BootImage.V0.Laws.{
  ExtraFits, IsBootV0, extra_bytes, extra_read, Writes-extra, Reads-extra, Writes-extra_sections,
}

-- The sections, from the end of the header's padding on.
sections_bytes : ℕ → ℕ → Sections → Bytes
sections_bytes k p s =
    let kernel = section_bytes k p s.kernel in
    let p1 = p + length kernel in
    let ramdisk = section_bytes k p1 (first_ramdisk s.ramdisks) in
    let p2 = p1 + length ramdisk in
    let second = section_bytes k p2 s.second in
    let p3 = p2 + length second in
    let recovery_dtbo = section_bytes k p3 s.recovery_dtbo in
    let p4 = p3 + length recovery_dtbo in
    kernel ++ (ramdisk ++ (second ++ (recovery_dtbo ++ section_bytes k p4 s.dtb)))

IsSection-none : {o : Option Bytes} → o ≡ none → IsSection o
IsSection-none h = rw h tt

recovery_dtbo-IsSection : (s : Sections) (x : Extra) → ExtraFits s x → IsSection s.recovery_dtbo
recovery_dtbo-IsSection s v0 h = IsSection-none h.0
recovery_dtbo-IsSection s (v1 offset) h = h.1
recovery_dtbo-IsSection s (v2 offset addr) h = h.1

dtb-IsSection : (s : Sections) (x : Extra) → ExtraFits s x → IsSection s.dtb
dtb-IsSection s v0 h = IsSection-none h.1
dtb-IsSection s (v1 offset) h = IsSection-none h.0
dtb-IsSection s (v2 offset addr) h = h.0

abbrev stored_header : BootV0 → HeaderV0
stored_header img = header_v0 (stored boot_img_hdr_v0 (header_v0_values (header_of img)))

module _ (img : BootV0) (valid : IsBootV0 img) where
  same_sections :
      (s : Sections)
      → s.bootconfig ≡ none
      → IsOneRamdisk s.ramdisks
      → record {
        kernel = s.kernel;
        ramdisks = as_ramdisks (first_ramdisk s.ramdisks);
        second = s.second;
        recovery_dtbo = s.recovery_dtbo;
        dtb = s.dtb;
        bootconfig = none;
      }
        ≡ s
  same_sections s hb hr =
      λ i. record s { ramdisks = as_ramdisks-first s.ramdisks hr i; bootconfig = sym hb i }

  Reads-sections :
      (p : ℕ)
      → Reads
          (read_sections (stored_header img) (extra_read img.sections img.extra))
          p
          (sections_bytes valid.page_bits p img.sections)
          img.sections
  unfolding read_sections sections_bytes
  Reads-sections p =
      let k = valid.page_bits in
      let page = valid.page in
      let x = valid.extra in
      Reads-bind _ (Reads-section k img.page_size _ page img.kernel valid.kernel) (
        Reads-bind _
          (Reads-section k img.page_size _ page (first_ramdisk img.ramdisks)
            (first_ramdisk-IsSection img.ramdisks valid.ramdisks))
          (Reads-bind _ (Reads-section k img.page_size _ page img.second valid.second) (
            Reads-bind _
              (Reads-section k img.page_size _ page img.recovery_dtbo
                (recovery_dtbo-IsSection img.sections img.extra x))
              (Reads-cast (append-nil _) (
                Reads-bind _
                  (Reads-section k img.page_size _ page img.dtb
                    (dtb-IsSection img.sections img.extra x))
                  (Reads-pure_eq _ _
                    (same_sections img.sections valid.bootconfig valid.ramdisks)))))))

  build-stored : build (stored_header img) img.extra img.sections ≡ img
  build-stored = λ i. record img {
    name = (rstrip_nul-fit 16 img.name valid.name_fits valid.name_stripped) i;
    cmdline = (rstrip_nul-fit 512 img.cmdline valid.cmdline_fits valid.cmdline_stripped) i;
    id = (fit_exact 32 img.id valid.id_size) i;
    extra_cmdline =
        (rstrip_nul-fit 1024 img.extra_cmdline valid.extra_cmdline_fits
            valid.extra_cmdline_stripped)
          i;
  }

  header_bytes : Bytes
  header_bytes = encode boot_img_hdr_v0 (header_v0_values (header_of img))

  header_end : 0 + length header_bytes ≡ header_size_v0
  unfolding header_bytes
  header_end = omega (arith, length-encode boot_img_hdr_v0 (header_v0_values (header_of img)))

  -- The whole image, from the start of the file.
  image_bytes : Bytes
  image_bytes =
      let p1 = 0 + length header_bytes in
      let extra = extra_bytes img.sections img.extra in
      let p2 = p1 + length extra in
      let padding = zeros (pad valid.page_bits p2) in
      header_bytes
      ++ (extra ++ (padding ++ sections_bytes valid.page_bits (p2 + length padding) img.sections))

  Writes-sections :
      (p : ℕ)
      → Writes
          (write_section img.page_size img.kernel
            ⨟ write_ramdisk img.page_size img.ramdisks
            ⨟ write_section img.page_size img.second
            ⨟ write_extra_sections img.page_size img.sections img.extra)
          p
          (sections_bytes valid.page_bits p img.sections)
  unfolding sections_bytes
  Writes-sections p =
      let k = valid.page_bits in
      let page = valid.page in
      Writes-then (Writes-section k img.page_size _ page img.kernel valid.kernel) (
        Writes-then (Writes-ramdisk k img.page_size _ page img.ramdisks valid.ramdisks) (
          Writes-then (Writes-section k img.page_size _ page img.second valid.second)
            (Writes-extra_sections img.sections img.extra k img.page_size _ page valid.extra)))

  allowed_dtbo :
      (s : Sections) (x : Extra)
      → ExtraFits s x
      → not (ltb (version x) 1 && not (is_none s.recovery_dtbo)) ≡ true
  allowed_dtbo s v0 h = ap (λ o. not (not (is_none o))) h.0
  allowed_dtbo s (v1 offset) h = refl
  allowed_dtbo s (v2 offset addr) h = refl

  allowed_dtb :
      (s : Sections) (x : Extra)
      → ExtraFits s x
      → not (ltb (version x) 2 && not (is_none s.dtb)) ≡ true
  allowed_dtb s v0 h = ap (λ o. not (not (is_none o))) h.1
  allowed_dtb s (v1 offset) h = ap (λ o. not (not (is_none o))) h.0
  allowed_dtb s (v2 offset addr) h = refl

  Writes-generate : Writes (generate img) 0 image_bytes
  unfolding generate check_sections image_bytes header_bytes
  Writes-generate = Writes-check value_error (one_ramdisk img.ramdisks valid.ramdisks) (
      Writes-check value_error (ap is_none valid.bootconfig) (
        Writes-check value_error (allowed_dtbo img.sections img.extra valid.extra) (
          Writes-check value_error (allowed_dtb img.sections img.extra valid.extra) (
            Writes-then (Writes-struct boot_img_hdr_v0 _ 0 valid.header) (
              Writes-then (Writes-extra img.sections img.extra _ valid.extra)
                (Writes-then (Writes-padding valid.page_bits _ valid.page) (Writes-sections _)))))))

  Reads-header : Reads read_header 0 header_bytes (stored_header img)
  unfolding read_header header_bytes
  Reads-header = Reads-cast (append-nil _) (
      Reads-bind _ (Reads-struct boot_img_hdr_v0 (header_v0_values (header_of img)) 0 valid.header)
        (Reads-pure _ _))

  magic_known : bytes_eq (fit 8 boot_magic) boot_magic ≡ true
  unfolding fit bytes_eq
  magic_known = refl

  version_known : (x : Extra) → leb (version x) 2 ≡ true
  version_known v0 = refl
  version_known (v1 offset) = refl
  version_known (v2 offset addr) = refl

  Reads-from_file : Reads from_file 0 image_bytes img
  unfolding from_file image_bytes
  Reads-from_file = Reads-bind _ Reads-header (
      Reads-require wrong_format _ magic_known (
        Reads-require wrong_format _ (version_known img.extra) (
          Reads-bind _ (Reads-extra img.sections img.extra _ valid.extra header_end) (
            Reads-bind _ (Reads-padding valid.page_bits _ valid.page) (
              Reads-cast (append-nil _)
                (Reads-bind _ (Reads-sections _) (Reads-pure_eq _ _ build-stored)))))))

  -- An image that the format can hold is read back as it was, whatever stands behind it in the file and
  -- whether or not the file can seek; the reader ends at the image's end.
  pub boot_v0_round_trip :
      (rest : Bytes) (seekable : Bool)
      → (out : Bytes) × (generate img [] ≡ ok out)
        × (from_file (record { bytes = out ++ rest; pos = 0; seekable = seekable })
            ≡ ok (img, record { bytes = out ++ rest; pos = 0 + length out; seekable = seekable }))
  boot_v0_round_trip rest seekable = (
    image_bytes,
    Writes.at Writes-generate [] refl,
    Reads.at Reads-from_file (record { bytes = image_bytes ++ rest; pos = 0; seekable = seekable })
        rest refl refl,
  )

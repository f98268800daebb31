-- ===== src/BootImage/V3/Laws.antt =====
-- An image of version 3 or 4 that `generate` wrote is read back by `_from_file`.
use avbroot.Prelude.{
  ℕ, ◌+◌, ◌≤◌, ◌<◌, ◌≡◌, refl, sym, ap, ◌∙◌, Bool, true, none, [], ◌++◌, length, append-nil,
  length-append, length-replicate, arith, ==_iff,
}
use avbroot.Prelude.Text.{bytes_eq}
use avbroot.Result.{ok, value_error, wrong_format}
use native.Mathlib.Nat.{add-zero}
use avbroot.Stream.{Bytes}
use avbroot.Stream.Laws.{
  Reads, Reads-bind, Reads-pure, Reads-require, Reads-lift, Reads-tell, Reads-pure_eq,
  Reads-require_end, Reads-cast, Reads-seek, Reads-silent, Reads-last, Writes, Writes-then,
  Writes-skip, Writes-check,
}
use avbroot.Struct.{calcsize, fit, rstrip_nul}
use avbroot.Struct.Laws.{
  Fits, encode, stored, length-encode, Reads-struct, Writes-struct, rstrip_nul-fit, fit_exact,
}
use avbroot.Padding.{zeros}
use avbroot.Padding.Laws.{pad, page-le-padded, pad_again, Reads-padding, Writes-padding}
use avbroot.BootImage.Format.{boot_magic, v3_page_size, boot_img_hdr_v3, boot_img_hdr_v4_extra}
use avbroot.BootImage.Section.{is_none, first_ramdisk}
use avbroot.BootImage.Section.Laws.{
  IsSection, IsOneRamdisk, section_bytes, section_aligned, one_ramdisk, Reads-section,
  Writes-section, Writes-ramdisk, first_ramdisk-IsSection, as_ramdisks-first,
}
use avbroot.BootImage.Version.{Version34, v3, v4, version_of-number}
use avbroot.BootImage.V3.{
  BootV3, HeaderV3, header_v3, header_v3_values, read_signature_size, check_header_size,
  skip_signature, read_header, build, from_file, header_size_of, header_of, write_signature_size,
  check_sections, generate,
}

-- An image that the format can hold. The command line ends in no null byte and fits its field.
pub record IsBootV3 (img : BootV3) : Type 0 where
  pub header : Fits boot_img_hdr_v3 (header_v3_values (header_of img))
  pub reserved_size : length img.reserved ≡ 16
  pub cmdline_fits : length img.cmdline ≤ 1536
  pub cmdline_stripped : rstrip_nul img.cmdline ≡ img.cmdline
  pub kernel : IsSection img.kernel
  pub ramdisks : IsOneRamdisk img.ramdisks
  pub second : img.second ≡ none
  pub recovery_dtbo : img.recovery_dtbo ≡ none
  pub dtb : img.dtb ≡ none
  pub bootconfig : img.bootconfig ≡ none

signature_bytes : Version34 → Bytes
signature_bytes v3 = []
signature_bytes v4 = encode boot_img_hdr_v4_extra (0, tt)

Writes-signature :
    (v : Version34) (pos : ℕ) → Writes (write_signature_size v) pos (signature_bytes v)
unfolding write_signature_size signature_bytes
Writes-signature v3 pos = Writes-skip pos
Writes-signature v4 pos = Writes-struct boot_img_hdr_v4_extra (0, tt) pos (omega arith)

Reads-signature :
    (v : Version34) (pos : ℕ) → Reads (read_signature_size v) pos (signature_bytes v) 0
unfolding read_signature_size signature_bytes
Reads-signature v3 pos = Reads-pure 0 pos
Reads-signature v4 pos =
    Reads-cast (append-nil _)
      (Reads-bind _ (Reads-struct boot_img_hdr_v4_extra (0, tt) pos (omega arith)) (Reads-pure 0 _))

length-signature :
    (v : Version34) → calcsize boot_img_hdr_v3 + length (signature_bytes v) ≡ header_size_of v
unfolding signature_bytes
length-signature v3 = refl
length-signature v4 = omega (arith, length-encode boot_img_hdr_v4_extra (0, tt))

Reads-check : (n pos : ℕ) → pos ≡ n → Reads (check_header_size n) pos [] tt
unfolding check_header_size
Reads-check n pos h = Reads-tell _ (Reads-require_end value_error pos ((==_iff pos n).1 h))

-- Behind the last section nothing is left to skip: the signature is empty and the position aligned.
Reads-skip_signature :
    (v : Version34) (pos : ℕ) → pad 12 pos ≡ 0 → Reads (skip_signature v 0) pos [] tt
unfolding skip_signature
Reads-skip_signature v3 pos h = Reads-pure tt pos
Reads-skip_signature v4 pos h =
    Reads-cast (append-nil _ ∙ ap zeros (ap (pad 12) (add-zero pos) ∙ h)) (
      Reads-bind _ (Reads-seek 0 pos [] refl)
        (Reads-bind _ (Reads-padding 12 _ refl) (Reads-pure tt _)))

abbrev stored_header : BootV3 → HeaderV3
stored_header img = header_v3 (stored boot_img_hdr_v3 (header_v3_values (header_of img)))

module _ (img : BootV3) (valid : IsBootV3 img) where
  build-stored :
      build (stored_header img) img.header_version img.kernel (first_ramdisk img.ramdisks) ≡ img
  build-stored = λ i. record img {
    sections = record {
      kernel = img.kernel;
      ramdisks = as_ramdisks-first img.ramdisks valid.ramdisks i;
      second = (sym valid.second) i;
      recovery_dtbo = (sym valid.recovery_dtbo) i;
      dtb = (sym valid.dtb) i;
      bootconfig = (sym valid.bootconfig) i;
    };
    reserved = (fit_exact 16 img.reserved valid.reserved_size) i;
    cmdline = (rstrip_nul-fit 1536 img.cmdline valid.cmdline_fits valid.cmdline_stripped) i;
  }

  header_bytes : Bytes
  header_bytes = encode boot_img_hdr_v3 (header_v3_values (header_of img))

  header_size_pos : (v : Version34) → 0 < header_size_of v
  header_size_pos v3 = omega arith
  header_size_pos v4 = omega arith

  header_end :
      0 + length header_bytes + length (signature_bytes img.header_version)
      ≡ header_size_of img.header_version
  unfolding header_bytes
  header_end = omega (
    arith,
    length-encode boot_img_hdr_v3 (header_v3_values (header_of img)),
    length-signature img.header_version,
  )

  abbrev after_header : ℕ
  after_header = 0 + length header_bytes + length (signature_bytes img.header_version)

  abbrev header_padding : Bytes
  header_padding = zeros (pad 12 after_header)

  abbrev kernel_at : ℕ
  kernel_at = after_header + length header_padding

  abbrev ramdisk_at : ℕ
  ramdisk_at = kernel_at + length (section_bytes 12 kernel_at img.kernel)

  -- The whole image, from the start of the file.
  pub image_bytes : Bytes
  image_bytes =
      header_bytes
      ++ (signature_bytes img.header_version
          ++ (header_padding
              ++ (section_bytes 12 kernel_at img.kernel
                  ++ section_bytes 12 ramdisk_at (first_ramdisk img.ramdisks))))

  pub Writes-generate : Writes (generate img) 0 image_bytes
  unfolding generate check_sections image_bytes header_bytes
  Writes-generate = Writes-check value_error (one_ramdisk img.ramdisks valid.ramdisks) (
      Writes-check value_error (ap is_none valid.second) (
        Writes-check value_error (ap is_none valid.recovery_dtbo) (
          Writes-check value_error (ap is_none valid.dtb) (
            Writes-check value_error (ap is_none valid.bootconfig) (
              Writes-then (Writes-struct boot_img_hdr_v3 _ 0 valid.header) (
                Writes-then (Writes-signature img.header_version _) (
                  Writes-then (Writes-padding 12 _ refl) (
                    Writes-then (Writes-section 12 v3_page_size _ refl img.kernel valid.kernel)
                      (Writes-ramdisk 12 v3_page_size _ refl img.ramdisks valid.ramdisks)))))))))

  Reads-header : Reads read_header 0 header_bytes (stored_header img)
  unfolding read_header header_bytes
  Reads-header = Reads-cast (append-nil _) (
      Reads-bind _ (Reads-struct boot_img_hdr_v3 (header_v3_values (header_of img)) 0 valid.header)
        (Reads-pure _ _))

  magic_known : bytes_eq (fit 8 boot_magic) boot_magic ≡ true
  unfolding fit bytes_eq
  magic_known = refl

  -- The position behind the ramdisk is at a page boundary.
  end_aligned :
      pad 12 (ramdisk_at + length (section_bytes 12 ramdisk_at (first_ramdisk img.ramdisks))) ≡ 0
  end_aligned =
      let padding : kernel_at ≡ after_header + pad 12 after_header =
        ap (λ n. after_header + n) (length-replicate (pad 12 after_header) 0) in
      section_aligned 12 ramdisk_at (first_ramdisk img.ramdisks)
        (section_aligned 12 kernel_at img.kernel (ap (pad 12) padding ∙ pad_again 12 after_header))

  pub Reads-from_file : Reads from_file 0 image_bytes img
  unfolding from_file image_bytes
  Reads-from_file = Reads-bind _ Reads-header (
      Reads-require wrong_format _ magic_known (
        Reads-lift img.header_version _ (version_of-number img.header_version) (
          Reads-bind _ (Reads-signature img.header_version _) (
            Reads-silent _ (Reads-check _ _ header_end) (
              Reads-bind _ (Reads-padding 12 _ refl) (
                Reads-bind _ (Reads-section 12 v3_page_size _ refl img.kernel valid.kernel) (
                  Reads-last _
                    (Reads-section 12 v3_page_size _ refl (first_ramdisk img.ramdisks)
                      (first_ramdisk-IsSection img.ramdisks valid.ramdisks))
                    (Reads-silent _ (Reads-skip_signature img.header_version _ end_aligned)
                      (Reads-pure_eq _ _ build-stored)))))))))

  page_long : 4096 ≤ length image_bytes
  unfolding image_bytes
  page_long =
      let kernel = section_bytes 12 kernel_at img.kernel in
      let rest = kernel ++ section_bytes 12 ramdisk_at (first_ramdisk img.ramdisks) in
      let signature = signature_bytes img.header_version in
      let nonempty : 0 < after_header = rw header_end (header_size_pos img.header_version) in
      omega (
        arith,
        page-le-padded 12 after_header nonempty,
        length-append header_bytes (signature ++ (header_padding ++ rest)),
        length-append signature (header_padding ++ rest),
        length-append header_padding rest,
        length-replicate {A = ℕ} (pad 12 after_header) 0,
      )

  -- The image begins with the header, and the padding brings it to a whole page.
  pub image_shape :
      (more : Bytes) × (image_bytes
        ≡ encode boot_img_hdr_v3 (header_v3_values (header_of img)) ++ more)
      × (4096 ≤ length image_bytes)
  unfolding image_bytes header_bytes
  image_shape = (
    signature_bytes img.header_version
        ++ (header_padding
            ++ (section_bytes 12 kernel_at img.kernel
                ++ section_bytes 12 ramdisk_at (first_ramdisk img.ramdisks))),
    refl,
    page_long,
  )

  pub boot_v3_written : generate img [] ≡ ok image_bytes
  boot_v3_written = Writes.at Writes-generate [] refl

  pub boot_v3_loads :
      (rest : Bytes) (seekable : Bool)
      → from_file (record { bytes = image_bytes ++ rest; pos = 0; seekable = seekable })
        ≡ ok (
          img,
          record { bytes = image_bytes ++ rest; pos = 0 + length image_bytes; seekable = seekable },
        )
  boot_v3_loads rest seekable =
      Reads.at Reads-from_file
        (record { bytes = image_bytes ++ rest; pos = 0; seekable = seekable }) rest refl refl

  -- An image that the format can hold is read back as it was, whatever stands behind it in the file; the
  -- reader ends at the image's end.
  pub boot_v3_round_trip :
      (rest : Bytes) (seekable : Bool)
      → (out : Bytes) × (generate img [] ≡ ok out)
        × (from_file (record { bytes = out ++ rest; pos = 0; seekable = seekable })
            ≡ ok (img, record { bytes = out ++ rest; pos = 0 + length out; seekable = seekable }))
  boot_v3_round_trip rest seekable = (image_bytes, boot_v3_written, boot_v3_loads rest seekable)

-- ===== src/BootImage/Vendor/RoundTrip.antt =====
-- A vendor boot image of version 3 or 4 that `generate` wrote is read back by `_from_file`.
use avbroot.Prelude.{
  ℕ, ◌+◌, ◌≤◌, ◌<◌, ◌^◌, ◌≡◌, refl, sym, ap, ◌∙◌, Bool, true, List, [], ◌∷◌, ◌++◌, length, leb,
  append_assoc, length-append, arith, ==_iff,
}
use avbroot.Prelude.Text.{bytes_eq}
use avbroot.Result.{ok, value_error, wrong_format}
use avbroot.Stream.{Bytes, Writer}
use avbroot.Stream.Laws.{
  Reads, Reads-pure, Reads-pure_eq, Reads-last, Writes, Writes-then, Writes-check, drop_behind,
}
use avbroot.Stream.Random.{
  ReadsIn, ReadsIn-Reads, ReadsIn-bind, ReadsIn-silent, ReadsIn-last, ReadsIn-require, ReadsIn-lift,
  ReadsIn-tell,
}
use avbroot.Struct.{fit}
use avbroot.Struct.Laws.{encode, stored, length-encode, Reads-struct, Writes-struct, rstrip_nul-fit}
use avbroot.Padding.{zeros}
use avbroot.Padding.Laws.{pad, Reads-padding, Writes-padding}
use avbroot.BootImage.Format.{vendor_boot_magic, vendor_boot_img_hdr_v3}
use avbroot.BootImage.Section.{Sections, is_none}
use avbroot.BootImage.Section.Laws.{section_bytes, Reads-section, Writes-section}
use avbroot.BootImage.Vendor.{
  Kind, single, table, VendorBoot, VendorHeader, vendor_header, vendor_header_values, read_header,
  build, from_file, total_length, header_size_of, header_of, check_kind, check_sections, generate,
}
use avbroot.BootImage.Vendor.Table.{ramdisks_bytes, Writes-ramdisks}
use avbroot.BootImage.Vendor.Laws.{
  IsSingle, KindFits, IsVendorBoot, version34, number-version34, sizes_bytes, Writes-sizes,
  Reads-sizes, length-sizes, Reads-check, Reads-big, HoldsRamdisks, tail_bytes, tail_of,
  Writes-tail, Reads-tail,
}

abbrev stored_header : VendorBoot → VendorHeader
stored_header img =
    vendor_header (stored vendor_boot_img_hdr_v3 (vendor_header_values (header_of img)))

module _ (img : VendorBoot) (valid : IsVendorBoot img) where
  build-stored : build (stored_header img) img.dtb (tail_of img.sections img.kind) ≡ img
  build-stored = λ i. record img {
    sections = record {
      kernel = (sym valid.kernel) i;
      ramdisks = img.ramdisks;
      second = (sym valid.second) i;
      recovery_dtbo = (sym valid.recovery_dtbo) i;
      dtb = img.dtb;
      bootconfig = img.bootconfig;
    };
    cmdline = (rstrip_nul-fit 2048 img.cmdline valid.cmdline_fits valid.cmdline_stripped) i;
    name = (rstrip_nul-fit 16 img.name valid.name_fits valid.name_stripped) i;
  }

  header_bytes : Bytes
  header_bytes = encode vendor_boot_img_hdr_v3 (vendor_header_values (header_of img))

  abbrev after_header : ℕ
  after_header = 0 + length header_bytes + length (sizes_bytes img.sections img.kind)

  header_end : after_header ≡ header_size_of img.kind
  unfolding header_bytes
  header_end = omega (
    arith,
    length-encode vendor_boot_img_hdr_v3 (vendor_header_values (header_of img)),
    length-sizes img.sections img.kind,
  )

  abbrev header_padding : Bytes
  header_padding = zeros (pad valid.page_bits after_header)

  abbrev ramdisk_base : ℕ
  ramdisk_base = after_header + length header_padding

  abbrev blob : Bytes
  blob = ramdisks_bytes img.ramdisks

  abbrev blob_padding : Bytes
  blob_padding = zeros (pad valid.page_bits (ramdisk_base + length blob))

  abbrev dtb_at : ℕ
  dtb_at = ramdisk_base + length blob + length blob_padding

  abbrev dtb_bytes : Bytes
  dtb_bytes = section_bytes valid.page_bits dtb_at img.dtb

  behind_blob : Bytes
  behind_blob =
      blob_padding
      ++ (dtb_bytes ++ tail_bytes valid.page_bits (dtb_at + length dtb_bytes) img.sections img.kind)

  -- The whole image, from the start of the file.
  pub image_bytes : Bytes
  image_bytes =
      header_bytes
      ++ (sizes_bytes img.sections img.kind ++ (header_padding ++ (blob ++ behind_blob)))

  total_fits : total_length img.ramdisks < 2 ^ 32
  total_fits = valid.header.1.1.1.1.1.0

  Writes-kind :
      (s : Sections) (x : Kind) (w : Writer) {pos : ℕ} {c : Bytes}
      → KindFits s x
      → Writes w pos c
      → Writes (check_kind s x w) pos c
  unfolding check_kind
  Writes-kind s single w h r =
      Writes-check value_error (single_one s.ramdisks h.0)
        (Writes-check value_error (ap is_none h.1) r)
    where
      single_one : (rs : List Bytes) → IsSingle rs → leb (length rs) 1 ≡ true
      single_one [] h = absurd h
      single_one (r ∷ []) h = refl
      single_one (r ∷ r' ∷ rs) h = absurd h
  Writes-kind s (table metas) w h r = Writes-check value_error ((==_iff _ _).1 h.0) r

  pub Writes-generate : Writes (generate img) 0 image_bytes
  unfolding generate check_sections image_bytes behind_blob header_bytes
  Writes-generate = Writes-kind img.sections img.kind _ valid.kind (
      Writes-check value_error (ap is_none valid.second) (
        Writes-check value_error (ap is_none valid.recovery_dtbo) (
          Writes-then (Writes-struct vendor_boot_img_hdr_v3 _ 0 valid.header) (
            Writes-then (Writes-sizes img.sections img.kind _ valid.kind) (
              Writes-then (Writes-padding valid.page_bits _ valid.page) (
                Writes-then (Writes-ramdisks img.ramdisks _) (
                  Writes-then (Writes-padding valid.page_bits _ valid.page) (
                    Writes-then
                      (Writes-section valid.page_bits img.page_size _ valid.page img.dtb valid.dtb)
                      (Writes-tail img.sections img.kind valid.page_bits img.page_size _ valid.page
                        total_fits valid.kind)))))))))

  Reads-header : Reads read_header 0 header_bytes (stored_header img)
  unfolding read_header header_bytes
  Reads-header =
      Reads-last _
        (Reads-struct vendor_boot_img_hdr_v3 (vendor_header_values (header_of img)) 0 valid.header)
        (Reads-pure _ _)

  magic_known : bytes_eq (fit 8 vendor_boot_magic) vendor_boot_magic ≡ true
  unfolding fit bytes_eq
  magic_known = refl

  Reads-from_file : ReadsIn (HoldsRamdisks ramdisk_base img.ramdisks) from_file 0 image_bytes img
  unfolding from_file image_bytes behind_blob
  Reads-from_file = ReadsIn-bind _ (ReadsIn-Reads Reads-header) (
      ReadsIn-require wrong_format _ magic_known (
        ReadsIn-lift (version34 img.kind) _ (number-version34 img.kind) (
          ReadsIn-bind _ (ReadsIn-Reads (Reads-sizes img.sections img.kind _ valid.kind)) (
            ReadsIn-silent _ (ReadsIn-Reads (Reads-check _ _ header_end)) (
              ReadsIn-bind _ (ReadsIn-Reads (Reads-padding valid.page_bits _ valid.page)) (
                ReadsIn-tell _ (
                  ReadsIn-bind _ (ReadsIn-Reads (Reads-big img.sections img.kind _ valid.kind)) (
                    ReadsIn-bind _ (ReadsIn-Reads (Reads-padding valid.page_bits _ valid.page)) (
                      ReadsIn-bind _
                        (ReadsIn-Reads (
                          Reads-section valid.page_bits img.page_size _ valid.page img.dtb
                            valid.dtb))
                        (ReadsIn-last _
                          (Reads-tail img.sections img.kind (stored_header img) valid.page_bits
                            ramdisk_base _ valid.page refl total_fits valid.kind)
                          (ReadsIn-Reads (Reads-pure_eq _ _ build-stored))))))))))))

  -- The ramdisks stand where the table's offsets count from.
  image-HoldsRamdisks :
      (rest : Bytes) → HoldsRamdisks ramdisk_base img.ramdisks (image_bytes ++ rest)
  unfolding image_bytes
  image-HoldsRamdisks rest =
      let s = sizes_bytes img.sections img.kind in
      let bytes = image_bytes ++ rest in
      let tail1 = header_padding ++ (blob ++ behind_blob) in
      let step1 =
        drop_behind (record { bytes = bytes; pos = 0; seekable = true }) header_bytes
          ((s ++ tail1) ++ rest) (append_assoc header_bytes (s ++ tail1) rest) in
      let step2 =
        drop_behind (record { bytes = bytes; pos = 0 + length header_bytes; seekable = true }) s
          (tail1 ++ rest) (step1 ∙ append_assoc s tail1 rest) in
      let step3 =
        drop_behind (record { bytes = bytes; pos = after_header; seekable = true }) header_padding
          ((blob ++ behind_blob) ++ rest)
          (step2 ∙ append_assoc header_padding (blob ++ behind_blob) rest) in
      (behind_blob ++ rest, step3 ∙ append_assoc blob behind_blob rest)

  -- The image begins with the header.
  pub image_shape :
      (more : Bytes) × (image_bytes
        ≡ encode vendor_boot_img_hdr_v3 (vendor_header_values (header_of img)) ++ more)
      × (2112 ≤ length image_bytes)
  unfolding image_bytes header_bytes
  image_shape = (
    sizes_bytes img.sections img.kind ++ (header_padding ++ (blob ++ behind_blob)),
    refl,
    omega (
      arith,
      length-append header_bytes
          (sizes_bytes img.sections img.kind ++ (header_padding ++ (blob ++ behind_blob))),
      length-encode vendor_boot_img_hdr_v3 (vendor_header_values (header_of img)),
    ),
  )

  pub vendor_boot_written : generate img [] ≡ ok image_bytes
  vendor_boot_written = Writes.at Writes-generate [] refl

  pub vendor_boot_loads :
      (rest : Bytes) (seekable : Bool)
      → from_file (record { bytes = image_bytes ++ rest; pos = 0; seekable = seekable })
        ≡ ok (
          img,
          record { bytes = image_bytes ++ rest; pos = 0 + length image_bytes; seekable = seekable },
        )
  vendor_boot_loads rest seekable =
      ReadsIn.at Reads-from_file
        (record { bytes = image_bytes ++ rest; pos = 0; seekable = seekable }) rest
        (image-HoldsRamdisks rest) refl refl

  -- An image that the format can hold is read back as it was, whatever stands behind it in the file; the
  -- reader ends at the image's end.
  pub vendor_boot_round_trip :
      (rest : Bytes) (seekable : Bool)
      → (out : Bytes) × (generate img [] ≡ ok out)
        × (from_file (record { bytes = out ++ rest; pos = 0; seekable = seekable })
            ≡ ok (img, record { bytes = out ++ rest; pos = 0 + length out; seekable = seekable }))
  vendor_boot_round_trip rest seekable =
      (image_bytes, vendor_boot_written, vendor_boot_loads rest seekable)

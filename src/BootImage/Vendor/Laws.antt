-- ===== src/BootImage/Vendor/Laws.antt =====
-- What a vendor boot image needs, and the parts that differ between versions 3 and 4.
use avbroot.Prelude.{
  ℕ, ◌+◌, ◌*◌, ◌≤◌, ◌<◌, ◌^◌, ◌≡◌, refl, sym, ap, ◌∙◌, none, List, [], ◌∷◌, ◌++◌, length, drop, All,
  arith, ==_iff,
}
use native.Mathlib.Nat.{add-zero}
use avbroot.Result.{ok, value_error}
use avbroot.Stream.{Bytes, move}
use avbroot.Stream.Laws.{
  Reads, Reads-bind, Reads-pure, Reads-require, Reads-tell, Reads-pure_eq, Reads-require_end,
  Reads-seek, Reads-last, Reads-read_exact, Writes, Writes-then, Writes-skip,
}
use avbroot.Stream.Random.{ReadsIn, ReadsIn-Reads, ReadsIn-bind, ReadsIn-last, ReadsIn-require}
use avbroot.Struct.{Values, calcsize, rstrip_nul}
use avbroot.Struct.Laws.{Fits, encode, length-encode, Reads-struct, Writes-struct}
use avbroot.Padding.{zeros}
use avbroot.Padding.Laws.{pad, Reads-padding, Writes-padding}
use avbroot.BootImage.Format.{vendor_boot_img_hdr_v3, vendor_boot_img_hdr_v4_extra}
use avbroot.BootImage.Section.{Sections, size_of}
use avbroot.BootImage.Section.Laws.{IsSection, section_bytes, Reads-section, Writes-section}
use avbroot.BootImage.Version.{Version34, v3, v4, version_of, version_of-number}
use avbroot.BootImage.Vendor.{
  RamdiskMeta, Kind, single, table, version, VendorBoot, VendorHeader, vendor_header_values,
  TableSizes, table_sizes, entry_size_v4, read_table_sizes, check_header_size, read_big_ramdisk,
  empty_table, read_table, Tail, read_tail, total_length, header_size_of, header_of,
  write_table_sizes, write_tail,
}
use avbroot.BootImage.Vendor.Table.{
  IsMeta, ramdisks_bytes, table_bytes, length-ramdisks, Writes-table, read_table_lem,
}

-- Version 3 has exactly one ramdisk, which may be empty.
abbrev pub IsSingle : List Bytes → Type 0
IsSingle [] = ⊥
IsSingle (r ∷ []) = Unit
IsSingle (r ∷ r' ∷ rs) = ⊥

abbrev pub KindFits : Sections → Kind → Type 0
KindFits s single = IsSingle s.ramdisks × (s.bootconfig ≡ none)
KindFits s (table metas) =
    (length s.ramdisks ≡ length metas)
    × All IsMeta metas
    × IsSection s.bootconfig
    × (size_of s.bootconfig < 2 ^ 32)
    × (length s.ramdisks * entry_size_v4 < 2 ^ 32)

-- An image that the format can hold.
pub record IsVendorBoot (img : VendorBoot) : Type 0 where
  pub page_bits : ℕ
  pub page : img.page_size ≡ 2 ^ page_bits
  pub header : Fits vendor_boot_img_hdr_v3 (vendor_header_values (header_of img))
  pub cmdline_fits : length img.cmdline ≤ 2048
  pub cmdline_stripped : rstrip_nul img.cmdline ≡ img.cmdline
  pub name_fits : length img.name ≤ 16
  pub name_stripped : rstrip_nul img.name ≡ img.name
  pub kernel : img.kernel ≡ none
  pub second : img.second ≡ none
  pub recovery_dtbo : img.recovery_dtbo ≡ none
  pub dtb : IsSection img.dtb
  pub kind : KindFits img.sections img.kind

abbrev pub version34 : Kind → Version34
version34 single = v3
version34 (table metas) = v4

pub number-version34 : (x : Kind) → version_of (version x) ≡ ok (version34 x)
number-version34 single = version_of-number v3
number-version34 (table metas) = version_of-number v4

abbrev pub sizes_values : Sections → Values vendor_boot_img_hdr_v4_extra
sizes_values s = (
  length s.ramdisks * entry_size_v4,
  (length s.ramdisks, (entry_size_v4, (size_of s.bootconfig, tt))),
)

abbrev pub sizes_of : Sections → Kind → TableSizes
sizes_of s single = record { table_size = 0; entry_num = 0; entry_size = 0; bootconfig_size = 0 }
sizes_of s (table metas) = table_sizes (sizes_values s)

pub sizes_bytes : Sections → Kind → Bytes
sizes_bytes s single = []
sizes_bytes s (table metas) = encode vendor_boot_img_hdr_v4_extra (sizes_values s)

pub entry_num-lt : (n : ℕ) → n * entry_size_v4 < 2 ^ 32 → n < 2 ^ 32
entry_num-lt n h = omega arith

pub Writes-sizes :
    (s : Sections) (x : Kind) (pos : ℕ)
    → KindFits s x
    → Writes (write_table_sizes s x) pos (sizes_bytes s x)
unfolding write_table_sizes sizes_bytes
Writes-sizes s single pos h = Writes-skip pos
Writes-sizes s (table metas) pos h =
    Writes-struct vendor_boot_img_hdr_v4_extra (sizes_values s) pos (omega arith)

pub Reads-sizes :
    (s : Sections) (x : Kind) (pos : ℕ)
    → KindFits s x
    → Reads (read_table_sizes (version34 x)) pos (sizes_bytes s x) (sizes_of s x)
unfolding read_table_sizes sizes_bytes
Reads-sizes s single pos h = Reads-pure _ pos
Reads-sizes s (table metas) pos h =
    Reads-last _ (Reads-struct vendor_boot_img_hdr_v4_extra (sizes_values s) pos (omega arith)) (
      Reads-require value_error _ refl
        (Reads-require value_error _ ((==_iff _ _).1 refl) (Reads-pure _ _)))

pub length-sizes :
    (s : Sections) (x : Kind)
    → calcsize vendor_boot_img_hdr_v3 + length (sizes_bytes s x) ≡ header_size_of x
unfolding sizes_bytes
length-sizes s single = refl
length-sizes s (table metas) =
    omega (arith, length-encode vendor_boot_img_hdr_v4_extra (sizes_values s))

pub Reads-check : (n pos : ℕ) → pos ≡ n → Reads (check_header_size n) pos [] tt
unfolding check_header_size
Reads-check n pos h = Reads-tell _ (Reads-require_end value_error pos ((==_iff pos n).1 h))

abbrev pub big_of : Kind → List Bytes → List Bytes
big_of single rs = rs
big_of (table metas) rs = []

pub Reads-single :
    (rs : List Bytes) (pos : ℕ)
    → IsSingle rs
    → Reads (read_big_ramdisk v3 (total_length rs)) pos (ramdisks_bytes rs) rs
unfolding read_big_ramdisk ramdisks_bytes total_length
Reads-single [] pos h = absurd h
Reads-single (r ∷ []) pos h =
    Reads-bind _ (Reads-read_exact _ pos r (sym (add-zero (length r)))) (Reads-pure (r ∷ []) _)
Reads-single (r ∷ r' ∷ rs) pos h = absurd h

pub Reads-big :
    (s : Sections) (x : Kind) (pos : ℕ)
    → KindFits s x
    → Reads
        (read_big_ramdisk (version34 x) (total_length s.ramdisks))
        pos
        (ramdisks_bytes s.ramdisks)
        (big_of x s.ramdisks)
Reads-big s single pos h = Reads-single s.ramdisks pos h.0
Reads-big s (table metas) pos h =
    unfold read_big_ramdisk in
    Reads-last _ (Reads-seek (total_length s.ramdisks) pos _ (length-ramdisks s.ramdisks))
      (Reads-pure [] _)

-- What the file holds from the ramdisks on.
abbrev pub HoldsRamdisks : ℕ → List Bytes → Bytes → Type 0
HoldsRamdisks base rs bytes = (behind : Bytes) × (drop base bytes ≡ ramdisks_bytes rs ++ behind)

pub tail_bytes : ℕ → ℕ → Sections → Kind → Bytes
tail_bytes k p s single = []
tail_bytes k p s (table metas) =
    let entries = table_bytes 0 s.ramdisks metas in
    let padding = zeros (pad k (p + length entries)) in
    entries ++ (padding ++ section_bytes k (p + length entries + length padding) s.bootconfig)

abbrev pub tail_of : Sections → Kind → Tail
tail_of s x = record { kind = x; ramdisks = s.ramdisks; bootconfig = s.bootconfig }

pub Writes-tail :
    (s : Sections) (x : Kind) (k page_size pos : ℕ)
    → page_size ≡ 2 ^ k
    → total_length s.ramdisks < 2 ^ 32
    → KindFits s x
    → Writes (write_tail page_size s x) pos (tail_bytes k pos s x)
unfolding write_tail tail_bytes
Writes-tail s single k page_size pos p b h = Writes-skip pos
Writes-tail s (table metas) k page_size pos p b h =
    Writes-then (Writes-table s.ramdisks metas 0 pos h.1 (omega arith))
      (Writes-then (Writes-padding k _ p) (Writes-section k page_size _ p s.bootconfig h.2))

pub Reads-table :
    (s : Sections) (metas : List RamdiskMeta) (base pos : ℕ)
    → total_length s.ramdisks < 2 ^ 32
    → KindFits s (table metas)
    → ReadsIn
        (HoldsRamdisks base s.ramdisks)
        (read_table base (length s.ramdisks) empty_table)
        pos
        (table_bytes 0 s.ramdisks metas)
        (record { ramdisks = s.ramdisks; metas = metas; total_size = total_length s.ramdisks })
Reads-table s metas base pos b h = record {
  at = λ f rest q hp d.
      let sum : 0 + total_length s.ramdisks ≡ total_length s.ramdisks = omega arith in
      read_table_lem s.ramdisks metas base 0 empty_table f rest q.0 h.0 h.1 (omega arith) d
        (ap (λ n. drop n f.bytes) (add-zero base) ∙ q.1)
      ∙ ap
          (λ n. ok (
            record { ramdisks = s.ramdisks; metas = metas; total_size = n },
            move f (length (table_bytes 0 s.ramdisks metas)),
          ))
          sum;
}

pub Reads-tail :
    (s : Sections) (x : Kind) (hd : VendorHeader) (k base pos : ℕ)
    → hd.page_size ≡ 2 ^ k
    → hd.vendor_ramdisk_size ≡ total_length s.ramdisks
    → total_length s.ramdisks < 2 ^ 32
    → KindFits s x
    → ReadsIn
        (HoldsRamdisks base s.ramdisks)
        (read_tail (version34 x) hd (sizes_of s x) base (big_of x s.ramdisks))
        pos
        (tail_bytes k pos s x)
        (tail_of s x)
unfolding read_tail tail_bytes
Reads-tail s single hd k base pos p v b h = ReadsIn-Reads (
    Reads-pure_eq _ pos
      (ap (λ o. record { kind = single; ramdisks = s.ramdisks; bootconfig = o }) (sym h.1)))
Reads-tail s (table metas) hd k base pos p v b h =
    ReadsIn-bind _ (Reads-table s metas base pos b h) (
      ReadsIn-require value_error _ ((==_iff _ _).1 (sym v)) (
        ReadsIn-bind _ (ReadsIn-Reads (Reads-padding k _ p)) (
          ReadsIn-last _ (ReadsIn-Reads (Reads-section k hd.page_size _ p s.bootconfig h.2))
            (ReadsIn-Reads (Reads-pure _ _)))))

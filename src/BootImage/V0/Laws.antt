-- ===== src/BootImage/V0/Laws.antt =====
-- What an image of version 0, 1 or 2 needs, and the parts of its header that depend on the version.
use avbroot.Prelude.{
  ℕ, ◌+◌, ◌≤◌, ◌<◌, ◌^◌, ◌≡◌, sym, ap, ◌∙◌, Option, none, [], ◌++◌, length, append-nil, arith,
  ==_iff,
}
use mathlib.Core.Path.{ap₂}
use avbroot.Result.{value_error}
use avbroot.Stream.{Bytes}
use avbroot.Stream.Laws.{
  Reads, Reads-bind, Reads-pure, Reads-tell, Reads-pure_eq, Reads-require_end, Reads-cast, Writes,
  Writes-then, Writes-skip, Writes-cast,
}
use avbroot.Struct.{rstrip_nul}
use avbroot.Struct.Laws.{Fits, encode, length-encode, Reads-struct, Writes-struct}
use avbroot.BootImage.Format.{boot_img_hdr_v0, boot_img_hdr_v1_extra, boot_img_hdr_v2_extra}
use avbroot.BootImage.Section.{Sections, size_of}
use avbroot.BootImage.Section.Laws.{IsSection, IsOneRamdisk, section_bytes, Writes-section}
use avbroot.BootImage.V0.{
  Extra, v0, v1, v2, version, BootV0, header_v0_values, ExtraRead, check_header_size, read_extra,
  header_of, header_size_v0, header_size_of, write_extra, write_extra_sections,
}

abbrev pub v1_values : Sections → ℕ → ℕ → ℕ × (ℕ × (ℕ × Unit {0}))
v1_values s offset header_size = (size_of s.recovery_dtbo, (offset, (header_size, tt)))

abbrev pub v2_values : Sections → ℕ → ℕ × (ℕ × Unit {0})
v2_values s addr = (size_of s.dtb, (addr, tt))

-- The optional sections are those of the version, and their header fields are in range.
abbrev pub ExtraFits : Sections → Extra → Type 0
ExtraFits s v0 = (s.recovery_dtbo ≡ none) × (s.dtb ≡ none)
ExtraFits s (v1 offset) =
    (s.dtb ≡ none)
    × IsSection s.recovery_dtbo
    × (size_of s.recovery_dtbo < 2 ^ 32)
    × (offset < 2 ^ 64)
ExtraFits s (v2 offset addr) =
    IsSection s.dtb
    × IsSection s.recovery_dtbo
    × (size_of s.recovery_dtbo < 2 ^ 32)
    × (offset < 2 ^ 64)
    × (size_of s.dtb < 2 ^ 32)
    × (addr < 2 ^ 64)

-- An image that the format can hold. The texts end in no null byte and fit their fields.
pub record IsBootV0 (img : BootV0) : Type 0 where
  pub page_bits : ℕ
  pub page : img.page_size ≡ 2 ^ page_bits
  pub header : Fits boot_img_hdr_v0 (header_v0_values (header_of img))
  pub name_fits : length img.name ≤ 16
  pub name_stripped : rstrip_nul img.name ≡ img.name
  pub cmdline_fits : length img.cmdline ≤ 512
  pub cmdline_stripped : rstrip_nul img.cmdline ≡ img.cmdline
  pub id_size : length img.id ≡ 32
  pub extra_cmdline_fits : length img.extra_cmdline ≤ 1024
  pub extra_cmdline_stripped : rstrip_nul img.extra_cmdline ≡ img.extra_cmdline
  pub kernel : IsSection img.kernel
  pub ramdisks : IsOneRamdisk img.ramdisks
  pub second : IsSection img.second
  pub bootconfig : img.bootconfig ≡ none
  pub extra : ExtraFits img.sections img.extra

pub extra_bytes : Sections → Extra → Bytes
extra_bytes s v0 = []
extra_bytes s (v1 offset) =
    encode boot_img_hdr_v1_extra (v1_values s offset (header_size_of (v1 offset)))
extra_bytes s (v2 offset addr) =
    encode boot_img_hdr_v1_extra (v1_values s offset (header_size_of (v2 offset addr)))
    ++ encode boot_img_hdr_v2_extra (v2_values s addr)

abbrev pub extra_read : Sections → Extra → ExtraRead
extra_read s extra = record {
  extra = extra;
  recovery_dtbo_size = size_of s.recovery_dtbo;
  dtb_size = size_of s.dtb;
}

pub Writes-extra :
    (s : Sections) (x : Extra) (pos : ℕ)
    → ExtraFits s x
    → Writes (write_extra s x) pos (extra_bytes s x)
unfolding write_extra extra_bytes
Writes-extra s v0 pos h = Writes-skip pos
Writes-extra s (v1 offset) pos h = Writes-struct boot_img_hdr_v1_extra _ pos (omega arith)
Writes-extra s (v2 offset addr) pos h =
    Writes-then (Writes-struct boot_img_hdr_v1_extra _ pos (omega arith))
      (Writes-struct boot_img_hdr_v2_extra _ _ (omega arith))

pub Reads-check : (n pos : ℕ) → pos ≡ n → Reads (check_header_size n) pos [] tt
unfolding check_header_size
Reads-check n pos h = Reads-tell _ (Reads-require_end value_error pos ((==_iff pos n).1 h))

pub Reads-extra :
    (s : Sections) (x : Extra) (pos : ℕ)
    → ExtraFits s x
    → pos ≡ header_size_v0
    → Reads (read_extra (version x)) pos (extra_bytes s x) (extra_read s x)
unfolding read_extra extra_bytes
Reads-extra s v0 pos h e = Reads-pure_eq _ pos (λ i. record {
  extra = v0;
  recovery_dtbo_size = size_of ((sym h.0) i);
  dtb_size = size_of ((sym h.1) i);
})
Reads-extra s (v1 offset) pos h e =
    let vs = v1_values s offset (header_size_of (v1 offset)) in
    let end = length-encode boot_img_hdr_v1_extra vs in
    Reads-cast (append-nil _) (
      Reads-bind _ (Reads-struct boot_img_hdr_v1_extra vs pos (omega arith)) (
        Reads-bind _ (Reads-check _ _ (omega arith)) (
          Reads-pure_eq _ _ (
            ap
              (λ o. record {
                extra = v1 offset;
                recovery_dtbo_size = size_of s.recovery_dtbo;
                dtb_size = size_of o;
              })
              (sym h.0)))))
Reads-extra s (v2 offset addr) pos h e =
    let vs = v1_values s offset (header_size_of (v2 offset addr)) in
    let ws = v2_values s addr in
    let end = length-encode boot_img_hdr_v1_extra vs in
    let more_end = length-encode boot_img_hdr_v2_extra ws in
    Reads-bind _ (Reads-struct boot_img_hdr_v1_extra vs pos (omega arith)) (
      Reads-cast (append-nil _) (
        Reads-bind _ (Reads-struct boot_img_hdr_v2_extra ws _ (omega arith))
          (Reads-bind _ (Reads-check _ _ (omega arith)) (Reads-pure _ _))))

pub no_section : {o : Option Bytes} (k pos : ℕ) → o ≡ none → section_bytes k pos o ≡ []
unfolding section_bytes
no_section k pos h = ap (section_bytes k pos) h

pub Writes-extra_sections :
    (s : Sections) (x : Extra) (k page_size pos : ℕ)
    → page_size ≡ 2 ^ k
    → ExtraFits s x
    → Writes (write_extra_sections page_size s x) pos (
        section_bytes k pos s.recovery_dtbo
        ++ section_bytes k (pos + length (section_bytes k pos s.recovery_dtbo)) s.dtb)
unfolding write_extra_sections
Writes-extra_sections s v0 k page_size pos p h =
    Writes-cast (sym (ap₂ ◌++◌ (no_section k pos h.0) (no_section k _ h.1))) (Writes-skip pos)
Writes-extra_sections s (v1 offset) k page_size pos p h =
    Writes-cast
      (sym (ap (λ c. section_bytes k pos s.recovery_dtbo ++ c) (no_section k _ h.0) ∙ append-nil _))
      (Writes-section k page_size pos p s.recovery_dtbo h.1)
Writes-extra_sections s (v2 offset addr) k page_size pos p h =
    Writes-then (Writes-section k page_size pos p s.recovery_dtbo h.1)
      (Writes-section k page_size _ p s.dtb h.0)

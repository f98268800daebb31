-- ===== src/BootImage/Section.antt =====
-- avbroot/formats/bootimage.py: `BootImage`'s sections, and the statements that read or write one of
-- them with the padding behind it, which the three classes repeat for each section.
pub mod Laws
use avbroot.Prelude.{
  ℕ, zero, suc, ◌+◌, ◌≤◌, Bool, true, false, Option, none, some, List, [], ◌∷◌, length, leb,
}
use avbroot.Stream.{Bytes, Parser, ◌>>=◌, ◌>>◌, pure, read_exact, Writer, ◌⨟◌, write, skip}
use avbroot.Padding.{read_skip, write_padding}

-- The attributes that `BootImage.__init__` sets.
pub record Sections : Type 0 where
  pub kernel : Option Bytes
  pub ramdisks : List Bytes
  pub second : Option Bytes
  pub recovery_dtbo : Option Bytes
  pub dtb : Option Bytes
  pub bootconfig : Option Bytes

abbrev pub is_none {ℓ} : {A : Type ℓ} → Option A → Bool
is_none none = true
is_none (some a) = false

-- `len(section) if section else 0`
abbrev pub size_of : Option Bytes → ℕ
size_of none = 0
size_of (some d) = length d

-- `self.ramdisks[0]`, if there is one.
abbrev pub first_ramdisk : List Bytes → Option Bytes
first_ramdisk [] = none
first_ramdisk (r ∷ rs) = some r

abbrev pub as_ramdisks : Option Bytes → List Bytes
as_ramdisks none = []
as_ramdisks (some r) = r ∷ []

-- `if size > 0: section = read_exact(f, size); read_skip(f, page_size)`
unfoldable pub read_section : ℕ → ℕ → Parser (Option Bytes)
read_section zero page_size = pure none
read_section (suc n) page_size = do
  section ← read_exact (suc n)
  read_skip page_size
  pure (some section)

unfoldable pub write_padded : ℕ → Bytes → Writer
write_padded page_size d = write d ⨟ write_padding page_size

-- `if section: f.write(section); padding.write(f, page_size)`; an empty section counts as none.
unfoldable pub write_section : ℕ → Option Bytes → Writer
write_section page_size none = skip
write_section page_size (some []) = skip
write_section page_size (some (b ∷ d)) = write_padded page_size (b ∷ d)

-- `if self.ramdisks: f.write(self.ramdisks[0]); padding.write(f, page_size)`
unfoldable pub write_ramdisk : ℕ → List Bytes → Writer
write_ramdisk page_size [] = skip
write_ramdisk page_size (r ∷ rs) = write_padded page_size r

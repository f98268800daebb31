-- ===== src/BootImage/Section/Laws.antt =====
-- A section that was written is read back.
use avbroot.Prelude.{
  ℕ, ◌+◌, ◌^◌, ◌≡◌, refl, ap, Option, none, some, List, [], ◌∷◌, ◌++◌, length, append-nil,
  length-append, length-replicate, arith, leb, true, ◌∙◌,
}
use native.Mathlib.Nat.{add-zero}
use avbroot.Stream.{Bytes}
use avbroot.Stream.Laws.{
  Reads, Reads-bind, Reads-pure, Reads-read_exact, Reads-cast, Writes, Writes-then, Writes-write,
  Writes-skip,
}
use avbroot.Padding.{zeros}
use avbroot.Padding.Laws.{pad_again, pad, Reads-padding, Writes-padding}
use avbroot.BootImage.Section.{
  size_of, first_ramdisk, as_ramdisks, read_section, write_padded, write_section, write_ramdisk,
}

-- A section is absent or not empty.
abbrev pub IsSection : Option Bytes → Type 0
IsSection none = Unit
IsSection (some []) = ⊥
IsSection (some (b ∷ d)) = Unit

-- There is no ramdisk, or one that is not empty.
abbrev pub IsOneRamdisk : List Bytes → Type 0
IsOneRamdisk [] = Unit
IsOneRamdisk ([] ∷ rs) = ⊥
IsOneRamdisk ((b ∷ d) ∷ []) = Unit
IsOneRamdisk ((b ∷ d) ∷ r ∷ rs) = ⊥

unfoldable pub padded_bytes : ℕ → ℕ → Bytes → Bytes
padded_bytes k pos d = d ++ zeros (pad k (pos + length d))

-- The bytes of a section at a position, in pages of `2 ^ k`.
unfoldable pub section_bytes : ℕ → ℕ → Option Bytes → Bytes
section_bytes k pos none = []
section_bytes k pos (some d) = padded_bytes k pos d

module _ (k page_size pos : ℕ) (page : page_size ≡ 2 ^ k) where
  Writes-padded : (d : Bytes) → Writes (write_padded page_size d) pos (padded_bytes k pos d)
  unfolding write_padded padded_bytes
  Writes-padded d = Writes-then (Writes-write d pos) (Writes-padding k _ page)

  pub Writes-section :
      (o : Option Bytes)
      → IsSection o
      → Writes (write_section page_size o) pos (section_bytes k pos o)
  unfolding write_section section_bytes
  Writes-section none h = Writes-skip pos
  Writes-section (some []) h = absurd h
  Writes-section (some (b ∷ d)) h = Writes-padded (b ∷ d)

  pub Reads-section :
      (o : Option Bytes)
      → IsSection o
      → Reads (read_section (size_of o) page_size) pos (section_bytes k pos o) o
  unfolding read_section section_bytes padded_bytes
  Reads-section none h = Reads-pure none pos
  Reads-section (some []) h = absurd h
  Reads-section (some (b ∷ d)) h = Reads-bind _ (Reads-read_exact _ pos (b ∷ d) refl) (
      Reads-cast (append-nil _)
        (Reads-bind _ (Reads-padding k _ page) (Reads-pure (some (b ∷ d)) _)))

  pub Writes-ramdisk :
      (rs : List Bytes)
      → IsOneRamdisk rs
      → Writes (write_ramdisk page_size rs) pos (section_bytes k pos (first_ramdisk rs))
  unfolding write_ramdisk section_bytes
  Writes-ramdisk [] h = Writes-skip pos
  Writes-ramdisk ([] ∷ rs) h = absurd h
  Writes-ramdisk ((b ∷ d) ∷ []) h = Writes-padded (b ∷ d)
  Writes-ramdisk ((b ∷ d) ∷ r ∷ rs) h = absurd h

pub first_ramdisk-IsSection : (rs : List Bytes) → IsOneRamdisk rs → IsSection (first_ramdisk rs)
first_ramdisk-IsSection [] h = tt
first_ramdisk-IsSection ([] ∷ rs) h = absurd h
first_ramdisk-IsSection ((b ∷ d) ∷ []) h = tt
first_ramdisk-IsSection ((b ∷ d) ∷ r ∷ rs) h = absurd h

pub as_ramdisks-first : (rs : List Bytes) → IsOneRamdisk rs → as_ramdisks (first_ramdisk rs) ≡ rs
as_ramdisks-first [] h = refl
as_ramdisks-first ([] ∷ rs) h = absurd h
as_ramdisks-first ((b ∷ d) ∷ []) h = refl
as_ramdisks-first ((b ∷ d) ∷ r ∷ rs) h = absurd h

pub one_ramdisk : (rs : List Bytes) → IsOneRamdisk rs → leb (length rs) 1 ≡ true
one_ramdisk [] h = refl
one_ramdisk ([] ∷ rs) h = absurd h
one_ramdisk ((b ∷ d) ∷ []) h = refl
one_ramdisk ((b ∷ d) ∷ r ∷ rs) h = absurd h

-- A section that begins at a page boundary ends at one.
pub section_aligned :
    (k pos : ℕ) (o : Option Bytes)
    → pad k pos ≡ 0
    → pad k (pos + length (section_bytes k pos o)) ≡ 0
unfolding section_bytes padded_bytes
section_aligned k pos none h = ap (pad k) (add-zero pos) ∙ h
section_aligned k pos (some d) h =
    let whole : pos + length (d ++ zeros (pad k (pos + length d)))
        ≡ pos + length d + pad k (pos + length d) =
      omega (
        arith,
        length-append d (zeros (pad k (pos + length d))),
        length-replicate {A = ℕ} (pad k (pos + length d)) 0,
      ) in
    ap (pad k) whole ∙ pad_again k (pos + length d)

-- ===== src/Cpio/Entry/Laws.antt =====
-- An entry is written as its bytes, and its bytes are read as the entry.
use avbroot.Prelude.{
  ℕ, ◌+◌, ◌<◌, ◌≡◌, ◌⊎◌, inl, inr, refl, ap, true, ◌||◌, [], ◌∷◌, ◌++◌, length, length-append,
  arith, append-nil,
}
use avbroot.Prelude.Int.{ℤ, pos, IsU32}
use avbroot.Prelude.Text.{bytes_eq}
use avbroot.Result.{value_error, exception}
use avbroot.Stream.{Bytes}
use avbroot.Stream.Laws.{
  Reads, Reads-bind, Reads-pure, Reads-require, Reads-read_exact, Reads-cast, Writes, Writes-then,
  Writes-write, Writes-check,
}
use avbroot.Padding.{zeros}
use avbroot.Padding.Laws.{pad, Reads-padding, Writes-padding}
use avbroot.Cpio.Hex.Laws.{field_chunk, Reads-int, Writes-int}
use native.Mathlib.Numerals.{add-one}
use avbroot.Cpio.Entry.{
  CpioEntry, magic_new, magic_new_crc, read_sized, read_name, read_header, read_entry, write_header,
  write_entry,
}

-- An entry that the format can hold: a known magic, 32-bit fields, and the sizes that the setters keep.
pub record IsStorable (e : CpioEntry) : Type 0 where
  pub magic : (e.magic ≡ magic_new) ⊎ (e.magic ≡ magic_new_crc)
  pub namesize : e.namesize ≡ pos (length e.name + 1)
  pub filesize : e.filesize ≡ pos (length e.content)
  pub ino_u32 : IsU32 e.ino
  pub mode_u32 : IsU32 e.mode
  pub uid_u32 : IsU32 e.uid
  pub gid_u32 : IsU32 e.gid
  pub nlink_u32 : IsU32 e.nlink
  pub mtime_u32 : IsU32 e.mtime
  pub filesize_u32 : IsU32 e.filesize
  pub dev_maj_u32 : IsU32 e.dev_maj
  pub dev_min_u32 : IsU32 e.dev_min
  pub rdev_maj_u32 : IsU32 e.rdev_maj
  pub rdev_min_u32 : IsU32 e.rdev_min
  pub namesize_u32 : IsU32 e.namesize
  pub chksum_u32 : IsU32 e.chksum

header_bytes : CpioEntry → Bytes
header_bytes e =
    e.magic
    ++ (field_chunk e.ino
        ++ (field_chunk e.mode
            ++ (field_chunk e.uid
                ++ (field_chunk e.gid
                    ++ (field_chunk e.nlink
                        ++ (field_chunk e.mtime
                            ++ (field_chunk e.filesize
                                ++ (field_chunk e.dev_maj
                                    ++ (field_chunk e.dev_min
                                        ++ (field_chunk e.rdev_maj
                                            ++ (field_chunk e.rdev_min
                                                ++ (field_chunk e.namesize
                                                    ++ field_chunk e.chksum))))))))))))

body_bytes : ℕ → Bytes → Bytes → Bytes
body_bytes p name content =
    let p1 = p + length name + 1 in
    let p2 = p1 + length (zeros (pad 2 p1)) in
    name ++ ((0 ∷ []) ++ (zeros (pad 2 p1) ++ (content ++ zeros (pad 2 (p2 + length content)))))

-- The bytes of an entry that begins at position `p`.
pub entry_bytes : ℕ → CpioEntry → Bytes
entry_bytes p e = header_bytes e ++ body_bytes (p + length (header_bytes e)) e.name e.content

length-magic : {e : CpioEntry} → IsStorable e → length e.magic ≡ 6
length-magic {e} s = go s.magic
  where
    go : (e.magic ≡ magic_new) ⊎ (e.magic ≡ magic_new_crc) → length e.magic ≡ 6
    go (inl h) = ap length h
    go (inr h) = ap length h

known_magic :
    {e : CpioEntry}
    → IsStorable e
    → (bytes_eq e.magic magic_new || bytes_eq e.magic magic_new_crc) ≡ true
unfolding bytes_eq
known_magic {e} s = go s.magic
  where
    go :
        (e.magic ≡ magic_new) ⊎ (e.magic ≡ magic_new_crc)
        → (bytes_eq e.magic magic_new || bytes_eq e.magic magic_new_crc) ≡ true
    go (inl h) = ap (λ m. bytes_eq m magic_new || bytes_eq m magic_new_crc) h
    go (inr h) = ap (λ m. bytes_eq m magic_new || bytes_eq m magic_new_crc) h

Writes-header : (e : CpioEntry) (p : ℕ) → IsStorable e → Writes (write_header e) p (header_bytes e)
unfolding write_header header_bytes
Writes-header e p s = Writes-check value_error (rw (length-magic s)) (
    Writes-then (Writes-write _ p) (
      Writes-then (Writes-int _ _ s.ino_u32) (
        Writes-then (Writes-int _ _ s.mode_u32) (
          Writes-then (Writes-int _ _ s.uid_u32) (
            Writes-then (Writes-int _ _ s.gid_u32) (
              Writes-then (Writes-int _ _ s.nlink_u32) (
                Writes-then (Writes-int _ _ s.mtime_u32) (
                  Writes-then (Writes-int _ _ s.filesize_u32) (
                    Writes-then (Writes-int _ _ s.dev_maj_u32) (
                      Writes-then (Writes-int _ _ s.dev_min_u32) (
                        Writes-then (Writes-int _ _ s.rdev_maj_u32) (
                          Writes-then (Writes-int _ _ s.rdev_min_u32) (
                            Writes-then (Writes-int _ _ s.namesize_u32)
                              (Writes-int _ _ s.chksum_u32))))))))))))))

abbrev header_only : CpioEntry → CpioEntry
header_only e = record e { name = []; content = [] }

Reads-header :
    (e : CpioEntry) (p : ℕ) → IsStorable e → Reads read_header p (header_bytes e) (header_only e)
unfolding read_header header_bytes
Reads-header e p s = Reads-bind _ (Reads-read_exact 6 p e.magic (length-magic s)) (
    Reads-require exception _ (known_magic s) (
      Reads-bind _ (Reads-int _ _ s.ino_u32) (
        Reads-bind _ (Reads-int _ _ s.mode_u32) (
          Reads-bind _ (Reads-int _ _ s.uid_u32) (
            Reads-bind _ (Reads-int _ _ s.gid_u32) (
              Reads-bind _ (Reads-int _ _ s.nlink_u32) (
                Reads-bind _ (Reads-int _ _ s.mtime_u32) (
                  Reads-bind _ (Reads-int _ _ s.filesize_u32) (
                    Reads-bind _ (Reads-int _ _ s.dev_maj_u32) (
                      Reads-bind _ (Reads-int _ _ s.dev_min_u32) (
                        Reads-bind _ (Reads-int _ _ s.rdev_maj_u32) (
                          Reads-bind _ (Reads-int _ _ s.rdev_min_u32) (
                            Reads-bind _ (Reads-int _ _ s.namesize_u32) (
                              Reads-cast (append-nil _) (
                                Reads-bind _ (Reads-int _ _ s.chksum_u32)
                                  (Reads-pure _ _))))))))))))))))

pub Writes-entry :
    (e : CpioEntry) (p : ℕ) → IsStorable e → Writes (write_entry e) p (entry_bytes p e)
unfolding write_entry entry_bytes body_bytes
Writes-entry e p s = Writes-then (Writes-header e p s) (
    Writes-then (Writes-write _ _) (
      Writes-then (Writes-write _ _) (
        Writes-then (Writes-padding 2 _ refl)
          (Writes-then (Writes-write _ _) (Writes-padding 2 _ refl)))))

Reads-name :
    (size : ℤ) (name : Bytes) (p : ℕ)
    → size ≡ pos (length name + 1)
    → Reads (read_name size) p name name
unfolding read_name
Reads-name size name p h = rw (h, add-one (length name)) (Reads-read_exact _ p name refl)

Reads-sized :
    (size : ℤ) (content : Bytes) (p : ℕ)
    → size ≡ pos (length content)
    → Reads (read_sized size) p content content
unfolding read_sized
Reads-sized size content p h = rw h (Reads-read_exact _ p content refl)

pub Reads-entry : (e : CpioEntry) (p : ℕ) → IsStorable e → Reads read_entry p (entry_bytes p e) e
unfolding read_entry entry_bytes body_bytes
Reads-entry e p s = Reads-bind _ (Reads-header e p s) (
    Reads-bind _ (Reads-name _ e.name _ s.namesize) (
      Reads-bind _ (Reads-read_exact 1 _ (0 ∷ []) refl) (
        Reads-bind _ (Reads-padding 2 _ refl) (
          Reads-bind _ (Reads-sized _ e.content _ s.filesize)
            (Reads-cast (append-nil _) (Reads-bind _ (Reads-padding 2 _ refl) (Reads-pure _ _)))))))

pub entry_bytes_pos : (e : CpioEntry) (p : ℕ) → IsStorable e → 0 < length (entry_bytes p e)
unfolding entry_bytes header_bytes
entry_bytes_pos e p s = omega (arith, length-magic s, length-append {0} {A = ℕ})

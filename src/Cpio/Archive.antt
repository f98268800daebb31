-- ===== src/Cpio/Archive.antt =====
-- avbroot/formats/cpio.py, `load` and `save`: whole archives.
pub mod Laws
pub mod Loads
pub mod RoundTrip
use avbroot.Prelude.{
  ℕ, zero, suc, ◌+◌, Bool, true, false, ◌&&◌, not, List, [], ◌∷◌, ◌++◌, length, ltb, ◌==◌,
  if◌then◌else◌, bit_and,
}
use avbroot.Prelude.Int.{ℤ, pos, negsuc}
use avbroot.Prelude.Text.{bytes_eq, bytes_le}
use avbroot.Result.{Result, ok, err, value_error, overflow_error, out_of_fuel}
use avbroot.Stream.{
  Bytes, InFile, Parser, ◌>>=◌, ◌>>◌, pure, raise, require, lift, Writer, ◌⨟◌, skip,
}
use avbroot.Padding.{write_padding}
use avbroot.Cpio.Entry.{CpioEntry, cpio_trailer, s_ifdir, new_trailer, read_entry, write_entry}

-- `stat.S_IFMT`, which refuses a negative mode.
unfoldable pub s_ifmt : ℤ → Result ℕ
s_ifmt (pos n) = ok (bit_and n 0o170000)
s_ifmt (negsuc n) = err overflow_error

abbrev pub has_links : ℤ → Bool
has_links (pos n) = ltb 1 n
has_links (negsuc n) = false

-- `stat.S_IFMT(entry.mode) != stat.S_IFDIR and entry.nlink > 1`, with the format given.
unfoldable pub is_hard_link : ℕ → CpioEntry → Bool
is_hard_link format e = not (format == s_ifdir) && has_links e.nlink

abbrev pub clear_inode : CpioEntry → CpioEntry
clear_inode e = record e { ino = pos 0 }

abbrev pub reassigned : Bool → CpioEntry → CpioEntry
reassigned reassign_inodes e = if reassign_inodes then clear_inode e else e

abbrev pub with_trailer : Bool → CpioEntry → List CpioEntry
with_trailer include_trailer e = if include_trailer then e ∷ [] else []

-- One round of the loop: the next entry, as it is kept.
unfoldable pub load_next : Bool → Parser CpioEntry
load_next reassign_inodes = do
  e ← read_entry
  format ← lift (s_ifmt e.mode)
  require (not (is_hard_link format e)) value_error
  pure (reassigned reassign_inodes e)

unfoldable pub load_loop : ℕ → Bool → Bool → List CpioEntry → Parser (List CpioEntry)
load_loop zero include_trailer reassign_inodes entries = raise out_of_fuel
load_loop (suc fuel) include_trailer reassign_inodes entries = do
  e ← load_next reassign_inodes
  elim (bytes_eq e.name cpio_trailer) [
    | true ↦ pure (entries ++ with_trailer include_trailer e)
    | false ↦ load_loop fuel include_trailer reassign_inodes (entries ++ (e ∷ []))
  ]

-- Each round reads more than one byte, so the file's length is fuel enough.
unfoldable pub load : Bool → Bool → Parser (List CpioEntry)
load include_trailer reassign_inodes f =
    load_loop (suc (length f.bytes)) include_trailer reassign_inodes [] f

-- `sorted(entries, key=lambda e: e.name)`, which is stable.
unfoldable pub insert_entry : CpioEntry → List CpioEntry → List CpioEntry
insert_entry e [] = e ∷ []
insert_entry e (x ∷ xs) =
    let rest = insert_entry e xs in if bytes_le e.name x.name then e ∷ x ∷ xs else x ∷ rest

unfoldable pub sort_entries : List CpioEntry → List CpioEntry
sort_entries [] = []
sort_entries (e ∷ es) = insert_entry e (sort_entries es)

abbrev pub first_inode : ℕ
first_inode = 300000

abbrev pub set_inode : ℕ → CpioEntry → CpioEntry
set_inode inode e = record e { ino = pos inode }

-- The loop over the entries, and the trailer behind them.
unfoldable pub write_entries : ℕ → List CpioEntry → Writer
write_entries inode [] = write_entry (set_inode inode new_trailer)
write_entries inode (e ∷ es) = write_entry (set_inode inode e) ⨟ write_entries (inode + 1) es

abbrev pub in_order : Bool → List CpioEntry → List CpioEntry
in_order sort entries = if sort then sort_entries entries else entries

unfoldable pub save : List CpioEntry → Bool → Bool → Writer
save entries sort pad_to_block_size =
    write_entries first_inode (in_order sort entries)
    ⨟ (if pad_to_block_size then write_padding 512 else skip)

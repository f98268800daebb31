-- ===== src/Cpio/Entry.antt =====
-- avbroot/formats/cpio.py, `CpioEntryNew`: one archive entry, its constructors and its two codecs.
pub mod Laws
use avbroot.Prelude.{
  ℕ, zero, suc, ◌+◌, Bool, true, false, ◌||◌, ◌&&◌, [], ◌∷◌, length, ltb, ◌==◌, if◌then◌else◌,
  bit_and,
}
use avbroot.Prelude.Int.{ℤ, pos, negsuc}
use avbroot.Prelude.Text.{codes, bytes_eq}
use avbroot.Result.{Result, ok, err, eof_error, value_error, exception, overflow_error}
use avbroot.Stream.{
  Bytes, Parser, ◌>>=◌, ◌>>◌, pure, raise, require, read_exact, Writer, ◌⨟◌, check, write,
}
use avbroot.Padding.{read_skip, write_padding}
use avbroot.Cpio.Hex.{read_int, write_int}
use Prim.Native.Nat.{bit_or}

abbrev pub magic_new : Bytes
magic_new = codes "070701"

abbrev pub magic_new_crc : Bytes
magic_new_crc = codes "070702"

abbrev pub cpio_trailer : Bytes
cpio_trailer = codes "TRAILER!!!"

abbrev pub s_iflnk : ℕ
s_iflnk = 0o120000

abbrev pub s_ifdir : ℕ
s_ifdir = 0o040000

abbrev pub s_ifreg : ℕ
s_ifreg = 0o100000

pub record CpioEntry : Type 0 where
  pub magic : Bytes
  pub ino : ℤ
  pub mode : ℤ
  pub uid : ℤ
  pub gid : ℤ
  pub nlink : ℤ
  pub mtime : ℤ
  pub filesize : ℤ
  pub dev_maj : ℤ
  pub dev_min : ℤ
  pub rdev_maj : ℤ
  pub rdev_min : ℤ
  pub namesize : ℤ
  pub chksum : ℤ
  pub name : Bytes
  pub content : Bytes

-- `CpioEntryNew()`
abbrev pub blank : CpioEntry
blank = record {
  magic = magic_new;
  ino = pos 0;
  mode = pos 0;
  uid = pos 0;
  gid = pos 0;
  nlink = pos 0;
  mtime = pos 0;
  filesize = pos 0;
  dev_maj = pos 0;
  dev_min = pos 0;
  rdev_maj = pos 0;
  rdev_min = pos 0;
  namesize = pos 0;
  chksum = pos 0;
  name = [];
  content = [];
}

-- The two property setters.
abbrev pub set_name : Bytes → CpioEntry → CpioEntry
set_name value e = record e { name = value; namesize = pos (length value + 1) }

abbrev pub set_content : Bytes → CpioEntry → CpioEntry
set_content value e = record e { content = value; filesize = pos (length value) }

unfoldable pub new_trailer : CpioEntry
new_trailer = set_name cpio_trailer (record blank { nlink = pos 1 })

abbrev is_empty : Bytes → Bool
is_empty [] = true
is_empty (c ∷ s) = false

-- `stat.S_IMODE`
abbrev s_imode : ℕ → ℕ
s_imode mode = bit_and mode 0o7777

unfoldable pub new_symlink : Bytes → Bytes → Result CpioEntry
new_symlink link_target name =
    if is_empty link_target
    then err value_error
    else if is_empty name
    then err value_error
    else ok (
        set_content link_target
          (set_name name (record blank { mode = pos (bit_or s_iflnk 0o777); nlink = pos 1 })))

unfoldable pub new_directory : Bytes → ℕ → Result CpioEntry
new_directory name perms =
    if is_empty name
    then err value_error
    else ok (
        set_name name (record blank { mode = pos (bit_or s_ifdir (s_imode perms)); nlink = pos 1 }))

unfoldable pub new_file : Bytes → ℕ → Bytes → Result CpioEntry
new_file name perms content =
    if is_empty name
    then err value_error
    else ok (
        set_content content (
          set_name name
            (record blank { mode = pos (bit_or s_ifreg (s_imode perms)); nlink = pos 1 })))

-- `read_exact(f, n)` for a signed size: a negative size makes `read` return another number of bytes
-- than was asked for.
unfoldable pub read_sized : ℤ → Parser Bytes
read_sized (pos n) = read_exact n
read_sized (negsuc n) = raise eof_error

-- `read_exact(f, namesize - 1)`
unfoldable pub read_name : ℤ → Parser Bytes
read_name (pos zero) = raise eof_error
read_name (pos (suc n)) = read_exact n
read_name (negsuc n) = raise eof_error

-- The magic and the integers, in the order of the header.
unfoldable pub read_header : Parser CpioEntry
read_header = do
  magic ← read_exact 6
  require (bytes_eq magic magic_new || bytes_eq magic magic_new_crc) exception
  ino ← read_int
  mode ← read_int
  uid ← read_int
  gid ← read_int
  nlink ← read_int
  mtime ← read_int
  filesize ← read_int
  dev_maj ← read_int
  dev_min ← read_int
  rdev_maj ← read_int
  rdev_min ← read_int
  namesize ← read_int
  chksum ← read_int
  pure (record {
    magic = magic;
    ino = ino;
    mode = mode;
    uid = uid;
    gid = gid;
    nlink = nlink;
    mtime = mtime;
    filesize = filesize;
    dev_maj = dev_maj;
    dev_min = dev_min;
    rdev_maj = rdev_maj;
    rdev_min = rdev_min;
    namesize = namesize;
    chksum = chksum;
    name = [];
    content = [];
  })

-- `CpioEntryNew(f)`
unfoldable pub read_entry : Parser CpioEntry
read_entry = do
  e ← read_header
  name ← read_name e.namesize
  read_exact 1
  read_skip 4
  content ← read_sized e.filesize
  read_skip 4
  pure (record e { name = name; content = content })

unfoldable pub write_header : CpioEntry → Writer
write_header e =
    check (length e.magic == 6) value_error
    ⨟ write e.magic
    ⨟ write_int e.ino
    ⨟ write_int e.mode
    ⨟ write_int e.uid
    ⨟ write_int e.gid
    ⨟ write_int e.nlink
    ⨟ write_int e.mtime
    ⨟ write_int e.filesize
    ⨟ write_int e.dev_maj
    ⨟ write_int e.dev_min
    ⨟ write_int e.rdev_maj
    ⨟ write_int e.rdev_min
    ⨟ write_int e.namesize
    ⨟ write_int e.chksum

-- `CpioEntryNew.write`
unfoldable pub write_entry : CpioEntry → Writer
write_entry e =
    write_header e
    ⨟ write e.name
    ⨟ write (0 ∷ [])
    ⨟ write_padding 4
    ⨟ write e.content
    ⨟ write_padding 4

-- ===== src/Cpio/Archive/RoundTrip.antt =====
-- `load` reads back the archive that `save` wrote.
use avbroot.Prelude.{
  ℕ, zero, suc, ◌+◌, ◌<◌, ◌^◌, ◌≡◌, inl, refl, ap, sym, Bool, true, false, not, List, [], ◌∷◌, ◌++◌,
  length, map, All, arith, append-nil, append_assoc, length-append, Bool-cases, inr,
}
use avbroot.Prelude.Text.{bytes_eq}
use avbroot.Result.{ok, value_error}
use avbroot.Stream.{Bytes}
use avbroot.Stream.Laws.{
  Reads, Reads-bind, Reads-pure, Reads-lift, Reads-require, Reads-cast, Writes, Writes-then,
  Writes-skip, Writes-cast,
}
use avbroot.Prelude.Text.{bytes_le}
use avbroot.Cpio.Entry.{CpioEntry, cpio_trailer, new_trailer}
use avbroot.Cpio.Entry.Laws.{IsStorable, entry_bytes, Reads-entry, Writes-entry, entry_bytes_pos}
use avbroot.Cpio.Archive.{
  s_ifmt, is_hard_link, clear_inode, load_next, load_loop, load, insert_entry, sort_entries,
  first_inode, set_inode, write_entries, save,
}

-- What `save` can store and `load` accepts: not the trailer's name, and not a hard link.
pub record IsSavable (e : CpioEntry) : Type 0 where
  pub storable : IsStorable (clear_inode e)
  pub not_trailer : bytes_eq e.name cpio_trailer ≡ false
  pub format : ℕ
  pub has_format : s_ifmt e.mode ≡ ok format
  pub no_hard_link : is_hard_link format e ≡ false

set_inode-IsStorable :
    (e : CpioEntry) (i : ℕ) → i < 2 ^ 32 → IsStorable (clear_inode e) → IsStorable (set_inode i e)
set_inode-IsStorable e i h s = record {
  magic = s.magic;
  namesize = s.namesize;
  filesize = s.filesize;
  ino_u32 = h;
  mode_u32 = s.mode_u32;
  uid_u32 = s.uid_u32;
  gid_u32 = s.gid_u32;
  nlink_u32 = s.nlink_u32;
  mtime_u32 = s.mtime_u32;
  filesize_u32 = s.filesize_u32;
  dev_maj_u32 = s.dev_maj_u32;
  dev_min_u32 = s.dev_min_u32;
  rdev_maj_u32 = s.rdev_maj_u32;
  rdev_min_u32 = s.rdev_min_u32;
  namesize_u32 = s.namesize_u32;
  chksum_u32 = s.chksum_u32;
}

trailer-IsStorable : (i : ℕ) → i < 2 ^ 32 → IsStorable (set_inode i new_trailer)
unfolding new_trailer
trailer-IsStorable i h = record {
  magic = inl refl;
  namesize = refl;
  filesize = refl;
  ino_u32 = h;
  mode_u32 = omega arith;
  uid_u32 = omega arith;
  gid_u32 = omega arith;
  nlink_u32 = omega arith;
  mtime_u32 = omega arith;
  filesize_u32 = omega arith;
  dev_maj_u32 = omega arith;
  dev_min_u32 = omega arith;
  rdev_maj_u32 = omega arith;
  rdev_min_u32 = omega arith;
  namesize_u32 = omega arith;
  chksum_u32 = omega arith;
}

archive_bytes : ℕ → ℕ → List CpioEntry → Bytes
archive_bytes p i [] = entry_bytes p (set_inode i new_trailer)
archive_bytes p i (e ∷ es) =
    entry_bytes p (set_inode i e)
    ++ archive_bytes (p + length (entry_bytes p (set_inode i e))) (i + 1) es

Writes-entries :
    (es : List CpioEntry) (p i : ℕ)
    → All IsSavable es
    → i + length es < 2 ^ 32
    → Writes (write_entries i es) p (archive_bytes p i es)
unfolding write_entries archive_bytes
Writes-entries [] p i s h = Writes-entry _ p (trailer-IsStorable i (omega arith))
Writes-entries (e ∷ es) p i (s, ss) h =
    Writes-then (Writes-entry _ p (set_inode-IsStorable e i (omega arith) s.storable))
      (Writes-entries es _ (i + 1) ss (omega arith))

Reads-next :
    (e : CpioEntry) (p i format : ℕ)
    → IsStorable (set_inode i e)
    → s_ifmt e.mode ≡ ok format
    → is_hard_link format e ≡ false
    → Reads (load_next true) p (entry_bytes p (set_inode i e)) (clear_inode e)
unfolding load_next is_hard_link
Reads-next e p i format s hf hl = Reads-cast (append-nil _) (
    Reads-bind _ (Reads-entry (set_inode i e) p s) (
      Reads-lift format _ hf
        (Reads-require value_error _ (ap not hl) (Reads-pure (clear_inode e) _))))

Reads-trailer :
    (i fuel p : ℕ) (done : List CpioEntry)
    → i < 2 ^ 32
    → Reads
        (load_loop (suc fuel) false true done)
        p
        (entry_bytes p (set_inode i new_trailer))
        (done ++ [])
unfolding load_loop s_ifmt is_hard_link new_trailer bytes_eq
Reads-trailer i fuel p done h = Reads-cast (append-nil _) (
    Reads-bind _ (Reads-next new_trailer p i 0 (trailer-IsStorable i h) refl refl)
      (Reads-pure (done ++ []) _))

Reads-loop :
    (es : List CpioEntry) (fuel p i : ℕ) (done : List CpioEntry)
    → All IsSavable es
    → i + length es < 2 ^ 32
    → length es < fuel
    → Reads (load_loop fuel false true done) p (archive_bytes p i es) (done ++ map clear_inode es)
unfolding load_loop archive_bytes
Reads-loop es zero p i done ss h hf = absurd (omega arith)
Reads-loop [] (suc fuel) p i done ss h hf = Reads-trailer i fuel p done (omega arith)
Reads-loop (e ∷ es) (suc fuel) p i done (s, ss) h hf =
    rw (← append_assoc done (clear_inode e ∷ []) (map clear_inode es)) (
      Reads-bind _
        (Reads-next e p i s.format (set_inode-IsStorable e i (omega arith) s.storable) s.has_format
          s.no_hard_link)
        (rw s.not_trailer (
          Reads-loop es fuel _ (i + 1) (done ++ (clear_inode e ∷ [])) ss (omega arith)
            (omega arith))))

length-lt-archive :
    (es : List CpioEntry) (p i : ℕ)
    → All IsSavable es
    → i + length es < 2 ^ 32
    → length es < length (archive_bytes p i es)
unfolding archive_bytes
length-lt-archive [] p i ss h = entry_bytes_pos _ p (trailer-IsStorable i (omega arith))
length-lt-archive (e ∷ es) p i (s, ss) h =
    let first = entry_bytes p (set_inode i e) in
    let rest = archive_bytes (p + length first) (i + 1) es in
    omega (
      arith,
      length-append first rest,
      entry_bytes_pos _ p (set_inode-IsStorable e i (omega arith) s.storable),
      length-lt-archive es (p + length first) (i + 1) ss (omega arith),
    )

All-insert :
    (e : CpioEntry) (es : List CpioEntry)
    → IsSavable e
    → All IsSavable es
    → All IsSavable (insert_entry e es)
unfolding insert_entry
All-insert e [] s ss = (s, ss)
All-insert e (x ∷ xs) s (t, ts) = elim (Bool-cases (bytes_le e.name x.name)) [
  | inl h ↦ rw h (s, (t, ts))
  | inr h ↦ rw h (t, All-insert e xs s ts)
]

All-sort : (es : List CpioEntry) → All IsSavable es → All IsSavable (sort_entries es)
unfolding sort_entries
All-sort [] s = tt
All-sort (e ∷ es) (s, ss) = All-insert e (sort_entries es) s (All-sort es ss)

length-insert : (e : CpioEntry) (es : List CpioEntry) → length (insert_entry e es) ≡ suc (length es)
unfolding insert_entry
length-insert e [] = refl
length-insert e (x ∷ xs) = ground (arith, length-insert e xs)

length-sort : (es : List CpioEntry) → length (sort_entries es) ≡ length es
unfolding sort_entries
length-sort [] = refl
length-sort (e ∷ es) = omega (arith, length-insert e (sort_entries es), length-sort es)

Writes-save :
    (es : List CpioEntry)
    → All IsSavable es
    → first_inode + length es < 2 ^ 32
    → Writes (save es true false) 0 (archive_bytes 0 first_inode (sort_entries es))
unfolding save
Writes-save es ss h = Writes-cast (append-nil _) (
    Writes-then (Writes-entries _ 0 first_inode (All-sort es ss) (omega (arith, length-sort es)))
      (Writes-skip _))

-- For fewer than 2^32 - 300000 entries with 32-bit fields and the sizes of their name and content,
-- none a hard link or named like the trailer, `save` with sorting and without block padding writes
-- an archive from which `load` reads the entries sorted by name, each as it was but for its inode
-- number, which is cleared; the file is read to its end.
pub load-save :
    (es : List CpioEntry) (seekable : Bool)
    → All IsSavable es
    → first_inode + length es < 2 ^ 32
    → (out : Bytes) × (save es true false [] ≡ ok out)
      × (load false true (record { bytes = out; pos = 0; seekable = seekable })
          ≡ ok (
            map clear_inode (sort_entries es),
            record { bytes = out; pos = 0 + length out; seekable = seekable },
          ))
unfolding load
load-save es seekable ss h =
    let sorted = sort_entries es in
    let out = archive_bytes 0 first_inode sorted in
    let room : first_inode + length sorted < 2 ^ 32 = omega (arith, length-sort es) in
    (
      out,
      Writes.at (Writes-save es ss h) [] refl,
      Reads.at
          (Reads-loop sorted (suc (length out)) 0 first_inode [] (All-sort es ss) room
            (omega (arith, length-lt-archive sorted 0 first_inode (All-sort es ss) room)))
          (record { bytes = out; pos = 0; seekable = seekable }) [] refl (sym (append-nil out)),
    )

-- ===== src/BootImage/Vendor/Table.antt =====
-- The ramdisk table of a vendor boot image of version 4: each entry names a place behind the header.
use avbroot.Prelude.{
  ℕ, ◌+◌, ◌≤◌, ◌<◌, ◌^◌, ◌≡◌, refl, sym, ap, ◌∙◌, true, List, [], ◌∷◌, ◌++◌, length, drop, All,
  append-nil, append_assoc, arith, length-append,
}
use native.Mathlib.Nat.{add-zero}
use avbroot.Result.{ok}
use avbroot.Stream.{Bytes, InFile, ◌>>=◌, move}
use avbroot.Stream.Laws.{
  Reads, Reads-pure_eq, Reads-read_exact, Writes, Writes-then, Writes-skip, Writes-write,
  drop_behind, pos_append,
}
use avbroot.Stream.Random.{bind_eq}
use avbroot.Struct.{Values, rstrip_nul}
use avbroot.Struct.Laws.{encode, stored, Reads-struct, Writes-struct, rstrip_nul-fit, fit_exact}
use avbroot.BootImage.Format.{vendor_ramdisk_table_entry_v4}
use avbroot.BootImage.Vendor.{
  RamdiskMeta, table_entry, TableRead, add_entry, read_at, read_table, total_length, write_ramdisks,
  write_table,
}

-- The metadata that a table entry can hold.
pub record IsMeta (m : RamdiskMeta) : Type 0 where
  pub type_fits : m.ramdisk_type < 2 ^ 32
  pub name_fits : length m.name ≤ 32
  pub name_stripped : rstrip_nul m.name ≡ m.name
  pub board_id_size : length m.board_id ≡ 64

abbrev entry_values : ℕ → Bytes → RamdiskMeta → Values vendor_ramdisk_table_entry_v4
entry_values offset r m = (length r, (offset, (m.ramdisk_type, (m.name, (m.board_id, tt)))))

abbrev entry_bytes : ℕ → Bytes → RamdiskMeta → Bytes
entry_bytes offset r m = encode vendor_ramdisk_table_entry_v4 (entry_values offset r m)

-- The ramdisks one after the other.
unfoldable pub ramdisks_bytes : List Bytes → Bytes
ramdisks_bytes [] = []
ramdisks_bytes (r ∷ rs) = r ++ ramdisks_bytes rs

unfoldable pub table_bytes : ℕ → List Bytes → List RamdiskMeta → Bytes
table_bytes offset (r ∷ rs) (m ∷ ms) =
    entry_bytes offset r m ++ table_bytes (offset + length r) rs ms
table_bytes offset [] ms = []
table_bytes offset (r ∷ rs) [] = []

pub length-ramdisks : (rs : List Bytes) → length (ramdisks_bytes rs) ≡ total_length rs
unfolding ramdisks_bytes total_length
length-ramdisks [] = refl
length-ramdisks (r ∷ rs) = omega (arith, length-append r (ramdisks_bytes rs), length-ramdisks rs)

pub Writes-ramdisks :
    (rs : List Bytes) (pos : ℕ) → Writes (write_ramdisks rs) pos (ramdisks_bytes rs)
unfolding write_ramdisks ramdisks_bytes
Writes-ramdisks [] pos = Writes-skip pos
Writes-ramdisks (r ∷ rs) pos = Writes-then (Writes-write r pos) (Writes-ramdisks rs _)

pub Writes-table :
    (rs : List Bytes) (ms : List RamdiskMeta) (offset pos : ℕ)
    → All IsMeta ms
    → offset + total_length rs < 2 ^ 32
    → Writes (write_table offset rs ms) pos (table_bytes offset rs ms)
unfolding write_table table_bytes total_length
Writes-table [] ms offset pos h b = Writes-skip pos
Writes-table (r ∷ rs) [] offset pos h b = Writes-skip pos
Writes-table (r ∷ rs) (m ∷ ms) offset pos (h, hs) b =
    Writes-then
      (Writes-struct vendor_ramdisk_table_entry_v4 (entry_values offset r m) pos (omega arith))
      (Writes-table rs ms (offset + length r) _ hs (omega arith))

-- A jump to a ramdisk and back leaves the file as it was.
read_at_found :
    (f : InFile) (offset : ℕ) (r behind : Bytes)
    → drop offset f.bytes ≡ r ++ behind
    → read_at offset (length r) f ≡ ok (r, f)
unfolding read_at ◌>>=◌
read_at_found f offset r behind h =
    rw (
      Reads.at (Reads-read_exact (length r) offset r refl) (record f { pos = offset }) behind refl
        h)

abbrev grown : TableRead → List Bytes → List RamdiskMeta → TableRead
grown t rs ms = record {
  ramdisks = t.ramdisks ++ rs;
  metas = t.metas ++ ms;
  total_size = t.total_size + total_length rs;
}

-- What is kept of an entry that was written.
kept :
    (t : TableRead) (offset : ℕ) (r : Bytes) (m : RamdiskMeta)
    → IsMeta m
    → add_entry (table_entry (stored vendor_ramdisk_table_entry_v4 (entry_values offset r m))) r t
      ≡ record {
        ramdisks = t.ramdisks ++ (r ∷ []);
        metas = t.metas ++ (m ∷ []);
        total_size = t.total_size + length r;
      }
kept t offset r m h = λ i. record {
  ramdisks = t.ramdisks ++ (r ∷ []);
  metas =
      t.metas
      ++ (record m {
        name = rstrip_nul-fit 32 m.name h.name_fits h.name_stripped i;
        board_id = fit_exact 64 m.board_id h.board_id_size i;
      }
          ∷ []);
  total_size = t.total_size + length r;
}

regrown :
    (t : TableRead) (r : Bytes) (m : RamdiskMeta) (rs : List Bytes) (ms : List RamdiskMeta)
    → grown
        (record {
          ramdisks = t.ramdisks ++ (r ∷ []);
          metas = t.metas ++ (m ∷ []);
          total_size = t.total_size + length r;
        })
        rs
        ms
      ≡ grown t (r ∷ rs) (m ∷ ms)
unfolding total_length
regrown t r m rs ms =
    let sum : t.total_size + length r + total_length rs
        ≡ t.total_size + (length r + total_length rs) =
      omega arith in
    λ i. record {
      ramdisks = append_assoc t.ramdisks (r ∷ []) rs i;
      metas = append_assoc t.metas (m ∷ []) ms i;
      total_size = sum i;
    }

ungrown : (t : TableRead) → t ≡ grown t [] []
unfolding total_length
ungrown t = λ i. record {
  ramdisks = sym (append-nil t.ramdisks) i;
  metas = sym (append-nil t.metas) i;
  total_size = sym (add-zero t.total_size) i;
}

-- The next ramdisk stands behind this one.
next_ramdisk :
    (base offset : ℕ) (bytes r more : Bytes)
    → drop (base + offset) bytes ≡ r ++ more
    → drop (base + (offset + length r)) bytes ≡ more
next_ramdisk base offset bytes r more h =
    let regroup : base + (offset + length r) ≡ base + offset + length r = omega arith in
    ap (λ n. drop n bytes) regroup
    ∙ drop_behind (record { bytes = bytes; pos = base + offset; seekable = true }) r more h

pub read_table_lem :
    (rs : List Bytes) (ms : List RamdiskMeta) (base offset : ℕ) (t : TableRead) (f : InFile)
    (rest behind : Bytes)
    → length rs ≡ length ms
    → All IsMeta ms
    → offset + total_length rs < 2 ^ 32
    → drop f.pos f.bytes ≡ table_bytes offset rs ms ++ rest
    → drop (base + offset) f.bytes ≡ ramdisks_bytes rs ++ behind
    → read_table base (length rs) t f
      ≡ ok (grown t rs ms, move f (length (table_bytes offset rs ms)))
unfolding read_table table_bytes ramdisks_bytes
read_table_lem [] [] base offset t f rest behind e h b d j =
    Reads.at (Reads-pure_eq t f.pos (ungrown t)) f rest refl d
read_table_lem [] (m ∷ ms) base offset t f rest behind e h b d j = absurd (omega arith)
read_table_lem (r ∷ rs) [] base offset t f rest behind e h b d j = absurd (omega arith)
read_table_lem (r ∷ rs) (m ∷ ms) base offset t f rest behind e (h, hs) b d j =
    let entry = entry_bytes offset r m in
    let more = table_bytes (offset + length r) rs ms in
    let fits : offset + (length r + total_length rs) < 2 ^ 32 = unfold total_length in b in
    let here = d ∙ append_assoc entry more rest in
    let found = j ∙ append_assoc r (ramdisks_bytes rs) behind in
    bind_eq _ _ (
      Reads.at
        (Reads-struct vendor_ramdisk_table_entry_v4 (entry_values offset r m) f.pos (omega arith)) f
        (more ++ rest) refl here)
    ∙ bind_eq _ _ (
        read_at_found (move f (length entry)) (base + offset) r (ramdisks_bytes rs ++ behind) found)
    ∙ ap (λ u. read_table base (length rs) u (move f (length entry))) (kept t offset r m h)
    ∙ read_table_lem rs ms base (offset + length r) _ (move f (length entry)) rest behind
        (omega arith) hs (omega arith) (drop_behind f entry (more ++ rest) here)
        (next_ramdisk base offset f.bytes r (ramdisks_bytes rs ++ behind) found)
    ∙ λ i. ok (regrown t r m rs ms i, pos_append f entry more i)

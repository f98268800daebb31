-- ===== src/Compression/Lz4/Writes.antt =====
-- What the object writes: the content cut into blocks, however it came in.
use avbroot.Prelude.{
  ℕ, zero, suc, ◌+◌, ◌-◌, ◌^◌, ◌≤◌, ◌<◌, ◌≡◌, refl, sym, ap, ◌∙◌, min, true, false, List, [], ◌∷◌,
  ◌++◌, length, take, drop, All, ltb, arith, append_assoc, append-nil, length-append, length-take,
  length-drop, Bool-cases, inl, inr,
}
use mathlib.Core.Path.{subst}
use avbroot.Result.{ok}
use avbroot.Stream.{Bytes}
use avbroot.Util.Pieces.{take-drop}
use avbroot.Compression.Lz4.{
  magic, max_block_size, Lz4Block, Writer, open_write, flush_block, write_block, extend, write_loop,
  write_plain, close_write,
}
use avbroot.Compression.Lz4.Blocks.{
  concat, IsBlock, concat-snoc, block_bytes, stream_bytes, stream_bytes-snoc, compressed_small,
  IsStream,
}

All-snoc : (bs : List Bytes) (b : Bytes) → All IsBlock bs → IsBlock b → All IsBlock (bs ++ (b ∷ []))
All-snoc [] b hs h = (h, tt)
All-snoc (c ∷ bs) b (hc, hs) h = (hc, All-snoc bs b hs h)

module _ (lz4 : Lz4Block) (before : Bytes) where
  -- The object has taken the content: full blocks are in the file, and the rest is in the buffer.
  pub record Took (w : Writer) (content : Bytes) : Type 0 where
    pub blocks : List Bytes
    pub are_blocks : All IsBlock blocks
    pub in_file : w.fp ≡ before ++ (magic ++ stream_bytes lz4 blocks)
    pub holds : concat blocks ++ w.wblock ≡ content
    pub room : length w.wblock ≤ max_block_size

  pub open_write-Took : Took (open_write before) []
  unfolding open_write
  open_write-Took = record {
    blocks = [];
    are_blocks = tt;
    in_file = ap (λ t. before ++ t) (sym (append-nil magic));
    holds = refl;
    room = omega arith;
  }

  abbrev flushed : Writer → Writer
  flushed w = record w { fp = w.fp ++ block_bytes lz4 w.wblock; wblock = [] }

  flush_block_lem :
      (w : Writer) → length w.wblock ≤ max_block_size → flush_block lz4 w ≡ ok (flushed w)
  unfolding flush_block block_bytes
  flush_block_lem w h =
      let small = compressed_small lz4 w.wblock h in
      let fits : ltb (length (Lz4Block.compress lz4 w.wblock)) (2 ^ 32) ≡ true = ground arith in
      rw fits refl

  file_grows :
      (fp b : Bytes) (bs : List Bytes)
      → fp ≡ before ++ (magic ++ stream_bytes lz4 bs)
      → fp ++ block_bytes lz4 b ≡ before ++ (magic ++ (stream_bytes lz4 bs ++ block_bytes lz4 b))
  file_grows fp b bs h =
      ap (λ t. t ++ block_bytes lz4 b) h
      ∙ append_assoc before (magic ++ stream_bytes lz4 bs) (block_bytes lz4 b)

  flushed-Took :
      {w : Writer} {content : Bytes}
      → Took w content
      → 0 < length w.wblock
      → Took (flushed w) content
  flushed-Took {w} t h = record {
    blocks = t.blocks ++ (w.wblock ∷ []);
    are_blocks = All-snoc t.blocks w.wblock t.are_blocks (h, t.room);
    in_file =
        file_grows w.fp w.wblock t.blocks t.in_file
        ∙ ap (λ s. before ++ (magic ++ s)) (sym (stream_bytes-snoc lz4 t.blocks w.wblock));
    holds =
        append-nil (concat (t.blocks ++ (w.wblock ∷ []))) ∙ concat-snoc t.blocks w.wblock ∙ t.holds;
    room = omega arith;
  }

  -- `_write_block` makes room for a byte.
  write_block_lem :
      (w : Writer) (content : Bytes)
      → Took w content
      → (v : Writer) × (write_block lz4 false w ≡ ok v)
        × Took v content
        × (length v.wblock < max_block_size)
  unfolding write_block
  write_block_lem w content t = elim (Bool-cases (ltb (length w.wblock) max_block_size)) [
    | inl h ↦ (w, rw h refl, t, ground arith)
    | inr h ↦
        (flushed w, rw h (flush_block_lem w t.room), flushed-Took t (ground arith), omega arith)
  ]

  extend-Took :
      {w : Writer} {content : Bytes} (part : Bytes)
      → Took w content
      → length w.wblock + length part ≤ max_block_size
      → Took (extend w part) (content ++ part)
  extend-Took {w} part t h = record {
    blocks = t.blocks;
    are_blocks = t.are_blocks;
    in_file = t.in_file;
    holds = sym (append_assoc (concat t.blocks) w.wblock part) ∙ ap (λ c. c ++ part) t.holds;
    room = omega (arith, length-append w.wblock part);
  }

  write_loop_lem :
      (fuel : ℕ) (part : Bytes) (w : Writer) (content : Bytes)
      → length part ≤ fuel
      → Took w content
      → (v : Writer) × (write_loop lz4 fuel part w ≡ ok v) × Took v (content ++ part)
  unfolding write_loop
  write_loop_lem fuel [] w content h t = (w, refl, rw append-nil t)
  write_loop_lem zero (b ∷ rest) w content h t = absurd (omega arith)
  write_loop_lem (suc fuel) (b ∷ rest) w content h t =
      let part = b ∷ rest in
      let (v, written, took, space) = write_block_lem w content t in
      let n = min (max_block_size - length v.wblock) (length part) in
      let size = length-take n part in
      let (u, looped, done) =
        write_loop_lem fuel (drop n part) (extend v (take n part)) (content ++ take n part)
          (omega (arith, length-drop n part))
          (extend-Took (take n part) took (omega (arith, size))) in
      (
        u,
        rw written looped,
        subst (Took u)
            (append_assoc content (take n part) (drop n part)
              ∙ ap (λ p. content ++ p) (take-drop n part))
            done,
      )

  -- An object in mode wb has at most one block of bytes in its buffer and full or shorter, but never
  -- empty, blocks in its file behind the magic, which together are what was written; `write`
  -- succeeds and keeps this, with the new bytes added.
  pub write_plain-Took :
      (part : Bytes) (w : Writer) (content : Bytes)
      → Took w content
      → (v : Writer) × (write_plain lz4 part w ≡ ok v) × Took v (content ++ part)
  unfolding write_plain
  write_plain-Took part w content t = write_loop_lem (length part) part w content (omega arith) t

  -- What is in the buffer becomes the last block.
  abbrev closed_stream : Writer → List Bytes → Bytes
  closed_stream w blocks = stream_bytes lz4 blocks ++ block_bytes lz4 w.wblock

  closed-IsStream :
      (w : Writer) (content : Bytes) (t : Took w content)
      → IsStream lz4 (closed_stream w t.blocks) content
  closed-IsStream w content t = buffer w.wblock t.holds t.room
    where
      buffer :
          (b : Bytes)
          → concat t.blocks ++ b ≡ content
          → length b ≤ max_block_size
          → IsStream lz4 (stream_bytes lz4 t.blocks ++ block_bytes lz4 b) content
      buffer [] holds room = record {
        blocks = t.blocks;
        are_blocks = t.are_blocks;
        holds = sym (append-nil (concat t.blocks)) ∙ holds;
        ending = inr refl;
      }
      buffer (c ∷ b) holds room = record {
        blocks = t.blocks ++ ((c ∷ b) ∷ []);
        are_blocks = All-snoc t.blocks (c ∷ b) t.are_blocks (omega arith, room);
        holds = concat-snoc t.blocks (c ∷ b) ∙ holds;
        ending = inl (sym (stream_bytes-snoc lz4 t.blocks (c ∷ b)));
      }

  pub close_write_lem :
      (w : Writer) (content : Bytes)
      → Took w content
      → (stream : Bytes) × (close_write lz4 w
          ≡ ok (record w { fp = before ++ (magic ++ stream); wblock = [] }))
        × IsStream lz4 stream content
  unfolding close_write write_block
  close_write_lem w content t = (
    closed_stream w t.blocks,
    flush_block_lem w t.room
        ∙ ap (λ fp. ok (record w { fp = fp; wblock = [] }))
            (file_grows w.fp w.wblock t.blocks t.in_file),
    closed-IsStream w content t,
  )

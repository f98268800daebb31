-- ===== src/Compression/Lz4/Reads.antt =====
-- Reading the object is reading its content: the blocks cannot be seen.
use avbroot.Prelude.{
  ℕ, suc, ◌+◌, ◌-◌, ◌≤◌, ◌≡◌, ◌⊎◌, refl, sym, ap, ◌∙◌, min, false, Option, none, some, List, [],
  ◌∷◌, ◌++◌, length, take, drop, All, ltb, arith, append_assoc, append-nil, length-drop, drop-drop,
  take_front, Bool-cases, inl, inr,
}
use avbroot.Result.{ok}
use avbroot.Stream.{Bytes, InFile, read, move}
use avbroot.Stream.Laws.{drop_behind, Reads, Reads-read_exact}
use avbroot.Struct.{to_le, from_le}
use avbroot.Struct.Laws.{from_le-to_le, length-to_le}
use avbroot.Util.Pieces.{nil_of, take-front, drop-front}
use avbroot.Compression.Lz4.{
  max_block_size, Lz4Block, Reader, next_block, read_size, read_block, advance,
}
use avbroot.Compression.Lz4.Blocks.{
  concat, IsBlock, block_bytes, stream_bytes, compressed_small, size-ne-magic,
}

-- What is left of the block that is being read.
abbrev pub left : Reader → ℕ
left r = length r.rblock - r.rblock_offset

-- What a read of this size returns, and what it leaves.
abbrev pub front : Option ℕ → Bytes → Bytes
front none rest = rest
front (some n) rest = take n rest

abbrev pub behind : Option ℕ → Bytes → Bytes
behind none rest = []
behind (some n) rest = drop n rest

module _ (lz4 : Lz4Block) where
  open lz4 use {compress, decompress, decompress-compress}

  -- The object has this content left to read.
  pub record Holds (r : Reader) (rest : Bytes) : Type 0 where
    pub blocks : List Bytes
    pub are_blocks : All IsBlock blocks
    pub tail : Bytes
    pub ending : (tail ≡ []) ⊎ (tail ≡ block_bytes lz4 [])
    pub in_file : drop r.fp.pos r.fp.bytes ≡ stream_bytes lz4 blocks ++ tail
    pub inside : r.rblock_offset ≤ length r.rblock
    pub holds : drop r.rblock_offset r.rblock ++ concat blocks ≡ rest

  -- The rounds of the loop that it takes.
  abbrev pub rounds : {r : Reader} {rest : Bytes} → Holds r rest → ℕ
  rounds {r} h = length h.blocks + min 1 (left r)

  read_front :
      (n : ℕ) (f : InFile) (chunk rest : Bytes)
      → drop f.pos f.bytes ≡ chunk ++ rest
      → length chunk ≡ n
      → read n f ≡ ok (chunk, move f n)
  unfolding read
  read_front n f chunk rest h e =
      let got : take n (drop f.pos f.bytes) ≡ chunk =
        ap (take n) h ∙ ap (λ k. take k (chunk ++ rest)) (sym e) ∙ take_front chunk rest in
      rw (got, e) refl

  -- A block at the file's position is loaded.
  abbrev loaded : Reader → Bytes → Reader
  loaded r b = record r {
    fp = move (move r.fp 4) (length (compress b));
    rblock = b;
    rblock_offset = 0;
  }

  load_block :
      (r : Reader) (b more : Bytes)
      → drop r.fp.pos r.fp.bytes ≡ block_bytes lz4 b ++ more
      → length b ≤ max_block_size
      → (read_size lz4 r (read 4 r.fp) ≡ ok (loaded r b))
        × (drop (loaded r b).fp.pos r.fp.bytes ≡ more)
  unfolding read_size next_block block_bytes
  load_block r b more h small =
      let n = length (compress b) in
      let size = to_le 4 n in
      let four : length size ≡ 4 = length-to_le 4 n in
      let at_size : drop r.fp.pos r.fp.bytes ≡ size ++ (compress b ++ more) =
        h ∙ append_assoc size (compress b) more in
      let at_block : drop (r.fp.pos + 4) r.fp.bytes ≡ compress b ++ more =
        ap (λ k. drop (r.fp.pos + k) r.fp.bytes) (sym four)
        ∙ drop_behind r.fp size (compress b ++ more) at_size in
      let bound = compressed_small lz4 b small in
      let value : from_le size ≡ n = from_le-to_le 4 n (omega arith) in
      (
        rw
            (
              read_front 4 r.fp size (compress b ++ more) at_size four,
              four,
              size-ne-magic lz4 b small,
              value,
              Reads.at (Reads-read_exact n (r.fp.pos + 4) (compress b) refl) (move r.fp 4) more refl
                  at_block,
              decompress-compress b max_block_size small,
            )
            refl,
        drop_behind (move r.fp 4) (compress b) more at_block,
      )

  -- What `_read_block` establishes: the same content, and nothing left to read only at its end.
  pub record Ready (r s : Reader) (rest : Bytes) (n : ℕ) : Type 0 where
    pub reads : read_block lz4 r ≡ ok s
    pub held : Holds s rest
    pub fewer : rounds held ≤ n
    pub at_end : left s ≡ 0 → rest ≡ []

  abbrev emptied : Reader → InFile → Reader
  emptied r f = record r { fp = f; rblock = []; rblock_offset = 0 }

  read_nothing :
      (r : Reader)
      → drop r.fp.pos r.fp.bytes ≡ []
      → read_size lz4 r (read 4 r.fp) ≡ ok (emptied r (move r.fp 0))
  unfolding read_size read
  read_nothing r h = rw h refl

  Ready-end :
      (r : Reader) (f : InFile) (rest : Bytes) (n : ℕ)
      → read_block lz4 r ≡ ok (emptied r f)
      → drop f.pos f.bytes ≡ []
      → [] ≡ rest
      → Ready r (emptied r f) rest n
  Ready-end r f rest n reads over nothing = record {
    reads = reads;
    held = record {
      blocks = [];
      are_blocks = tt;
      tail = [];
      ending = inl refl;
      in_file = over;
      inside = omega arith;
      holds = nothing;
    };
    fewer = omega arith;
    at_end = λ z. sym nothing;
  }

  Ready-loaded :
      (r : Reader) (rest : Bytes) (h : Holds r rest) (bs : List Bytes)
      → bs ≡ h.blocks
      → left r ≡ 0
      → All IsBlock bs
      → (s : Reader) × Ready r s rest (rounds h)
  unfolding read_block
  Ready-loaded r rest h [] e done are =
      let behind : drop r.rblock_offset r.rblock ≡ [] =
        nil_of _ (omega (arith, length-drop r.rblock_offset r.rblock)) in
      let nothing : [] ≡ rest =
        ap concat e ∙ ap (λ d. d ++ concat h.blocks) (sym behind) ∙ h.holds in
      let stands : drop r.fp.pos r.fp.bytes ≡ h.tail =
        h.in_file ∙ ap (λ l. stream_bytes lz4 l ++ h.tail) (sym e) in
      let used : ltb r.rblock_offset (length r.rblock) ≡ false = ground arith in
      elim h.ending [
        | inl t ↦
            let over = stands ∙ t in
            let got = read_nothing r over in
            (
              emptied r (move r.fp 0),
              Ready-end r (move r.fp 0) rest (rounds h) (rw used got)
                  (ap (λ k. drop k r.fp.bytes) (omega arith) ∙ over) nothing,
            )
        | inr t ↦
            let (got, after) =
              load_block r [] [] (stands ∙ t ∙ sym (append-nil (block_bytes lz4 [])))
                (omega arith) in
            (loaded r [], Ready-end r (loaded r []).fp rest (rounds h) (rw used got) after nothing)
      ]
  Ready-loaded r rest h (b ∷ bs) e done (one, more) =
      let behind : drop r.rblock_offset r.rblock ≡ [] =
        nil_of _ (omega (arith, length-drop r.rblock_offset r.rblock)) in
      let all : b ++ concat bs ≡ rest =
        ap concat e ∙ ap (λ d. d ++ concat h.blocks) (sym behind) ∙ h.holds in
      let stands : drop r.fp.pos r.fp.bytes ≡ block_bytes lz4 b ++ (stream_bytes lz4 bs ++ h.tail) =
        h.in_file
        ∙ ap (λ l. stream_bytes lz4 l ++ h.tail) (sym e)
        ∙ append_assoc (block_bytes lz4 b) (stream_bytes lz4 bs) h.tail in
      let (got, after) = load_block r b (stream_bytes lz4 bs ++ h.tail) stands one.1 in
      let used : ltb r.rblock_offset (length r.rblock) ≡ false = ground arith in
      let fewer : length h.blocks ≡ suc (length bs) = ap length (sym e) in
      (
        loaded r b,
        record {
          reads = rw used got;
          held = record {
            blocks = bs;
            are_blocks = more;
            tail = h.tail;
            ending = h.ending;
            in_file = after;
            inside = omega arith;
            holds = all;
          };
          fewer = omega arith;
          at_end = λ z. absurd (omega (arith, one.0));
        },
      )

  pub read_block_lem :
      (r : Reader) (rest : Bytes) (h : Holds r rest) → (s : Reader) × Ready r s rest (rounds h)
  unfolding read_block
  read_block_lem r rest h = elim (Bool-cases (ltb r.rblock_offset (length r.rblock))) [
    | inl more ↦ (
      r,
      record {
        reads = rw more refl;
        held = h;
        fewer = omega arith;
        at_end = λ z. absurd (ground arith);
      },
    )
    | inr done ↦ Ready-loaded r rest h h.blocks refl (ground arith) h.are_blocks
  ]

  pub advance-Holds :
      (s : Reader) (rest : Bytes) (n : ℕ) (h : Holds s rest)
      → n ≤ left s
      → (take n (drop s.rblock_offset s.rblock) ≡ take n rest)
        × ((k : Holds (advance s n) (drop n rest)) × (rounds k
              ≡ length h.blocks + min 1 (left s - n)))
  advance-Holds s rest n h le =
      let here = drop s.rblock_offset s.rblock in
      let size = length-drop s.rblock_offset s.rblock in
      (
        take-front n here (concat h.blocks) (omega arith) ∙ ap (take n) h.holds,
        (
          record {
            blocks = h.blocks;
            are_blocks = h.are_blocks;
            tail = h.tail;
            ending = h.ending;
            in_file = h.in_file;
            inside = omega (arith, h.inside);
            holds =
                ap (λ t. t ++ concat h.blocks) (sym (drop-drop s.rblock_offset n s.rblock))
                ∙ sym (drop-front n here (concat h.blocks) (omega arith))
                ∙ ap (drop n) h.holds;
          },
          omega arith,
        ),
      )

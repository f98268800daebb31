-- ===== src/Compression/Lz4/ReadLoop.antt =====
-- The loop of `read`.
use avbroot.Prelude.{
  ℕ, zero, suc, ◌+◌, ◌-◌, ◌≤◌, ◌<◌, ◌≡◌, ◌⊎◌, refl, sym, ap, ◌∙◌, min, false, Option, none, some,
  List, [], ◌∷◌, ◌++◌, length, take, drop, ltb, ◌==◌, ==_iff, arith, append_assoc, append-nil,
  length-append, length-drop, drop-drop, Bool-cases, inl, inr,
}
use mathlib.Core.Path.{subst}
use avbroot.Prelude.Text.{bytes_eq}
use avbroot.Result.{ok}
use avbroot.Stream.{Bytes, InFile, move}
use avbroot.Stream.Laws.{drop_behind, Reads, Reads-read_exact}
use avbroot.Struct.{to_le}
use avbroot.Struct.Laws.{length-to_le}
use avbroot.Util.Pieces.{take-drop, take-split, sum_back}
use avbroot.Compression.Lz4.{
  magic, Lz4Block, Reader, open_read, wants_more, at_most, less, advance, take_block, read_loop,
  read_plain,
}
use avbroot.Compression.Lz4.Blocks.{block_bytes, stream_bytes, IsStream}
use avbroot.Compression.Lz4.Reads.{
  left, Holds, rounds, read_block_lem, front, behind, advance-Holds,
}

take-empty : (n : ℕ) → take {A = ℕ} n [] ≡ []
take-empty zero = refl
take-empty (suc n) = refl

drop-empty : (n : ℕ) → drop {A = ℕ} n [] ≡ []
drop-empty zero = refl
drop-empty (suc n) = refl

front-empty : (size : Option ℕ) → front size [] ≡ []
front-empty none = refl
front-empty (some n) = take-empty n

behind-empty : (size : Option ℕ) → behind size [] ≡ []
behind-empty none = refl
behind-empty (some n) = drop-empty n

front_split :
    (size : Option ℕ) (n : ℕ) (rest : Bytes)
    → take (at_most size n) rest ++ front (less size (at_most size n)) (drop (at_most size n) rest)
      ≡ front size rest
front_split none n rest = take-drop n rest
front_split (some k) n rest =
    take-split (min n k) (k - min n k) rest
    ∙ ap (λ m. take m rest) (sum_back (min n k) k (omega arith))

behind_split :
    (size : Option ℕ) (n : ℕ) (rest : Bytes)
    → behind (less size (at_most size n)) (drop (at_most size n) rest) ≡ behind size rest
behind_split none n rest = refl
behind_split (some k) n rest =
    drop-drop (min n k) (k - min n k) rest
    ∙ ap (λ m. drop m rest) (sum_back (min n k) k (omega arith))

-- Nothing more is wanted, or the whole of what was there has been taken.
less-done :
    (size : Option ℕ) (n : ℕ)
    → (wants_more (less size (at_most size n)) ≡ false) ⊎ (at_most size n ≡ n)
less-done none n = inr refl
less-done (some k) n = elim (Bool-cases (ltb n k)) [
  | inl h ↦ inr (ground arith)
  | inr h ↦ inl (ground arith)
]

at_most-le : (size : Option ℕ) (n : ℕ) → at_most size n ≤ n
at_most-le none n = omega arith
at_most-le (some k) n = omega arith

front-done : (size : Option ℕ) (rest : Bytes) → wants_more size ≡ false → front size rest ≡ []
front-done none rest h = cc
front-done (some zero) rest h = refl
front-done (some (suc n)) rest h = absurd (ground arith)

behind-done : (size : Option ℕ) (rest : Bytes) → wants_more size ≡ false → behind size rest ≡ rest
behind-done none rest h = cc
behind-done (some zero) rest h = refl
behind-done (some (suc n)) rest h = absurd (ground arith)

module _ (lz4 : Lz4Block) where
  -- The loop returns what the size asks for, and the object holds the rest.
  abbrev ReadsOn : ℕ → Option ℕ → Bytes → Reader → Bytes → Type 0
  ReadsOn fuel size result r rest =
      (s : Reader) × (read_loop lz4 fuel size result r ≡ ok (result ++ front size rest, s))
      × Holds lz4 s (behind size rest)

  loop_done :
      (fuel : ℕ) (size : Option ℕ) (result : Bytes) (r : Reader) (rest : Bytes)
      → Holds lz4 r rest
      → wants_more size ≡ false
      → ReadsOn fuel size result r rest
  unfolding read_loop
  loop_done zero size result r rest h stop = (
    r,
    rw (stop, front-done size rest stop, append-nil result) refl,
    subst (Holds lz4 r) (sym (behind-done size rest stop)) h,
  )
  loop_done (suc fuel) size result r rest h stop = (
    r,
    rw (stop, front-done size rest stop, append-nil result) refl,
    subst (Holds lz4 r) (sym (behind-done size rest stop)) h,
  )

  loop_lem :
      (fuel : ℕ) (size : Option ℕ) (result : Bytes) (r : Reader) (rest : Bytes)
      (h : Holds lz4 r rest)
      → rounds lz4 h < fuel
      → ReadsOn fuel size result r rest
  unfolding read_loop take_block
  loop_lem zero size result r rest h room = absurd (omega arith)
  loop_lem (suc fuel) size result r rest h room = elim (Bool-cases (wants_more size)) [
    | inr stop ↦ loop_done (suc fuel) size result r rest h stop
    | inl more ↦
        let (s, ready) = read_block_lem lz4 r rest h in
        let n = at_most size (left s) in
        elim (Bool-cases (left s == 0)) [
          | inl over ↦
              let nothing : rest ≡ [] = ready.at_end ((==_iff (left s) 0).0 over) in
              (
                s,
                rw (more, ready.reads, over)
                    (ap (λ t. ok (t, s))
                      (sym (append-nil result)
                        ∙ ap (λ t. result ++ t)
                            (sym (ap (front size) nothing ∙ front-empty size)))),
                subst (Holds lz4 s)
                    (nothing ∙ sym (behind-empty size) ∙ ap (behind size) (sym nothing)) ready.held,
              )
          | inr some_left ↦
              let pos : 0 < left s = ground arith in
              let (part, (held, count)) =
                advance-Holds lz4 s rest n ready.held (at_most-le size (left s)) in
              let (u, looped, done) : ReadsOn fuel (less size n) (result ++ take n rest)
                  (advance s n) (drop n rest) =
                elim (less-done size (left s)) [
                  | inl stop ↦
                      loop_done fuel (less size n) (result ++ take n rest) (advance s n)
                        (drop n rest) held stop
                  | inr whole ↦
                      loop_lem fuel (less size n) (result ++ take n rest) (advance s n)
                        (drop n rest) held (omega (arith, ready.fewer, count, pos, whole))
                ] in
              (
                u,
                rw (more, ready.reads, some_left, part) looped
                    ∙ ap (λ t. ok (t, u))
                        (append_assoc result (take n rest) (front (less size n) (drop n rest))
                          ∙ ap (λ t. result ++ t) (front_split size (left s) rest)),
                subst (Holds lz4 u) (behind_split size (left s) rest) done,
              )
        ]
  ]

  length-stream : (bs : List Bytes) → length bs ≤ length (stream_bytes lz4 bs)
  unfolding block_bytes
  length-stream [] = omega arith
  length-stream (b ∷ bs) =
      let size = to_le 4 (length (Lz4Block.compress lz4 b)) in
      omega (
        arith,
        length-stream bs,
        length-append (block_bytes lz4 b) (stream_bytes lz4 bs),
        length-append size (Lz4Block.compress lz4 b),
        length-to_le 4 (length (Lz4Block.compress lz4 b)),
      )

  -- An object in mode rb that has some content left to read (what is left of its block, and the
  -- blocks behind the position of its file) behaves like a plain file of that content: `read`
  -- returns as much of its front as was asked for, or all of it, and the object has the rest left to
  -- read.
  pub read_plain-Holds :
      (size : Option ℕ) (r : Reader) (rest : Bytes)
      → Holds lz4 r rest
      → (s : Reader) × (read_plain lz4 size r ≡ ok (front size rest, s))
        × Holds lz4 s (behind size rest)
  unfolding read_plain
  read_plain-Holds size r rest h = loop_lem (length r.fp.bytes + 2) size [] r rest h (
      omega (
        arith,
        length-stream h.blocks,
        length-append (stream_bytes lz4 h.blocks) h.tail,
        ap length h.in_file,
        length-drop r.fp.pos r.fp.bytes,
      ))

  -- Behind the magic the whole content is left.
  opened-Holds :
      (f : InFile) (stream content : Bytes)
      → drop f.pos f.bytes ≡ stream
      → IsStream lz4 stream content
      → Holds lz4 (record { fp = f; rblock = []; rblock_offset = 0; file_offset = 0 }) content
  opened-Holds f stream content at s = elim s.ending [
    | inl e ↦ with_tail [] (inl refl) (e ∙ sym (append-nil (stream_bytes lz4 s.blocks)))
    | inr e ↦ with_tail (block_bytes lz4 []) (inr refl) e
  ]
    where
      with_tail :
          (tail : Bytes)
          → (tail ≡ []) ⊎ (tail ≡ block_bytes lz4 [])
          → stream ≡ stream_bytes lz4 s.blocks ++ tail
          → Holds lz4 (record { fp = f; rblock = []; rblock_offset = 0; file_offset = 0 }) content
      with_tail tail ending e = record {
        blocks = s.blocks;
        are_blocks = s.are_blocks;
        tail = tail;
        ending = ending;
        in_file = at ∙ e;
        inside = omega arith;
        holds = s.holds;
      }

  -- A file that holds a stream is opened.
  pub open_read-Holds :
      (f : InFile) (stream content : Bytes)
      → drop f.pos f.bytes ≡ magic ++ stream
      → IsStream lz4 stream content
      → (r : Reader) × (open_read f ≡ ok r) × Holds lz4 r content
  unfolding open_read bytes_eq
  open_read-Holds f stream content at s = (
    record { fp = move f 4; rblock = []; rblock_offset = 0; file_offset = 0 },
    rw (Reads.at (Reads-read_exact 4 f.pos magic refl) f stream refl at) refl,
    opened-Holds (move f 4) stream content (drop_behind f magic stream at) s,
  )

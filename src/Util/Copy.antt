-- ===== src/Util/Copy.antt =====
-- The loops over a file do what one pass over the whole does, whatever the size of the buffer.
use avbroot.Prelude.{
  ℕ, zero, suc, ◌+◌, ◌-◌, ◌≤◌, ◌<◌, ◌≡◌, refl, sym, ap, ◌∙◌, min, true, false, [], ◌∷◌, ◌++◌,
  length, take, drop, leb, arith, if◌then◌else◌, Bool-cases, inl, inr, append_assoc, append-nil,
  length-take, length-drop, drop-drop,
}
use mathlib.Core.Path.{ap₂}
use avbroot.Result.{Result, ok, err, io_error}
use avbroot.Stream.{Bytes, InFile, move}
use avbroot.Util.{chunk_of, hash_loop, hash_file, copy_loop, copyfileobj_n}
use avbroot.Util.Pieces.{sum_back, sum_pos, nil_of, take-drop, take-split, take-length-take}

-- `update` takes its data in any number of pieces, as `hashlib` documents.
module _ {H : Type 0} (update : H → Bytes → H)
    (update-append : (h : H) (c d : Bytes) → update (update h c) d ≡ update h (c ++ d))
    (update-nil : (h : H) → update h [] ≡ h) where
  -- The copy in one step.
  abbrev copied : ℕ → InFile → H → Bytes → Result (InFile × (H × Bytes))
  copied size f h out =
      let piece = take size (drop f.pos f.bytes) in
      if leb size (length (drop f.pos f.bytes))
      then ok (move f size, (update h piece, out ++ piece))
      else err io_error

  copied_step :
      (k n : ℕ) (f : InFile) (h : H) (out chunk : Bytes)
      → chunk ≡ take k (drop f.pos f.bytes)
      → length chunk ≡ k
      → k ≤ n
      → copied (n - k) (move f k) (update h chunk) (out ++ chunk) ≡ copied n f h out
  copied_step k n f h out chunk e len le =
      let rest = drop f.pos f.bytes in
      let left : length (drop (f.pos + k) f.bytes) ≡ length rest - k =
        omega (arith, length-drop (f.pos + k) f.bytes, length-drop f.pos f.bytes) in
      let there : k ≤ length rest = omega (arith, length-take k rest, ap length e) in
      let whole : chunk ++ take (n - k) (drop (f.pos + k) f.bytes) ≡ take n rest =
        ap₂ ◌++◌ e (ap (λ r. take (n - k) r) (sym (drop-drop f.pos k f.bytes)))
        ∙ take-split k (n - k) rest
        ∙ ap (λ m. take m rest) (sum_back k n le) in
      elim (Bool-cases (leb n (length rest))) [
        | inl t ↦
            let more : leb (n - k) (length (drop (f.pos + k) f.bytes)) ≡ true = ground arith in
            rw (more, t, update-append h chunk, append_assoc out chunk, whole)
              (ap (λ m. ok (record f { pos = m }, (update h (take n rest), out ++ take n rest)))
                (sum_pos f.pos k n le))
        | inr t ↦
            let less : leb (n - k) (length (drop (f.pos + k) f.bytes)) ≡ false = ground arith in
            rw (less, t) refl
      ]

  copy_round :
      (fuel buf n : ℕ) (f : InFile) (h : H) (out : Bytes)
      → 0 < buf
      → n ≤ fuel
      → ((m : ℕ) (g : InFile) (k : H) (o : Bytes)
          → m ≤ fuel
          → copy_loop update fuel buf m g k o ≡ copied m g k o)
      → (chunk : Bytes) → chunk ≡ chunk_of (min buf (suc n)) f
      → (elim chunk as (λ c. Result (InFile × (H × Bytes))) [
        | [] ↦ err io_error
        | b ∷ c ↦
            copy_loop update fuel buf
              (suc n - length (b ∷ c))
              (move f (length (b ∷ c)))
              (update h (b ∷ c))
              (out ++ (b ∷ c))
      ])
        ≡ copied (suc n) f h out
  copy_round fuel buf n f h out pos room ih [] e =
      let rest = drop f.pos f.bytes in
      let nothing : length rest ≡ 0 =
        omega (arith, length-take (min buf (suc n)) rest, ap length e) in
      let short : leb (suc n) (length rest) ≡ false = ground arith in rw short refl
  copy_round fuel buf n f h out pos room ih (b ∷ c) e =
      let rest = drop f.pos f.bytes in
      let len = length-take (min buf (suc n)) rest in
      let size = ap length e in
      ih (suc n - length (b ∷ c)) (move f (length (b ∷ c))) (update h (b ∷ c)) (out ++ (b ∷ c))
        (omega arith)
      ∙ copied_step (length (b ∷ c)) (suc n) f h out (b ∷ c)
          (e
            ∙ sym (take-length-take (min buf (suc n)) rest)
            ∙ ap (λ d. take (length d) rest) (sym e))
          refl (omega arith)

  copy_loop_lem :
      (fuel buf size : ℕ) (f : InFile) (h : H) (out : Bytes)
      → 0 < buf
      → size ≤ fuel
      → copy_loop update fuel buf size f h out ≡ copied size f h out
  unfolding copy_loop
  copy_loop_lem fuel buf zero f h out pos room =
      let some_left : leb 0 (length (drop f.pos f.bytes)) ≡ true = ground arith in
      rw (some_left, update-nil h, append-nil out)
        (ap (λ m. ok (record f { pos = m }, (h, out))) (omega arith))
  copy_loop_lem zero buf (suc n) f h out pos room = absurd (omega arith)
  copy_loop_lem (suc fuel) buf (suc n) f h out pos room =
      copy_round fuel buf n f h out pos (omega arith)
        (λ m g k o le. copy_loop_lem fuel buf m g k o pos le) _ refl

  -- With a buffer that is not empty and a hasher that takes its data in any number of pieces,
  -- `copyfileobj_n` copies and hashes exactly the next `size` bytes of the file, leaves the file
  -- behind them, and raises IOError if there are fewer.
  pub copyfileobj_n_lem :
      (buf_size size : ℕ) (f : InFile) (h : H) (out : Bytes)
      → 0 < buf_size
      → copyfileobj_n update buf_size size f h out ≡ (
          if leb size (length (drop f.pos f.bytes))
          then ok (
            move f size,
            (update h (take size (drop f.pos f.bytes)), out ++ take size (drop f.pos f.bytes)),
          )
          else err io_error)
  unfolding copyfileobj_n
  copyfileobj_n_lem buf_size size f h out pos =
      copy_loop_lem size buf_size size f h out pos (omega arith)

  abbrev hashed : InFile → H → Result (H × InFile)
  hashed f h = ok (update h (drop f.pos f.bytes), move f (length (drop f.pos f.bytes)))

  hash_round :
      (fuel buf : ℕ) (f : InFile) (h : H)
      → 0 < buf
      → length (drop f.pos f.bytes) < suc fuel
      → ((g : InFile) (k : H)
          → length (drop g.pos g.bytes) < fuel
          → hash_loop update fuel buf g k ≡ hashed g k)
      → (chunk : Bytes) → chunk ≡ chunk_of buf f
      → (elim chunk as (λ c. Result (H × InFile)) [
        | [] ↦ ok (h, f)
        | b ∷ c ↦ hash_loop update fuel buf (move f (length (b ∷ c))) (update h (b ∷ c))
      ])
        ≡ hashed f h
  hash_round fuel buf f h pos room ih [] e =
      let rest = drop f.pos f.bytes in
      let nothing : length rest ≡ 0 = omega (arith, length-take buf rest, ap length e) in
      rw (nil_of rest nothing, update-nil h) (ap (λ m. ok (h, record f { pos = m })) (omega arith))
  hash_round fuel buf f h pos room ih (b ∷ c) e =
      let rest = drop f.pos f.bytes in
      let k = length (b ∷ c) in
      let size = ap length e in
      let front : b ∷ c ≡ take k rest =
        e ∙ sym (take-length-take buf rest) ∙ ap (λ d. take (length d) rest) (sym e) in
      let left : length (drop (f.pos + k) f.bytes) ≡ length rest - k =
        omega (arith, length-drop (f.pos + k) f.bytes, length-drop f.pos f.bytes) in
      let there : k ≤ length rest = omega (arith, length-take buf rest) in
      let whole : (b ∷ c) ++ drop (f.pos + k) f.bytes ≡ rest =
        ap₂ ◌++◌ front (sym (drop-drop f.pos k f.bytes)) ∙ take-drop k rest in
      ih (move f k) (update h (b ∷ c)) (omega arith)
      ∙ rw (update-append h (b ∷ c), whole, left)
          (ap (λ m. ok (update h rest, record f { pos = m })) (sum_pos f.pos k (length rest) there))

  hash_loop_lem :
      (fuel buf : ℕ) (f : InFile) (h : H)
      → 0 < buf
      → length (drop f.pos f.bytes) < fuel
      → hash_loop update fuel buf f h ≡ hashed f h
  unfolding hash_loop
  hash_loop_lem zero buf f h pos room = absurd (omega arith)
  hash_loop_lem (suc fuel) buf f h pos room =
      hash_round fuel buf f h pos room (λ g k r. hash_loop_lem fuel buf g k pos r) _ refl

  -- With a buffer that is not empty and a hasher that takes its data in any number of pieces,
  -- `hash_file` ends, having hashed all that follows the position in the file.
  pub hash_file_lem :
      (buf_size : ℕ) (f : InFile) (h : H)
      → 0 < buf_size
      → hash_file update buf_size f h
        ≡ ok (update h (drop f.pos f.bytes), move f (length (drop f.pos f.bytes)))
  unfolding hash_file
  hash_file_lem buf_size f h pos =
      hash_loop_lem (suc (length f.bytes)) buf_size f h pos
        (omega (arith, length-drop f.pos f.bytes))

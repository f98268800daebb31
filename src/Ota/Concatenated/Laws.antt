-- ===== src/Ota/Concatenated/Laws.antt =====
-- What `read` returns.
use avbroot.Prelude.{
  ℕ, zero, suc, ◌+◌, ◌-◌, ◌*◌, ◌≤◌, ◌<◌, ◌≡◌, refl, sym, ap, ◌∙◌, Bool, true, false, ◌&&◌, Option,
  none, some, List, [], ◌∷◌, ◌++◌, length, take, drop, leb, ltb, arith, if◌then◌else◌, length-take,
  length-drop,
}
use mathlib.Core.Path.{subst}
use avbroot.Result.{ok, err, out_of_fuel}
use avbroot.Stream.{Bytes}
use avbroot.Util.Pieces.{take_whole, slice-front, drop-behind}
use avbroot.Ota.Concatenated.{
  FileRange, get_range, limit, reduce, is_done, read_range, read_found, read_loop, read_sized,
}

-- The ranges follow each other from an offset, and each holds as many bytes as it covers.
abbrev pub IsChained : ℕ → List FileRange → Type 0
IsChained start [] = Unit
IsChained start (r ∷ rs) =
    (r.start ≡ start) × (r.end ≡ start + length r.content) × IsChained r.end rs

abbrev pub contents : List FileRange → Bytes
contents [] = []
contents (r ∷ rs) = r.content ++ contents rs

-- What is known of the range that is found.
record IsFound (s offset : ℕ) (rs : List FileRange) (r : FileRange) : Type 0 where
  begins : r.start ≤ offset
  ends : offset < r.end
  covers : r.end ≡ r.start + length r.content
  slice :
      (n : ℕ)
      → n ≤ r.end - offset
      → take n (drop (offset - r.start) r.content) ≡ take n (drop (offset - s) (contents rs))

abbrev range_of : FileRange → Option (FileRange × Bool) → FileRange
range_of q none = q
range_of q (some (r, last)) = r

IsFound-first :
    (offset : ℕ) (q : FileRange) (rs : List FileRange)
    → q.start ≤ offset
    → offset < q.end
    → q.end ≡ q.start + length q.content
    → IsFound q.start offset (q ∷ rs) q
IsFound-first offset q rs begins ends covers = record {
  begins = begins;
  ends = ends;
  covers = covers;
  slice = λ n h. slice-front (offset - q.start) n q.content (contents rs) (omega arith);
}

IsFound-behind :
    (offset : ℕ) (q r : FileRange) (rs : List FileRange)
    → q.end ≡ q.start + length q.content
    → q.end ≤ offset
    → IsFound q.end offset rs r
    → IsFound q.start offset (q ∷ rs) r
IsFound-behind offset q r rs covers behind found = record {
  begins = found.begins;
  ends = found.ends;
  covers = found.covers;
  slice = λ n h.
      found.slice n h
      ∙ ap (take n) (
          sym (
            drop-behind (offset - q.start) q.content (contents rs) (omega arith)
            ∙ ap (λ m. drop m (contents rs)) (omega arith)));
}

abbrev Finds : ℕ → List FileRange → Type 0
Finds offset rs =
    (s : ℕ) (r : FileRange) (last : Bool)
    → IsChained s rs
    → s ≤ offset
    → get_range rs offset ≡ some (r, last)
    → IsFound s offset rs r

get_range_step :
    (offset : ℕ) (q : FileRange) (rs : List FileRange)
    → Finds offset rs
    → (s : ℕ) (r : FileRange) (last b end : Bool) → IsChained s (q ∷ rs)
    → s ≤ offset
    → (leb q.start offset && ltb offset q.end) ≡ b
    → (if b then some (q, end) else get_range rs offset) ≡ some (r, last)
    → IsFound s offset (q ∷ rs) r
get_range_step offset q rs ih s r last true end (at, covers, chained) le t h =
    let same : q ≡ r = ap (range_of q) h in
    let begins : q.start ≤ offset = omega arith in
    let ends : offset < q.end = ground arith in
    subst (λ x. IsFound x offset (q ∷ rs) r) at
      (subst (λ x. IsFound q.start offset (q ∷ rs) x) same
        (IsFound-first offset q rs begins ends (omega arith)))
get_range_step offset q rs ih s r last false end (at, covers, chained) le t h =
    let behind : q.end ≤ offset = ground arith in
    subst (λ x. IsFound x offset (q ∷ rs) r) at
      (IsFound-behind offset q r rs (omega arith) behind (ih q.end r last chained behind h))

get_range_lem : (offset : ℕ) (rs : List FileRange) → Finds offset rs
unfolding get_range
get_range_lem offset [] s r last chained le h = cc
get_range_lem offset (q ∷ rs) s r last chained le h =
    get_range_step offset q rs (get_range_lem offset rs) s r last _ _ chained le refl h

limit-le : (size : Option ℕ) (n : ℕ) → limit size n ≤ n
limit-le none n = omega arith
limit-le (some m) n = omega arith

module _ (rs : List FileRange) (offset : ℕ) (r : FileRange) (last : Bool) (chained : IsChained 0 rs)
    (found : get_range rs offset ≡ some (r, last)) where
  abbrev rest_of : Bytes
  rest_of = drop (offset - r.start) r.content

  round_full :
      (size : Option ℕ)
      → ltb (length (take (limit size (r.end - offset)) rest_of)) (limit size (r.end - offset))
        ≡ false
  round_full size =
      let f = get_range_lem offset rs 0 r last chained (omega arith) found in
      let n = limit size (r.end - offset) in
      let long : length rest_of ≡ r.end - offset =
        omega (arith, length-drop (offset - r.start) r.content, f.begins, f.covers) in
      let taken : length (take n rest_of) ≡ n =
        omega (arith, length-take n rest_of, limit-le size (r.end - offset)) in
      ground arith

  -- A round takes its bytes from the place where the round before took them.
  read_round :
      (fuel : ℕ) (size : Option ℕ) (buf : Bytes)
      → is_done size ≡ false
      → read_loop (suc fuel) rs offset size buf
        ≡ read_loop fuel rs offset
            (reduce size (limit size (r.end - offset)))
            (buf ++ take (limit size (r.end - offset)) rest_of)
  unfolding read_loop read_found read_range
  read_round fuel none buf more = rw (found, round_full none) refl
  read_round fuel (some zero) buf more = cc
  read_round fuel (some (suc n)) buf more = rw (found, round_full (some (suc n))) refl

  is_done_pos : (n : ℕ) → 0 < n → is_done (some n) ≡ false
  is_done_pos zero h = absurd (omega arith)
  is_done_pos (suc n) h = refl

  read_done : (fuel : ℕ) (buf : Bytes) → read_loop fuel rs offset (some 0) buf ≡ ok buf
  unfolding read_loop
  read_done zero buf = refl
  read_done (suc fuel) buf = refl

  -- In a descriptor whose ranges follow each other from 0 and hold the bytes that they cover, a
  -- `read` that ends within the range of the offset returns the bytes that stand there in the
  -- concatenation of all the ranges.
  pub read_within :
      (size : ℕ)
      → offset + size ≤ r.end
      → read_sized size (record { ranges = rs; offset = offset })
        ≡ ok (take size (drop offset (contents rs)))
  unfolding read_sized
  read_within zero h = read_done 0 []
  read_within (suc n) h =
      let f = get_range_lem offset rs 0 r last chained (omega arith) found in
      let all : limit (some (suc n)) (r.end - offset) ≡ suc n = omega arith in
      let left : suc n - suc n ≡ 0 = omega arith in
      read_round n (some (suc n)) [] refl
      ∙ rw (all, left) (read_done n _)
      ∙ ap ok (f.slice (suc n) (omega arith))
      ∙ ap (λ m. ok (take (suc n) (drop m (contents rs)))) (omega arith)

  -- In such a descriptor, a `read` that goes beyond the range of the offset by no more than the
  -- range has left returns the rest of the range and then the front of that rest again, where the
  -- bytes of the next range stand in the concatenation.
  pub read_across :
      (size : ℕ)
      → r.end < offset + size
      → size ≤ 2 * (r.end - offset)
      → read_sized size (record { ranges = rs; offset = offset })
        ≡ ok (
            drop (offset - r.start) r.content
            ++ take (size - (r.end - offset)) (drop (offset - r.start) r.content))
  unfolding read_sized
  read_across zero h le =
      let f = get_range_lem offset rs 0 r last chained (omega arith) found in
      absurd (omega (arith, f.ends))
  read_across (suc zero) h le =
      let f = get_range_lem offset rs 0 r last chained (omega arith) found in
      absurd (omega (arith, f.ends))
  read_across (suc (suc n)) h le =
      let f = get_range_lem offset rs 0 r last chained (omega arith) found in
      let size = suc (suc n) in
      let m = r.end - offset in
      let first : limit (some size) m ≡ m = omega arith in
      let second : limit (some (size - m)) m ≡ size - m = omega arith in
      let left : (size - m) - (size - m) ≡ 0 = omega arith in
      let whole : take m rest_of ≡ rest_of =
        take_whole m rest_of
          (omega (arith, length-drop (offset - r.start) r.content, f.begins, f.covers)) in
      read_round (suc n) (some size) [] refl
      ∙ rw (first, whole)
          (read_round n (some (size - m)) rest_of (is_done_pos (size - m) (omega (arith, f.ends)))
            ∙ rw (second, left) (read_done n _))

  -- In such a descriptor, a `read` without a size from an offset within a range never ends: no
  -- number of rounds of its loop is enough.
  pub read_all_lem : (fuel : ℕ) (buf : Bytes) → read_loop fuel rs offset none buf ≡ err out_of_fuel
  unfolding read_loop
  read_all_lem zero buf = refl
  read_all_lem (suc fuel) buf = read_round fuel none buf refl ∙ read_all_lem fuel _

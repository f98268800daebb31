-- ===== src/Stream/Laws.antt =====
-- A calculus for round trips: `Writes w pos chunk` says that `w` appends `chunk` when the file has
-- `pos` bytes, and `Reads p pos chunk a` that `p` consumes `chunk` at `pos` and returns `a`, whatever
-- follows. Both are proved step by step, and meet at a common `chunk`.
use avbroot.Prelude.{
  ℕ, ◌+◌, ◌≡◌, refl, sym, ap, ◌∙◌, Bool, true, [], ◌++◌, length, drop, ◌==◌, arith, length-append,
  take_front, drop_front, drop-drop, append_assoc, append-nil,
}
use mathlib.Core.Path.{subst}
use native.Mathlib.Nat.{add-zero}
use avbroot.Result.{Result, Error, ok}
use avbroot.Stream.{
  Bytes, InFile, Parser, ◌>>=◌, pure, seek_cur, require, lift, write_result, move, tell, read_exact,
  Writer, ◌⨟◌, write, skip, check,
}

pub record Reads {ℓ} {A : Type ℓ} (p : Parser A) (pos : ℕ) (chunk : Bytes) (a : A) : Type ℓ where
  pub at :
      (f : InFile) (rest : Bytes)
      → f.pos ≡ pos
      → drop f.pos f.bytes ≡ chunk ++ rest
      → p f ≡ ok (a, move f (length chunk))

pub record Writes (w : Writer) (pos : ℕ) (chunk : Bytes) : Type 0 where
  pub at : (out : Bytes) → length out ≡ pos → w out ≡ ok (out ++ chunk)

-- What follows a chunk in the file stands at the position behind it.
pub drop_behind :
    (f : InFile) (chunk rest : Bytes)
    → drop f.pos f.bytes ≡ chunk ++ rest
    → drop (f.pos + length chunk) f.bytes ≡ rest
drop_behind f chunk rest h =
    sym (drop-drop f.pos (length chunk) f.bytes)
    ∙ ap (λ t. drop (length chunk) t) h
    ∙ drop_front chunk rest

pub pos_append :
    (f : InFile) (c d : Bytes) → move (move f (length c)) (length d) ≡ move f (length (c ++ d))
pos_append f c d =
    let e : f.pos + length c + length d ≡ f.pos + length (c ++ d) =
      omega (arith, length-append c d) in
    ap (λ n. record f { pos = n }) e

pos_nil : (f : InFile) → f ≡ move f 0
pos_nil f = let e : f.pos ≡ f.pos + 0 = omega arith in ap (λ n. record f { pos = n }) e

module _ {ℓ κ} {A : Type ℓ} {B : Type κ} where
  pub Reads-bind :
      {p : Parser A} (k : A → Parser B) {pos : ℕ} {c d : Bytes} {a : A} {b : B}
      → Reads p pos c a
      → Reads (k a) (pos + length c) d b
      → Reads (p >>= k) pos (c ++ d) b
  unfolding ◌>>=◌
  Reads-bind k {c} {d} {b} rp rk = record {
    at = λ f rest hp h. rw (rp.at f (d ++ rest) hp (h ∙ append_assoc c d rest)) (
        rk.at (move f (length c)) rest (rw hp)
          (drop_behind f c (d ++ rest) (h ∙ append_assoc c d rest))
        ∙ ap (λ g. ok (b, g)) (pos_append f c d));
  }

module _ {ℓ} {A : Type ℓ} where
  pub Reads-pure : (a : A) (pos : ℕ) → Reads (pure a) pos [] a
  unfolding pure
  Reads-pure a pos = record { at = λ f rest hp h. ap (λ g. ok (a, g)) (pos_nil f) }

  pub Reads-tell :
      (k : ℕ → Parser A) {pos : ℕ} {c : Bytes} {a : A}
      → Reads (k pos) pos c a
      → Reads (tell >>= k) pos c a
  unfolding ◌>>=◌
  Reads-tell k {c} {a} r = record {
    at = λ f rest hp h. subst (λ n. k n f ≡ ok (a, move f (length c))) (sym hp) (r.at f rest hp h);
  }

  pub Reads-pure_eq : (a : A) {b : A} (pos : ℕ) → a ≡ b → Reads (pure a) pos [] b
  Reads-pure_eq a pos e = rw (← e) (Reads-pure a pos)

  pub Reads-require :
      {b : Bool} (e : Error) (q : Unit {0} → Parser A) {pos : ℕ} {c : Bytes} {a : A}
      → b ≡ true
      → Reads (q tt) pos c a
      → Reads (require b e >>= q) pos c a
  unfolding ◌>>=◌
  Reads-require e q hb r = record { at = λ f rest hp h. rw hb (r.at f rest hp h) }

  pub Reads-lift {κ} :
      {B : Type κ} {r : Result B} (b : B) (k : B → Parser A) {pos : ℕ} {c : Bytes} {a : A}
      → r ≡ ok b
      → Reads (k b) pos c a
      → Reads (lift r >>= k) pos c a
  unfolding ◌>>=◌
  Reads-lift b k e r = record { at = λ f rest hp h. rw e (r.at f rest hp h) }

  pub Reads-lift_end : {r : Result A} (a : A) {pos : ℕ} → r ≡ ok a → Reads (lift r) pos [] a
  unfolding lift
  Reads-lift_end a e = record { at = λ f rest hp h. rw e (ap (λ g. ok (a, g)) (pos_nil f)) }

  pub Reads-cast :
      {p : Parser A} {pos : ℕ} {c d : Bytes} {a : A} → c ≡ d → Reads p pos c a → Reads p pos d a
  Reads-cast {p} {pos} {a} e r = rw e at r

pub Reads-require_end : {b : Bool} (e : Error) (pos : ℕ) → b ≡ true → Reads (require b e) pos [] tt
unfolding require
Reads-require_end e pos hb = record { at = λ f rest hp h. rw hb (ap (λ g. ok (tt, g)) (pos_nil f)) }

module _ {ℓ κ} {A : Type ℓ} {B : Type κ} where
  -- A step that consumes nothing, in front of another and behind it.
  pub Reads-silent :
      {p : Parser A} (k : A → Parser B) {pos : ℕ} {d : Bytes} {a : A} {b : B}
      → Reads p pos [] a
      → Reads (k a) pos d b
      → Reads (p >>= k) pos d b
  Reads-silent k {pos} {d} {a} {b} rp rk =
      Reads-bind k rp (subst (λ n. Reads (k a) n d b) (sym (add-zero pos)) rk)

  pub Reads-last :
      {p : Parser A} (k : A → Parser B) {pos : ℕ} {c : Bytes} {a : A} {b : B}
      → Reads p pos c a
      → Reads (k a) (pos + length c) [] b
      → Reads (p >>= k) pos c b
  Reads-last k {c} rp rk = Reads-cast (append-nil c) (Reads-bind k rp rk)

-- `f.seek(n, os.SEEK_CUR)` passes over `n` bytes of the file.
pub Reads-seek : (n pos : ℕ) (c : Bytes) → length c ≡ n → Reads (seek_cur n) pos c tt
unfolding seek_cur
Reads-seek n pos c h = record { at = λ f rest hp e. ap (λ m. ok (tt, move f m)) (sym h) }

pub Reads-read_exact : (n pos : ℕ) (c : Bytes) → length c ≡ n → Reads (read_exact n) pos c c
unfolding read_exact
Reads-read_exact n pos c hn = record {
  at = λ f rest hp h. rw (h, ← hn, take_front c rest) (rw (length-==_self c) refl);
}
  where
    length-==_self : (c : Bytes) → (length c == length c) ≡ true
    length-==_self c = ground arith

pub Writes-write : (c : Bytes) (pos : ℕ) → Writes (write c) pos c
unfolding write
Writes-write c pos = record { at = λ out h. refl }

pub Writes-skip : (pos : ℕ) → Writes skip pos []
unfolding skip
Writes-skip pos = record { at = λ out h. ap ok (sym (append-nil out)) }

pub Writes-then :
    {v w : Writer} {pos : ℕ} {c d : Bytes}
    → Writes v pos c
    → Writes w (pos + length c) d
    → Writes (v ⨟ w) pos (c ++ d)
unfolding ◌⨟◌
Writes-then {c} {d} hv hw = record {
  at = λ out h.
      rw (hv.at out h)
        (hw.at (out ++ c) (omega (arith, length-append out c)) ∙ ap ok (append_assoc out c d));
}

pub Writes-check :
    {b : Bool} (e : Error) {w : Writer} {pos : ℕ} {c : Bytes}
    → b ≡ true
    → Writes w pos c
    → Writes (check b e ⨟ w) pos c
unfolding ◌⨟◌
Writes-check e hb hw = record { at = λ out h. rw hb (hw.at out h) }

pub Writes-result :
    {r : Result Bytes} (c : Bytes) (pos : ℕ) → r ≡ ok c → Writes (write_result r) pos c
unfolding write_result
Writes-result c pos e = record { at = λ out h. rw e }

pub Writes-cast : {w : Writer} {pos : ℕ} {c d : Bytes} → c ≡ d → Writes w pos c → Writes w pos d
Writes-cast {w} {pos} e r = rw e at r

-- ===== src/Stream/Random.antt =====
-- The calculus of Stream/Laws.antt for readers that also jump to other places of the file: `ReadsIn`
-- may use a fact `Q` about the file's bytes.
use avbroot.Prelude.{
  ℕ, ◌+◌, ◌≡◌, sym, ap, ◌∙◌, Bool, true, [], ◌++◌, length, drop, append-nil, append_assoc,
}
use mathlib.Core.Path.{subst}
use native.Mathlib.Nat.{add-zero}
use avbroot.Result.{Result, Error, ok}
use avbroot.Stream.{Bytes, InFile, Parser, ◌>>=◌, require, lift, tell, move}
use avbroot.Stream.Laws.{Reads, drop_behind, pos_append}

-- One step, at a file.
pub bind_eq {ℓ κ} :
    {A : Type ℓ} {B : Type κ} (p : Parser A) (k : A → Parser B) {f g : InFile} {a : A}
    → p f ≡ ok (a, g)
    → (p >>= k) f ≡ k a g
unfolding ◌>>=◌
bind_eq p k e = rw e

pub record ReadsIn {ℓ} {A : Type ℓ} (Q : Bytes → Type 0) (p : Parser A) (pos : ℕ) (chunk : Bytes)
    (a : A) : Type ℓ where
  pub at :
      (f : InFile) (rest : Bytes)
      → Q f.bytes
      → f.pos ≡ pos
      → drop f.pos f.bytes ≡ chunk ++ rest
      → p f ≡ ok (a, move f (length chunk))

module _ {Q : Bytes → Type 0} where
  pub ReadsIn-Reads {ℓ} :
      {A : Type ℓ} {p : Parser A} {pos : ℕ} {c : Bytes} {a : A}
      → Reads p pos c a
      → ReadsIn Q p pos c a
  ReadsIn-Reads r = record { at = λ f rest q hp h. r.at f rest hp h }

  pub ReadsIn-bind {ℓ κ} :
      {A : Type ℓ} {B : Type κ} {p : Parser A} (k : A → Parser B) {pos : ℕ} {c d : Bytes} {a : A}
      {b : B}
      → ReadsIn Q p pos c a
      → ReadsIn Q (k a) (pos + length c) d b
      → ReadsIn Q (p >>= k) pos (c ++ d) b
  ReadsIn-bind {p} k {c} {d} {b} rp rk = record {
    at = λ f rest q hp h.
        bind_eq p k (rp.at f (d ++ rest) q hp (h ∙ append_assoc c d rest))
        ∙ rk.at (move f (length c)) rest q (ap (λ n. n + length c) hp)
            (drop_behind f c (d ++ rest) (h ∙ append_assoc c d rest))
        ∙ ap (λ g. ok (b, g)) (pos_append f c d);
  }

  pub ReadsIn-silent {ℓ κ} :
      {A : Type ℓ} {B : Type κ} {p : Parser A} (k : A → Parser B) {pos : ℕ} {d : Bytes} {a : A}
      {b : B}
      → ReadsIn Q p pos [] a
      → ReadsIn Q (k a) pos d b
      → ReadsIn Q (p >>= k) pos d b
  ReadsIn-silent k {pos} {d} {a} {b} rp rk =
      ReadsIn-bind k rp (subst (λ n. ReadsIn Q (k a) n d b) (sym (add-zero pos)) rk)

  pub ReadsIn-last {ℓ κ} :
      {A : Type ℓ} {B : Type κ} {p : Parser A} (k : A → Parser B) {pos : ℕ} {c : Bytes} {a : A}
      {b : B}
      → ReadsIn Q p pos c a
      → ReadsIn Q (k a) (pos + length c) [] b
      → ReadsIn Q (p >>= k) pos c b
  ReadsIn-last {p} k {pos} {c} {b} rp rk =
      subst (λ d. ReadsIn Q (p >>= k) pos d b) (append-nil c) (ReadsIn-bind k rp rk)

  pub ReadsIn-require {ℓ} :
      {A : Type ℓ} {b : Bool} (e : Error) (k : Unit {0} → Parser A) {pos : ℕ} {c : Bytes} {a : A}
      → b ≡ true
      → ReadsIn Q (k tt) pos c a
      → ReadsIn Q (require b e >>= k) pos c a
  unfolding ◌>>=◌
  ReadsIn-require e k hb r = record { at = λ f rest q hp h. rw hb (r.at f rest q hp h) }

  pub ReadsIn-lift {ℓ κ} :
      {A : Type ℓ} {B : Type κ} {r : Result B} (b : B) (k : B → Parser A) {pos : ℕ} {c : Bytes}
      {a : A}
      → r ≡ ok b
      → ReadsIn Q (k b) pos c a
      → ReadsIn Q (lift r >>= k) pos c a
  unfolding ◌>>=◌
  ReadsIn-lift b k e r = record { at = λ f rest q hp h. rw e (r.at f rest q hp h) }

  pub ReadsIn-tell {ℓ} :
      {A : Type ℓ} (k : ℕ → Parser A) {pos : ℕ} {c : Bytes} {a : A}
      → ReadsIn Q (k pos) pos c a
      → ReadsIn Q (tell >>= k) pos c a
  unfolding ◌>>=◌
  ReadsIn-tell k {c} {a} r = record {
    at = λ f rest q hp h.
        subst (λ n. k n f ≡ ok (a, move f (length c))) (sym hp) (r.at f rest q hp h);
  }

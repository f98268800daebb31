-- ===== src/Stream/Ends.antt =====
-- Readers that come to an end: they leave the file's bytes as they are, never move back, and fail, if
-- they do, with an exception of the program.
use avbroot.Prelude.{
  ℕ, suc, ◌≤◌, ◌<◌, ◌≡◌, refl, ◌∙◌, Bool, true, false, length, take, drop, ◌==◌, arith, length-take,
  length-drop, ==_iff, Bool-cases, inl, inr,
}
use avbroot.Result.{Result, Error, ok, err, out_of_fuel}
use avbroot.Stream.{
  InFile, Parser, continue, ◌>>=◌, pure, require, raise, lift, tell, read, read_exact, seek_cur,
}

abbrev pub is_fuel : Error → Bool
is_fuel out_of_fuel = true
is_fuel e = false

module _ {A : Type 0} (Q : A → Type 0) (f : InFile) where
  abbrev pub EndsAs : Result (A × InFile) → Type 0
  EndsAs (ok (a, g)) = (g.bytes ≡ f.bytes) × (f.pos ≤ g.pos) × Q a
  EndsAs (err e) = is_fuel e ≡ false

  -- The same, and at least one byte of the file is behind the position at the end.
  abbrev pub MovesAs : Result (A × InFile) → Type 0
  MovesAs (ok (a, g)) = (g.bytes ≡ f.bytes) × (f.pos < g.pos) × (f.pos < length f.bytes) × Q a
  MovesAs (err e) = is_fuel e ≡ false

pub record Ends {A : Type 0} (Q : A → Type 0) (p : Parser A) : Type 0 where
  pub run : (f : InFile) → EndsAs Q f (p f)

pub record Moves {A : Type 0} (Q : A → Type 0) (p : Parser A) : Type 0 where
  pub run : (f : InFile) → MovesAs Q f (p f)

module _ {B : Type 0} (R : B → Type 0) (f g : InFile) (same : g.bytes ≡ f.bytes) where
  pub ends_from : f.pos ≤ g.pos → (r : Result (B × InFile)) → EndsAs R g r → EndsAs R f r
  ends_from h (ok (b, k)) (s, m, q) = (s ∙ same, omega arith, q)
  ends_from h (err e) m = m

  moves_from :
      f.pos < g.pos
      → f.pos < length f.bytes
      → (r : Result (B × InFile)) → EndsAs R g r
      → MovesAs R f r
  moves_from h l (ok (b, k)) (s, m, q) = (s ∙ same, omega arith, l, q)
  moves_from h l (err e) m = m

module _ {A B : Type 0} {Q : A → Type 0} {R : B → Type 0} where
  bind-EndsAs :
      (f : InFile) (r : Result (A × InFile)) (k : A → Parser B)
      → EndsAs Q f r
      → ((a : A) → Q a → Ends R (k a))
      → EndsAs R f (continue r k)
  bind-EndsAs f (ok (a, g)) k (s, m, q) hk = ends_from R f g s m (k a g) (Ends.run (hk a q) g)
  bind-EndsAs f (err e) k h hk = h

  pub Ends-bind :
      {p : Parser A} {k : A → Parser B}
      → Ends Q p
      → ((a : A) → Q a → Ends R (k a))
      → Ends R (p >>= k)
  unfolding ◌>>=◌
  Ends-bind {p} {k} hp hk = record { run = λ f. bind-EndsAs f (p f) k (hp.run f) hk }

  bind-MovesAs :
      (f : InFile) (r : Result (A × InFile)) (k : A → Parser B)
      → MovesAs Q f r
      → ((a : A) → Q a → Ends R (k a))
      → MovesAs R f (continue r k)
  bind-MovesAs f (ok (a, g)) k (s, m, l, q) hk =
      moves_from R f g s m l (k a g) (Ends.run (hk a q) g)
  bind-MovesAs f (err e) k h hk = h

  pub Moves-bind :
      {p : Parser A} {k : A → Parser B}
      → Moves Q p
      → ((a : A) → Q a → Ends R (k a))
      → Moves R (p >>= k)
  unfolding ◌>>=◌
  Moves-bind {p} {k} hp hk = record { run = λ f. bind-MovesAs f (p f) k (hp.run f) hk }

-- What a result must be for the reader that returns it to end.
abbrev pub Fine : {A : Type 0} → (A → Type 0) → Result A → Type 0
Fine Q (ok a) = Q a
Fine Q (err e) = is_fuel e ≡ false

module _ {A : Type 0} {Q : A → Type 0} where
  pub Ends-pure : (a : A) → Q a → Ends Q (pure a)
  unfolding pure
  Ends-pure a q = record { run = λ f. (refl, omega arith, q) }

  pub Ends-raise : (e : Error) → is_fuel e ≡ false → Ends Q (raise e)
  unfolding raise
  Ends-raise e h = record { run = λ f. h }

  weaken_on :
      {R : A → Type 0} (f : InFile) (r : Result (A × InFile))
      → ((a : A) → Q a → R a)
      → EndsAs Q f r
      → EndsAs R f r
  weaken_on f (ok (a, g)) h (s, m, q) = (s, m, h a q)
  weaken_on f (err e) h m = m

  pub Ends-weaken : {R : A → Type 0} {p : Parser A} → ((a : A) → Q a → R a) → Ends Q p → Ends R p
  Ends-weaken {R} {p} h hp = record { run = λ f. weaken_on f (p f) h (hp.run f) }

  pub Ends-lift : (r : Result A) → Fine Q r → Ends Q (lift r)
  unfolding lift
  Ends-lift (ok a) q = record { run = λ f. (refl, omega arith, q) }
  Ends-lift (err e) q = record { run = λ f. q }

pub Ends-require : (b : Bool) (e : Error) → is_fuel e ≡ false → Ends (λ u. b ≡ true) (require b e)
unfolding require
Ends-require true e h = record { run = λ f. (refl, omega arith, refl) }
Ends-require false e h = record { run = λ f. h }

pub Ends-tell : Ends (λ n. Unit) tell
unfolding tell
Ends-tell = record { run = λ f. (refl, omega arith, tt) }

pub Ends-seek_cur : (n : ℕ) → Ends (λ u. Unit) (seek_cur n)
unfolding seek_cur
Ends-seek_cur n = record { run = λ f. (refl, omega arith, tt) }

pub Ends-read : (n : ℕ) → Ends (λ c. Unit) (read n)
unfolding read
Ends-read n = record { run = λ f. (refl, omega arith, tt) }

pub Ends-read_exact : (n : ℕ) → Ends (λ c. length c ≡ n) (read_exact n)
unfolding read_exact read ◌>>=◌
Ends-read_exact n = record {
  run = λ f.
      let chunk = take n (drop f.pos f.bytes) in
      elim (Bool-cases (length chunk == n)) [
        | inl h ↦ rw h (refl, omega arith, (==_iff _ n).0 h)
        | inr h ↦ rw h refl
      ];
}

pub Moves-read_exact : (n : ℕ) → Moves (λ c. length c ≡ suc n) (read_exact (suc n))
unfolding read_exact read ◌>>=◌
Moves-read_exact n = record {
  run = λ f.
      let chunk = take (suc n) (drop f.pos f.bytes) in
      elim (Bool-cases (length chunk == suc n)) [
        | inl h ↦
            let all : length chunk ≡ suc n = (==_iff _ (suc n)).0 h in
            let there : f.pos < length f.bytes =
              omega (arith, length-take (suc n) (drop f.pos f.bytes), length-drop f.pos f.bytes) in
            rw h (refl, omega arith, there, all)
        | inr h ↦ rw h refl
      ];
}

-- A result that is no exception of the model's own is what it is.
pub Fine-self : {A : Type 0} (Q : A → Type 0) (r : Result A) → Fine Q r → Fine (λ a. r ≡ ok a) r
Fine-self Q (ok a) h = refl
Fine-self Q (err e) h = h

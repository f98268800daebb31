-- ===== src/Cpio/Archive/Loads.antt =====
-- What `load` returns from any file at all.
use avbroot.Prelude.{
  append-nil, sym, ◌∙◌, ℕ, zero, suc, ◌+◌, ◌-◌, ◌≤◌, ◌<◌, ◌≡◌, ◌≢◌, refl, ap, Bool, true, false,
  not, List, [], ◌∷◌, ◌++◌, length, All, arith, if◌then◌else◌, ◌⊎◌, inl, inr, Bool-cases, ◌||◌,
}
use avbroot.Prelude.Int.{ℤ, pos, negsuc}
use avbroot.Prelude.Text.{bytes_eq, bytes_eq→eq}
use mathlib.Core.Path.{subst}
use avbroot.Result.{Result, ok, err, value_error, exception, eof_error, out_of_fuel}
use avbroot.Stream.{continue, Bytes, InFile, Parser, ◌>>=◌, ◌>>◌, pure, read, seek_cur}
use avbroot.Stream.Ends.{
  Ends-raise, Ends-weaken, Fine-self, Ends, Moves, EndsAs, MovesAs, Fine, ends_from, Ends-bind,
  Moves-bind, Ends-pure, Ends-lift, Ends-require, Ends-tell, Ends-seek_cur, Ends-read,
  Ends-read_exact, Moves-read_exact,
}
use avbroot.Padding.{calc, skip_bytes, read_skip, is_power_of_2}
use avbroot.Cpio.Hex.Laws.{Ends-int}
use avbroot.Cpio.Entry.{
  CpioEntry, cpio_trailer, magic_new, magic_new_crc, read_sized, read_name, read_header, read_entry,
}
use avbroot.Cpio.Archive.{
  s_ifmt, is_hard_link, reassigned, with_trailer, load_next, load_loop, load,
}

calc-Fine : (offset page_size : ℕ) → Fine (λ n. Unit) (calc offset page_size)
unfolding calc
calc-Fine offset page_size = elim (Bool-cases (is_power_of_2 page_size)) [
  | inl h ↦ rw h tt
  | inr h ↦ rw h refl
]

skip_ends :
    (b : Bool) (n : ℕ) (f : InFile)
    → EndsAs (λ u. Unit) f (if b then seek_cur n f else (read n >> pure tt) f)
skip_ends true n f = Ends.run (Ends-seek_cur n) f
skip_ends false n f =
    Ends.run (Ends-bind {Q = λ c. Unit} (Ends-read n) (λ c q. Ends-pure {Q = λ u. Unit} tt tt)) f

Ends-read_skip : (n : ℕ) → Ends (λ k. Unit) (read_skip n)
unfolding read_skip skip_bytes
Ends-read_skip n = Ends-bind Ends-tell λ offset _.
    Ends-bind {Q = λ n. Unit} (Ends-lift _ (calc-Fine offset n)) λ padding _.
      Ends-bind {Q = λ u. Unit} (record { run = λ f. skip_ends f.seekable padding f })
        λ u _. Ends-pure padding tt

-- What the reading of an entry establishes.
pub record IsRead (e : CpioEntry) : Type 0 where
  pub magic : (e.magic ≡ magic_new) ⊎ (e.magic ≡ magic_new_crc)
  pub namesize : e.namesize ≡ pos (length e.name + 1)
  pub filesize : e.filesize ≡ pos (length e.content)

abbrev HasMagic : CpioEntry → Type 0
HasMagic e = (e.magic ≡ magic_new) ⊎ (e.magic ≡ magic_new_crc)

known_magic :
    (m : Bytes)
    → (bytes_eq m magic_new || bytes_eq m magic_new_crc) ≡ true
    → (m ≡ magic_new) ⊎ (m ≡ magic_new_crc)
known_magic m h = elim (Bool-cases (bytes_eq m magic_new)) [
  | inl e ↦ inl (bytes_eq→eq m magic_new e)
  | inr e ↦ inr (bytes_eq→eq m magic_new_crc (sym (ap (λ b. b || bytes_eq m magic_new_crc) e) ∙ h))
]

Moves-header : Moves HasMagic read_header
unfolding read_header
Moves-header = Moves-bind (Moves-read_exact 5) λ magic _.
    Ends-bind (Ends-require _ exception refl) λ u known. Ends-bind Ends-int λ ino _.
      Ends-bind Ends-int λ mode _. Ends-bind Ends-int λ uid _. Ends-bind Ends-int λ gid _.
        Ends-bind Ends-int λ nlink _. Ends-bind Ends-int λ mtime _. Ends-bind Ends-int λ filesize _.
          Ends-bind Ends-int λ dev_maj _. Ends-bind Ends-int λ dev_min _.
            Ends-bind Ends-int λ rdev_maj _. Ends-bind Ends-int λ rdev_min _.
              Ends-bind Ends-int
                λ namesize _. Ends-bind Ends-int λ chksum _. Ends-pure _ (known_magic magic known)

Ends-name : (z : ℤ) → Ends (λ name. z ≡ pos (length name + 1)) (read_name z)
unfolding read_name
Ends-name (pos zero) = Ends-raise eof_error refl
Ends-name (pos (suc n)) = Ends-weaken (λ name h. ap pos (omega (arith, h))) (Ends-read_exact n)
Ends-name (negsuc n) = Ends-raise eof_error refl

Ends-sized : (z : ℤ) → Ends (λ content. z ≡ pos (length content)) (read_sized z)
unfolding read_sized
Ends-sized (pos n) = Ends-weaken (λ content h. ap pos (sym h)) (Ends-read_exact n)
Ends-sized (negsuc n) = Ends-raise eof_error refl

Moves-entry : Moves IsRead read_entry
unfolding read_entry
Moves-entry = Moves-bind Moves-header λ e known. Ends-bind (Ends-name e.namesize) λ name named.
    Ends-bind (Ends-read_exact 1) λ nul _. Ends-bind (Ends-read_skip 4) λ behind_name _.
      Ends-bind (Ends-sized e.filesize) λ content sized.
        Ends-bind (Ends-read_skip 4) λ behind_content _.
          Ends-pure _ (record { magic = known; namesize = named; filesize = sized })

-- An entry as `load` accepts it: it is what its sizes say, and no hard link.
pub record IsLoaded (e : CpioEntry) : Type 0 where
  pub read : IsRead e
  pub format : ℕ
  pub has_format : s_ifmt e.mode ≡ ok format
  pub no_hard_link : is_hard_link format e ≡ false

s_ifmt-Fine : (mode : ℤ) → Fine (λ n. Unit) (s_ifmt mode)
unfolding s_ifmt
s_ifmt-Fine (pos n) = tt
s_ifmt-Fine (negsuc n) = refl

not-true : (b : Bool) → not b ≡ true → b ≡ false
not-true true h = cc
not-true false h = refl

reassigned-IsLoaded :
    (reassign : Bool) (e : CpioEntry) (format : ℕ)
    → IsRead e
    → s_ifmt e.mode ≡ ok format
    → is_hard_link format e ≡ false
    → IsLoaded (reassigned reassign e)
unfolding is_hard_link
reassigned-IsLoaded true e format r f h = record {
  read = record { magic = r.magic; namesize = r.namesize; filesize = r.filesize };
  format = format;
  has_format = f;
  no_hard_link = h;
}
reassigned-IsLoaded false e format r f h = record {
  read = r;
  format = format;
  has_format = f;
  no_hard_link = h;
}

Moves-next : (reassign : Bool) → Moves IsLoaded (load_next reassign)
unfolding load_next
Moves-next reassign = Moves-bind Moves-entry λ e r.
    Ends-bind (Ends-lift _ (Fine-self (λ n. Unit) (s_ifmt e.mode) (s_ifmt-Fine e.mode))) λ format f.
      Ends-bind (Ends-require _ value_error refl)
        λ u h. Ends-pure _ (reassigned-IsLoaded reassign e format r f (not-true _ h))

All-snoc :
    (es : List CpioEntry) (e : CpioEntry)
    → All IsLoaded es
    → IsLoaded e
    → All IsLoaded (es ++ (e ∷ []))
All-snoc [] e h p = (p, tt)
All-snoc (x ∷ es) e (q, h) p = (q, All-snoc es e h p)

module _ (include reassign : Bool) where
  with_trailer-All :
      (done : List CpioEntry) (e : CpioEntry) (include : Bool)
      → All IsLoaded done
      → IsLoaded e
      → All IsLoaded (done ++ with_trailer include e)
  with_trailer-All done e true h p = All-snoc done e h p
  with_trailer-All done e false h p = rw (append-nil done) h

  abbrev Loops : ℕ → Type 0
  Loops fuel =
      (done : List CpioEntry) (f : InFile)
      → All IsLoaded done
      → length f.bytes - f.pos < fuel
      → EndsAs (All IsLoaded) f (load_loop fuel include reassign done f)

  abbrev step : ℕ → List CpioEntry → CpioEntry → Parser (List CpioEntry)
  step fuel done e = elim (bytes_eq e.name cpio_trailer) [
    | true ↦ pure (done ++ with_trailer include e)
    | false ↦ load_loop fuel include reassign (done ++ (e ∷ []))
  ]

  found_ends :
      (fuel : ℕ) (done : List CpioEntry) (e : CpioEntry) (f : InFile)
      → Loops fuel
      → All IsLoaded done
      → IsLoaded e
      → length f.bytes - f.pos < fuel
      → (trailer : Bool)
      → EndsAs (All IsLoaded) f (
          (elim trailer as (λ b. Parser (List CpioEntry)) [
            | true ↦ pure (done ++ with_trailer include e)
            | false ↦ load_loop fuel include reassign (done ++ (e ∷ []))
          ])
            f)
  unfolding pure
  found_ends fuel done e f ih all loaded room true =
      (refl, omega arith, with_trailer-All done e include all loaded)
  found_ends fuel done e f ih all loaded room false =
      ih (done ++ (e ∷ [])) f (All-snoc done e all loaded) room

  step_ends :
      (fuel : ℕ) (done : List CpioEntry) (f : InFile)
      → Loops fuel
      → All IsLoaded done
      → length f.bytes - f.pos < suc fuel
      → (r : Result (CpioEntry × InFile)) → MovesAs IsLoaded f r
      → EndsAs (All IsLoaded) f (continue r (step fuel done))
  step_ends fuel done f ih all room (err e) h = h
  step_ends fuel done f ih all room (ok (e, g)) (same, moved, there, loaded) =
      let size : length g.bytes ≡ length f.bytes = ap length same in
      ends_from (All IsLoaded) f g same (omega arith) (step fuel done e g)
        (found_ends fuel done e g ih all loaded (omega arith) (bytes_eq e.name cpio_trailer))

  loop_ends : (fuel : ℕ) → Loops fuel
  unfolding load_loop ◌>>=◌
  loop_ends zero done f all room = absurd (omega arith)
  loop_ends (suc fuel) done f all room =
      step_ends fuel done f (loop_ends fuel) all room (load_next reassign f)
        (Moves.run (Moves-next reassign) f)

pub load-EndsAs :
    (include reassign : Bool) (f : InFile) → EndsAs (All IsLoaded) f (load include reassign f)
unfolding load
load-EndsAs include reassign f =
    loop_ends include reassign (suc (length f.bytes)) [] f tt (omega arith)

-- From any file, position and flags, `load` ends without running out of fuel: with an archive or
-- with an exception of the program.
pub load_terminates :
    (include reassign : Bool) (f : InFile) → load include reassign f ≢ err out_of_fuel
load_terminates include reassign f h =
    let ended = subst (λ r. EndsAs (All IsLoaded) f r) h (load-EndsAs include reassign f) in cc

-- Whenever `load` returns, every entry has a known magic, a name size one above the length of its
-- name, a file size equal to the length of its content, and a mode and link count that are not
-- those of a hard link; the file's bytes are unchanged and its position has not moved back.
pub load-IsLoaded :
    (include reassign : Bool) (f g : InFile) (es : List CpioEntry)
    → load include reassign f ≡ ok (es, g)
    → All IsLoaded es × (g.bytes ≡ f.bytes) × (f.pos ≤ g.pos)
load-IsLoaded include reassign f g es h =
    let (same, moved, all) =
      subst (λ r. EndsAs (All IsLoaded) f r) h (load-EndsAs include reassign f) in
    (all, same, moved)

-- ===== src/Ota/Comment/Laws.antt =====
-- The signature is where the end of the file says that it is.
use avbroot.Prelude.{
  leb→le, ℕ, ◌+◌, ◌-◌, ◌^◌, ◌≤◌, ◌<◌, ◌≡◌, refl, sym, ap, ◌∙◌, Bool, true, false, not, [], ◌∷◌,
  ◌++◌, length, take, drop, leb, arith, append_assoc, append-nil, length-append, take_front,
  drop_front,
}
use avbroot.Prelude.Text.{bytes_eq}
use avbroot.Result.{Result, ok, err, exception, guard, ◌>>=◌, ◌>>◌}
use avbroot.Stream.{Bytes}
use avbroot.Struct.{Values, u16, pack, unpack}
use avbroot.Struct.Laws.{Fits, encode, length-encode, pack-encode, unpack-encode}
use avbroot.Ota.Comment.{
  string_end_archive, message, contains_bytes, strip_footer, eocd_magic, comment_trailer,
  comment_size_of, build_comment, sign_footer,
}

pub pack-u16 : (n : ℕ) → n < 2 ^ 16 → pack (u16 ∷ []) (n, tt) ≡ ok (encode (u16 ∷ []) (n, tt))
pack-u16 n h = pack-encode (u16 ∷ []) (n, tt) (omega arith)

ok_inj : (a b : Bytes) → ok a ≡ ok b → a ≡ b
ok_inj a b h = cc

module _ {A B : Type 0} where
  bind_ok :
      (m : Result A) (f : A → Result B) (b : B)
      → (m >>= f) ≡ ok b
      → (a : A) × (m ≡ ok a) × (f a ≡ ok b)
  bind_ok (err e) f b h = cc
  bind_ok (ok a) f b h = (a, refl, h)

guard_ok : (b : Bool) → guard b exception ≡ ok tt → b ≡ true
guard_ok true h = refl
guard_ok false h = cc

abbrev trailer_of : Bytes → Bytes
trailer_of signature =
    encode comment_trailer
      (comment_size_of signature - length message, (0xffff, (comment_size_of signature, tt)))

abbrev pub comment_of : Bytes → Bytes
comment_of signature = message ++ (signature ++ trailer_of signature)

abbrev finish : Bytes → Bytes → Result Bytes
finish signature trailer =
    guard (not (contains_bytes string_end_archive (message ++ (signature ++ trailer)))) exception
    >> ok (message ++ (signature ++ trailer))

finish_lem :
    (signature trailer comment : Bytes)
    → finish signature trailer ≡ ok comment
    → message ++ (signature ++ trailer) ≡ comment
finish_lem signature trailer comment h =
    let (v, clean, done) =
      bind_ok
        (guard (not (contains_bytes string_end_archive (message ++ (signature ++ trailer))))
          exception)
        (λ u. ok (message ++ (signature ++ trailer))) comment h in
    ok_inj _ _ done

abbrev pub trailer_values : Bytes → Values comment_trailer
trailer_values signature =
    (comment_size_of signature - length message, (0xffff, (comment_size_of signature, tt)))

pub trailer-Fits :
    (signature : Bytes)
    → comment_size_of signature ≤ 0xffff
    → Fits comment_trailer (trailer_values signature)
trailer-Fits signature h = (omega arith, (omega arith, (omega arith, tt)))

build_comment_lem :
    (signature comment : Bytes)
    → build_comment signature ≡ ok comment
    → (comment_size_of signature ≤ 0xffff) × (comment_of signature ≡ comment)
unfolding build_comment
build_comment_lem signature comment h =
    let (u, small, rest) =
      bind_ok (guard (leb (comment_size_of signature) 0xffff) exception)
        (λ u. pack comment_trailer (trailer_values signature) >>= finish signature) comment h in
    let fits : comment_size_of signature ≤ 0xffff =
      leb→le _ _ (guard_ok (leb (comment_size_of signature) 0xffff) small) in
    let packed =
      pack-encode comment_trailer (trailer_values signature) (trailer-Fits signature fits) in
    (
      fits,
      finish_lem signature (trailer_of signature) comment
          (sym (ap (λ r. r >>= finish signature) packed) ∙ rest),
    )

module _ (front size signature out : Bytes) (small : comment_size_of signature ≤ 0xffff)
    (e : front ++ (size ++ comment_of signature) ≡ out) where
  abbrev before : Bytes
  before = front ++ (size ++ message)

  abbrev trailer : Bytes
  trailer = trailer_of signature

  split : out ≡ before ++ (signature ++ trailer)
  split =
      sym e
      ∙ ap (λ t. front ++ t) (sym (append_assoc size message (signature ++ trailer)))
      ∙ sym (append_assoc front (size ++ message) (signature ++ trailer))

  trailer_size : length trailer ≡ 6
  trailer_size = length-encode comment_trailer (trailer_values signature)

  out_size : length out ≡ length before + length signature + 6
  out_size =
      ap length split
      ∙ (let a = length-append before (signature ++ trailer) in
          let b = length-append signature trailer in let t = trailer_size in omega arith)

  last_six : drop (length out - 6) out ≡ trailer
  last_six =
      let there : length out - 6 ≡ length (before ++ signature) =
        omega (arith, out_size, length-append before signature) in
      rw there (
        ap (drop (length (before ++ signature)))
          (split ∙ sym (append_assoc before signature trailer))
        ∙ drop_front (before ++ signature) trailer)

  in_front : take (length signature) (drop (length out - (length signature + 6)) out) ≡ signature
  in_front =
      let there : length out - (length signature + 6) ≡ length before = omega (arith, out_size) in
      rw there (
        ap (λ t. take (length signature) (drop (length before) t)) split
        ∙ ap (take (length signature)) (drop_front before (signature ++ trailer))
        ∙ take_front signature trailer)

  read_trailer :
      unpack comment_trailer trailer
      ≡ (length signature + 6, (0xffff, (length message + length signature + 6, tt)))
  read_trailer =
      ap (unpack comment_trailer) (sym (append-nil trailer))
      ∙ unpack-encode comment_trailer (trailer_values signature) [] (trailer-Fits signature small)
      ∙ ap (λ n. (n, (0xffff, (comment_size_of signature, tt)))) (omega arith)

  at_end :
      (unpack comment_trailer (drop (length out - 6) out)
        ≡ (length signature + 6, (0xffff, (length message + length signature + 6, tt))))
      × (take (length signature) (drop (length out - (length signature + 6)) out) ≡ signature)
  at_end = (ap (unpack comment_trailer) last_six ∙ read_trailer, in_front)

-- Whenever the archive comment is added, the last six bytes of the file are the distance of the
-- signature from the end (the length of the signature and six), 0xffff and the length of the
-- comment, and the signature stands at that distance from the end.
pub sign_footer_lem :
    (footer signature out : Bytes)
    → sign_footer footer signature ≡ ok out
    → (unpack comment_trailer (drop (length out - 6) out)
        ≡ (length signature + 6, (0xffff, (length message + length signature + 6, tt))))
      × (take (length signature) (drop (length out - (length signature + 6)) out) ≡ signature)
unfolding sign_footer
sign_footer_lem footer signature out h =
    let (stripped, s, after_strip) = bind_ok (strip_footer footer) _ out h in
    let (u, magic, after_magic) =
      bind_ok (guard (bytes_eq (eocd_magic footer) string_end_archive) exception) _ out
        after_strip in
    let (comment, c, after_comment) = bind_ok (build_comment signature) _ out after_magic in
    let (size, p, done) =
      bind_ok (pack (u16 ∷ []) (comment_size_of signature, tt)) _ out after_comment in
    let (fits, whole) = build_comment_lem signature comment c in
    at_end stripped size signature out fits
      (ap (λ k. stripped ++ (size ++ k)) whole ∙ ok_inj _ _ done)

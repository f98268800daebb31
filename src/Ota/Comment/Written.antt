-- ===== src/Ota/Comment/Written.antt =====
-- The output file byte for byte.
use avbroot.Prelude.{
  ◌&&◌, ◌||◌, ◌==◌, ◌/◌, ◌%◌, ltb, ℕ, ◌+◌, ◌-◌, ◌^◌, ◌≤◌, ◌<◌, ◌≡◌, refl, sym, ap, ◌∙◌, Bool, true,
  false, [], ◌∷◌, ◌++◌, length, take, drop, leb, arith, append_assoc, length-append, take_front,
  drop_front,
}
use avbroot.Prelude.Text.{codes, bytes_eq, bytes_eq_self}
use avbroot.Result.{ok}
use avbroot.Stream.{Bytes}
use avbroot.Struct.{to_le, u16}
use avbroot.Struct.Laws.{encode, field_bytes, pack-encode}
use avbroot.Ota.Comment.{
  string_end_archive, message, contains_bytes, strip_footer, eocd_magic, comment_trailer,
  comment_size_of, build_comment, sign_footer,
}
use avbroot.Ota.Comment.Laws.{pack-u16, comment_of, trailer_values, trailer-Fits}

-- The four bytes `PK\x05\x06` stand somewhere.
abbrev pub has_magic : Bytes → Bool
has_magic [] = false
has_magic (a ∷ []) = false
has_magic (a ∷ b ∷ []) = false
has_magic (a ∷ b ∷ c ∷ []) = false
has_magic (a ∷ b ∷ c ∷ d ∷ s) =
    (a == 80 && (b == 75 && (c == 5 && d == 6))) || has_magic (b ∷ c ∷ d ∷ s)

one_byte : (p : Bool) → ((p && false) || false) ≡ false
one_byte true = refl
one_byte false = refl

two_bytes : (p q r : Bool) → ((p && (q && false)) || ((r && false) || false)) ≡ false
two_bytes p q r = ground arith

three_bytes :
    (p q r t u v : Bool)
    → ((p && (q && (r && false))) || ((t && (u && false)) || ((v && false) || false))) ≡ false
three_bytes p q r t u v = ground arith

four_bytes :
    (p q r t more : Bool)
    → ((p && (q && (r && (t && true)))) || more) ≡ ((p && (q && (r && t))) || more)
four_bytes p q r t more = ground arith

contains-has_magic : (s : Bytes) → contains_bytes string_end_archive s ≡ has_magic s
unfolding contains_bytes bytes_eq
contains-has_magic [] = refl
contains-has_magic (a ∷ []) = one_byte (a == 80)
contains-has_magic (a ∷ b ∷ []) = two_bytes (a == 80) (b == 75) (b == 80)
contains-has_magic (a ∷ b ∷ c ∷ []) =
    three_bytes (a == 80) (b == 75) (c == 5) (b == 80) (c == 75) (c == 80)
contains-has_magic (a ∷ b ∷ c ∷ d ∷ s) =
    four_bytes (a == 80) (b == 75) (c == 5) (d == 6)
      (contains_bytes string_end_archive (b ∷ c ∷ d ∷ s))
    ∙ ap (λ t. (a == 80 && (b == 75 && (c == 5 && d == 6))) || t)
        (contains-has_magic (b ∷ c ∷ d ∷ s))

abbrev pub little_endian : ℕ → Bytes
little_endian n = (n % 256) ∷ (n / 256) ∷ []

-- The comment, byte for byte: the message and a null byte, the signature, the distance of the signature
-- from the end, 0xffff, and the size of the comment.
abbrev pub whole_comment : Bytes → Bytes
whole_comment signature =
    (codes "signed by avbroot" ++ (0 ∷ []))
    ++ (signature
        ++ (little_endian (length signature + 6)
            ++ ((255 ∷ 255 ∷ []) ++ little_endian (length signature + 24))))

-- A central directory whose end record has no comment, with the comment's size and the comment in place of
-- the size 0.
abbrev pub commented : Bytes → Bytes → Bytes → Bytes
commented directory fields signature =
    directory
    ++ ((80 ∷ 75 ∷ 5 ∷ 6 ∷ [])
        ++ (fields ++ (little_endian (length signature + 24) ++ whole_comment signature)))

high_byte : (n : ℕ) → n < 2 ^ 16 → (n / 256) % 256 ≡ n / 256
high_byte n h = omega arith

encode-u16 : (n : ℕ) → n < 2 ^ 16 → encode (u16 ∷ []) (n, tt) ≡ little_endian n
unfolding encode field_bytes to_le
encode-u16 n h = rw (high_byte n h) refl

encode-trailer :
    (a b : ℕ)
    → a < 2 ^ 16
    → b < 2 ^ 16
    → encode comment_trailer (a, (0xffff, (b, tt)))
      ≡ little_endian a ++ ((255 ∷ 255 ∷ []) ++ little_endian b)
unfolding encode field_bytes to_le
encode-trailer a b h g = rw (high_byte a h, high_byte b g) refl

comment_of-whole :
    (signature : Bytes)
    → length signature + 24 ≤ 0xffff
    → comment_of signature ≡ whole_comment signature
comment_of-whole signature h =
    let size : comment_size_of signature ≡ length signature + 24 = omega arith in
    let distance : comment_size_of signature - length message ≡ length signature + 6 =
      omega arith in
    ap (λ t. message ++ (signature ++ t))
      (ap (λ n. encode comment_trailer (n, (0xffff, (comment_size_of signature, tt)))) distance
        ∙ ap (λ n. encode comment_trailer (length signature + 6, (0xffff, (n, tt)))) size
        ∙ encode-trailer (length signature + 6) (length signature + 24) (omega arith) (omega arith))

-- The captured footer: a central directory, and an end record without a comment.
abbrev pub uncommented : Bytes → Bytes → Bytes
uncommented directory fields = directory ++ ((80 ∷ 75 ∷ 5 ∷ 6 ∷ []) ++ (fields ++ (0 ∷ 0 ∷ [])))

module _ (directory fields : Bytes) (sixteen : length fields ≡ 16) where
  abbrev record_front : Bytes
  record_front = directory ++ (string_end_archive ++ fields)

  abbrev footer : Bytes
  footer = uncommented directory fields

  footer_split : footer ≡ record_front ++ (0 ∷ 0 ∷ [])
  footer_split = sym (append_assoc directory (string_end_archive ++ fields) (0 ∷ 0 ∷ []))

  footer_size : length footer ≡ length directory + 22
  footer_size = omega (
    arith,
    length-append directory (string_end_archive ++ (fields ++ (0 ∷ 0 ∷ []))),
    length-append fields (0 ∷ 0 ∷ []),
    sixteen,
  )

  front_size : length footer - 2 ≡ length record_front
  front_size =
      omega (arith, footer_size, length-append directory (string_end_archive ++ fields), sixteen)

  stripped_footer : strip_footer footer ≡ ok record_front
  unfolding strip_footer
  stripped_footer =
      let long : ltb (length footer) 2 ≡ false = let size = footer_size in ground arith in
      let last : drop (length footer - 2) footer ≡ 0 ∷ 0 ∷ [] =
        rw front_size
          (ap (drop (length record_front)) footer_split ∙ drop_front record_front (0 ∷ 0 ∷ [])) in
      let front : take (length footer - 2) footer ≡ record_front =
        rw front_size
          (ap (take (length record_front)) footer_split ∙ take_front record_front (0 ∷ 0 ∷ [])) in
      rw (long, last, bytes_eq_self (0 ∷ 0 ∷ []), front) refl

  magic_found : eocd_magic footer ≡ string_end_archive
  magic_found =
      let start : length footer - 22 ≡ length directory = omega (arith, footer_size) in
      let end : length footer - 18 ≡ length (directory ++ string_end_archive) =
        omega (arith, footer_size, length-append directory string_end_archive) in
      rw (start, end)
        (ap (λ t. drop (length directory) (take (length (directory ++ string_end_archive)) t))
            (sym (append_assoc directory string_end_archive (fields ++ (0 ∷ 0 ∷ []))))
          ∙ ap (drop (length directory))
              (take_front (directory ++ string_end_archive) (fields ++ (0 ∷ 0 ∷ [])))
          ∙ drop_front directory string_end_archive)

built_comment :
    (signature : Bytes)
    → length signature + 24 ≤ 0xffff
    → has_magic (whole_comment signature) ≡ false
    → build_comment signature ≡ ok (comment_of signature)
unfolding build_comment
built_comment signature small clean =
    let fits : leb (comment_size_of signature) 0xffff ≡ true = ground arith in
    let packed =
      pack-encode comment_trailer (trailer_values signature)
        (trailer-Fits signature (omega arith)) in
    let no_magic : contains_bytes string_end_archive (comment_of signature) ≡ false =
      contains-has_magic (comment_of signature)
      ∙ ap has_magic (comment_of-whole signature small)
      ∙ clean in
    rw (fits, packed, no_magic) refl

-- For a footer that is a central directory and an end record, with its magic, 16 bytes and the
-- size 0 of a comment, and for a signature whose comment is at most 0xffff bytes long and free of
-- the magic, `open_signing_wrapper` writes the same bytes with the size of the comment, in little
-- endian, in place of the 0, and then the comment: `signed by avbroot` and a null byte, the
-- signature, the length of the signature and six, 0xffff, and the size of the comment.
pub sign_footer_succeeds :
    (directory fields signature : Bytes)
    → length fields ≡ 16
    → length signature + 24 ≤ 0xffff
    → has_magic (whole_comment signature) ≡ false
    → sign_footer (uncommented directory fields) signature
      ≡ ok (commented directory fields signature)
unfolding sign_footer
sign_footer_succeeds directory fields signature sixteen small clean =
    let n = length signature + 24 in
    let size : comment_size_of signature ≡ n = omega arith in
    let assemble : record_front directory fields sixteen
          ++ (encode (u16 ∷ []) (comment_size_of signature, tt) ++ comment_of signature)
        ≡ commented directory fields signature =
      ap (λ t. record_front directory fields sixteen ++ (t ++ comment_of signature))
        (ap (λ t. encode (u16 ∷ []) (t, tt)) size ∙ encode-u16 n (omega arith))
      ∙ ap (λ t. record_front directory fields sixteen ++ (little_endian n ++ t))
          (comment_of-whole signature small)
      ∙ append_assoc directory (string_end_archive ++ fields)
          (little_endian n ++ whole_comment signature)
      ∙ ap (λ t. directory ++ t)
          (append_assoc string_end_archive fields (little_endian n ++ whole_comment signature)) in
    rw
      (
        stripped_footer directory fields sixteen,
        magic_found directory fields sixteen,
        bytes_eq_self string_end_archive,
        built_comment signature small clean,
        pack-u16 (comment_size_of signature) (omega arith),
      )
      (ap ok assemble)

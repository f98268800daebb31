-- ===== src/Ota/Comment.antt =====
-- avbroot/ota.py, `open_signing_wrapper`: the zip's archive comment that holds the signature. The
-- captured footer is the central directory that `zipfile` wrote, and the signature is what the
-- openssl process printed.
pub mod Laws
pub mod Written
use avbroot.Prelude.{
  ℕ, ◌+◌, ◌-◌, Bool, true, false, ◌||◌, not, List, [], ◌∷◌, ◌++◌, length, take, drop, ltb, leb,
}
use avbroot.Prelude.Text.{codes, bytes_eq}
use avbroot.Result.{Result, ok, err, exception, guard, ◌>>=◌, ◌>>◌}
use avbroot.Stream.{Bytes}
use avbroot.Struct.{Field, u16, pack}

-- `zipfile.stringEndArchive`
abbrev pub string_end_archive : Bytes
string_end_archive = b'P' ∷ b'K' ∷ 5 ∷ 6 ∷ []

abbrev pub message : Bytes
message = codes "signed by avbroot" ++ (0 ∷ [])

-- `part in whole`
unfoldable pub contains_bytes : Bytes → Bytes → Bool
contains_bytes part [] = bytes_eq part []
contains_bytes part (b ∷ whole) =
    bytes_eq (take (length part) (b ∷ whole)) part || contains_bytes part whole

-- The footer without its comment size.
unfoldable pub strip_footer : Bytes → Result Bytes
strip_footer footer =
    guard (not (ltb (length footer) 2)) exception
    >> guard (bytes_eq (drop (length footer - 2) footer) (0 ∷ 0 ∷ [])) exception
    >> ok (take (length footer - 2) footer)

-- `footer[-22:-18]`
abbrev pub eocd_magic : Bytes → Bytes
eocd_magic footer = drop (length footer - 22) (take (length footer - 18) footer)

abbrev pub comment_trailer : List Field
comment_trailer = u16 ∷ u16 ∷ u16 ∷ []

abbrev pub comment_size_of : Bytes → ℕ
comment_size_of signature = length message + length signature + 6

-- The comment, with the offset of the signature from its end.
unfoldable pub build_comment : Bytes → Result Bytes
build_comment signature =
    guard (leb (comment_size_of signature) 0xffff) exception
    >> (pack comment_trailer
          (comment_size_of signature - length message, (0xffff, (comment_size_of signature, tt)))
        >>= λ trailer.
            guard (not (contains_bytes string_end_archive (message ++ (signature ++ trailer))))
              exception
            >> ok (message ++ (signature ++ trailer)))

-- What stands in the output file in place of the captured footer.
unfoldable pub sign_footer : Bytes → Bytes → Result Bytes
sign_footer footer signature = strip_footer footer >>= λ stripped.
    guard (bytes_eq (eocd_magic footer) string_end_archive) exception
    >> (build_comment signature >>= λ comment.
        pack (u16 ∷ []) (comment_size_of signature, tt) >>= λ size.
        ok (stripped ++ (size ++ comment)))

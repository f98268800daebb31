-- ===== src/Tests/Comments.antt =====
-- avbroot/ota.py, the archive comment, and a file that is no boot image: concrete runs.
use avbroot.Prelude.{
  ℕ, ◌+◌, ◌-◌, ◌≡◌, refl, true, [], ◌∷◌, length, take, drop, replicate, arith, length-replicate,
}
use avbroot.Prelude.Text.{bytes_eq}
use avbroot.Result.{ok, err, value_error}
use avbroot.Stream.{Bytes}
use avbroot.Struct.{unpack}
use avbroot.Ota.Comment.{message, comment_trailer, sign_footer}
use avbroot.Ota.Comment.Laws.{sign_footer_lem}
use avbroot.Ota.Comment.Written.{uncommented, commented, sign_footer_succeeds}
use avbroot.BootImage.Detect.{load_autodetect}
use avbroot.BootImage.Detect.Unknown.{load_autodetect-unknown}

abbrev directory : Bytes
directory = 1 ∷ 2 ∷ []

abbrev fields : Bytes
fields = replicate 16 0

abbrev footer : Bytes
footer = uncommented directory fields

abbrev signature : Bytes
signature = 48 ∷ 3 ∷ 1 ∷ []

signed : sign_footer footer signature ≡ ok (commented directory fields signature)
signed = sign_footer_succeeds directory fields signature refl (omega arith) refl

sign_footer_succeeds_example :
    sign_footer (uncommented directory fields) signature ≡ ok (commented directory fields signature)
sign_footer_succeeds_example =
    sign_footer_succeeds directory fields signature refl (omega arith) refl

abbrev out : Bytes
out = commented directory fields signature

sign_footer_lem_example :
    (unpack comment_trailer (drop (length out - 6) out)
      ≡ (length signature + 6, (0xffff, (length message + length signature + 6, tt))))
    × (take (length signature) (drop (length out - (length signature + 6)) out) ≡ signature)
sign_footer_lem_example = sign_footer_lem footer signature out signed

abbrev nulls : Bytes
nulls = replicate 2112 0

load_autodetect-unknown_example :
    load_autodetect (record { bytes = nulls; pos = 7; seekable = true }) ≡ err value_error
unfolding bytes_eq
load_autodetect-unknown_example =
    load_autodetect-unknown nulls true 7 (omega (arith, length-replicate {A = ℕ} 2112 0)) refl refl

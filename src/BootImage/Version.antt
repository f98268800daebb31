-- ===== src/BootImage/Version.antt =====
-- avbroot/formats/bootimage.py: the header versions 3 and 4, which two of the classes accept.
use avbroot.Prelude.{ℕ, ◌==◌, ◌≡◌, refl, if◌then◌else◌}
use avbroot.Result.{Result, ok, err, wrong_format}

pub data Version34 : Type 0 where
  v3 v4 : Version34

abbrev pub number : Version34 → ℕ
number v3 = 3
number v4 = 4

-- `if header_version not in (3, 4): raise WrongFormat`
unfoldable pub version_of : ℕ → Result Version34
version_of n = if n == 3 then ok v3 else if n == 4 then ok v4 else err wrong_format

pub version_of-number : (v : Version34) → version_of (number v) ≡ ok v
unfolding version_of
version_of-number v3 = refl
version_of-number v4 = refl

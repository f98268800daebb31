-- ===== src/Boot/Kmi.antt =====
-- avbroot/boot.py, `PrepatchedImage._get_kmi_version`: the kernel's version, with what `re` does for
-- `VERSION_REGEX`. A matcher returns the ways to match in the order in which `re` tries them: the
-- longest run of digits first.
use avbroot.Prelude.{
  ℕ, Bool, false, ◌&&◌, Option, none, some, List, [], ◌∷◌, ◌++◌, map, leb, ◌==◌, if◌then◌else◌,
}
use avbroot.Prelude.Text.{codes}
use avbroot.Result.{Result, ok, err, value_error, wrong_format, ◌>>=◌}
use avbroot.Stream.{Bytes}
use avbroot.Compression.Lz4.{Lz4Block}
use avbroot.Compression.Auto.{Gzip, open_source, read_source}
use avbroot.Boot.Ramdisk.{bytes_io}

abbrev is_digit : ℕ → Bool
is_digit c = leb b'0' c && leb c b'9'

abbrev add_digit : ℕ → List (Bytes × Bytes) → List (Bytes × Bytes)
add_digit c = map (λ (run, rest). (c ∷ run, rest))

-- `\d+`, with what follows.
unfoldable pub digit_runs : Bytes → List (Bytes × Bytes)
digit_runs [] = []
digit_runs (c ∷ s) =
    let more = digit_runs s in if is_digit c then add_digit c more ++ ((c ∷ [], s) ∷ []) else []

-- `.`
abbrev any_char : Bytes → List Bytes
any_char [] = []
any_char (c ∷ s) = if c == 10 then [] else s ∷ []

-- Characters that stand for themselves.
abbrev literal : Bytes → Bytes → List Bytes
literal [] s = s ∷ []
literal (c ∷ cs) [] = []
literal (c ∷ cs) (d ∷ s) = let more = literal cs s in if c == d then more else []

abbrev each {ℓ κ} : {A : Type ℓ} {B : Type κ} → List A → (A → List B) → List B
each [] k = []
each (a ∷ more) k = k a ++ each more k

-- The match at the front of the data, as `b'-'.join(m.groups())`.
unfoldable pub match_version : Bytes → List Bytes
match_version s = each (literal (codes "Linux version ") s) (λ s1.
    each (digit_runs s1) (λ (major, s2). each (literal (codes ".") s2) (λ s3.
      each (digit_runs s3) (λ (minor, s4). each (any_char s4) (λ s5.
        each (digit_runs s5) (λ (patch, s6). each (literal (codes "-android") s6) (λ s7.
          each (digit_runs s7) (λ (release, s8). each (literal (codes "-") s8) (λ s9.
            each (digit_runs s9) (λ (generation, s10). each (literal (codes "-") s10) (λ s11.
              (major
                ++ (codes "."
                    ++ (minor ++ (codes "-android" ++ (release ++ (codes "-" ++ generation))))))
              ∷ [])))))))))))

abbrev first_or : List Bytes → Option Bytes → Option Bytes
first_or [] later = later
first_or (m ∷ ms) later = some m

-- `VERSION_REGEX.search(data)`
unfoldable pub search_version : Bytes → Option Bytes
search_version [] = none
search_version (c ∷ s) = let later = search_version s in first_or (match_version (c ∷ s)) later

-- `except ValueError`, which `WrongFormat` is too.
unfoldable pub or_raw : Bytes → Result Bytes → Result Bytes
or_raw raw (ok decompressed) = ok decompressed
or_raw raw (err value_error) = ok raw
or_raw raw (err wrong_format) = ok raw
or_raw raw (err e) = err e

module _ (zip : Gzip) (lz4 : Lz4Block) where
  -- The kernel without its compression, where it has one.
  unfoldable pub decompress_kernel : Bytes → Result Bytes
  decompress_kernel kernel =
      or_raw kernel (
        open_source none false (bytes_io kernel) >>= λ (source, format). read_source zip lz4 source)

  unfoldable pub get_kmi_version : Bytes → Result (Option Bytes)
  get_kmi_version kernel =
      decompress_kernel kernel >>= λ decompressed. ok (search_version decompressed)

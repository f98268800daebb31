-- ===== src/Boot/Magisk/Config.antt =====
-- The configuration, line by line.
use avbroot.Prelude.{
  ℕ, ◌<◌, ◌≡◌, refl, true, ◌&&◌, some, [], ◌∷◌, ◌++◌, All, arith, ltb, leb, inl, inr, Bool-cases,
  if◌then◌else◌,
}
use avbroot.Prelude.Text.{codes}
use avbroot.Result.{ok}
use avbroot.Stream.{Bytes}
use avbroot.Util.{contains}
use avbroot.Boot.Magisk.{MagiskRootPatch, is_ascii, encode_ascii, hex, magisk_config}

abbrev pub expected_config : ℕ → Bytes → Bytes → ℕ → Bytes
expected_config version device hexdigest seed =
    codes "KEEPVERITY=true"
    ++ (10 ∷ [])
    ++ codes "KEEPFORCEENCRYPT=true"
    ++ (10 ∷ [])
    ++ codes "PATCHVBMETAFLAG=false"
    ++ (10 ∷ [])
    ++ codes "RECOVERYMODE=false"
    ++ (10 ∷ [])
    ++ (if leb 25211 version && ltb version 27000
        then codes "PREINITDEVICE=" ++ (device ++ (10 ∷ []))
        else [])
    ++ codes "SHA1="
    ++ hexdigest
    ++ (10 ∷ [])
    ++ (if leb 25211 version && ltb version 27000
        then codes "RANDOMSEED=0x" ++ (hex seed ++ (10 ∷ []))
        else [])

ascii_lem : (s : Bytes) → All (λ c. c < 128) s → is_ascii s ≡ true
ascii_lem [] h = refl
ascii_lem (c ∷ s) (h, hs) =
    let low : ltb c 128 ≡ true = ground arith in rw (low, ascii_lem s hs) refl

pub magisk_config_lem :
    (self : MagiskRootPatch) (device hexdigest : Bytes)
    → self.preinit_device ≡ some device
    → All (λ c. c < 128) device
    → magisk_config self hexdigest
      ≡ ok (expected_config self.version device hexdigest self.random_seed)
unfolding magisk_config contains encode_ascii
magisk_config_lem self device hexdigest given ascii =
    elim (Bool-cases (leb 25211 self.version && ltb self.version 27000)) [
      | inl e ↦ rw (given, ascii_lem device ascii, e) refl
      | inr e ↦ rw (given, ascii_lem device ascii, e) refl
    ]

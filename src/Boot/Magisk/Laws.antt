-- ===== src/Boot/Magisk/Laws.antt =====
-- Which versions are accepted.
use avbroot.Prelude.{
  ℕ, ◌<◌, ◌≤◌, ◌≡◌, ◌≢◌, ◌⊎◌, ◌↔◌, refl, Bool, true, false, not, ◌&&◌, ◌||◌, arith, ltb, leb,
}
use avbroot.Result.{ok, value_error, guard, ◌>>◌}
use avbroot.Util.{contains}
use avbroot.Boot.Magisk.{MagiskRootPatch, in_any, is_none, validate}

-- The versions that work without a preinit device, and those that need one.
abbrev pub IsOld : ℕ → Type 0
IsOld v = (25102 ≤ v) × (v < 25207)

abbrev pub IsNew : ℕ → Type 0
IsNew v = (25211 ≤ v) × (v < 27000) × (v ≢ 26200)

abbrev supported : ℕ → Bool
supported v =
    (leb 25102 v && ltb v 25207)
    || ((leb 25211 v && ltb v 26200) || ((leb 26201 v && ltb v 27000) || false))

abbrev needs_device : ℕ → Bool
needs_device v = leb 25211 v && ltb v 27000

accepted :
    (v : ℕ) (missing : Bool)
    → (supported v ≡ true)
    → (not (missing && needs_device v) ≡ true)
    → IsOld v ⊎ (IsNew v × (missing ≡ false))
accepted v missing h g = ground arith

is_supported :
    (v : ℕ) (missing : Bool) → IsOld v ⊎ (IsNew v × (missing ≡ false)) → supported v ≡ true
is_supported v missing h = ground arith

has_device :
    (v : ℕ) (missing : Bool)
    → IsOld v ⊎ (IsNew v × (missing ≡ false))
    → not (missing && needs_device v) ≡ true
has_device v missing h = ground arith

both : (a b : Bool) → (guard a value_error >> guard b value_error) ≡ ok tt → (a ≡ true) × (b ≡ true)
both true true h = (refl, refl)
both true false h = cc
both false b h = cc

-- `validate` accepts exactly the versions from 25102 to 25206, and, if a preinit device is given,
-- those from 25211 to 26999 but for 26200.
pub validate_iff :
    (self : MagiskRootPatch)
    → (validate self ≡ ok tt)
      ↔ (IsOld self.version ⊎ (IsNew self.version × (is_none self.preinit_device ≡ false)))
unfolding validate in_any contains
validate_iff self =
    let missing = is_none self.preinit_device in
    (
      (λ h.
          let (s, d) =
            both (supported self.version) (not (missing && needs_device self.version)) h in
          accepted self.version missing s d),
      (λ h. rw (is_supported self.version missing h, has_device self.version missing h) refl),
    )

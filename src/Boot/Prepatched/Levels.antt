-- ===== src/Boot/Prepatched/Levels.antt =====
-- The issues of each level, and those that are fatal.
use avbroot.Prelude.{
  ℕ, zero, suc, ◌+◌, ◌-◌, ◌≤◌, ◌≡◌, inl, inr, refl, sym, ap, ◌∙◌, max, Bool, true, false, ◌&&◌,
  ◌||◌, append-nil, min, not, Option, none, some, List, [], ◌∷◌, ◌++◌, length, ltb, leb, ◌==◌, All,
  arith, Bool-cases, if◌then◌else◌,
}
use avbroot.Prelude.Dict.{lookup}
use avbroot.Stream.{Bytes}
use avbroot.BootImage.Section.{Sections}
use avbroot.BootImage.Dict.{Dict}
use avbroot.Boot.Prepatched.{
  Issue, Issues, field_eq, added_fields, removed_fields, changed_fields, header_issues,
  section_issue, section_issues, ramdisk_issues, at_level, at_levels, min_level, max_level,
  warnings_of, errors_of, no_issue,
}

-- The issues of level `n`, if that is below the fatal level, in their order.
abbrev pub warned_at : ℕ → ℕ → Issues → List Issue
warned_at fatal_level n [] = []
warned_at fatal_level n ((level, i) ∷ is) =
    if level == n && ltb level fatal_level
    then i ∷ warned_at fatal_level n is
    else warned_at fatal_level n is

-- The warnings that are meant: those of level 0, then those of level 1, then those of level 2, each only
-- if its level is below the fatal one.
abbrev pub warned : ℕ → Issues → List Issue
warned fatal_level is =
    warned_at fatal_level 0 is ++ (warned_at fatal_level 1 is ++ warned_at fatal_level 2 is)

warned_at-below :
    (fatal_level n : ℕ) (is : Issues)
    → ltb n fatal_level ≡ true
    → warned_at fatal_level n is ≡ at_level n is
unfolding at_level
warned_at-below fatal_level n [] h = refl
warned_at-below fatal_level n ((level, i) ∷ is) h = elim (Bool-cases (level == n)) [
  | inl e ↦
      let below : ltb level fatal_level ≡ true = ground arith in
      rw (e, below, warned_at-below fatal_level n is h) refl
  | inr e ↦ rw (e, warned_at-below fatal_level n is h) refl
]

warned_at-fatal :
    (fatal_level n : ℕ) (is : Issues) → ltb n fatal_level ≡ false → warned_at fatal_level n is ≡ []
warned_at-fatal fatal_level n [] h = refl
warned_at-fatal fatal_level n ((level, i) ∷ is) h = elim (Bool-cases (level == n)) [
  | inl e ↦
      let fatal : ltb level fatal_level ≡ false = ground arith in
      rw (e, fatal, warned_at-fatal fatal_level n is h) refl
  | inr e ↦ rw (e, warned_at-fatal fatal_level n is h) refl
]

pub warnings_lem :
    (fatal_level : ℕ) (is : Issues) → warnings_of fatal_level is ≡ warned fatal_level is
unfolding at_levels
warnings_lem zero is =
    rw (warned_at-fatal 0 0 is refl, warned_at-fatal 0 1 is refl, warned_at-fatal 0 2 is refl) refl
warnings_lem (suc zero) is =
    rw (warned_at-below 1 0 is refl, warned_at-fatal 1 1 is refl, warned_at-fatal 1 2 is refl) refl
warnings_lem (suc (suc zero)) is =
    rw
      (
        warned_at-below 2 0 is refl,
        warned_at-below 2 1 is refl,
        warned_at-fatal 2 2 is refl,
        append-nil (at_level 1 is),
      )
      refl
warnings_lem (suc (suc (suc k))) is =
    let three : min (max_level + 1) (suc (suc (suc k))) - min_level ≡ 3 = omega arith in
    let low : ltb 0 (suc (suc (suc k))) ≡ true = ground arith in
    let medium : ltb 1 (suc (suc (suc k))) ≡ true = ground arith in
    let high : ltb 2 (suc (suc (suc k))) ≡ true = ground arith in
    rw
      (
        three,
        warned_at-below (suc (suc (suc k))) 0 is low,
        warned_at-below (suc (suc (suc k))) 1 is medium,
        warned_at-below (suc (suc (suc k))) 2 is high,
        append-nil (at_level 2 is),
      )
      refl

-- Some issue has that level or a higher one.
abbrev pub has_fatal : ℕ → Issues → Bool
has_fatal fatal_level [] = false
has_fatal fatal_level ((level, i) ∷ is) = leb fatal_level level || has_fatal fatal_level is

abbrev pub AreLevels : Issues → Type 0
AreLevels = All (λ (level, i). level ≤ max_level)

no_issue-append : (is js : List Issue) → no_issue (is ++ js) ≡ (no_issue is && no_issue js)
no_issue-append [] js = refl
no_issue-append (i ∷ is) js = refl

-- A level among those that are listed.
abbrev is_listed : ℕ → ℕ → ℕ → Bool
is_listed start count level = leb start level && ltb level (start + count)

not_listed : (start level : ℕ) → is_listed start 0 level ≡ false
not_listed start level = ground arith

at_level-cons :
    (start level : ℕ) (i : Issue) (is : Issues)
    → no_issue (at_level start ((level, i) ∷ is))
      ≡ (not (level == start) && no_issue (at_level start is))
unfolding at_level
at_level-cons start level i is = elim (Bool-cases (level == start)) [
  | inl e ↦ rw e refl
  | inr e ↦ rw e refl
]

shuffle :
    (start count level : ℕ) (a b : Bool)
    → ((not (level == start) && a) && (not (is_listed (start + 1) count level) && b))
      ≡ (not (is_listed start (suc count) level) && (a && b))
shuffle start count level a b = ground arith

at_levels-cons :
    (start count level : ℕ) (i : Issue) (is : Issues)
    → no_issue (at_levels start count ((level, i) ∷ is))
      ≡ (not (is_listed start count level) && no_issue (at_levels start count is))
unfolding at_levels
at_levels-cons start zero level i is = rw (not_listed start level) refl
at_levels-cons start (suc count) level i is =
    no_issue-append (at_level start ((level, i) ∷ is))
      (at_levels (start + 1) count ((level, i) ∷ is))
    ∙ rw (at_level-cons start level i is, at_levels-cons (start + 1) count level i is)
        (shuffle start count level (no_issue (at_level start is))
            (no_issue (at_levels (start + 1) count is))
          ∙ ap (λ b. not (is_listed start (suc count) level) && b)
              (sym (no_issue-append (at_level start is) (at_levels (start + 1) count is))))

no_levels : (start count : ℕ) → no_issue (at_levels start count []) ≡ true
unfolding at_levels at_level
no_levels start zero = refl
no_levels start (suc count) = no_levels (start + 1) count

listed_fatal :
    (fatal_level level : ℕ) (b : Bool)
    → level ≤ max_level
    → (not (is_listed (max min_level fatal_level) (max_level + 1 - max min_level fatal_level) level)
        && not b)
      ≡ not (leb fatal_level level || b)
listed_fatal fatal_level level b h = ground arith

pub errors_lem :
    (fatal_level : ℕ) (is : Issues)
    → AreLevels is
    → no_issue (errors_of fatal_level is) ≡ not (has_fatal fatal_level is)
errors_lem fatal_level [] h = no_levels _ _
errors_lem fatal_level ((level, i) ∷ is) (h, hs) =
    at_levels-cons (max min_level fatal_level) (max_level + 1 - max min_level fatal_level) level i
      is
    ∙ rw (errors_lem fatal_level is hs)
        (listed_fatal fatal_level level (has_fatal fatal_level is) h)

pub AreLevels-append : (is js : Issues) → AreLevels is → AreLevels js → AreLevels (is ++ js)
AreLevels-append [] js h g = g
AreLevels-append (i ∷ is) js (h, hs) g = (h, AreLevels-append is js hs g)

added-AreLevels : (ks : List Bytes) → AreLevels (added_fields ks)
unfolding added_fields
added-AreLevels [] = tt
added-AreLevels (k ∷ ks) = (omega arith, added-AreLevels ks)

removed-AreLevels : (ks : List Bytes) → AreLevels (removed_fields ks)
unfolding removed_fields
removed-AreLevels [] = tt
removed-AreLevels (k ∷ ks) = (omega arith, removed-AreLevels ks)

change_level_le : (a b : Bool) → (if a then 0 else if b then 1 else 2) ≤ max_level
change_level_le true b = omega arith
change_level_le false true = omega arith
change_level_le false false = omega arith

changed-AreLevels : (old new : Dict) (ks : List Bytes) → AreLevels (changed_fields old new ks)
unfolding changed_fields
changed-AreLevels old new [] = tt
changed-AreLevels old new (k ∷ ks) = elim (Bool-cases (field_eq (lookup k old) (lookup k new))) [
  | inl e ↦ rw e (changed-AreLevels old new ks)
  | inr e ↦ rw e (change_level_le _ _, changed-AreLevels old new ks)
]

section-AreLevels : (attr : Bytes) (a b : Option Bytes) → AreLevels (section_issue attr a b)
section-AreLevels attr none none = tt
section-AreLevels attr none (some b) = (omega arith, tt)
section-AreLevels attr (some a) none = (omega arith, tt)
section-AreLevels attr (some a) (some b) = tt

pub sections-AreLevels : (s t : Sections) → AreLevels (section_issues s t)
unfolding section_issues
sections-AreLevels s t = AreLevels-append _ _ (section-AreLevels _ s.kernel t.kernel) (
    AreLevels-append _ _ (section-AreLevels _ s.second t.second) (
      AreLevels-append _ _ (section-AreLevels _ s.recovery_dtbo t.recovery_dtbo) (
        AreLevels-append _ _ (section-AreLevels _ s.dtb t.dtb)
          (section-AreLevels _ s.bootconfig t.bootconfig))))

pub ramdisks-AreLevels : (rs ts : List Bytes) → AreLevels (ramdisk_issues rs ts)
unfolding ramdisk_issues
ramdisks-AreLevels rs ts = elim (Bool-cases (ltb (length ts) (length rs))) [
  | inl e ↦ rw e (omega arith, tt)
  | inr e ↦ rw e tt
]

pub header-AreLevels :
    (in_some_order : List Bytes → List Bytes) (old new : Dict)
    → AreLevels (header_issues in_some_order old new)
unfolding header_issues
header-AreLevels in_some_order old new =
    AreLevels-append _ _ (added-AreLevels _)
      (AreLevels-append _ _ (removed-AreLevels _) (changed-AreLevels old new _))

pub kmi-AreLevels : (b : Bool) → AreLevels (if b then [] else (2, Issue.kmi_changed) ∷ [])
kmi-AreLevels true = tt
kmi-AreLevels false = (omega arith, tt)

-- ===== src/Boot/Backup.antt =====
-- avbroot/boot.py, `_apply_magisk_backup`. The entries of a list are objects: an object of the new list
-- that is also one of the old list carries its place there, and is renamed in both.
pub mod Names
pub mod Places
pub mod Laws
pub mod Kept
use avbroot.Prelude.{
  ℕ, zero, suc, ◌+◌, Bool, true, false, not, ◌&&◌, ◌||◌, Option, none, some, List, [], ◌∷◌, ◌++◌,
  map, ◌==◌, if◌then◌else◌,
}
use avbroot.Prelude.Text.{codes, bytes_eq, bytes_le}
use avbroot.Prelude.Dict.{elem, lookup}
use avbroot.Result.{Result, ok, err, key_error, ◌>>=◌}
use avbroot.Stream.{Bytes}
use avbroot.Cpio.Entry.{CpioEntry, set_name, new_directory, new_file}

pub record Object : Type 0 where
  -- The place in the list of the old entries.
  pub place : Option ℕ
  pub entry : CpioEntry

abbrev pub fresh : CpioEntry → Object
fresh e = record { place = none; entry = e }

-- `entries.copy()`: the objects of the list, numbered.
unfoldable pub objects : ℕ → List CpioEntry → List Object
objects n [] = []
objects n (e ∷ es) = record { place = some n; entry = e } ∷ objects (n + 1) es

abbrev pub name_of : Object → Bytes
name_of o = let e = o.entry in e.name

-- The names, each once.
unfoldable pub names_of : List Object → List Bytes
names_of [] = []
names_of (o ∷ os) =
    let rest = names_of os in if elem (name_of o) rest then rest else name_of o ∷ rest

abbrev pub or_else : Option Object → Object → Option Object
or_else none o = some o
or_else (some p) o = some p

-- `{e.name: e for e in entries}.get(name)`: the last object of that name.
unfoldable pub by_name : Bytes → List Object → Option Object
by_name name [] = none
by_name name (o ∷ os) =
    let later = by_name name os in if bytes_eq (name_of o) name then or_else later o else later

unfoldable pub filter_names : (Bytes → Bool) → List Bytes → List Bytes
filter_names keep [] = []
filter_names keep (n ∷ ns) = let rest = filter_names keep ns in if keep n then n ∷ rest else rest

abbrev pub content_differs : Option Object → Option Object → Bool
content_differs (some o) (some p) =
    let e = o.entry in let f = p.entry in not (bytes_eq e.content f.content)
content_differs none p = false
content_differs (some o) none = false

-- `new_by_name.keys() - old_by_name.keys()`
unfoldable pub added : List Object → List Object → List Bytes
added old new = filter_names (λ n. not (elem n (names_of old))) (names_of new)

-- `deleted | changed`
unfoldable pub lost : List Object → List Object → List Bytes
lost old new =
    filter_names
      (λ n. not (elem n (names_of new)) || content_differs (by_name n old) (by_name n new))
      (names_of old)

abbrev pub is_place : Option ℕ → Option ℕ → Bool
is_place (some i) (some j) = i == j
is_place none j = false
is_place (some i) none = false

-- `entry.name = name` for an object of the old list, seen in the new one.
unfoldable pub rename : Option ℕ → Bytes → List Object → List Object
rename place name [] = []
rename place name (o ∷ os) =
    let rest = rename place name os in
    if is_place place o.place then record o { entry = set_name name o.entry } ∷ rest else o ∷ rest

abbrev pub backup_prefix : Bytes
backup_prefix = codes ".backup/"

abbrev pub renamed : Object → Object
renamed o = record o { entry = set_name (backup_prefix ++ name_of o) o.entry }

abbrev pub add_backup : Option Object → List Object → Result (List Object)
add_backup none new = err key_error
add_backup (some o) new = ok (rename o.place (backup_prefix ++ name_of o) new ++ (renamed o ∷ []))

-- The loop over the lost names. No two names have the same object, so what is looked up is not renamed
-- yet.
unfoldable pub add_backups : List Object → List Bytes → List Object → Result (List Object)
add_backups old [] new = ok new
add_backups old (n ∷ ns) new = add_backup (by_name n old) new >>= add_backups old ns

-- `sorted(added)`
unfoldable pub insert_name : Bytes → List Bytes → List Bytes
insert_name n [] = n ∷ []
insert_name n (m ∷ ms) =
    let rest = insert_name n ms in if bytes_le n m then n ∷ m ∷ ms else m ∷ rest

unfoldable pub sort_names : List Bytes → List Bytes
sort_names [] = []
sort_names (n ∷ ns) = insert_name n (sort_names ns)

-- `b''.join(n + b'\0' for n in names)`
unfoldable pub join_names : List Bytes → Bytes
join_names [] = []
join_names (n ∷ ns) = n ++ (0 ∷ join_names ns)

-- Python's sets have no order: `in_some_order` is the one that the loop meets.
unfoldable pub apply_magisk_backup :
    (List Bytes → List Bytes) → List Object → List Object → Result (List Object)
apply_magisk_backup in_some_order old new = new_directory (codes ".backup") 0 >>= λ dir.
    add_backups old (in_some_order (lost old new)) (new ++ (fresh dir ∷ [])) >>= λ backed_up.
    new_file (codes ".backup/.rmlist") 0 (join_names (sort_names (added old new))) >>= λ rmlist.
    ok (backed_up ++ (fresh rmlist ∷ []))

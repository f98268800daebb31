-- ===== src/Main/Zip/Laws.antt =====
-- What `patch_ota_zip` writes.
use avbroot.Prelude.{
  ◌≡◌, inl, inr, refl, sym, ap, ◌∙◌, Bool, true, false, none, some, List, [], ◌∷◌, ◌++◌,
  append_assoc, append-nil, All, Bool-cases, if◌then◌else◌,
}
use avbroot.Prelude.Text.{bytes_eq, bytes_eq_self}
use avbroot.Prelude.Dict.{elem}
use avbroot.Result.{Result, ok, err, ◌>>=◌}
use avbroot.Stream.{Bytes}
use avbroot.Main.ExtraFields.{strip_bad_extra_fields}
use avbroot.Main.Zip.{
  path_metadata, path_metadata_pb, path_otacert, path_payload, path_properties, Info, Written,
  required_files, Copied, add_entry, copy_entry, copy_loop, patch_ota_zip,
}
use avbroot.Main.Zip.Search.{IsOther, filenames, scan_loop-finds}
use avbroot.Main.Zip.Swap.{entries, order_payload_lem}

abbrev pub with_extra : Info → Result Bytes → Info
with_extra i (ok extra) = record i { extra = extra }
with_extra i (err e) = i

-- The entry without the extra fields that are removed, where these can be read.
abbrev pub cleaned : Info → Info
cleaned i = with_extra i (strip_bad_extra_fields i.extra)

abbrev pub IsReadable : Info → Type 0
IsReadable i = (extra : Bytes) × (strip_bad_extra_fields i.extra ≡ ok extra)

abbrev pub entry_with : Info → Bytes → List Written
entry_with i content = record { info = cleaned i; data_written = content } ∷ []

path_facts :
    (bytes_eq path_payload path_metadata ≡ false)
    × (bytes_eq path_payload path_metadata_pb ≡ false)
    × (bytes_eq path_payload path_otacert ≡ false)
    × (bytes_eq path_properties path_metadata ≡ false)
    × (bytes_eq path_properties path_metadata_pb ≡ false)
    × (bytes_eq path_properties path_otacert ≡ false)
    × (bytes_eq path_properties path_payload ≡ false)
unfolding bytes_eq
path_facts = (refl, refl, refl, refl, refl, refl, refl)

module _ (cert_ota : Bytes) where
  -- What another entry becomes.
  abbrev pub copied : Info → List Written
  copied i =
      if bytes_eq i.filename path_metadata
      then []
      else if bytes_eq i.filename path_metadata_pb
      then []
      else if bytes_eq i.filename path_otacert
      then entry_with i cert_ota
      else entry_with i i.content

  abbrev pub all_copied : List Info → List Written
  all_copied [] = []
  all_copied (i ∷ is) = copied i ++ all_copied is

regroup :
    {A : Type 0} (a b c d e f : List A)
    → ((((a ++ b) ++ c) ++ d) ++ e) ++ f ≡ a ++ (b ++ (c ++ (d ++ (e ++ f))))
regroup a b c d e f =
    append_assoc (((a ++ b) ++ c) ++ d) e f
    ∙ append_assoc ((a ++ b) ++ c) d (e ++ f)
    ∙ append_assoc (a ++ b) c (d ++ (e ++ f))
    ∙ append_assoc a b (c ++ (d ++ (e ++ f)))

module _ (cert_ota : Bytes) (patch_payload : Bytes → Result (Bytes × Bytes)) where
  -- One entry that is neither the payload nor its properties.
  copy_one :
      (i : Info) (s : Copied)
      → IsOther i
      → (t : Copied) × (copy_entry cert_ota patch_payload i (cleaned i) s ≡ ok t)
        × (t.properties ≡ s.properties)
        × (t.written ≡ s.written ++ copied cert_ota i)
  unfolding copy_entry
  copy_one i s (p, q) = elim (Bool-cases (bytes_eq i.filename path_metadata)) [
    | inl a ↦
        rw a (record s { metadata_info = some (cleaned i) }, refl, refl, sym (append-nil s.written))
    | inr a ↦ elim (Bool-cases (bytes_eq i.filename path_metadata_pb)) [
      | inl b ↦
          rw (a, b)
            (record s { metadata_pb = some (cleaned i) }, refl, refl, sym (append-nil s.written))
      | inr b ↦ elim (Bool-cases (bytes_eq i.filename path_otacert)) [
        | inl c ↦ rw (a, b, c) (add_entry (cleaned i) cert_ota s, refl, refl, refl)
        | inr c ↦ rw (a, b, c, p, q) (add_entry (cleaned i) i.content s, refl, refl, refl)
      ]
    ]
  ]

  copy_others :
      (xs rest : List Info) (s : Copied)
      → All IsOther xs
      → All IsReadable xs
      → (t : Copied) × (copy_loop cert_ota patch_payload (xs ++ rest) s
          ≡ copy_loop cert_ota patch_payload rest t)
        × (t.properties ≡ s.properties)
        × (t.written ≡ s.written ++ all_copied cert_ota xs)
  unfolding copy_loop
  copy_others [] rest s os rs = (s, refl, refl, sym (append-nil s.written))
  copy_others (i ∷ is) rest s (o, os) ((extra, readable), rs) =
      let (t, one, same, added) = copy_one i s o in
      let (u, more, same', added') = copy_others is rest t os rs in
      let clean : cleaned i ≡ record i { extra = extra } = ap (with_extra i) readable in
      (
        u,
        rw readable (
            ap
              (λ c.
                copy_entry cert_ota patch_payload i c s
                >>= copy_loop cert_ota patch_payload (is ++ rest))
              (sym clean)
            ∙ rw one more),
        same' ∙ same,
        added'
            ∙ ap (λ w. w ++ all_copied cert_ota is) added
            ∙ append_assoc s.written (copied cert_ota i) (all_copied cert_ota is),
      )

  copy_payload :
      (i : Info) (rest : List Info) (s : Copied) (new properties : Bytes)
      → i.filename ≡ path_payload
      → i.is_stored ≡ true
      → patch_payload i.content ≡ ok (new, properties)
      → IsReadable i
      → copy_loop cert_ota patch_payload (i ∷ rest) s
        ≡ copy_loop cert_ota patch_payload rest
            (record (add_entry (cleaned i) new s) { properties = some properties })
  unfolding copy_loop copy_entry
  copy_payload i rest s new properties e stored patched (extra, readable) =
      let (f1, f2, f3, f4, f5, f6, f7) = path_facts in
      rw (readable, e, f1, f2, f3, bytes_eq_self path_payload, stored, patched) refl

  copy_properties :
      (i : Info) (rest : List Info) (s : Copied) (properties : Bytes)
      → i.filename ≡ path_properties
      → i.is_stored ≡ true
      → s.properties ≡ some properties
      → IsReadable i
      → copy_loop cert_ota patch_payload (i ∷ rest) s
        ≡ copy_loop cert_ota patch_payload rest (add_entry (cleaned i) properties s)
  unfolding copy_loop copy_entry
  copy_properties i rest s properties e stored has (extra, readable) =
      let (f1, f2, f3, f4, f5, f6, f7) = path_facts in
      rw (readable, e, f4, f5, f6, f7, bytes_eq_self path_properties, stored, has) refl

  done : (s : Copied) → copy_loop cert_ota patch_payload [] s ≡ ok s
  unfolding copy_loop
  done s = refl

  -- The payload is copied in front of its properties, and what stands around them in its order.
  copy_entries :
      (xs ys zs : List Info) (p q : Info) (new properties : Bytes) (s : Copied)
      → All IsOther xs
      → All IsOther ys
      → All IsOther zs
      → All IsReadable xs
      → All IsReadable ys
      → All IsReadable zs
      → p.filename ≡ path_payload
      → q.filename ≡ path_properties
      → p.is_stored ≡ true
      → q.is_stored ≡ true
      → IsReadable p
      → IsReadable q
      → patch_payload p.content ≡ ok (new, properties)
      → (t : Copied) × (copy_loop cert_ota patch_payload (entries false xs ys zs p q) s ≡ ok t)
        × (t.written
            ≡ s.written
              ++ (all_copied cert_ota xs
                  ++ (entry_with p new
                      ++ (all_copied cert_ota ys
                          ++ (entry_with q properties ++ all_copied cert_ota zs)))))
  copy_entries xs ys zs p q new properties s ox oy oz rx ry rz ep eq sp sq rp rq patched =
      let (a, at_p, keep_a, add_a) = copy_others xs (p ∷ (ys ++ (q ∷ zs))) s ox rx in
      let b : Copied = record (add_entry (cleaned p) new a) { properties = some properties } in
      let (c, at_q, keep_c, add_c) = copy_others ys (q ∷ zs) b oy ry in
      let d : Copied = add_entry (cleaned q) properties c in
      let (e, at_end, keep_e, add_e) = copy_others zs [] d oz rz in
      (
        e,
        at_p
            ∙ copy_payload p (ys ++ (q ∷ zs)) a new properties ep sp patched rp
            ∙ at_q
            ∙ copy_properties q zs c properties eq sq keep_c rq
            ∙ sym (ap (λ l. copy_loop cert_ota patch_payload l d) (append-nil zs))
            ∙ at_end
            ∙ done e,
        add_e
            ∙ ap (λ w. (w ++ entry_with q properties) ++ all_copied cert_ota zs)
                (add_c ∙ ap (λ w. (w ++ entry_with p new) ++ all_copied cert_ota ys) add_a)
            ∙ regroup s.written (all_copied cert_ota xs) (entry_with p new) (all_copied cert_ota ys)
                (entry_with q properties) (all_copied cert_ota zs),
      )

  -- For an archive that has the five required files, with one payload and one properties file, in
  -- either order and both stored, with extra fields that can be read, and a payload that is patched,
  -- `patch_ota_zip` writes the new payload in front of its properties, which are those that the
  -- patch returned, and around them the other files in their order: the new certificate for the old
  -- one, no metadata, and every other file with its content; all of them without the extra fields
  -- that are removed.
  pub patch_ota_zip_lem :
      (reversed : Bool) (xs ys zs : List Info) (p q : Info) (new properties : Bytes)
      → All IsOther xs
      → All IsOther ys
      → All IsOther zs
      → All IsReadable xs
      → All IsReadable ys
      → All IsReadable zs
      → p.filename ≡ path_payload
      → q.filename ≡ path_properties
      → p.is_stored ≡ true
      → q.is_stored ≡ true
      → IsReadable p
      → IsReadable q
      → patch_payload p.content ≡ ok (new, properties)
      → ((m : Bytes)
          → elem m required_files ≡ true
          → elem m (filenames (entries reversed xs ys zs p q)) ≡ true)
      → (t : Copied) × (patch_ota_zip cert_ota patch_payload (entries reversed xs ys zs p q) ≡ ok t)
        × (t.written
            ≡ all_copied cert_ota xs
              ++ (entry_with p new
                  ++ (all_copied cert_ota ys
                      ++ (entry_with q properties ++ all_copied cert_ota zs))))
  unfolding patch_ota_zip
  patch_ota_zip_lem reversed xs ys zs p q new properties ox oy oz rx ry rz ep eq sp sq rp rq patched
        present =
      let (t, done, written) =
        copy_entries xs ys zs p q new properties
          (record { properties = none; metadata_info = none; metadata_pb = none; written = [] }) ox
          oy oz rx ry rz ep eq sp sq rp rq patched in
      (
        t,
        rw
            (
              scan_loop-finds 0 (entries reversed xs ys zs p q)
                  (record { missing = required_files; i_payload = none; i_properties = none })
                  present,
              order_payload_lem reversed xs ys zs p q ox oy oz ep eq,
            )
            done,
        written,
      )

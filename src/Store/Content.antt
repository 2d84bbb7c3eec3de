-- ===== src/Store/Content.antt =====
-- What comes out of the store of internal/store/store.go is what the multihash names.
use meshyants.Base.{
  ==-ne, err, ◌≡◌, ◌≢◌, ◌⊎◌, refl, sym, ap, ◌∙◌, Bytes, list_eq, nat_eq, ◌==◌, eq_of_==, ne_of_==,
  ==-refl, lookup, insert, lookup-insert, lookup-insert_self, ok, ltb, Bool-cases, Option-cases,
  inl, inr, false, Option, none, some, List, [], ◌∷◌, take, length, arith,
}
use meshyants.Store.{
  Disk, put, get, get_reader, first_read, Reader, limited_nil, nil_dereference, Written, complete,
  failed, write_new, write_failed, hash_mismatch, multihash_of, path_of, write_missing,
}

last_of : Bytes → List Bytes → Bytes
last_of d (x ∷ (y ∷ (z ∷ []))) = z
last_of d _ = d

module _ (sum_hex : Bytes → Bytes) (root : Bytes) where
  -- Whatever is on the disk, a `Get` that returns returns bytes whose multihash is the one asked for.
  pub get_sound :
      (mh content : Bytes) (d : Disk)
      → get sum_hex root mh d ≡ ok content
      → multihash_of sum_hex root content ≡ mh
  unfolding get
  get_sound mh content d h = elim (Option-cases (lookup (path_of sum_hex root mh) d.files)) [
    | inl e ↦ ground arith
    | inr (old, e) ↦
        let same = eq_of_== (multihash_of sum_hex root old) mh in
        let here : old ≡ content = ground arith in rw (← here) (same (ground arith))
  ]

  -- The stored file of a multihash has it.
  abbrev pub IsIntact : Disk → Type 0
  IsIntact d =
      (mh content : Bytes)
      → lookup (path_of sum_hex root mh) d.files ≡ some content
      → multihash_of sum_hex root content ≡ mh

  path_of_injective : (a b : Bytes) → path_of sum_hex root a ≡ path_of sum_hex root b → a ≡ b
  unfolding last_of
  path_of_injective a b e = ap (last_of a) e

  -- Two contents with one hash.
  abbrev pub Collision : Type 0
  Collision =
      (x : Bytes) × (y : Bytes) × (x ≢ y)
      × (multihash_of sum_hex root x ≡ multihash_of sum_hex root y)

  written-IsIntact :
      (content : Bytes) (d : Disk)
      → IsIntact d
      → IsIntact (record d {
        files = insert (path_of sum_hex root (multihash_of sum_hex root content)) content d.files;
      })
  written-IsIntact content d h mh c at_mh =
      let new = path_of sum_hex root (multihash_of sum_hex root content) in
      let was = sym (lookup-insert new (path_of sum_hex root mh) content d.files) ∙ at_mh in
      elim (Bool-cases (new == path_of sum_hex root mh)) [
        | inl same ↦
            let key =
              path_of_injective (multihash_of sum_hex root content) mh
                (eq_of_== new (path_of sum_hex root mh) same) in
            let here : content ≡ c = cc (rw same at was) in rw (← here) key
        | inr other ↦ h mh c (rw other at was)
      ]

  missing-IsIntact :
      (content mh : Bytes) (d : Disk) (found : Option Bytes) (w : Written)
      → d.write (path_of sum_hex root (multihash_of sum_hex root content)) ≡ w
      → let name = multihash_of sum_hex root content in
        IsIntact d
        → (write_missing sum_hex root name content d found).1 ≡ ok mh
        → IsIntact (write_missing sum_hex root name content d found).0
  missing-IsIntact content mh d (some old) w e h done = h
  missing-IsIntact content mh d none complete e h done = rw e (written-IsIntact content d h)
  missing-IsIntact content mh d none (failed none) e h done = absurd (cc (rw e at done))
  missing-IsIntact content mh d none (failed (some part)) e h done = absurd (cc (rw e at done))

  -- A `Put` that succeeds leaves every stored file under the multihash of its bytes.
  pub put-IsIntact :
      (content mh : Bytes) (d : Disk)
      → IsIntact d
      → (put sum_hex root content d).1 ≡ ok mh
      → IsIntact (put sum_hex root content d).0
  unfolding put
  put-IsIntact content mh d h done =
      let name = multihash_of sum_hex root content in
      elim (Bool-cases (d.mkdir_fails (root ∷ take 4 name ∷ []))) [
        | inl fails ↦ rw fails h
        | inr works ↦ rw works (
            missing-IsIntact content mh d (lookup (path_of sum_hex root name) d.files) _ refl h
              (rw works at done))
      ]

  get_stored :
      (content : Bytes) (d : Disk)
      → lookup (path_of sum_hex root (multihash_of sum_hex root content)) d.files ≡ some content
      → get sum_hex root (multihash_of sum_hex root content) d ≡ ok content
  unfolding get
  get_stored content d at_mh =
      let mh = multihash_of sum_hex root content in
      let long : ltb (length mh) 4 ≡ false = ground arith in
      rw long (rw at_mh (rw (==-refl mh) refl))

  written_stores :
      (content mh : Bytes) (d : Disk) (w : Written)
      → let name = multihash_of sum_hex root content in
        (write_new sum_hex root name content d w).1 ≡ ok mh
        → (mh ≡ name)
          × ((get sum_hex root name (write_new sum_hex root name content d w).0 ≡ ok content)
              ⊎ Collision)
  written_stores content mh d complete done =
      let path = path_of sum_hex root (multihash_of sum_hex root content) in
      (cc done, inl (get_stored content _ (lookup-insert_self path content d.files)))
  written_stores content mh d (failed none) done = absurd (cc done)
  written_stores content mh d (failed (some part)) done = absurd (cc done)

  missing_stores :
      (content mh : Bytes) (d : Disk) (found : Option Bytes)
      → IsIntact d
      → let name = multihash_of sum_hex root content in
        lookup (path_of sum_hex root name) d.files ≡ found
        → (write_missing sum_hex root name content d found).1 ≡ ok mh
        → (mh ≡ name)
          × ((get sum_hex root name (write_missing sum_hex root name content d found).0
                ≡ ok content)
              ⊎ Collision)
  missing_stores content mh d (some old) h at_name done =
      let name = multihash_of sum_hex root content in
      elim (Bool-cases (old == content)) [
        | inl same ↦
            (cc done, inl (get_stored content d (at_name ∙ ap some (eq_of_== old content same))))
        | inr other ↦ (cc done, inr (old, content, ne_of_== old content other, h name old at_name))
      ]
  missing_stores content mh d none h at_name done =
      written_stores content mh d
        (d.write (path_of sum_hex root (multihash_of sum_hex root content))) done

  -- A `Put` that succeeds on an intact store returns the multihash of the bytes, and the file under it
  -- holds the bytes, or SHA-256 has a collision.
  pub put_stores :
      (content mh : Bytes) (d : Disk)
      → IsIntact d
      → (put sum_hex root content d).1 ≡ ok mh
      → (mh ≡ multihash_of sum_hex root content)
        × ((get sum_hex root mh (put sum_hex root content d).0 ≡ ok content) ⊎ Collision)
  unfolding put
  put_stores content mh d h done =
      let name = multihash_of sum_hex root content in
      let found = lookup (path_of sum_hex root name) d.files in
      elim (Bool-cases (d.mkdir_fails (root ∷ take 4 name ∷ []))) [
        | inl fails ↦ ground (arith, fails, done)
        | inr works ↦
            let (named, kept) = missing_stores content mh d found h refl (rw works at done) in
            rw works (named, rw named kept)
      ]

  -- A reader that GetReader returns panics at the first Read, unless the content under the multihash is
  -- empty.
  pub first_read-get_reader :
      (mh content : Bytes) (d : Disk) (r : Reader)
      → get sum_hex root mh d ≡ ok content
      → content ≢ []
      → get_reader sum_hex root mh d ≡ ok r
      → first_read r ≡ nil_dereference
  unfolding get_reader
  first_read-get_reader mh [] d r stored filled reads = absurd (filled refl)
  first_read-get_reader mh (x ∷ content) d r stored filled reads =
      let here : limited_nil (length (x ∷ content)) ≡ r = cc (rw stored at reads) in
      rw (← here) (ground arith)

  -- A write that fails and leaves a part of the bytes makes the next Put of them succeed without a write,
  -- and the Get after it fail for a wrong hash.
  pub put-part :
      (content part : Bytes) (d : Disk)
      → let name = multihash_of sum_hex root content in
        d.mkdir_fails (root ∷ take 4 name ∷ []) ≡ false
        → lookup (path_of sum_hex root name) d.files ≡ none
        → d.write (path_of sum_hex root name) ≡ failed (some part)
        → multihash_of sum_hex root part ≢ name
        → let e = (put sum_hex root content d).0 in
          ((put sum_hex root content d).1 ≡ err write_failed)
          × (put sum_hex root content e ≡ (e, ok name))
          × (get sum_hex root name e ≡ err hash_mismatch)
  unfolding put get
  put-part content part d made new fails other =
      let name = multihash_of sum_hex root content in
      let at_name = lookup-insert_self (path_of sum_hex root name) part d.files in
      let long : ltb (length name) 4 ≡ false = ground arith in
      rw (made, new, fails)
        (
          refl,
          rw (made, at_name) refl,
          rw (long, at_name) (rw (==-ne (multihash_of sum_hex root part) name other) refl),
        )

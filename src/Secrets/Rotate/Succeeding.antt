-- ===== src/Secrets/Rotate/Succeeding.antt =====
-- crates/tcfs-secrets/src/rotate.rs: what a rotation that succeeds has done.
use tummycrypt.Prelude.{
  ℕ, ◌≡◌, ◌≢◌, ◌⊎◌, refl, inl, inr, Bool, Bool-cases, true, false, none, some, List, ◌∷◌, Str, str,
  arith, ◌∙◌, sym, ap, if◌then◌else◌, eq_iff, ◌==◌,
}
use tummycrypt.Fallible.{Result, ok, err}
use tummycrypt.Exec.{Exec, pure, lift, attempt, ◌>>=◌}
use tummycrypt.Exec.Inversion.{>>=-eq-ok}
use tummycrypt.Disk
use tummycrypt.Disk.{Disk}
use tummycrypt.Disk.Reading.{copy-others, copy-reads, read-exists}
use tummycrypt.Secrets.Rotate.{
  Yaml, IsLawful, SopsProgram, RotationResult, Rotation, tmp_of, backup_of, is_ok,
  build_rotated_yaml, strip_sops, set_keys, sops_encrypt, prepare, signal, replace,
  rotate_s3_credentials,
}
use tummycrypt.Secrets.Rotate.Atomic.{atomic_replace-reads}

module _ (Y : Yaml) (sops : SopsProgram) where
  -- The copy under `attempt`: its state, and whether it was made.
  copied :
      (cred_file backup current : Str) (s : Rotation)
      → backup ≢ cred_file
      → Disk.read s.disk cred_file ≡ ok current
      → let run = Disk.copy s.disk cred_file backup in
        (Disk.read run.1 cred_file ≡ ok current)
        × (is_ok run.0 ≡ true → Disk.read run.1 backup ≡ ok current)
  copied cred_file backup current s apart found = (
    copy-others s.disk cred_file backup cred_file apart ∙ found,
    go (Disk.copy s.disk cred_file backup).0 refl,
  )
    where
      go :
          (r : Result (Unit {0}))
          → (Disk.copy s.disk cred_file backup).0 ≡ r
          → is_ok (Disk.copy s.disk cred_file backup).0 ≡ true
          → Disk.read (Disk.copy s.disk cred_file backup).1 backup ≡ ok current
      go (ok u) q made = copy-reads s.disk cred_file backup current found q
      go (err e) q made = absurd (cc (rw q at made))

  prepare-ok :
      (cred_file ak sk current : Str) (now : ℕ) (s : Rotation) (p : Str × Bool)
      → backup_of cred_file now ≢ cred_file
      → Disk.read s.disk cred_file ≡ ok current
      → (prepare Y sops cred_file ak sk now s).0 ≡ ok p
      → (plaintext : Str) × (build_rotated_yaml Y sops current ak sk ≡ ok plaintext)
        × (sops_encrypt Y sops plaintext cred_file ≡ ok p.0)
        × (p.1 ≡ true
            → Disk.read (prepare Y sops cred_file ak sk now s).1.disk (backup_of cred_file now)
              ≡ ok current)
        × ((prepare Y sops cred_file ak sk now s).1.sent ≡ s.sent)
  unfolding prepare ◌>>=◌ attempt lift pure
  prepare-ok cred_file ak sk current now s p apart found h =
      ground (arith, copied cred_file (backup_of cred_file now) current s apart found)

  replace-ok :
      (cred_file other : Str) (has_reload_tx : Bool) (now : ℕ) (p : Str × Bool) (s : Rotation)
      (r : RotationResult)
      → tmp_of cred_file ≢ other
      → cred_file ≢ other
      → (replace Y sops cred_file has_reload_tx now p s).0 ≡ ok r
      → (r ≡ record { path = cred_file; rotated_at = now; backup_created = p.1 })
        × (Disk.read (replace Y sops cred_file has_reload_tx now p s).1.disk cred_file ≡ ok p.0)
        × (Disk.read (replace Y sops cred_file has_reload_tx now p s).1.disk other
            ≡ Disk.read s.disk other)
        × ((replace Y sops cred_file has_reload_tx now p s).1.sent
            ≡ (if has_reload_tx then now ∷ s.sent else s.sent))
  unfolding replace ◌>>=◌ signal pure
  replace-ok cred_file other has_reload_tx now (encrypted, made) s r distinct apart h =
      ground (arith, atomic_replace-reads cred_file encrypted other s distinct apart)

  -- A rotation that succeeds, of a file that could be read, has built a document from its text and
  -- the new keys and encrypted it; the file has what the program printed, the path of the backup
  -- has the old text where a backup is reported, and the watchers, if there are any, are told once;
  -- provided that the three paths differ.
  pub rotate-ok :
      (cred_file ak sk current : Str) (has_reload_tx : Bool) (s : Rotation) (r : RotationResult)
      → backup_of cred_file s.disk.now ≢ cred_file
      → tmp_of cred_file ≢ backup_of cred_file s.disk.now
      → Disk.read s.disk cred_file ≡ ok current
      → (rotate_s3_credentials Y sops cred_file ak sk has_reload_tx s).0 ≡ ok r
      → let after = (rotate_s3_credentials Y sops cred_file ak sk has_reload_tx s).1 in
        (plaintext : Str) × (encrypted : Str) × (build_rotated_yaml Y sops current ak sk
          ≡ ok plaintext)
        × (sops_encrypt Y sops plaintext cred_file ≡ ok encrypted)
        × (Disk.read after.disk cred_file ≡ ok encrypted)
        × ((r.backup_created ≡ false)
            ⊎ (Disk.read after.disk (backup_of cred_file s.disk.now) ≡ ok current))
        × (after.sent ≡ (if has_reload_tx then s.disk.now ∷ s.sent else s.sent))
  unfolding rotate_s3_credentials
  rotate-ok cred_file ak sk current has_reload_tx s r apart distinct found h =
      rw (read-exists s.disk cred_file current found)
        (go (rw (read-exists s.disk cred_file current found) at h))
    where
      now : ℕ
      now = s.disk.now

      backup : Str
      backup = backup_of cred_file now

      steps : Exec Rotation RotationResult
      steps = prepare Y sops cred_file ak sk now >>= replace Y sops cred_file has_reload_tx now

      go :
          (steps s).0 ≡ ok r
          → (plaintext : Str) × (encrypted : Str) × (build_rotated_yaml Y sops current ak sk
              ≡ ok plaintext)
            × (sops_encrypt Y sops plaintext cred_file ≡ ok encrypted)
            × (Disk.read (steps s).1.disk cred_file ≡ ok encrypted)
            × ((r.backup_created ≡ false) ⊎ (Disk.read (steps s).1.disk backup ≡ ok current))
            × ((steps s).1.sent ≡ (if has_reload_tx then now ∷ s.sent else s.sent))
      go h =
          let (p, prepared, state, replaced) =
            >>=-eq-ok (prepare Y sops cred_file ak sk now) _ s h in
          let t = (prepare Y sops cred_file ak sk now s).1 in
          let (plaintext, built, sealed, kept, sent) =
            prepare-ok cred_file ak sk current now s p apart found prepared in
          let (result, new, old, told) =
            replace-ok cred_file backup has_reload_tx now p t r distinct (λ e. apart (sym e))
              replaced in
          let made : r.backup_created ≡ p.1 =
            ap (λ (w : RotationResult). w.backup_created) result in
          rw state (
            plaintext,
            p.0,
            built,
            sealed,
            new,
            elim (Bool-cases p.1) [
              | inl backed ↦ inr (old ∙ kept backed)
              | inr bare ↦ inl (made ∙ bare)
            ],
            told ∙ ap (λ (l : List ℕ). if has_reload_tx then now ∷ l else l) sent,
          )

  -- With a library that reads back the values it prints, the document of a rotation of a mapping is
  -- the mapping with the new keys, without the record of SOPS, and with every other value as the
  -- text of the file had it: what was encrypted in that text is not decrypted.
  pub build_rotated_yaml-get :
      IsLawful Y
      → (current ak sk k : Str) (doc : Y.Value) {plaintext : Str} → Y.from_str current ≡ some doc
      → Y.is_mapping doc ≡ true
      → build_rotated_yaml Y sops current ak sk ≡ ok plaintext
      → (new : Y.Value) × (Y.from_str plaintext ≡ some new)
        × (Y.get k new ≡ (
            if k == str "secret_access_key"
            then some (Y.text sk)
            else if k == str "access_key_id"
            then some (Y.text ak)
            else if k == str "sops"
            then none
            else Y.get k doc))
  unfolding build_rotated_yaml set_keys strip_sops
  build_rotated_yaml-get law current ak sk k doc {plaintext} read mapping built =
      let bare = Y.remove (str "sops") doc in
      let with_id = Y.insert (str "access_key_id") (Y.text ak) bare in
      let new = Y.insert (str "secret_access_key") (Y.text sk) with_id in
      let m1 = law.remove-is_mapping (str "sops") doc mapping in
      let m2 = law.insert-is_mapping (str "access_key_id") (Y.text ak) bare m1 in
      let printed : Y.to_string new ≡ some plaintext = ground (arith, m1) in
      (
        new,
        law.from_str-to_string new plaintext printed,
        ground (
          arith,
          eq_iff k (str "secret_access_key"),
          eq_iff k (str "access_key_id"),
          eq_iff k (str "sops"),
          law.get-insert_self (str "secret_access_key") (Y.text sk) with_id m2,
          law.get-insert_ne k (str "secret_access_key") (Y.text sk) with_id m2,
          law.get-insert_self (str "access_key_id") (Y.text ak) bare m1,
          law.get-insert_ne k (str "access_key_id") (Y.text ak) bare m1,
          law.get-remove_self (str "sops") doc mapping,
          law.get-remove_ne k (str "sops") doc mapping,
        ),
      )

-- ===== src/Secrets/Rotate/Atomic.antt =====
-- crates/tcfs-secrets/src/rotate.rs: the file of the credentials is replaced whole, or not at all.
use tummycrypt.Prelude.{ℕ, ◌≡◌, ◌≢◌, refl, Bool, Str, arith, inl, inr, ◌∙◌, Bool-cases, eq_iff}
use tummycrypt.Fallible.{Result, ok, err, Error}
use tummycrypt.Exec.{Exec, pure, ◌>>=◌, ◌>>◌}
use tummycrypt.Exec.Inversion.{
  Keeps, Keeps-bind, Keeps-pure, Keeps-lift, Keeps-attempt, >>=-eq-ok, >>=-eq-err,
}
use tummycrypt.Disk
use tummycrypt.Disk.{Disk}
use tummycrypt.Disk.Reading.{
  write-reads, write-others, copy-others, rename-reads, rename-others, rename-failed,
}
use tummycrypt.Secrets.Rotate.{
  Yaml, SopsProgram, RotationResult, Rotation, on_disk, tmp_of, backup_of, atomic_replace, prepare,
  signal, replace, rotate_s3_credentials,
}

-- What a file reads, and what was sent, are as they were.
abbrev Stays : Str → Rotation → Rotation → Type 0
Stays path s t = (Disk.read t.disk path ≡ Disk.read s.disk path) × (t.sent ≡ s.sent)

Keeps-on_disk :
    {A : Type 0} (path : Str) (s : Rotation) (f : Disk → Result A × Disk)
    → ((d : Disk) → Disk.read (f d).1 path ≡ Disk.read d path)
    → Keeps (Stays path s) (on_disk f)
Keeps-on_disk path s f same t (read, sent) = (same t.disk ∙ read, sent)

-- A replacement that fails leaves the file as it was.
atomic_replace-failed :
    (path content : Str) (s : Rotation) {e : Error}
    → tmp_of path ≢ path
    → (atomic_replace path content s).0 ≡ err e
    → Stays path s (atomic_replace path content s).1
unfolding atomic_replace
atomic_replace-failed path content s {e} apart h =
    elim (>>=-eq-err (on_disk write) (λ _. on_disk rename) s h) [
      | inl (failed, state) ↦ rw state (write-others s.disk (tmp_of path) content path apart, refl)
      | inr (u, wrote, state, failed) ↦
          let stuck = rename-failed (write s.disk).1 (tmp_of path) path (λ q. cc (failed, q)) in
          rw (state, stuck) (write-others s.disk (tmp_of path) content path apart, refl)
    ]
  where
    write : Disk → Result (Unit {0}) × Disk
    write d = Disk.write d (tmp_of path) content

    rename : Disk → Result (Unit {0}) × Disk
    rename d = Disk.rename d (tmp_of path) path

-- One that succeeds has the content in the file, and is seen at no path but that of the file and
-- that of the temporary file.
pub atomic_replace-reads :
    (path content other : Str) (s : Rotation) {u : Unit {0}}
    → tmp_of path ≢ other
    → path ≢ other
    → (atomic_replace path content s).0 ≡ ok u
    → (Disk.read (atomic_replace path content s).1.disk path ≡ ok content)
      × (Disk.read (atomic_replace path content s).1.disk other ≡ Disk.read s.disk other)
      × ((atomic_replace path content s).1.sent ≡ s.sent)
unfolding atomic_replace
atomic_replace-reads path content other s {u} p q h =
    let (v, wrote, state, renamed) = >>=-eq-ok (on_disk write) (λ _. on_disk rename) s h in
    let after = (write s.disk).1 in
    let written : Disk.read after (tmp_of path) ≡ ok content = ground (
      arith,
      write-reads s.disk (tmp_of path) content (tmp_of path),
      eq_iff (tmp_of path) (tmp_of path),
    ) in
    rw state (
      rename-reads after (tmp_of path) path content written (cc renamed),
      rename-others after (tmp_of path) path other p q
          ∙ write-others s.disk (tmp_of path) content other p,
      refl,
    )
  where
    write : Disk → Result (Unit {0}) × Disk
    write d = Disk.write d (tmp_of path) content

    rename : Disk → Result (Unit {0}) × Disk
    rename d = Disk.rename d (tmp_of path) path

module _ (Y : Yaml) (sops : SopsProgram) where
  prepare-Stays :
      (cred_file ak sk : Str) (now : ℕ) (s : Rotation)
      → backup_of cred_file now ≢ cred_file
      → Keeps (Stays cred_file s) (prepare Y sops cred_file ak sk now)
  unfolding prepare
  prepare-Stays cred_file ak sk now s apart = Keeps-bind P _ (Keeps-attempt P _ copied) _ λ made.
      Keeps-bind P _ read _ λ current.
        Keeps-bind P _ (Keeps-lift P _) _
          λ plaintext. Keeps-bind P _ (Keeps-lift P _) _ λ encrypted. Keeps-pure P _
    where
      P : Rotation → Type 0
      P = Stays cred_file s

      copied :
          Keeps P (on_disk {A = Unit {0}} (λ d. Disk.copy d cred_file (backup_of cred_file now)))
      copied =
          Keeps-on_disk cred_file s (λ d. Disk.copy d cred_file (backup_of cred_file now))
            λ d. copy-others d cred_file (backup_of cred_file now) cred_file apart

      read : Keeps P (on_disk {A = Str} (λ d. (Disk.read_to_string d cred_file, d)))
      read = Keeps-on_disk cred_file s (λ d. (Disk.read_to_string d cred_file, d)) λ d. refl

  -- Behind the replacement nothing fails.
  pub signal-ok :
      (has_reload_tx : Bool) (now : ℕ) (r : RotationResult) (t : Rotation)
      → (signal Y sops has_reload_tx now >> pure r) t
        ≡ (ok r, (signal Y sops has_reload_tx now t).1)
  unfolding ◌>>=◌ signal pure
  signal-ok has_reload_tx now r t = refl

  signal-answers :
      (has_reload_tx : Bool) (now : ℕ) (r : RotationResult) (t : Rotation) {e : Error}
      → ((signal Y sops has_reload_tx now >> pure r) t).0 ≢ err e
  signal-answers has_reload_tx now r t h = cc (signal-ok has_reload_tx now r t, h)

  replace-failed :
      (cred_file : Str) (has_reload_tx : Bool) (now : ℕ) (p : Str × Bool) (s : Rotation) {e : Error}
      → tmp_of cred_file ≢ cred_file
      → (replace Y sops cred_file has_reload_tx now p s).0 ≡ err e
      → Stays cred_file s (replace Y sops cred_file has_reload_tx now p s).1
  unfolding replace
  replace-failed cred_file has_reload_tx now (encrypted, made) s {e} apart h =
      elim (>>=-eq-err (atomic_replace cred_file encrypted) _ s h) [
        | inl (failed, state) ↦ rw state (atomic_replace-failed cred_file encrypted s apart failed)
        | inr (u, replaced, state, failed) ↦ absurd (signal-answers has_reload_tx now _ _ failed)
      ]

  -- A rotation that fails, at whatever step, leaves the file of the credentials as it was and sends
  -- nothing to the watchers, if neither the backup nor the temporary file is at its path.
  pub rotate-failed :
      (cred_file ak sk : Str) (has_reload_tx : Bool) (s : Rotation) {e : Error}
      → backup_of cred_file s.disk.now ≢ cred_file
      → tmp_of cred_file ≢ cred_file
      → (rotate_s3_credentials Y sops cred_file ak sk has_reload_tx s).0 ≡ err e
      → (Disk.read (rotate_s3_credentials Y sops cred_file ak sk has_reload_tx s).1.disk cred_file
          ≡ Disk.read s.disk cred_file)
        × ((rotate_s3_credentials Y sops cred_file ak sk has_reload_tx s).1.sent ≡ s.sent)
  unfolding rotate_s3_credentials
  rotate-failed cred_file ak sk has_reload_tx s {e} apart distinct h =
      elim (Bool-cases (Disk.exists s.disk cred_file)) [
        | inr absent ↦ rw absent (refl, refl)
        | inl there ↦ rw there (go (rw there at h))
      ]
    where
      steps : Exec Rotation RotationResult
      steps =
          prepare Y sops cred_file ak sk s.disk.now
          >>= replace Y sops cred_file has_reload_tx s.disk.now

      go : (steps s).0 ≡ err e → Stays cred_file s (steps s).1
      go h = elim (>>=-eq-err (prepare Y sops cred_file ak sk s.disk.now) _ s h) [
        | inl (failed, state) ↦
            rw state (prepare-Stays cred_file ak sk s.disk.now s apart s (refl, refl))
        | inr (p, prepared, state, failed) ↦
            let before = prepare-Stays cred_file ak sk s.disk.now s apart s (refl, refl) in
            let after = replace-failed cred_file has_reload_tx s.disk.now p _ distinct failed in
            rw state (after.0 ∙ before.0, after.1 ∙ before.1)
      ]

-- ===== src/Cli/Unsync/Recovering.antt =====
-- crates/tcfs-cli/src/main.rs, `cmd_unsync`: what stands for a file that was given up, and that no
-- file is lost.
use tummycrypt.Prelude.{
  ◌<◌, ◌≡◌, ◌≢◌, refl, Bool, true, false, none, some, ◌∷◌, ◌++◌, Str, str, ◌==◌, length,
  length-append, ap, sym, ◌∙◌, All-append, arith, eq_iff, ◌⊎◌, Option-cases, Bool-cases, inl, inr,
}
use tummycrypt.Prelude.Text.Lines.{is_empty, IsLine}
use tummycrypt.Prelude.Text.FilePath.{parent, file_name, rsplit_once, rsplit_once-parts}
use tummycrypt.Fallible.{ok, Result-cases}
use tummycrypt.Exec.{◌>>=◌}
use tummycrypt.Disk
use tummycrypt.Disk.{Disk}
use tummycrypt.Disk.Reading.{
  write-reads, write-others, read-exists, remove_file-gone, remove_file-others, remove_file-failed,
}
use tummycrypt.Chunks.{Blake3, hash_hex}
use tummycrypt.Config.{TcfsConfig}
use tummycrypt.State
use tummycrypt.State.{StateJson, StateCache, SyncState, open_cache}
use tummycrypt.Fuse.Index.{u64_bound}
use tummycrypt.Fuse.Stub.{StubMeta, to_stub_string, parse_stub, blake3_hex, is_stub_path}
use tummycrypt.Fuse.Stub.Reading.{parse_stub-to_stub_string}
use tummycrypt.Cli.{Environment, resolve_state_path}
use tummycrypt.Cli.Unsync.{
  stub_path, stub_of, ensure_filename, check_entry, check_tracked, check_unless, replace_by_stub,
  unsync_hydrated, cmd_unsync,
}

-- The stub is longer than the path.
length-stub_path :
    (path : Str) → is_empty (file_name path) ≡ false → length path < length (stub_path path)
unfolding parent file_name ◌==◌
length-stub_path path h = elim (Option-cases (rsplit_once b'/' path)) [
  | inl q ↦ ground (arith, length-append path (str ".tc"))
  | inr ((dir, name), q) ↦
      let whole = rsplit_once-parts b'/' path dir name q in
      ground (
        arith,
        whole,
        eq_iff dir (str "/"),
        length-append name (str ".tc"),
        length-append dir (b'/' ∷ name),
        length-append dir (b'/' ∷ name ++ str ".tc"),
      )
]

stub_path-apart : (path : Str) → is_empty (file_name path) ≡ false → stub_path path ≢ path
stub_path-apart path h e =
    let more = length-stub_path path h in
    let same : length (stub_path path) ≡ length path = ap length e in omega arith

module _ (J : StateJson) (B : Blake3) (env : Environment) (config : TcfsConfig) where
  -- The text of the stub of a file with these bytes.
  abbrev stub_text : Str → Str
  stub_text bytes = to_stub_string (stub_of config (hash_hex B bytes) (length bytes))

  -- Why a replacement that succeeds does, and the disk behind it.
  replace_by_stub-eq-ok :
      (path bytes : Str) (d : Disk)
      → (replace_by_stub J B env config path bytes d).0 ≡ ok tt
      → let written = Disk.write d (stub_path path) (stub_text bytes) in
        (is_empty (file_name path) ≡ false)
        × (written.0 ≡ ok tt)
        × ((Disk.remove_file written.1 path).0 ≡ ok tt)
        × ((replace_by_stub J B env config path bytes d).1 ≡ (Disk.remove_file written.1 path).1)
  unfolding replace_by_stub ensure_filename ◌>>=◌
  replace_by_stub-eq-ok path bytes d h = ground arith

  -- A replacement that fails loses nothing.
  replace_by_stub-failed :
      (path bytes : Str) (d : Disk)
      → (replace_by_stub J B env config path bytes d).0 ≢ ok tt
      → (Disk.read (replace_by_stub J B env config path bytes d).1 path ≡ Disk.read d path)
        × ((other : Str)
            → stub_path path ≢ other
            → Disk.read (replace_by_stub J B env config path bytes d).1 other ≡ Disk.read d other)
  unfolding replace_by_stub ensure_filename ◌>>=◌
  replace_by_stub-failed path bytes d h = elim (Bool-cases (is_empty (file_name path))) [
    | inl e ↦ (ground arith, λ other apart. ground arith)
    | inr e ↦
        let keep : (other : Str)
            → stub_path path ≢ other
            → Disk.read (replace_by_stub J B env config path bytes d).1 other ≡ Disk.read d other =
          λ other apart. ground (
            arith,
            write-others d (stub_path path) (stub_text bytes) other apart,
            remove_file-failed (Disk.write d (stub_path path) (stub_text bytes)).1 path,
          ) in
        (keep path (stub_path-apart path e), keep)
  ]

  -- A command either changes nothing, or it has read the file, passed the check, and goes on with
  -- the replacement.
  cmd_unsync-cases :
      (path : Str) (force : Bool) (d : Disk)
      → (((cmd_unsync J B env config path force d).1 ≡ d)
          × ((cmd_unsync J B env config path force d).0 ≡ ok tt → is_stub_path path ≡ true))
        ⊎ ((bytes : Str) × (Disk.read d path ≡ ok bytes)
            × (check_unless J B env config force path (hash_hex B bytes) d ≡ ok tt)
            × (cmd_unsync J B env config path force d
                ≡ replace_by_stub J B env config path bytes d))
  unfolding cmd_unsync unsync_hydrated ◌>>=◌
  cmd_unsync-cases path force d = elim (Result-cases (Disk.read d path)) [
    | inl (e, q) ↦ inl (ground arith, λ h. ground arith)
    | inr (bytes, q) ↦
        elim (Result-cases (check_unless J B env config force path (hash_hex B bytes) d)) [
          | inl (e, r) ↦ inl (ground arith, λ h. ground arith)
          | inr (tt, r) ↦ elim (Bool-cases (is_stub_path path)) [
            | inl stub ↦ inl (ground arith, λ h. stub)
            | inr plain ↦ inr (bytes, q, r, ground (arith, read-exists d path bytes q))
          ]
        ]
  ]

  -- A command that fails, at whatever step, leaves the file, and every file but the one at the path
  -- of the stub, as it was.
  pub cmd_unsync-failed :
      (path : Str) (force : Bool) (d : Disk)
      → (cmd_unsync J B env config path force d).0 ≢ ok tt
      → (Disk.read (cmd_unsync J B env config path force d).1 path ≡ Disk.read d path)
        × ((other : Str)
            → stub_path path ≢ other
            → Disk.read (cmd_unsync J B env config path force d).1 other ≡ Disk.read d other)
  cmd_unsync-failed path force d h = elim (cmd_unsync-cases path force d) [
    | inl (same, _) ↦ (rw same refl, λ other apart. rw same refl)
    | inr (bytes, _, _, q) ↦ rw q (replace_by_stub-failed path bytes d (rw q at h))
  ]

  -- The entry of the state cache that a command relies on.
  abbrev pub IsTracked : Str → Str → Disk → Type 0
  IsTracked path hash d =
      (c : StateCache) × (entry : SyncState) × (open_cache J d (resolve_state_path env config none)
        ≡ ok c)
      × (State.get d c path ≡ some entry)
      × (entry.blake3 ≡ hash)

  check_tracked-eq-ok :
      (path hash : Str) (d : Disk)
      → check_tracked J B env config path hash d ≡ ok tt
      → IsTracked path hash d
  unfolding check_tracked check_entry
  check_tracked-eq-ok path hash d h =
      elim (Result-cases (open_cache J d (resolve_state_path env config none))) [
        | inl (e, q) ↦ absurd (ground arith)
        | inr (c, q) ↦ elim (Option-cases (State.get d c path)) [
          | inl r ↦ absurd (ground arith)
          | inr (entry, r) ↦ (c, entry, q, r, ground (arith, eq_iff entry.blake3 hash))
        ]
      ]

  -- The stub of a file is read back.
  parse_stub-stub_text :
      (bytes : Str)
      → length bytes < u64_bound
      → IsLine config.storage.endpoint
      → IsLine (hash_hex B bytes)
      → parse_stub (stub_text bytes) ≡ ok (stub_of config (hash_hex B bytes) (length bytes))
  parse_stub-stub_text bytes fits e x =
      parse_stub-to_stub_string (stub_of config (hash_hex B bytes) (length bytes))
        (All-append _ (str "blake3:") _ (ground arith) x)
        (All-append _ (str "seaweedfs://") _ (ground arith)
          (All-append _ config.storage.endpoint _ e (ground arith)))
        (ground arith) fits

  -- A command on a file that is no stub, of less than 2^64 bytes, that succeeds, leaves a stub beside
  -- it that parses to the hash and the size of the file, if the endpoint and the hash are on one line
  -- each; the file is gone, every other file is as it was, and unless the command was forced the
  -- state cache has the hash for the file.
  pub cmd_unsync-ok :
      (path : Str) (force : Bool) (bytes : Str) (d : Disk)
      → is_stub_path path ≡ false
      → Disk.read d path ≡ ok bytes
      → length bytes < u64_bound
      → IsLine config.storage.endpoint
      → IsLine (hash_hex B bytes)
      → (cmd_unsync J B env config path force d).0 ≡ ok tt
      → let after = (cmd_unsync J B env config path force d).1 in
        (text : Str) × (stub : StubMeta) × (Disk.read after (stub_path path) ≡ ok text)
        × (parse_stub text ≡ ok stub)
        × (blake3_hex stub ≡ some (hash_hex B bytes))
        × (stub.size ≡ length bytes)
        × (Disk.exists after path ≡ false)
        × ((other : Str)
            → path ≢ other
            → stub_path path ≢ other
            → Disk.read after other ≡ Disk.read d other)
        × (force ≡ false → IsTracked path (hash_hex B bytes) d)
  unfolding blake3_hex check_unless
  cmd_unsync-ok path force bytes d plain there fits e x h = elim (cmd_unsync-cases path force d) [
    | inl (_, stub) ↦ absurd (ground arith)
    | inr (b, q, checked, run) ↦
        let same : b ≡ bytes = ground arith in
        let (named, written, removed, after) = replace_by_stub-eq-ok path b d (rw run at h) in
        let apart = stub_path-apart path named in
        let middle = (Disk.write d (stub_path path) (stub_text b)).1 in
        (
          stub_text bytes,
          stub_of config (hash_hex B bytes) (length bytes),
          rw (run, after)
              (ground (
                arith,
                remove_file-others middle path (stub_path path) (λ p. apart (sym p)),
                write-reads d (stub_path path) (stub_text b) (stub_path path) written,
                eq_iff (stub_path path) (stub_path path),
              )),
          parse_stub-stub_text bytes fits e x,
          refl,
          refl,
          rw (run, after) (remove_file-gone middle path removed),
          (λ other p s.
              rw (run, after)
                (remove_file-others middle path other p
                  ∙ write-others d (stub_path path) (stub_text b) other s)),
          λ unforced. check_tracked-eq-ok path (hash_hex B bytes) d (ground arith),
        )
  ]

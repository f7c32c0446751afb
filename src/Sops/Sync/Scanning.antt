-- ===== src/Sops/Sync/Scanning.antt =====
-- crates/tcfs-sops/src/lib.rs: what a scan finds, and what a pull comes to.
use tummycrypt.Prelude.{
  ◌+◌, ◌≡◌, refl, ap, sym, ◌∙◌, true, Option, none, some, List, [], ◌∷◌, ◌++◌, Str, arith, All,
  All-append, append_assoc, append-nil, length, Bool-cases, str, inl, inr,
}
use native.Mathlib.Nat.{add-zero}
use tummycrypt.Fallible.{ok, >>=-eq-ok, Result-cases}
use tummycrypt.Disk
use tummycrypt.Disk.{Disk}
use tummycrypt.Disk.Reading.{read-exists}
use tummycrypt.Chunks.{Blake3, hash_hex}
use tummycrypt.Engine.Collect.{
  file, other, dir, Entries, end, denied, entry, with_slash, ends_in_slash,
}
use tummycrypt.Engine.Tree.{drop_prefix}
use tummycrypt.Sops.{SopsEntry, SopsDiff, no_diff, compute, compute_local, compute_remote}
use tummycrypt.Sops.Sync.{
  SopsSyncConfig, PushResult, PullResult, is_sops_file, relative_to, walkdir_inner, walkdir,
  entry_of, scan_files, scan_local_dir, scan, count_local, push, pull_new, pull_conflicts,
  pull_diff, pull,
}

-- A file below the directory, with its relative path.
abbrev IsBelow : Str → Str × Str → Type 0
IsBelow base f = f.1 ≡ with_slash base ++ f.0

drop_prefix-append : (front rest : Str) → drop_prefix front (front ++ rest) ≡ some rest
drop_prefix-append [] rest = refl
drop_prefix-append (c ∷ front) rest = ground (arith, drop_prefix-append front rest)

-- A path below the directory, up to a name.
abbrev Leads : Str → Str → Type 0
Leads base current = (rel : Str) × (with_slash current ≡ with_slash base ++ rel)

relative_to-Leads :
    (base current name : Str)
    → Leads base current
    → IsBelow base (relative_to base (with_slash current ++ name), with_slash current ++ name)
relative_to-Leads base current name (rel, e) =
    let path : with_slash current ++ name ≡ with_slash base ++ (rel ++ name) =
      ap (λ w. w ++ name) e ∙ append_assoc (with_slash base) rel name in
    let dropped : drop_prefix (with_slash base) (with_slash current ++ name) ≡ some (rel ++ name) =
      rw path (drop_prefix-append (with_slash base) (rel ++ name)) in
    rw (dropped, relative_to) path

Leads-name :
    (base current name : Str) → Leads base current → Leads base (with_slash current ++ name)
Leads-name base current name (rel, e) =
    let path : with_slash current ++ name ≡ with_slash base ++ (rel ++ name) =
      ap (λ w. w ++ name) e ∙ append_assoc (with_slash base) rel name in
    elim (Bool-cases (ends_in_slash (with_slash current ++ name))) [
      | inl ends ↦ (rel ++ name, rw ends path)
      | inr bare ↦ (
        (rel ++ name) ++ str "/",
        rw bare
            (ap (λ w. w ++ str "/") path ∙ append_assoc (with_slash base) (rel ++ name) (str "/")),
      )
    ]

walkdir_inner-IsBelow :
    (base current : Str) (tree : Entries) (files : List (Str × Str))
    → Leads base current
    → walkdir_inner base current tree ≡ ok files
    → All (IsBelow base) files
unfolding walkdir_inner
walkdir_inner-IsBelow base current end files lead h =
    let none_left : [] ≡ files = cc in rw (← none_left) tt
walkdir_inner-IsBelow base current denied files lead h = absurd (cc)
walkdir_inner-IsBelow base current (entry name other rest) files lead h =
    walkdir_inner-IsBelow base current rest files lead h
walkdir_inner-IsBelow base current (entry name file rest) files lead h =
    let (more, walked, made) = >>=-eq-ok (walkdir_inner base current rest) h in
    let same : (relative_to base (with_slash current ++ name), with_slash current ++ name) ∷ more
        ≡ files =
      cc made in
    rw (← same) (
      relative_to-Leads base current name lead,
      walkdir_inner-IsBelow base current rest more lead walked,
    )
walkdir_inner-IsBelow base current (entry name (dir children) rest) files lead h =
    let (deep, entered, h1) =
      >>=-eq-ok (walkdir_inner base (with_slash current ++ name) children) h in
    let (more, walked, made) = >>=-eq-ok (walkdir_inner base current rest) h1 in
    let same : deep ++ more ≡ files = cc made in
    rw (← same) (
      All-append _ deep more
        (walkdir_inner-IsBelow base (with_slash current ++ name) children deep
          (Leads-name base current name lead) entered)
        (walkdir_inner-IsBelow base current rest more lead walked))

module _ (B : Blake3) where
  -- What an entry says of the file at its path.
  abbrev pub States : Disk → Str → SopsEntry → Type 0
  States d root e =
      (contents : Str) × (Disk.read d (with_slash root ++ e.relative_path) ≡ ok contents)
      × (e.blake3_hash ≡ hash_hex B contents)
      × (e.size_bytes ≡ length contents)
      × (is_sops_file (with_slash root ++ e.relative_path) ≡ true)

  scan_files-States :
      (d : Disk) (root : Str) (files : List (Str × Str)) (entries : List SopsEntry)
      → All (IsBelow root) files
      → scan_files B d files ≡ ok entries
      → All (States d root) entries
  unfolding scan_files
  scan_files-States d root [] entries below h =
      let none_left : [] ≡ entries = cc in rw (← none_left) tt
  scan_files-States d root ((rel, full) ∷ files) entries (below, more) h =
      elim (Bool-cases (is_sops_file full)) [
        | inr plain ↦ scan_files-States d root files entries more (rw (plain, scan_files) at h)
        | inl secret ↦
            let h1 = rw (secret, scan_files) at h in
            let (contents, found, h2) = >>=-eq-ok (Disk.read d full) h1 in
            let (others, scanned, made) = >>=-eq-ok (scan_files B d files) h2 in
            let same : entry_of B rel contents ∷ others ≡ entries = cc made in
            rw (← same) (
              (contents, rw (← below) found, refl, refl, rw (← below) secret),
              scan_files-States d root files others more scanned,
            )
      ]

  -- Where a scan succeeds, every entry that it gives is of a file below the directory whose name is
  -- that of a secret, and states the hash and the size of its content.
  pub scan_local_dir-States :
      (d : Disk) (root : Str) (tree : Option Entries) (entries : List SopsEntry)
      → scan_local_dir B d root tree ≡ ok entries
      → All (States d root) entries
  unfolding scan_local_dir
  scan_local_dir-States d root none entries h =
      let none_left : [] ≡ entries = cc in rw (← none_left) tt
  scan_local_dir-States d root (some tree) entries h =
      let (files, walked, scanned) = >>=-eq-ok (walkdir root tree) h in
      scan_files-States d root files entries
        (walkdir_inner-IsBelow root root tree files ([], sym (append-nil _)) walked) scanned

  compute_local-nil :
      (diff : SopsDiff) (local : List SopsEntry)
      → compute_local [] diff local ≡ record diff { local_only = diff.local_only ++ local }
  unfolding compute_local
  compute_local-nil diff [] = rw append-nil refl
  compute_local-nil diff (l ∷ local) =
      compute_local-nil (record diff { local_only = diff.local_only ++ (l ∷ []) }) local
      ∙ rw append_assoc refl

  module _ (config : SopsSyncConfig) (tree : Option Entries) where
    scan-local :
        (d : Disk) (diff : SopsDiff)
        → scan B config tree d ≡ ok diff
        → (entries : List SopsEntry) × (scan_local_dir B d config.sops_dir tree ≡ ok entries)
          × (diff ≡ record no_diff { local_only = entries })
    unfolding scan compute compute_remote
    scan-local d diff h =
        let (entries, found, made) = >>=-eq-ok (scan_local_dir B d config.sops_dir tree) h in
        (entries, found, sym (cc made) ∙ compute_local-nil no_diff entries)

    -- A pull that succeeds has pulled nothing and found no conflict, and leaves the disk as it was,
    -- whatever other machines have pushed.
    pub pull-nothing :
        (d : Disk) (r : PullResult)
        → (pull B config tree d).0 ≡ ok r
        → (r ≡ record { pulled = 0; conflicts = 0 }) × ((pull B config tree d).1 ≡ d)
    unfolding pull pull_diff pull_new pull_conflicts
    pull-nothing d r h = elim (Result-cases (scan B config tree d)) [
      | inl (x, q) ↦ absurd (ground arith)
      | inr (diff, q) ↦
          let (entries, found, shape) = scan-local d diff q in
          let run : pull B config tree d ≡ (ok (record { pulled = 0; conflicts = 0 }), d) =
            rw (q, pull, shape) refl in
          ground arith
    ]

    count_local-States :
        (d : Disk) (entries : List SopsEntry) (t : PushResult)
        → All (States d config.sops_dir) entries
        → count_local B config tree d entries t ≡ record t { pushed = t.pushed + length entries }
    unfolding count_local
    count_local-States d [] t h = rw add-zero refl
    count_local-States d (e ∷ entries) t ((contents, found, _, _, _), more) =
        let there = read-exists d (with_slash config.sops_dir ++ e.relative_path) contents found in
        rw there (
          count_local-States d entries (record t { pushed = t.pushed + 1 }) more
          ∙ ap (λ n. record t { pushed = n }) (omega arith))

    -- A push of what a scan just found reports every secret below the directory as pushed and none
    -- as skipped.
    pub push-scan :
        (d : Disk) (diff : SopsDiff)
        → scan B config tree d ≡ ok diff
        → (entries : List SopsEntry) × (scan_local_dir B d config.sops_dir tree ≡ ok entries)
          × (push B config tree d diff ≡ ok (record { pushed = length entries; skipped = 0 }))
    unfolding push
    push-scan d diff h =
        let (entries, found, shape) = scan-local d diff h in
        let stated = scan_local_dir-States d config.sops_dir tree entries found in
        let counted = count_local-States d entries (record { pushed = 0; skipped = 0 }) stated in
        (
          entries,
          found,
          rw (found, shape, counted)
              (ap (λ n. ok (record { pushed = n; skipped = 0 })) (omega arith)),
        )

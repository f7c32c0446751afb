-- ===== src/Engine/Tree.antt =====
-- crates/tcfs-sync/src/engine.rs, `push_tree_with_device`: every file of a directory is uploaded.
pub mod Runs
use tummycrypt.Prelude.{
  ℕ, suc, ◌+◌, Bool, true, false, Option, none, some, List, [], ◌∷◌, ◌++◌, Str, str, nat_eq,
  if◌then◌else◌, map,
}
use tummycrypt.Prelude.Text.Lines.{is_empty}
use tummycrypt.Prelude.Text.Decimal.{to_string}
use tummycrypt.Fallible.{Result, ok, err}
use tummycrypt.Exec.{Exec, pure, attempt, ◌>>=◌}
use tummycrypt.Disk.{Disk}
use tummycrypt.State
use tummycrypt.State.{StateJson}
use tummycrypt.Remote.{index_key}
use tummycrypt.Engine.{Deps, Draws, Session, UploadArgs, UploadResult}
use tummycrypt.Engine.Upload.{Run, request, upload_file_with_device}
use tummycrypt.Engine.Collect.{
  Entries, CollectConfig, Glob, default_config, collect_files, with_slash,
}

-- `trim_end_matches('/')`
unfoldable pub remote_path_prefix : Str → Str
remote_path_prefix [] = []
remote_path_prefix (c ∷ prefix) =
    let rest = remote_path_prefix prefix in
    elim (is_empty rest) [ true ↦ if nat_eq c b'/' then [] else c ∷ rest | false ↦ c ∷ rest ]

abbrev pub drop_prefix : Str → Str → Option Str
drop_prefix [] path = some path
drop_prefix (c ∷ root) [] = none
drop_prefix (c ∷ root) (d ∷ path) =
    let rest = drop_prefix root path in if nat_eq c d then rest else none

-- `strip_prefix(local_root).unwrap_or(path)`, for a path that was joined to the root, with forward
-- slashes.
unfoldable pub rel_path_of : Str → Str → Str
rel_path_of root path =
    map (λ c. if nat_eq c 92 then b'/' else c)
      (elim (drop_prefix (with_slash root) path) [ some rel ↦ rel | none ↦ path ])

-- The text of an index entry, a line for each field.
unfoldable pub index_entry : Str → ℕ → ℕ → Str
index_entry hash size chunks =
    (str "manifest_hash=" ++ hash)
    ++ (10
        ∷ ((str "size=" ++ to_string size)
            ++ (10 ∷ ((str "chunks=" ++ to_string chunks) ++ (10 ∷ [])))))

-- What the function counts.
pub record Stats : Type 0 where
  pub uploaded : ℕ
  pub skipped : ℕ
  pub bytes : ℕ

abbrev pub no_stats : Stats
no_stats = record { uploaded = 0; skipped = 0; bytes = 0 }

abbrev pub count : Stats → UploadResult → Stats
count t r =
    if r.skipped
    then record t { skipped = t.skipped + 1 }
    else record t { uploaded = t.uploaded + 1; bytes = t.bytes + r.bytes }

-- The arguments, with the disk and the draws that each file meets when its turn comes.
pub record TreeArgs : Type 0 where
  pub local_root : Str
  pub remote_prefix : Str
  pub device_id : Str
  pub collect_cfg : Option CollectConfig
  pub encryption : Option Str
  pub meets : ℕ → Disk × Draws

abbrev pub config_or_default : Option CollectConfig → CollectConfig
config_or_default none = default_config
config_or_default (some c) = c

module _ (D : Deps) (tree : TreeArgs) where
  open D use {op}
  open tree use {local_root, remote_prefix, device_id, collect_cfg, encryption, meets}

  abbrev pub upload_args : ℕ → Str → UploadArgs
  upload_args i path = record {
    disk = (meets i).0;
    local_path = path;
    remote_prefix = remote_path_prefix remote_prefix;
    device_id = device_id;
    rel_path = some (rel_path_of local_root path);
    encryption = encryption;
    draws = (meets i).1;
  }

  -- The index entry of an upload that succeeded; its failure, and that of an upload, are passed
  -- over.
  unfoldable pub on_uploaded : Str → Stats → Result UploadResult → Run D Stats
  on_uploaded path t (err e) = pure t
  on_uploaded path t (ok r) = do
    _ ← attempt (
        request D (
          op.write (index_key (remote_path_prefix remote_prefix) (rel_path_of local_root path))
            (index_entry r.hash r.bytes r.chunks)))
    pure (count t r)

  -- The loop, from index `i`.
  unfoldable pub push_files : ℕ → List Str → Stats → Run D Stats
  push_files i [] t = pure t
  push_files i (path ∷ files) t = do
    r ← attempt (upload_file_with_device D (upload_args i path))
    t' ← on_uploaded path t r
    push_files (suc i) files t'

  -- The state cache is flushed to the disk `last`.
  unfoldable pub push_tree_with_device :
      StateJson → Glob → Entries → Disk → Session op → Result Stats × Session op × Disk
  push_tree_with_device J glob root last st =
      elim (collect_files glob (config_or_default collect_cfg) local_root root) [
        | err e ↦ (err e, st, last)
        | ok files ↦
            let run = push_files 0 files no_stats st in
            elim run.0 [
              | err e ↦ (err e, run.1, last)
              | ok t ↦
                  let flushed = State.flush J run.1.cache last in
                  elim flushed.0 [
                    | err e ↦ (err e, record run.1 { cache = flushed.1 }, flushed.2)
                    | ok _ ↦ (ok t, record run.1 { cache = flushed.1 }, flushed.2)
                  ]
            ]
      ]

-- With no device, no configuration and no encryption.
abbrev pub push_tree :
    (D : Deps)
    → TreeArgs
    → StateJson
    → Glob
    → Entries
    → Disk
    → Session D.op
    → Result Stats × Session D.op × Disk
push_tree D tree =
    push_tree_with_device D (record tree { device_id = []; collect_cfg = none; encryption = none })

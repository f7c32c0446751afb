-- ===== src/Tests/Trees.antt =====
-- Directories: what is collected, pushed, and read back by the driver.
use tummycrypt.Prelude.{
  ◌+◌, ◌≤◌, ◌≡◌, refl, none, some, List, [], ◌∷◌, Str, str, ◌==◌, str_le, All, arith,
}
use tummycrypt.Prelude.Text.Lines.{lines}
use tummycrypt.Prelude.Text.Utf8.{is_utf8}
use tummycrypt.Prelude.Text.Decimal.{digits, to_string, from_digits, strip_plus, parse}
use tummycrypt.Fallible.{ok}
use tummycrypt.Engine.Collect.{
  Entries, end, entry, file, dir, Glob, default_config, blocking, enters, collect_files,
  components_from, path_le, insert_sorted,
}
use tummycrypt.Engine.Collect.Visible.{IsListing, IsVisible, collect_files-IsVisible}
use tummycrypt.Engine.Tree.{TreeArgs, Stats, no_stats, push_files, index_entry, remote_path_prefix}
use tummycrypt.Engine.Tree.Runs.{answers-push_files, push_files-IsConsistent}
use tummycrypt.Engine.Consistency.{IsConsistent}
use tummycrypt.Fuse.Index.{parse_entry, read_lines, split_once}
use tummycrypt.Fuse.Index.Reading.{parse_entry-index_entry}
use tummycrypt.Tests.Fixtures.{flaky-IsLawful}
use tummycrypt.Tests.Codec.{one_json-IsLawful}
use tummycrypt.Tests.Sync.{deps_flaky, hello, disk, lossy, lossy-IsConsistent}

program : Unit {0}
unfolding str_le blocking enters collect_files components_from path_le insert_sorted is_utf8 ◌==◌
    index_entry lines digits to_string from_digits strip_plus parse parse_entry read_lines
    split_once remote_path_prefix
program = tt

abbrev no_globs : Glob
no_globs p = some (λ name. name == p)

-- A repository with an index lock, a hidden directory, and two files.
abbrev tree : Entries
tree = entry (str "src") (dir (entry (str "b.rs") file (entry (str "a.rs") file end))) (
    entry (str ".git") (dir (entry (str "index.lock") file end))
      (entry (str ".cache") (dir (entry (str "x") file end)) (entry (str "README") file end)))

collected :
    collect_files no_globs default_config (str "/r") tree
    ≡ ok (str "/r/README" ∷ str "/r/src/a.rs" ∷ str "/r/src/b.rs" ∷ [])
unfolding program
collected = refl

unsafe_git :
    blocking (entry (str "HEAD.lock") file (entry (str "MERGE_HEAD") file end))
    ≡ (str "HEAD.lock" ∷ []) ∷ (str "MERGE_HEAD" ∷ []) ∷ []
unfolding program
unsafe_git = refl

tree-IsListing : IsListing tree
tree-IsListing = ground arith

collect_files-IsVisible_example :
    All
      (IsVisible no_globs default_config (str "/r"))
      (str "/r/README" ∷ str "/r/src/a.rs" ∷ str "/r/src/b.rs" ∷ [])
unfolding program
collect_files-IsVisible_example =
    collect_files-IsVisible no_globs default_config (str "/r") tree
      (str "/r/README" ∷ str "/r/src/a.rs" ∷ str "/r/src/b.rs" ∷ []) tree-IsListing refl

abbrev args : TreeArgs
args = record {
  local_root = str "/";
  remote_prefix = str "p//";
  device_id = str "dev";
  collect_cfg = none;
  encryption = none;
  meets = λ _. (disk, record { file_key = []; chunk_nonce = λ _. []; wrap_nonce = [] });
}

-- The first file is there and the second is not; the store loses requests.
abbrev paths : List Str
paths = str "/f" ∷ str "/gone" ∷ []

answers-push_files_run :
    (u : Stats) × ((push_files deps_flaky args 0 paths no_stats lossy).0 ≡ ok u)
    × (u.uploaded + u.skipped ≤ 2)
answers-push_files_run = answers-push_files deps_flaky args 0 paths no_stats lossy

push_files-IsConsistent_run :
    IsConsistent deps_flaky flaky-IsLawful
      (str "p")
      (push_files deps_flaky args 0 paths no_stats lossy).1.remote
unfolding program
push_files-IsConsistent_run =
    push_files-IsConsistent deps_flaky args flaky-IsLawful (one_json-IsLawful hello) 0 paths
      no_stats lossy lossy-IsConsistent

parse_entry-index_entry_run :
    parse_entry (str "manifest_hash=ab\nsize=120\nchunks=7\n")
    ≡ ok (record { manifest_hash = str "ab"; size = 120; chunks = 7 })
unfolding program
parse_entry-index_entry_run =
    parse_entry-index_entry (str "ab") 120 7 (ground arith) (omega arith) (omega arith)

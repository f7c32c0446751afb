-- ===== src/Engine/Collect.antt =====
-- crates/tcfs-sync/src/engine.rs, `collect_files`, with crates/tcfs-sync/src/git_safety.rs: which
-- files of a directory are uploaded. The `glob` crate is a parameter; warnings are left out.
pub mod Visible
use tummycrypt.Prelude.{
  ℕ, ◌≡◌, Bool, true, false, not, ◌||◌, ◌&&◌, Option, none, some, List, [], ◌∷◌, ◌++◌, Str, str,
  ◌==◌, str_le, if◌then◌else◌, any, keep, nat_eq, map,
}
use tummycrypt.Prelude.Text.Lines.{is_empty}
use tummycrypt.Prelude.Text.Utf8.{is_utf8}
use tummycrypt.Fallible.{Result, ok, err, ◌>>=◌, reading_failed}

-- What `read_dir` finds. `denied` is where the reading fails; `other` is neither a file nor a
-- directory.
mutual
  pub data Node : Type 0 where
    file other : Node
    dir : Entries → Node

  pub data Entries : Type 0 where
    end denied : Entries
    entry : Str → Node → Entries → Entries

pub record CollectConfig : Type 0 where
  pub sync_git_dirs : Bool
  pub git_sync_mode : Str
  pub sync_hidden_dirs : Bool
  pub exclude_patterns : List Str

abbrev pub default_config : CollectConfig
default_config = record {
  sync_git_dirs = false;
  git_sync_mode = str "bundle";
  sync_hidden_dirs = false;
  exclude_patterns = [];
}

-- `glob::Pattern::new` and `matches`: a pattern, if it is one.
abbrev pub Glob : Type 0
Glob = Str → Option (Str → Bool)

-- The entry of a name.
abbrev pub child : Str → Entries → Option Node
child name end = none
child name denied = none
child name (entry n node rest) =
    let later = child name rest in elim (n == name) [ true ↦ some node | false ↦ later ]

abbrev pub entries_of : Option Node → Entries
entries_of (some (dir children)) = children
entries_of _ = end

-- `git_dir.join(path).exists()`, for a path in components.
abbrev pub holds : Entries → List Str → Bool
holds git_dir [] = true
holds git_dir (name ∷ []) = elim (child name git_dir) [ some _ ↦ true | none ↦ false ]
holds git_dir (name ∷ n ∷ names) = holds (entries_of (child name git_dir)) (n ∷ names)

abbrev pub lock_files : List (List Str)
lock_files =
    (str "index.lock" ∷ [])
    ∷ (str "HEAD.lock" ∷ [])
    ∷ (str "gc.pid" ∷ [])
    ∷ (str "refs" ∷ str "heads" ∷ str "*.lock" ∷ [])
    ∷ (str "shallow.lock" ∷ [])
    ∷ (str "packed-refs.lock" ∷ [])
    ∷ []

abbrev pub in_progress : List (List Str)
in_progress =
    (str "rebase-merge" ∷ [])
    ∷ (str "rebase-apply" ∷ [])
    ∷ (str "MERGE_HEAD" ∷ [])
    ∷ (str "CHERRY_PICK_HEAD" ∷ [])
    ∷ (str "BISECT_LOG" ∷ [])
    ∷ (str "REVERT_HEAD" ∷ [])
    ∷ []

-- The blocking issues of `git_is_safe`: the paths that were found.
unfoldable pub blocking : Entries → List (List Str)
blocking git_dir = keep (holds git_dir) lock_files ++ keep (holds git_dir) in_progress

-- `Vec<PathBuf>::sort`: paths are compared by their components.
unfoldable pub components_from : Str → Str → List Str
components_from name [] = name ∷ []
components_from name (c ∷ s) = elim (nat_eq c b'/') [
  | true ↦ name ∷ components_from [] s
  | false ↦ components_from (name ++ (c ∷ [])) s
]

abbrev pub components_le : List Str → List Str → Bool
components_le [] t = true
components_le (a ∷ s) [] = false
components_le (a ∷ s) (b ∷ t) = let rest = components_le s t in if a == b then rest else str_le a b

unfoldable pub path_le : Str → Str → Bool
path_le p q = components_le (components_from [] p) (components_from [] q)

unfoldable pub insert_sorted : Str → List Str → List Str
insert_sorted p [] = p ∷ []
insert_sorted p (q ∷ paths) =
    let later = insert_sorted p paths in if path_le p q then p ∷ q ∷ paths else q ∷ later

unfoldable pub sort : List Str → List Str
sort [] = []
sort (p ∷ paths) = insert_sorted p (sort paths)

abbrev pub starts_with_dot : Str → Bool
starts_with_dot [] = false
starts_with_dot (c ∷ s) = nat_eq c b'.'

abbrev pub ends_in_slash : Str → Bool
ends_in_slash [] = false
ends_in_slash (c ∷ []) = nat_eq c b'/'
ends_in_slash (c ∷ d ∷ s) = ends_in_slash (d ∷ s)

-- `Path::join`, up to the name.
abbrev pub with_slash : Str → Str
with_slash path = if ends_in_slash path then path else path ++ str "/"

module _ (glob : Glob) (config : CollectConfig) where
  abbrev pub matches : Str → Str → Bool
  matches name pattern = elim (glob pattern) [ none ↦ false | some p ↦ p name ]

  abbrev pub excluded : Str → Bool
  excluded name = any (matches name) config.exclude_patterns

  -- Whether the directory of this name is entered.
  unfoldable pub enters : Str → Entries → Bool
  enters name children =
      if name == str "target" || (name == str "node_modules" || name == str ".DS_Store")
      then false
      else if name == str ".git"
      then config.sync_git_dirs
        && (is_empty (blocking children) && not (config.git_sync_mode == str "bundle"))
      else not (starts_with_dot name && not config.sync_hidden_dirs)

  -- Whether an entry of this name is looked at.
  abbrev pub considers : Str → Bool
  considers name = is_utf8 name && not (excluded name)

  unfoldable pub collect_files_inner : Str → Entries → Result (List Str)
  collect_files_inner path end = ok []
  collect_files_inner path denied = err (reading_failed path)
  collect_files_inner path (entry name other rest) = collect_files_inner path rest
  collect_files_inner path (entry name file rest) = collect_files_inner path rest >>= λ files.
      ok (if considers name then (with_slash path ++ name) ∷ files else files)
  collect_files_inner path (entry name (dir children) rest) =
      let inner = collect_files_inner (with_slash path ++ name) children in
      let outer = collect_files_inner path rest in
      if considers name && enters name children
      then (inner >>= λ deep. outer >>= λ files. ok (deep ++ files))
      else outer

  unfoldable pub collect_files : Str → Entries → Result (List Str)
  unfolding collect_files_inner sort
  collect_files root tree = collect_files_inner root tree >>= λ files. ok (sort files)

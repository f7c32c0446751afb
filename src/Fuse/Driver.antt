-- ===== src/Fuse/Driver.antt =====
-- crates/tcfs-fuse/src/driver.rs: the calls of the kernel. A path comes as bytes, which need not be
-- UTF-8; an error is the number that is answered.
pub mod Listing
pub mod Pushed
pub mod Files
pub mod Calls
use tummycrypt.Prelude.{
  ℕ, suc, ◌+◌, ◌-◌, ◌/◌, Bool, true, false, not, ◌||◌, Option, none, some, List, [], ◌∷◌, ◌++◌, Str,
  str, ◌==◌, if◌then◌else◌,
}
use tummycrypt.Prelude.Text.Lines.{is_empty}
use tummycrypt.Prelude.Text.Utf8.{is_utf8}
use tummycrypt.Prelude.Text.Trim.{trim_start, strip_suffix}
use tummycrypt.Fallible.{Result, ok, err, no_such_entry}
use tummycrypt.Exec.{pure, lift, gets, modify, attempt, ◌>>=◌, ◌>>◌}
use tummycrypt.State.{ends_with}
use tummycrypt.Engine.Tree.{remote_path_prefix}
use tummycrypt.Fuse.Index.{IndexEntry, parse_entry}
use tummycrypt.Fuse.NegativeCache.{is_negative, insert_path}
use tummycrypt.Fuse.Mount.{Storage, TcfsFs, Mount, Run, ask}

pub data FileType : Type 0 where
  regular_file directory : FileType

pub record FileAttr : Type 0 where
  pub size : ℕ
  pub blocks : ℕ
  pub time : ℕ
  pub kind : FileType
  pub perm : ℕ
  pub nlink : ℕ
  pub uid : ℕ
  pub gid : ℕ
  pub rdev : ℕ
  pub blksize : ℕ

-- 0o444 and 0o555.
abbrev pub perm_file : ℕ
perm_file = 292

abbrev pub perm_dir : ℕ
perm_dir = 365

-- Seconds.
abbrev pub attr_ttl : ℕ
attr_ttl = 5

-- `ReplyAttr` and `ReplyEntry`.
pub record Reply : Type 0 where
  pub ttl : ℕ
  pub attr : FileAttr

-- `to_str`
abbrev pub to_str : Str → Option Str
to_str path = if is_utf8 path then some path else none

abbrev pub or_root : Option Str → Str
or_root (some path) = path
or_root none = str "/"

abbrev pub is_stub : Str → Bool
is_stub name = ends_with name (str ".tc") || ends_with name (str ".tcf")

-- The name without its suffix, if it has one.
unfoldable pub real_name : Str → Str
real_name rel = elim (strip_suffix (str ".tc") rel) [
  | some real ↦ real
  | none ↦ elim (strip_suffix (str ".tcf") rel) [ some real ↦ real | none ↦ rel ]
]

module _ (fs : TcfsFs) where
  open fs use {prefix, uid, gid, mount_time}

  -- The root has no key.
  unfoldable pub index_key_for : Str → Option Str
  index_key_for vpath =
      let rel = trim_start b'/' vpath in
      if is_empty rel
      then none
      else some (remote_path_prefix prefix ++ (str "/index/" ++ real_name rel))

  unfoldable pub index_prefix_for_dir : Str → Str
  index_prefix_for_dir vdir =
      let rel = remote_path_prefix (trim_start b'/' vdir) in
      if is_empty rel
      then remote_path_prefix prefix ++ str "/index/"
      else remote_path_prefix prefix ++ (str "/index/" ++ (rel ++ str "/"))

  abbrev pub file_attr : ℕ → FileAttr
  file_attr size = record {
    size = size;
    blocks = (size + 511) / 512;
    time = mount_time;
    kind = regular_file;
    perm = perm_file;
    nlink = 1;
    uid = uid;
    gid = gid;
    rdev = 0;
    blksize = 4096;
  }

  abbrev pub dir_attr : FileAttr
  dir_attr = record {
    size = 0;
    blocks = 0;
    time = mount_time;
    kind = directory;
    perm = perm_dir;
    nlink = 2;
    uid = uid;
    gid = gid;
    rdev = 0;
    blksize = 4096;
  }

  abbrev pub reply : FileAttr → Reply
  reply attr = record { ttl = attr_ttl; attr = attr }

  module _ (S : Storage) where
    open S use {op, list}

    -- The entry in the text that was read.
    unfoldable pub entry_of : Result Str → Option IndexEntry
    entry_of (err e) = none
    entry_of (ok text) =
        if is_utf8 text then elim (parse_entry text) [ ok e ↦ some e | err _ ↦ none ] else none

    unfoldable pub on_key : Option Str → Run S (Option IndexEntry)
    on_key none = pure none
    on_key (some key) = do read ← attempt (ask S (op.read key)); pure (entry_of read)

    unfoldable pub get_index_entry : Str → Run S (Option IndexEntry)
    get_index_entry vpath = on_key (index_key_for vpath)

    -- The size of an object that cannot be read or parsed is zero.
    unfoldable pub size_of : Option IndexEntry → ℕ
    size_of none = 0
    size_of (some e) = e.size

    -- A text that is no UTF-8 counts as empty, which is no entry either.
    unfoldable pub read_index_entry_size : Str → Run S ℕ
    read_index_entry_size key = do
      read ← attempt (ask S (op.read key))
      pure (size_of (entry_of read))

    -- What is not there is known to be absent for a while.
    unfoldable pub absent : {A : Type 0} → Str → Run S A
    absent path = do
      modify (λ s. record s { negative = insert_path s.disk.now s.negative path })
      lift (err no_such_entry)

    unfoldable pub on_entry : Str → Option IndexEntry → Run S Reply
    on_entry path none = absent path
    on_entry path (some e) = pure (reply (file_attr e.size))

    -- A directory is there if it has objects.
    unfoldable pub on_objects : Str → Result (List Str) → Run S Reply
    on_objects path (ok (o ∷ objects)) = pure (reply dir_attr)
    on_objects path _ = absent path

    -- The part that `getattr` and `lookup` share: a path whose name is `name`.
    unfoldable pub find_path : Str → Str → Run S Reply
    find_path path name = do
      gone ← gets (λ s. is_negative s.disk.now s.negative path)
      if gone
          then lift (err no_such_entry)
          else (if is_stub name then (do e ← get_index_entry path; on_entry path e) else (do
            objects ← attempt (ask S (list (index_prefix_for_dir path)))
            on_objects path objects))

    -- A call without a path has no answer.
    unfoldable pub getattr : Option Str → Run S Reply
    getattr none = lift (err no_such_entry)
    getattr (some path) =
        if not (is_utf8 path)
        then lift (err no_such_entry)
        else if path == str "/"
        then pure (reply dir_attr)
        else find_path path path

    -- `{parent}/{name}`, the root aside.
    abbrev pub full_path : Str → Str → Str
    full_path parent name =
        if parent == str "/" then b'/' ∷ name else remote_path_prefix parent ++ (b'/' ∷ name)

    unfoldable pub lookup : Str → Str → Run S Reply
    lookup parent name =
        if not (is_utf8 name)
        then lift (err no_such_entry)
        else find_path (full_path (or_root (to_str parent)) name) name

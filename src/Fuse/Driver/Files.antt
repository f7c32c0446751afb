-- ===== src/Fuse/Driver/Files.antt =====
-- crates/tcfs-fuse/src/driver.rs: open files.
use tummycrypt.Prelude.{
  ℕ, ◌+◌, ◌%◌, ◌^◌, not, Option, none, some, [], Str, leb, if◌then◌else◌, length, take, drop,
}
use tummycrypt.Prelude.Text.Utf8.{is_utf8}
use tummycrypt.Fallible.{Result, ok, err, no_such_entry, io_error, bad_handle}
use tummycrypt.Exec.{lift, gets, modify, context, ◌>>=◌}
use tummycrypt.Engine.Tree.{remote_path_prefix}
use tummycrypt.Fuse.Index.{IndexEntry, manifest_path}
use tummycrypt.Fuse.Hydrate.{fetch_cached}
use tummycrypt.Fuse.Mount.{Storage, TcfsFs, Run, handle, insert_handle, remove_handle}
use tummycrypt.Fuse.Driver.{get_index_entry, is_stub}

-- `&data[start..end]` with the end cut at the end of the data.
abbrev pub window : Str → ℕ → ℕ → Str
window content offset size =
    if leb (length content) offset then [] else take size (drop offset content)

module _ (fs : TcfsFs) (S : Storage) where
  open fs use {prefix, disk_cache}

  -- A new handle for a content; the counter wraps.
  unfoldable pub add_handle : Str → Run S ℕ
  add_handle content s = (
    ok s.next_fh,
    record s {
      next_fh = (s.next_fh + 1) % 2 ^ 64;
      handles = insert_handle s.next_fh content s.handles;
    },
  )

  unfoldable pub open_entry : Option IndexEntry → Run S ℕ
  open_entry none = lift (err no_such_entry)
  open_entry (some e) = do
    content ←
        context io_error
          (fetch_cached S disk_cache (manifest_path e prefix) (remote_path_prefix prefix))
    add_handle content

  -- Only stubs are opened.
  unfoldable pub open_file : Str → Run S ℕ
  open_file path =
      if not (is_utf8 path)
      then lift (err no_such_entry)
      else if not (is_stub path)
      then lift (err no_such_entry)
      else (do e ← get_index_entry fs S path; open_entry e)

  unfoldable pub read_handle : ℕ → ℕ → Option Str → Result Str
  read_handle offset size none = err bad_handle
  read_handle offset size (some content) = ok (window content offset size)

  unfoldable pub read : ℕ → ℕ → ℕ → Run S Str
  read fh offset size = do
    found ← gets (λ s. handle fh s.handles)
    lift (read_handle offset size found)

  unfoldable pub release : ℕ → Run S (Unit {0})
  release fh = modify (λ s. record s { handles = remove_handle fh s.handles })

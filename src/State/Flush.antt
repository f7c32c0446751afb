-- ===== src/State/Flush.antt =====
-- The state file: what a flush leaves on the disk, and what is read from it.
use tummycrypt.Prelude.{
  ◌≡◌, ◌≢◌, refl, inl, inr, true, Option, none, some, Str, str, eq_iff, eq_refl, arith,
  Option-cases,
}
use tummycrypt.Prelude.Dict.{lookup, insert, erase, lookup-insert}
use tummycrypt.Prelude.Text.FilePath.{with_extension}
use tummycrypt.Fallible.{ok}
use tummycrypt.Disk
use tummycrypt.Disk.{Disk, File}
use tummycrypt.State.{StateCache, StateJson, IsLawful, fresh, open_cache, save, flush}

-- The file that a save writes.
abbrev written : Disk → Str → File
written d json = record { content = json; modified = some d.now }

abbrev tmp_path : StateCache → Str
tmp_path c = with_extension c.db_path (str "tmp")

module _ (J : StateJson) (c : StateCache) (d : Disk) where
  abbrev on_disk : Option File
  on_disk = lookup c.db_path (save J c d).1.files

  lookup-save :
      (json : Str)
      → J.print c.entries ≡ some json
      → (save J c d).0 ≡ ok tt
      → on_disk ≡ some (written d json)
  unfolding save Disk.create_dir_all Disk.write Disk.rename
  lookup-save json e h =
      let tmp = tmp_path c in
      let files = insert tmp (written d json) d.files in
      ground (
        arith,
        eq_refl tmp,
        eq_refl c.db_path,
        lookup-insert tmp tmp (written d json) d.files,
        lookup-insert c.db_path c.db_path (written d json) (erase tmp files),
      )

  lookup-save_err :
      (r : Option Str)
      → J.print c.entries ≡ r
      → tmp_path c ≢ c.db_path
      → (save J c d).0 ≢ ok tt
      → on_disk ≡ lookup c.db_path d.files
  unfolding save Disk.create_dir_all Disk.write Disk.rename
  lookup-save_err none e apart h = ground arith
  lookup-save_err (some json) e apart h =
      let tmp = tmp_path c in
      ground (
        arith,
        eq_iff tmp c.db_path,
        lookup-insert tmp tmp (written d json) d.files,
        lookup-insert tmp c.db_path (written d json) d.files,
      )

  print-save : (save J c d).0 ≡ ok tt → (json : Str) × (J.print c.entries ≡ some json)
  unfolding save
  print-save h = elim (Option-cases (J.print c.entries)) [
    | inl fails ↦ absurd (ground arith)
    | inr found ↦ found
  ]

  -- With a codec that reads back the entries it prints, a dirty cache that was flushed with
  -- success can be opened again: the entries are the same, and nothing else of the cache is kept.
  pub open_cache-flush :
      IsLawful J
      → c.dirty ≡ true
      → (flush J c d).0 ≡ ok tt
      → open_cache J (flush J c d).2 c.db_path ≡ ok (fresh c.db_path c.entries)
  unfolding flush open_cache
  open_cache-flush law dirty h =
      let saved : (save J c d).0 ≡ ok tt = ground arith in
      let (json, e) = print-save saved in
      ground (
        arith,
        lookup-save json e saved,
        law.print-is_utf8 c.entries json,
        law.parse-print c.entries json,
      )

  -- A flush that fails leaves the state file as it was, provided that it is not the path of the
  -- temporary file, and the cache as it was, still dirty.
  pub flush_failed :
      tmp_path c ≢ c.db_path
      → (flush J c d).0 ≢ ok tt
      → (lookup c.db_path (flush J c d).2.files ≡ lookup c.db_path d.files)
        × ((flush J c d).1 ≡ c)
        × (c.dirty ≡ true)
  unfolding flush
  flush_failed apart h = ground (arith, lookup-save_err (J.print c.entries) refl apart)

  -- After a flush that succeeds a second one changes nothing, neither the cache nor the disk.
  pub flush_twice :
      (flush J c d).0 ≡ ok tt
      → flush J (flush J c d).1 (flush J c d).2 ≡ (ok tt, (flush J c d).1, (flush J c d).2)
  unfolding flush
  flush_twice h = ground arith

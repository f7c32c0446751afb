-- ===== src/Tests/Mounted.antt =====
-- A mounted store with one file in the old format and one in the new one.
use tummycrypt.Prelude.{
  ℕ, ◌≡◌, All, ◌≢◌, ◌⊎◌, ◌≤◌, refl, ap, true, false, none, some, List, [], ◌∷◌, ◌++◌, Str, str,
  ◌==◌, arith, map, if◌then◌else◌,
}
use tummycrypt.Prelude.Dict.{lookup, insert, erase}
use tummycrypt.Prelude.Text.Utf8.{is_utf8}
use tummycrypt.Prelude.Text.Lines.{lines}
use tummycrypt.Prelude.Text.Decimal.{digits, to_string, from_digits, strip_plus, parse}
use tummycrypt.Prelude.Text.FilePath.{parent, with_extension, file_name}
use tummycrypt.Prelude.Text.Trim.{
  trim_start, trim_start_matches, strip_prefix, strip_suffix, contains_char, before_first,
}
use tummycrypt.Fallible.{ok, err, no_such_entry, result_map}
use tummycrypt.Exec
use tummycrypt.Exec.{pure, lift, gets, modify, attempt, context}
use tummycrypt.Disk
use tummycrypt.Disk.{Disk, DirEntry, ReadDir}
use tummycrypt.State.{ends_with}
use tummycrypt.Engine.Consistency.{IsConsistent}
use tummycrypt.Engine.Restore.Fetched.{IsCalm}
use tummycrypt.Engine.Tree.{index_entry, remote_path_prefix}
use tummycrypt.Fuse.Index.{IndexEntry, parse_entry, read_lines, split_once, manifest_path}
use tummycrypt.Fuse.NegativeCache.{is_negative, insert_path}
use tummycrypt.Fuse.Cache
use tummycrypt.Fuse.Cache.{
  DiskCache, Cached, total_size, insert_by_mtime, sort_by_mtime, remove_oldest,
}
use tummycrypt.Fuse.Cache.Eviction.{at_some, Removed, Needed, Older, remove_oldest-Older}
use tummycrypt.Fuse.Cache.Reading.{get-put}
use tummycrypt.Fuse.Mount.{Storage, TcfsFs, Mount, ask, handle, insert_handle}
use tummycrypt.Fuse.Hydrate
use tummycrypt.Fuse.Hydrate.{fetch_content, fetch_cached}
use tummycrypt.Fuse.Hydrate.Manifests.{fetch_content-brace}
use tummycrypt.Fuse.Hydrate.Caching.{fetch_cached-again}
use tummycrypt.Fuse.Driver
use tummycrypt.Fuse.Driver.{getattr, reply, file_attr, get_index_entry}
use tummycrypt.Fuse.Driver.Pushed.{getattr-pushed, getattr-again}
use tummycrypt.Fuse.Driver.Files
use tummycrypt.Fuse.Driver.Files.{open_file, window}
use tummycrypt.Fuse.Driver.Listing.{as_i64, readdir, readdirplus}
use tummycrypt.Fuse.Driver.Listing.Offsets.{behind, plain, readdir-offset, readdirplus-readdir}
use tummycrypt.Fuse.Driver.Calls.{opens, releases, stats}
use tummycrypt.Fuse.Driver.Calls.OpenFiles.{afters, read-open_file}
use tummycrypt.Tests.Fixtures.{memory, memory-IsLawful}
use tummycrypt.Tests.Codec.{one_json-IsLawful}
use tummycrypt.Tests.Sync
use tummycrypt.Tests.Sync.{hello, deps, args, empty}
use tummycrypt.Engine.Upload.{upload_file_with_device}
use tummycrypt.Engine.Consistency.Upload.{upload-IsConsistent}

program : Unit {0}
unfolding Exec.◌>>=◌ lookup insert erase is_utf8 lines digits to_string from_digits strip_plus parse
    parent with_extension file_name trim_start trim_start_matches strip_prefix strip_suffix
    contains_char before_first ends_with ◌==◌ index_entry remote_path_prefix parse_entry read_lines
    split_once is_negative insert_path Disk.read Disk.write Disk.rename Disk.create_dir_all
    Disk.exists Disk.remove_file Cache.get Cache.put Cache.evict_if_needed Cache.cached_entries
    Cache.walk Cache.shard_entries total_size insert_by_mtime sort_by_mtime remove_oldest ask handle
    insert_handle Hydrate.fetch_all Hydrate.fetch_content Hydrate.keep_content Hydrate.on_cached
    Hydrate.fetch_cached Driver.real_name Driver.index_key_for Driver.index_prefix_for_dir
    Driver.entry_of Driver.on_key Driver.get_index_entry Driver.on_entry Driver.on_objects
    Driver.absent Driver.find_path Driver.getattr Files.open_file Files.open_entry Files.add_handle
program = tt

-- The keys below a prefix.
abbrev below : Str → List Str → List Str
below p [] = []
below p (k ∷ ks) = elim (strip_prefix p k) [ some _ ↦ k ∷ below p ks | none ↦ below p ks ]

abbrev read_dir : ReadDir
read_dir d dir =
    if dir == str "/c"
    then ok (
        record {
          path = str "/c/aa";
          name = str "aa";
          is_dir = true;
          is_file = false;
          len = 0;
          modified = none;
        }
        ∷ [])
    else ok (
        record {
          path = str "/c/aa/aaold";
          name = str "aaold";
          is_dir = false;
          is_file = true;
          len = 90;
          modified = some 3;
        }
        ∷ [])

abbrev storage : Storage
storage = record {
  op = memory;
  list = λ p s. (ok (below p (map (λ e. e.0) s)), s);
  read_dir = read_dir;
}

abbrev disk_cache : DiskCache
disk_cache = record { dir = str "/c"; max_bytes = 50 }

abbrev disk : Disk
disk = record {
  files = (str "/c/aa/aaold", record { content = str "old"; modified = some 3 }) ∷ [];
  refuses = λ _. false;
  hides = λ _. false;
  leaves = λ _. none;
  canonical = λ p. some p;
  now = 9;
}

abbrev fs : TcfsFs
fs = record { prefix = str "p/"; uid = 1; gid = 2; disk_cache = disk_cache; mount_time = 9 }

abbrev mounted : Mount memory
mounted = record {
  remote =
      (str "p/index/src/f", index_entry (str "aa11") 5 2)
      ∷ (str "p/index/g", index_entry (str "hbb") 5 2)
      ∷ (str "p/manifests/aa11", str "hhe" ++ (10 ∷ (str "hllo" ++ (10 ∷ []))))
      ∷ (str "p/manifests/hbb", str "{")
      ∷ (str "p/chunks/hhe", str "he")
      ∷ (str "p/chunks/hllo", str "llo")
      ∷ [];
  disk = disk;
  negative = record { entries = []; ttl = 3 };
  handles = [];
  next_fh = 1;
}

opened : (open_file fs storage (str "/src/f.tc") mounted).0 ≡ ok 1
unfolding program
opened = refl

evicted :
    Cache.get disk_cache (open_file fs storage (str "/src/f.tc") mounted).1.disk (str "aaold")
    ≡ none
unfolding program
evicted = refl

read-open_file_example :
    (e : IndexEntry) × (content : Str) × ((get_index_entry fs storage (str "/src/f.tc") mounted).0
      ≡ ok (some e))
    × ((fetch_cached storage disk_cache
          (manifest_path e (str "p/"))
          (remote_path_prefix (str "p/"))
          (get_index_entry fs storage (str "/src/f.tc") mounted).1).0
        ≡ ok content)
    × ((offset size : ℕ)
        → (Files.read fs storage 1 offset size (
            afters fs storage
              (opens (str "/src/f.tc") ∷ releases 2 ∷ stats none ∷ [])
              (open_file fs storage (str "/src/f.tc") mounted).1)).0
          ≡ ok (window content offset size))
unfolding program
read-open_file_example =
    read-open_file fs storage (str "/src/f.tc") mounted {fh = 1}
      (opens (str "/src/f.tc") ∷ releases 2 ∷ stats none ∷ []) (λ fh le. refl) (omega arith) refl
      ((λ e. cc e), ((λ e. cc e), ((λ e. cc e), tt)))

readdir-offset_example :
    (readdir fs storage (str "/") 3 mounted).0
    ≡ result_map (behind 3) (readdir fs storage (str "/") 0 mounted).0
readdir-offset_example = readdir-offset fs storage (str "/") 3 mounted

readdirplus-readdir_example :
    result_map (map plain) (readdirplus fs storage (str "/") 1 mounted).0
    ≡ (readdir fs storage (str "/") 1 mounted).0
unfolding as_i64
readdirplus-readdir_example = readdirplus-readdir fs storage (str "/") 1 mounted

memory-IsCalm : IsCalm memory memory-IsLawful (λ s. Unit)
unfolding lookup memory-IsLawful
memory-IsCalm = record { answers = λ s k v quiet e. ground arith; stays = λ s k quiet. tt }

getattr-pushed_example :
    (getattr fs storage (some (str "/src/f.tc")) mounted).0 ≡ ok (reply fs (file_attr fs 5))
unfolding program memory-IsLawful
getattr-pushed_example =
    getattr-pushed fs storage memory-IsLawful (λ s. Unit) memory-IsCalm (str "src/f") (str "aa11") 5
      2 mounted (λ e. cc e) refl refl (ground arith) (omega arith) (omega arith) refl refl tt refl

getattr-again_run :
    getattr fs storage
      (some (str "/none.tc"))
      (getattr fs storage (some (str "/none.tc")) mounted).1
    ≡ (err no_such_entry, (getattr fs storage (some (str "/none.tc")) mounted).1)
unfolding program
getattr-again_run =
    getattr-again fs storage (str "/none.tc") mounted {e = no_such_entry} (omega arith) refl

abbrev both : List Cached
both =
    record { path = str "/c/aa/aa11"; size = 5; mtime = 9 }
    ∷ record { path = str "/c/aa/aaold"; size = 90; mtime = 3 }
    ∷ []

remove_oldest-Older_example :
    (gone kept : List Cached) × (sort_by_mtime both ≡ gone ++ kept)
    × All
        (λ (e : Cached).
          Removed (remove_oldest 50 (total_size both) (sort_by_mtime both) disk) e.path)
        gone
    × ((at_some gone (str "/c/aa/aa11") ≡ true)
        ⊎ (lookup
              (str "/c/aa/aa11")
              (remove_oldest 50 (total_size both) (sort_by_mtime both) disk).files
            ≡ lookup (str "/c/aa/aa11") disk.files))
    × (total_size kept ≤ 50)
    × Needed 50 (total_size both) gone
    × Older gone kept
remove_oldest-Older_example = remove_oldest-Older 50 both disk (str "/c/aa/aa11")

get-put_run :
    (Cache.get disk_cache
        (Cache.put read_dir disk_cache disk (str "aa11") (str "new")).1
        (str "aaold")
      ≡ (if str "aa11" == str "aaold"
          then some (str "new")
          else Cache.get disk_cache disk (str "aaold")))
    ⊎ (Cache.get disk_cache
          (Cache.put read_dir disk_cache disk (str "aa11") (str "new")).1
          (str "aaold")
        ≡ none)
unfolding program
get-put_run =
    get-put read_dir disk_cache disk (str "aa11") (str "new") refl (str "aaold") (λ e. cc e)

fetch_cached-again_example :
    fetch_cached storage disk_cache
      (str "p/manifests/aa11")
      (str "p")
      (fetch_cached storage disk_cache (str "p/manifests/aa11") (str "p") mounted).1
    ≡ (
      ok (str "hello"),
      (fetch_cached storage disk_cache (str "p/manifests/aa11") (str "p") mounted).1,
    )
unfolding program
fetch_cached-again_example =
    fetch_cached-again storage disk_cache (str "p/manifests/aa11") (str "p") mounted
      {content = str "hello"} {x = str "hello"} (λ e. cc e) refl refl

empty-IsConsistent : IsConsistent deps memory-IsLawful (str "p") empty.remote
unfolding lookup memory-IsLawful
empty-IsConsistent = record {
  chunk_content = λ h d e. cc e;
  manifest_chunks = λ h b m e p. absurd (cc e);
}

-- The store after an upload.
abbrev one_upload : Mount memory
one_upload = record mounted { remote = (upload_file_with_device deps args empty).1.remote }

one_upload-IsConsistent : IsConsistent deps memory-IsLawful (str "p") one_upload.remote
one_upload-IsConsistent =
    (upload-IsConsistent deps memory-IsLawful (one_json-IsLawful hello) args empty
      empty-IsConsistent).0

abbrev first : Str → ℕ
first [] = 0
first (c ∷ s) = c

fetch_content-brace_example :
    (fetch_content storage (str "p/manifests/hhello") (str "p") one_upload).0 ≢ ok (str "hello")
unfolding Sync.program remote_path_prefix memory-IsLawful
fetch_content-brace_example =
    fetch_content-brace deps memory-IsLawful storage.list read_dir (str "p/manifests/hhello")
      (str "p") [] (str "hello") one_upload one_upload-IsConsistent
      (λ d r e. omega (arith, ap first e)) refl

-- ===== src/Secrets/Rotate/Backups/Oldest.antt =====
-- crates/tcfs-secrets/src/rotate.rs: which backups are removed.
use tummycrypt.Prelude.{
  ℕ, zero, suc, ◌+◌, ◌-◌, ◌≤◌, ◌≡◌, refl, true, not, ◌&&◌, List, [], ◌∷◌, Str, ◌==◌, eq_iff, str_le,
  str_le_total, str_le_trans, leb, length, take, drop, any, All, All-map, Bool-cases, inl, inr,
  arith, if◌then◌else◌, min,
}
use tummycrypt.Prelude.Text.FilePath.{parent, file_name, dir_or_dot}
use tummycrypt.Prelude.Dict.{lookup-erase}
use tummycrypt.Fallible.{ok, err, reading_failed}
use tummycrypt.Disk
use tummycrypt.Disk.{Disk, DirEntry, ReadDir}
use tummycrypt.Secrets.Rotate.Backups.{
  Backup, backups_of, insert_by_name, sort_by_name, remove_backups, oldest, cleanup_backups,
}

-- Each backup is no older, by its name, than those before it.
abbrev IsSorted : List Backup → Type 0
IsSorted [] = Unit
IsSorted (b ∷ rest) = All (λ (x : Backup). str_le b.name x.name ≡ true) rest × IsSorted rest

insert_by_name-All :
    (P : Backup → Type 0) (b : Backup) (bs : List Backup)
    → P b
    → All P bs
    → All P (insert_by_name b bs)
unfolding insert_by_name
insert_by_name-All P b [] h hs = (h, tt)
insert_by_name-All P b (x ∷ rest) h (k, ks) = elim (Bool-cases (str_le b.name x.name)) [
  | inl before ↦ rw before (h, (k, ks))
  | inr after ↦ rw after (k, insert_by_name-All P b rest h ks)
]

insert_by_name-IsSorted :
    (b : Backup) (bs : List Backup) → IsSorted bs → IsSorted (insert_by_name b bs)
unfolding insert_by_name
insert_by_name-IsSorted b [] h = (tt, tt)
insert_by_name-IsSorted b (x ∷ rest) (h, hs) = elim (Bool-cases (str_le b.name x.name)) [
  | inl before ↦
      rw before
        ((before, All-map _ _ rest (λ y p. str_le_trans b.name x.name y.name before p) h), (h, hs))
  | inr after ↦
      let le : str_le x.name b.name ≡ true = ground (arith, str_le_total x.name b.name) in
      rw after (insert_by_name-All _ b rest le h, insert_by_name-IsSorted b rest hs)
]

sort_by_name-IsSorted : (bs : List Backup) → IsSorted (sort_by_name bs)
unfolding sort_by_name
sort_by_name-IsSorted [] = tt
sort_by_name-IsSorted (b ∷ rest) =
    insert_by_name-IsSorted b (sort_by_name rest) (sort_by_name-IsSorted rest)

length-insert_by_name :
    (b : Backup) (bs : List Backup) → length (insert_by_name b bs) ≡ suc (length bs)
unfolding insert_by_name
length-insert_by_name b [] = refl
length-insert_by_name b (x ∷ rest) = ground (arith, length-insert_by_name b rest)

length-sort_by_name : (bs : List Backup) → length (sort_by_name bs) ≡ length bs
unfolding sort_by_name
length-sort_by_name [] = refl
length-sort_by_name (b ∷ rest) =
    omega (arith, length-insert_by_name b (sort_by_name rest), length-sort_by_name rest)

-- What stands behind a place is no older than what stands before it.
abbrev NoOlder : List Backup → List Backup → Type 0
NoOlder kept = All (λ (old : Backup). All (λ (x : Backup). str_le old.name x.name ≡ true) kept)

All-drop : (P : Backup → Type 0) (n : ℕ) (bs : List Backup) → All P bs → All P (drop n bs)
All-drop P zero bs h = h
All-drop P (suc n) [] h = tt
All-drop P (suc n) (b ∷ bs) h = All-drop P n bs h.1

take-NoOlder : (n : ℕ) (bs : List Backup) → IsSorted bs → NoOlder (drop n bs) (take n bs)
take-NoOlder zero bs h = tt
take-NoOlder (suc n) [] h = tt
take-NoOlder (suc n) (b ∷ bs) h = (All-drop _ n bs h.0, take-NoOlder n bs h.1)

length-take : (n : ℕ) (bs : List Backup) → length (take n bs) ≤ n
length-take zero bs = omega arith
length-take (suc n) [] = omega arith
length-take (suc n) (b ∷ bs) = omega (arith, length-take n bs)

length-drop : (n : ℕ) (bs : List Backup) → length (drop n bs) ≡ length bs - n
length-drop zero bs = omega arith
length-drop (suc n) [] = omega arith
length-drop (suc n) (b ∷ bs) = omega (arith, length-drop n bs)

remove_file-read :
    (d : Disk) (gone path : Str)
    → Disk.read (Disk.remove_file d gone).1 path ≡ (
        if gone == path && not (d.refuses path)
        then err (reading_failed path)
        else Disk.read d path)
unfolding Disk.remove_file Disk.read
remove_file-read d gone path = ground (arith, eq_iff gone path, lookup-erase gone path d.files)

remove_file-refuses :
    (d : Disk) (gone path : Str) → (Disk.remove_file d gone).1.refuses path ≡ d.refuses path
unfolding Disk.remove_file
remove_file-refuses d gone path = ground arith

remove_backups-read :
    (bs : List Backup) (n : ℕ) (d : Disk) (path : Str)
    → Disk.read (remove_backups bs n d).1 path ≡ (
        if any (λ (b : Backup). b.path == path) bs && not (d.refuses path)
        then err (reading_failed path)
        else Disk.read d path)
unfolding remove_backups
remove_backups-read [] n d path = refl
remove_backups-read (b ∷ rest) n d path = ground (
  arith,
  remove_backups-read rest (elim (Disk.remove_file d b.path).0 [ ok _ ↦ n + 1 | err _ ↦ n ])
      (Disk.remove_file d b.path).1 path,
  remove_file-read d b.path path,
  remove_file-refuses d b.path path,
)

remove_backups-count :
    (bs : List Backup) (n : ℕ) (d : Disk) → (remove_backups bs n d).0 ≤ n + length bs
unfolding remove_backups
remove_backups-count [] n d = omega arith
remove_backups-count (b ∷ rest) n d = ground (
  arith,
  remove_backups-count rest (elim (Disk.remove_file d b.path).0 [ ok _ ↦ n + 1 | err _ ↦ n ])
      (Disk.remove_file d b.path).1,
)

-- What a listing that succeeds leads to.
cleanup_backups-listed :
    (read_dir : ReadDir) (cred_file : Str) (kept : ℕ) (d : Disk) (entries : List DirEntry)
    → read_dir d (dir_or_dot (parent cred_file)) ≡ ok entries
    → let backups = backups_of (file_name cred_file) entries in
      let run = remove_backups (oldest backups kept) 0 d in
      cleanup_backups read_dir cred_file kept d
      ≡ (if leb (length backups) kept then (ok 0, d) else (ok run.0, run.1))
unfolding cleanup_backups
cleanup_backups-listed read_dir cred_file kept d entries listed = rw (listed, cleanup_backups) refl

-- A cleanup of a directory that could be listed succeeds. It removes the oldest backups, by their
-- names, and no other file: those that exceed the number that is to be kept, but for those that the
-- system does not let go. What stays of the backups is as many as are to be kept, or all, and none
-- is older than one that is removed. The number it gives is at most that of the oldest.
pub cleanup_backups-oldest :
    (read_dir : ReadDir) (cred_file path : Str) (kept : ℕ) (d : Disk) (entries : List DirEntry)
    → read_dir d (dir_or_dot (parent cred_file)) ≡ ok entries
    → let backups = backups_of (file_name cred_file) entries in
      let stay = drop (length backups - kept) (sort_by_name backups) in
      (n : ℕ) × ((cleanup_backups read_dir cred_file kept d).0 ≡ ok n)
      × (n ≤ length backups - kept)
      × (Disk.read (cleanup_backups read_dir cred_file kept d).1 path ≡ (
          if any (λ (b : Backup). b.path == path) (oldest backups kept) && not (d.refuses path)
          then err (reading_failed path)
          else Disk.read d path))
      × (length stay ≡ min kept (length backups))
      × NoOlder stay (oldest backups kept)
cleanup_backups-oldest read_dir cred_file path kept d entries listed =
    let backups = backups_of (file_name cred_file) entries in
    let run = cleanup_backups-listed read_dir cred_file kept d entries listed in
    let sorted = sort_by_name backups in
    let order = take-NoOlder (length backups - kept) sorted (sort_by_name-IsSorted backups) in
    let size : length (drop (length backups - kept) sorted) ≡ min kept (length backups) =
      omega (arith, length-drop (length backups - kept) sorted, length-sort_by_name backups) in
    elim (Bool-cases (leb (length backups) kept)) [
      | inl few ↦
          let none_left : length backups - kept ≡ 0 = ground arith in
          (0, rw (run, few) refl, omega arith, rw (run, few, none_left) refl, size, order)
      | inr many ↦
          let gone = oldest backups kept in
          let count : (remove_backups gone 0 d).0 ≤ length backups - kept =
            omega
              (arith, remove_backups-count gone 0 d, length-take (length backups - kept) sorted) in
          (
            (remove_backups gone 0 d).0,
            rw (run, many) refl,
            count,
            rw (run, many) (remove_backups-read gone 0 d path),
            size,
            order,
          )
    ]

-- ===== src/Fuse/Cache/Eviction.antt =====
-- What an eviction removes.
use tummycrypt.Prelude.{
  ℕ, ◌+◌, ◌-◌, ◌≤◌, ◌<◌, ◌≡◌, ◌⊎◌, ◌||◌, inl, inr, refl, Bool, true, false, List, [], ◌∷◌, ◌++◌,
  Str, ◌==◌, eq_iff, leb, Bool-cases, All, All-map, arith, ◌∙◌,
}
use tummycrypt.Prelude.Dict.{lookup, lookup-erase}
use tummycrypt.Disk
use tummycrypt.Disk.{Disk}
use tummycrypt.Fuse.Cache.{Cached, total_size, insert_by_mtime, sort_by_mtime, remove_oldest}

-- The files are removed one behind the other.
abbrev pub remove_all : List Cached → Disk → Disk
remove_all [] d = d
remove_all (e ∷ rest) d = remove_all rest (Disk.remove_file d e.path).1

-- Before a number of bytes is reached, going on is needed.
abbrev pub Needed : ℕ → ℕ → List Cached → Type 0
Needed max total [] = Unit
Needed max total (e ∷ gone) = (max < total) × Needed max (total - e.size) gone

-- Each file is no younger than those behind it.
abbrev pub IsSorted : List Cached → Type 0
IsSorted [] = Unit
IsSorted (e ∷ rest) = All (λ (x : Cached). e.mtime ≤ x.mtime) rest × IsSorted rest

insert_by_mtime-All :
    (P : Cached → Type 0) (e : Cached) (es : List Cached)
    → P e
    → All P es
    → All P (insert_by_mtime e es)
unfolding insert_by_mtime
insert_by_mtime-All P e [] h hs = (h, tt)
insert_by_mtime-All P e (x ∷ rest) h (k, ks) = elim (Bool-cases (leb e.mtime x.mtime)) [
  | inl before ↦ rw before (h, (k, ks))
  | inr after ↦ rw after (k, insert_by_mtime-All P e rest h ks)
]

insert_by_mtime-IsSorted :
    (e : Cached) (es : List Cached) → IsSorted es → IsSorted (insert_by_mtime e es)
unfolding insert_by_mtime
insert_by_mtime-IsSorted e [] h = (tt, tt)
insert_by_mtime-IsSorted e (x ∷ rest) (h, hs) = elim (Bool-cases (leb e.mtime x.mtime)) [
  | inl before ↦
      let le : e.mtime ≤ x.mtime = ground arith in
      rw before
        ((le, All-map _ (λ (y : Cached). e.mtime ≤ y.mtime) rest (λ y p. omega arith) h), (h, hs))
  | inr after ↦
      let le : x.mtime ≤ e.mtime = ground arith in
      rw after (
        insert_by_mtime-All (λ (y : Cached). x.mtime ≤ y.mtime) e rest le h,
        insert_by_mtime-IsSorted e rest hs,
      )
]

pub sort_by_mtime-IsSorted : (es : List Cached) → IsSorted (sort_by_mtime es)
unfolding sort_by_mtime
sort_by_mtime-IsSorted [] = tt
sort_by_mtime-IsSorted (e ∷ rest) =
    insert_by_mtime-IsSorted e (sort_by_mtime rest) (sort_by_mtime-IsSorted rest)

total_size-insert_by_mtime :
    (e : Cached) (es : List Cached) → total_size (insert_by_mtime e es) ≡ e.size + total_size es
unfolding total_size insert_by_mtime
total_size-insert_by_mtime e [] = refl
total_size-insert_by_mtime e (x ∷ rest) = ground (arith, total_size-insert_by_mtime e rest)

pub total_size-sort_by_mtime : (es : List Cached) → total_size (sort_by_mtime es) ≡ total_size es
unfolding total_size sort_by_mtime
total_size-sort_by_mtime [] = refl
total_size-sort_by_mtime (e ∷ rest) =
    ground (arith, total_size-insert_by_mtime e (sort_by_mtime rest), total_size-sort_by_mtime rest)

-- No file of the first list is younger than one of the second.
abbrev pub Older : List Cached → List Cached → Type 0
Older gone kept = All (λ (e : Cached). All (λ (x : Cached). e.mtime ≤ x.mtime) kept) gone

front : (P : Cached → Type 0) (xs ys : List Cached) → All P (xs ++ ys) → All P ys
front P [] ys h = h
front P (x ∷ xs) ys h = front P xs ys h.1

IsSorted-Older : (gone kept : List Cached) → IsSorted (gone ++ kept) → Older gone kept
IsSorted-Older [] kept h = tt
IsSorted-Older (e ∷ gone) kept (h, hs) =
    (front (λ (x : Cached). e.mtime ≤ x.mtime) gone kept h, IsSorted-Older gone kept hs)

-- The files that go, and those that stay.
remove_oldest-split :
    (max : ℕ) (es : List Cached) (d : Disk)
    → (gone kept : List Cached) × (es ≡ gone ++ kept)
      × (remove_oldest max (total_size es) es d ≡ remove_all gone d)
      × (total_size kept ≤ max)
      × Needed max (total_size es) gone
unfolding remove_oldest total_size
remove_oldest-split max [] d = ([], [], refl, refl, omega arith, tt)
remove_oldest-split max (e ∷ rest) d = elim (Bool-cases (leb (e.size + total_size rest) max)) [
  | inl fits ↦ ([], e ∷ rest, refl, rw fits refl, ground arith, tt)
  | inr over ↦
      let (gone, kept, split, run, small, needed) =
        remove_oldest-split max rest (Disk.remove_file d e.path).1 in
      let less : (e.size + total_size rest) - e.size ≡ total_size rest = omega arith in
      (e ∷ gone, kept, cc, rw (over, less) run, small, (ground arith, rw less needed))
]

-- Some of the files is at the path.
abbrev pub at_some : List Cached → Str → Bool
at_some [] path = false
at_some (e ∷ gone) path = (e.path == path) || at_some gone path

-- The disk has no file there, or refuses the path.
abbrev pub Removed : Disk → Str → Type 0
Removed d path = (Disk.exists d path ≡ false) ⊎ (d.refuses path ≡ true)

remove_file-Removed :
    (d : Disk) (gone path : Str) → Removed d path → Removed (Disk.remove_file d gone).1 path
unfolding Disk.remove_file Disk.exists
remove_file-Removed d gone path h = ground (arith, lookup-erase gone path d.files)

remove_file-Removed_self : (d : Disk) (path : Str) → Removed (Disk.remove_file d path).1 path
unfolding Disk.remove_file Disk.exists
remove_file-Removed_self d path = ground (arith, lookup-erase path path d.files, eq_iff path path)

remove_all-Removed :
    (gone : List Cached) (d : Disk) (path : Str) → Removed d path → Removed (remove_all gone d) path
remove_all-Removed [] d path h = h
remove_all-Removed (e ∷ gone) d path h =
    remove_all-Removed gone (Disk.remove_file d e.path).1 path (remove_file-Removed d e.path path h)

remove_all-gone :
    (gone : List Cached) (d : Disk) → All (λ (e : Cached). Removed (remove_all gone d) e.path) gone
remove_all-gone [] d = tt
remove_all-gone (e ∷ gone) d = (
  remove_all-Removed gone (Disk.remove_file d e.path).1 e.path (remove_file-Removed_self d e.path),
  remove_all-gone gone (Disk.remove_file d e.path).1,
)

remove_file-others :
    (d : Disk) (gone path : Str)
    → (gone == path) ≡ false
    → lookup path (Disk.remove_file d gone).1.files ≡ lookup path d.files
unfolding Disk.remove_file
remove_file-others d gone path h = ground (arith, lookup-erase gone path d.files)

remove_all-others :
    (gone : List Cached) (d : Disk) (path : Str)
    → (at_some gone path ≡ true) ⊎ (lookup path (remove_all gone d).files ≡ lookup path d.files)
remove_all-others [] d path = inr refl
remove_all-others (e ∷ gone) d path = elim (Bool-cases (e.path == path)) [
  | inl here ↦ inl (ground arith)
  | inr apart ↦ elim (remove_all-others gone (Disk.remove_file d e.path).1 path) [
    | inl later ↦ inl (ground arith)
    | inr same ↦ inr (same ∙ remove_file-others d e.path path apart)
  ]
]

-- An eviction tries files in the order of the times of their last change, and counts each of them
-- as removed, whether the disk refuses or not: a file that was tried is gone unless the disk refuses
-- its path, and what is at any other path stays. The files that are not tried take no more than is
-- allowed, each one was tried while what was left by that count took more, and no file that is tried
-- is younger than one that is not.
pub remove_oldest-Older :
    (max : ℕ) (es : List Cached) (d : Disk) (path : Str)
    → (gone kept : List Cached) × (sort_by_mtime es ≡ gone ++ kept)
      × All
          (λ (e : Cached). Removed (remove_oldest max (total_size es) (sort_by_mtime es) d) e.path)
          gone
      × ((at_some gone path ≡ true)
          ⊎ (lookup path (remove_oldest max (total_size es) (sort_by_mtime es) d).files
              ≡ lookup path d.files))
      × (total_size kept ≤ max)
      × Needed max (total_size es) gone
      × Older gone kept
remove_oldest-Older max es d path =
    let (gone, kept, split, run, small, needed) = remove_oldest-split max (sort_by_mtime es) d in
    let same = total_size-sort_by_mtime es in
    let ran : remove_oldest max (total_size es) (sort_by_mtime es) d ≡ remove_all gone d =
      rw (← same) run in
    (
      gone,
      kept,
      split,
      rw ran (remove_all-gone gone d),
      rw ran (remove_all-others gone d path),
      small,
      rw (← same) needed,
      IsSorted-Older gone kept (rw (← split) (sort_by_mtime-IsSorted es)),
    )

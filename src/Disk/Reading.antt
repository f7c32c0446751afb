-- ===== src/Disk/Reading.antt =====
-- What a file reads after a call that changed the disk.
use tummycrypt.Prelude.{
  ◌≡◌, ◌≢◌, refl, true, false, Option, none, some, Str, ◌==◌, eq_iff, if◌then◌else◌, arith,
  Option-cases, inl, inr,
}
use tummycrypt.Prelude.Dict.{lookup, erase, lookup-insert, lookup-erase}
use tummycrypt.Fallible.{Result, ok, err}
use tummycrypt.Disk
use tummycrypt.Disk.{Disk}

-- A write that succeeds is read back, and is seen at no other path.
pub write-reads :
    (d : Disk) (path content other : Str)
    → (Disk.write d path content).0 ≡ ok tt
    → Disk.read (Disk.write d path content).1 other
      ≡ (if path == other then ok content else Disk.read d other)
unfolding Disk.write Disk.read
write-reads d path content other h =
    ground (
      arith,
      lookup-insert path other (record { content = content; modified = some d.now }) d.files,
    )

pub read-exists :
    (d : Disk) (path old : Str) → Disk.read d path ≡ ok old → Disk.exists d path ≡ true
unfolding Disk.read Disk.exists
read-exists d path old h = ground arith

-- A write, whether it succeeds or not, is seen at no other path.
pub write-others :
    (d : Disk) (path content other : Str)
    → path ≢ other
    → Disk.read (Disk.write d path content).1 other ≡ Disk.read d other
unfolding Disk.write Disk.read
write-others d path content other apart = ground (
  arith,
  eq_iff path other,
  lookup-insert path other (record { content = content; modified = some d.now }) d.files,
)

left_at-others :
    (d : Disk) (path other : Str) (part : Option Str)
    → path ≢ other
    → Disk.read (Disk.left_at d path part) other ≡ Disk.read d other
unfolding Disk.left_at Disk.read
left_at-others d path other none apart = refl
left_at-others d path other (some part) apart = ground (
  arith,
  eq_iff path other,
  lookup-insert path other (record { content = part; modified = some d.now }) d.files,
)

pub copy-others :
    (d : Disk) (source target other : Str)
    → target ≢ other
    → Disk.read (Disk.copy d source target).1 other ≡ Disk.read d other
unfolding Disk.copy
copy-others d source target other apart = go (Disk.read d source) refl
  where
    go :
        (r : Result Str)
        → Disk.read d source ≡ r
        → Disk.read (Disk.copy d source target).1 other ≡ Disk.read d other
    go (ok content) q =
        rw (q, Disk.copy)
          (ground (
            arith,
            write-others d target content other apart,
            left_at-others d target other (d.leaves target) apart,
          ))
    go (err e) q = rw (q, Disk.copy) refl

-- A copy that succeeds has what the source had.
pub copy-reads :
    (d : Disk) (source target content : Str)
    → Disk.read d source ≡ ok content
    → (Disk.copy d source target).0 ≡ ok tt
    → Disk.read (Disk.copy d source target).1 target ≡ ok content
unfolding Disk.copy
copy-reads d source target content q h =
    ground (arith, write-reads d target content target, eq_iff target target)

-- A rename that succeeds has the content at its new path; it is seen at the two paths alone.
pub rename-reads :
    (d : Disk) (from to content : Str)
    → Disk.read d from ≡ ok content
    → (Disk.rename d from to).0 ≡ ok tt
    → Disk.read (Disk.rename d from to).1 to ≡ ok content
unfolding Disk.rename Disk.read
rename-reads d from to content q h = elim (Option-cases (lookup from d.files)) [
  | inl q ↦ absurd (ground arith)
  | inr (f, there) ↦ ground (arith, there, lookup-insert to to f (erase from d.files), eq_iff to to)
]

pub rename-others :
    (d : Disk) (from to other : Str)
    → from ≢ other
    → to ≢ other
    → Disk.read (Disk.rename d from to).1 other ≡ Disk.read d other
unfolding Disk.rename Disk.read
rename-others d from to other p q = elim (Option-cases (lookup from d.files)) [
  | inl q ↦ ground arith
  | inr (f, there) ↦ ground (
    arith,
    there,
    lookup-insert to other f (erase from d.files),
    lookup-erase from other d.files,
    eq_iff to other,
    eq_iff from other,
  )
]

pub rename-failed :
    (d : Disk) (from to : Str) → (Disk.rename d from to).0 ≢ ok tt → (Disk.rename d from to).1 ≡ d
unfolding Disk.rename
rename-failed d from to h = ground arith

-- A file that was removed is gone; the removal is seen at no other path.
pub remove_file-gone :
    (d : Disk) (path : Str)
    → (Disk.remove_file d path).0 ≡ ok tt
    → Disk.exists (Disk.remove_file d path).1 path ≡ false
unfolding Disk.remove_file Disk.exists
remove_file-gone d path h = elim (Option-cases (lookup path d.files)) [
  | inl q ↦ absurd (ground arith)
  | inr (f, there) ↦ ground (arith, there, lookup-erase path path d.files, eq_iff path path)
]

pub remove_file-others :
    (d : Disk) (path other : Str)
    → path ≢ other
    → Disk.read (Disk.remove_file d path).1 other ≡ Disk.read d other
unfolding Disk.remove_file Disk.read
remove_file-others d path other apart = elim (Option-cases (lookup path d.files)) [
  | inl q ↦ ground arith
  | inr (f, there) ↦ ground (arith, there, lookup-erase path other d.files, eq_iff path other)
]

pub remove_file-failed :
    (d : Disk) (path : Str) → (Disk.remove_file d path).0 ≢ ok tt → (Disk.remove_file d path).1 ≡ d
unfolding Disk.remove_file
remove_file-failed d path h = ground arith

pub write-answers :
    (d : Disk) (path content : Str) → d.refuses path ≡ false → (Disk.write d path content).0 ≡ ok tt
unfolding Disk.write
write-answers d path content may = rw may refl

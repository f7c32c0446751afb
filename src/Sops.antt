-- ===== src/Sops.antt =====
-- crates/tcfs-sops/src/diff.rs: what differs between the local and the remote secrets.
pub mod Backup
pub mod Sync
use tummycrypt.Prelude.{
  ℕ, ◌≡◌, ◌↔◌, refl, Bool, true, false, not, ◌||◌, Option, none, some, List, [], ◌∷◌, ◌++◌, Str,
  ◌==◌, eq_iff, find, any, All, Bool-cases, inl, inr, arith, if◌then◌else◌,
}
use tummycrypt.Prelude.Text.Lines.{is_empty}

pub record SopsEntry : Type 0 where
  pub relative_path : Str
  pub blake3_hash : Str
  pub machine_id : Str
  pub size_bytes : ℕ

pub record SopsDiff : Type 0 where
  pub local_only : List SopsEntry
  pub remote_only : List SopsEntry
  pub unchanged : List SopsEntry
  pub modified : List SopsEntry
  pub conflicts : List SopsEntry

abbrev pub no_diff : SopsDiff
no_diff = record {
  local_only = [];
  remote_only = [];
  unchanged = [];
  modified = [];
  conflicts = [];
}

abbrev pub remote_of : List SopsEntry → SopsEntry → Option SopsEntry
remote_of remote l = find (λ r. r.relative_path == l.relative_path) remote

-- The list that one local entry goes into.
abbrev pub sort_local : SopsDiff → SopsEntry → Option SopsEntry → SopsDiff
sort_local diff l none = record diff { local_only = diff.local_only ++ (l ∷ []) }
sort_local diff l (some r) =
    if l.blake3_hash == r.blake3_hash
    then record diff { unchanged = diff.unchanged ++ (l ∷ []) }
    else record diff { modified = diff.modified ++ (l ∷ []) }

-- The two loops.
unfoldable pub compute_local : List SopsEntry → SopsDiff → List SopsEntry → SopsDiff
compute_local remote diff [] = diff
compute_local remote diff (l ∷ local) =
    compute_local remote (sort_local diff l (remote_of remote l)) local

abbrev pub is_local : List SopsEntry → SopsEntry → Bool
is_local local r = any (λ l. l.relative_path == r.relative_path) local

unfoldable pub compute_remote : List SopsEntry → SopsDiff → List SopsEntry → SopsDiff
compute_remote local diff [] = diff
compute_remote local diff (r ∷ remote) =
    compute_remote local
      (if is_local local r
        then diff
        else record diff { remote_only = diff.remote_only ++ (r ∷ []) })
      remote

unfoldable pub compute : List SopsEntry → List SopsEntry → SopsDiff
compute local remote = compute_remote local (compute_local remote no_diff local) remote

unfoldable pub has_changes : SopsDiff → Bool
has_changes diff =
    not (is_empty diff.local_only)
    || (not (is_empty diff.remote_only)
        || (not (is_empty diff.modified) || not (is_empty diff.conflicts)))

-- One entry is the same on both sides, or known on this side.
abbrev pub IsSame : List SopsEntry → SopsEntry → Type 0
IsSame remote l = (r : SopsEntry) × (remote_of remote l ≡ some r) × (l.blake3_hash ≡ r.blake3_hash)

is_empty-snoc : {A : Type 0} (xs : List A) (x : A) → is_empty (xs ++ (x ∷ [])) ≡ false
is_empty-snoc [] x = refl
is_empty-snoc (y ∷ xs) x = refl

chain : {A B C R S : Type 0} → A ↔ (B × R) → B ↔ (C × S) → A ↔ (C × (S × R))
chain f g = (
  λ a. let (b, r) = f.0 a in let (c, s) = g.0 b in (c, (s, r)),
  λ x. f.1 (g.1 (x.0, x.1.0), x.1.1),
)

has_changes-step :
    (diff : SopsDiff) (r : SopsEntry) (known : Bool)
    → (has_changes
          (if known then diff else record diff { remote_only = diff.remote_only ++ (r ∷ []) })
        ≡ false)
      ↔ ((has_changes diff ≡ false) × (known ≡ true))
unfolding has_changes
has_changes-step diff r true = (λ h. (h, refl), λ h. h.0)
has_changes-step diff r false =
    (λ h. ground (arith, is_empty-snoc diff.remote_only r), λ h. absurd (cc (h.1)))

has_changes-remote :
    (local remote : List SopsEntry) (diff : SopsDiff)
    → (has_changes (compute_remote local diff remote) ≡ false)
      ↔ ((has_changes diff ≡ false) × All (λ r. is_local local r ≡ true) remote)
unfolding compute_remote
has_changes-remote local [] diff = (λ h. (h, tt), λ h. h.0)
has_changes-remote local (r ∷ remote) diff =
    chain (has_changes-remote local remote _) (has_changes-step diff r (is_local local r))

has_changes-sort_local :
    (diff : SopsDiff) (l : SopsEntry) (o : Option SopsEntry)
    → (has_changes (sort_local diff l o) ≡ false) ↔ (
        (has_changes diff ≡ false)
        × ((r : SopsEntry) × (o ≡ some r) × (l.blake3_hash ≡ r.blake3_hash)))
unfolding has_changes
has_changes-sort_local diff l none =
    (λ h. ground (arith, is_empty-snoc diff.local_only l), λ h. absurd (cc (h.1.1)))
has_changes-sort_local diff l (some r) = elim (Bool-cases (l.blake3_hash == r.blake3_hash)) [
  | inl same ↦ rw same (λ h. (h, (r, refl, (eq_iff l.blake3_hash r.blake3_hash).0 same)), λ h. h.0)
  | inr other ↦ rw other (
    λ h. ground (arith, is_empty-snoc diff.modified l),
    λ h.
        let e : r ≡ h.1.0 = cc (h.1.1) in
        let q : l.blake3_hash ≡ r.blake3_hash = rw e (h.1.2) in
        ground (arith, eq_iff l.blake3_hash r.blake3_hash),
  )
]

has_changes-local :
    (remote local : List SopsEntry) (diff : SopsDiff)
    → (has_changes (compute_local remote diff local) ≡ false)
      ↔ ((has_changes diff ≡ false) × All (IsSame remote) local)
unfolding compute_local
has_changes-local remote [] diff = (λ h. (h, tt), λ h. h.0)
has_changes-local remote (l ∷ local) diff =
    chain (has_changes-local remote local _) (has_changes-sort_local diff l (remote_of remote l))

no_changes : has_changes no_diff ≡ false
unfolding has_changes
no_changes = refl

-- The diff reports no change exactly when every local entry has the hash of the first remote
-- entry of its path, and every remote entry has a local one of its path.
pub has_changes-compute_iff :
    (local remote : List SopsEntry)
    → (has_changes (compute local remote) ≡ false)
      ↔ (All (IsSame remote) local × All (λ r. is_local local r ≡ true) remote)
unfolding compute
has_changes-compute_iff local remote =
    let (f, g) = has_changes-remote local remote (compute_local remote no_diff local) in
    let (h, k) = has_changes-local remote local no_diff in
    (λ e. ((h ((f e).0)).1, (f e).1), λ e. g (k (no_changes, e.0), e.1))

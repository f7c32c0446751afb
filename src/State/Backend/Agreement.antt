-- ===== src/State/Backend/Agreement.antt =====
-- The two caches behind `StateBackend` answer alike, and RocksDB holds what the memory holds.
use tummycrypt.Prelude.{
  ◌≡◌, ◌↔◌, refl, sym, ap, ◌∙◌, subst, true, Option, none, some, List, [], ◌∷◌, ◌++◌, Str, ◌==◌,
  eq_iff, arith, Bool-cases, inl, inr, Option-cases, All, All-map, if◌then◌else◌,
}
use tummycrypt.Prelude.Dict.{Dict, lookup, insert, erase, lookup-insert, lookup-erase}
use tummycrypt.Disk.{Disk}
use tummycrypt.State
use tummycrypt.State.{SyncState, Hasher, Iteration, path_key, is_at, find_at}
use tummycrypt.State.Cache.{find_at-given}
use tummycrypt.State.Rocks
use tummycrypt.State.Rocks.{Database, RocksDbStateCache, IsReliable}
use tummycrypt.State.Backend.{
  StateBackend, json, rocks, get, set, remove, entries, all_entries, get_by_rel_path, needs_sync,
  Change, setting, removing, apply,
}

-- The same state, or none, at every key.
abbrev pub IsSameMap : Dict SyncState → Dict SyncState → Type 0
IsSameMap m n = (k : Str) → lookup k m ≡ lookup k n

-- What an iteration gives: entries of the map, and each of them.
pub record Gives (es : List (Str × SyncState)) (m : Dict SyncState) : Type 0 where
  pub given_there : All (λ e. lookup e.0 m ≡ some e.1) es
  pub there_given :
      (k : Str) (s : SyncState)
      → lookup k m ≡ some s
      → (front back : List (Str × SyncState)) × (es ≡ front ++ ((k, s) ∷ back))

-- What was found is an entry of the map with this remote path.
abbrev pub IsFoundIn : Str → Dict SyncState → Option (Str × SyncState) → Type 0
IsFoundIn rel m none = Unit
IsFoundIn rel m (some (k, s)) = (lookup k m ≡ some s) × (is_at rel s ≡ true)

find_at-IsFoundIn :
    (rel : Str) (m : Dict SyncState) (es : List (Str × SyncState))
    → All (λ e. lookup e.0 m ≡ some e.1) es
    → IsFoundIn rel m (find_at rel es)
unfolding find_at
find_at-IsFoundIn rel m [] h = tt
find_at-IsFoundIn rel m ((k, s) ∷ es) (h, hs) = elim (Bool-cases (is_at rel s)) [
  | inl here ↦ rw here (h, here)
  | inr other ↦ rw other (find_at-IsFoundIn rel m es hs)
]

-- Nothing is found in the one order only.
find_at-none :
    (rel : Str) (m n : Dict SyncState) (es fs : List (Str × SyncState))
    → IsSameMap m n
    → Gives es m
    → Gives fs n
    → find_at rel fs ≡ none
    → find_at rel es ≡ none
find_at-none rel m n es fs same g h e = elim (Option-cases (find_at rel es)) [
  | inl gone ↦ gone
  | inr ((k, s), found) ↦
      let (there, at) = subst (IsFoundIn rel m) found (find_at-IsFoundIn rel m es g.given_there) in
      let (front, back, q) = h.there_given k s (sym (same k) ∙ there) in
      absurd (find_at-given rel k s front back at (ap (find_at rel) (sym q) ∙ e))
]

IsSameMap-insert :
    (m n : Dict SyncState) (k : Str) (s : SyncState)
    → IsSameMap m n
    → IsSameMap (insert k s m) (insert k s n)
IsSameMap-insert m n k s h j =
    lookup-insert k j s m
    ∙ ap (λ (o : Option SyncState). if k == j then some s else o) (h j)
    ∙ sym (lookup-insert k j s n)

IsSameMap-erase :
    (m n : Dict SyncState) (k : Str) → IsSameMap m n → IsSameMap (erase k m) (erase k n)
IsSameMap-erase m n k h j =
    lookup-erase k j m
    ∙ ap (λ (o : Option SyncState). if k == j then none else o) (h j)
    ∙ sym (lookup-erase k j n)

module _ {B : Database} (d : Disk) where
  entries-set :
      (b : StateBackend B) (p : Str) (s : SyncState)
      → entries (set d b p s) ≡ insert (path_key d p) s (entries b)
  unfolding set State.set Rocks.set
  entries-set (rocks c) p s = refl
  entries-set (json c) p s = refl

  entries-remove :
      (b : StateBackend B) (p : Str)
      → IsSameMap (entries (remove d b p)) (erase (path_key d p) (entries b))
  unfolding remove State.remove Rocks.remove
  entries-remove (rocks c) p k = refl
  entries-remove (json c) p k = elim (Option-cases (lookup (path_key d p) c.entries)) [
    | inl gone ↦ rw (gone, State.remove) refl
    | inr (s, there) ↦ rw (there, State.remove) refl
  ]

  entries-apply :
      (b c : StateBackend B) (changes : List Change)
      → IsSameMap (entries b) (entries c)
      → IsSameMap (entries (apply d b changes)) (entries (apply d c changes))
  unfolding apply
  entries-apply b c [] h = h
  entries-apply b c (setting p s ∷ changes) h =
      entries-apply (set d b p s) (set d c p s) changes (λ k.
        ap (lookup k) (entries-set b p s)
        ∙ IsSameMap-insert _ _ (path_key d p) s h k
        ∙ sym (ap (lookup k) (entries-set c p s)))
  entries-apply b c (removing p ∷ changes) h =
      entries-apply (remove d b p) (remove d c p) changes (λ k.
        entries-remove b p k ∙ IsSameMap-erase _ _ (path_key d p) h k ∙ sym (entries-remove c p k))

  -- Every question of the trait, asked of the entries alone.
  get-entries : (b : StateBackend B) (p : Str) → get d b p ≡ lookup (path_key d p) (entries b)
  unfolding get State.get Rocks.get
  get-entries (json c) p = refl
  get-entries (rocks c) p = refl

  needs_sync-entries :
      (h : Hasher) (b c : StateBackend B) (p : Str)
      → IsSameMap (entries b) (entries c)
      → needs_sync h d b p ≡ needs_sync h d c p
  unfolding needs_sync State.needs_sync Rocks.needs_sync State.get Rocks.get
  needs_sync-entries h (json c) (json e) p same = rw (same (path_key d p)) refl
  needs_sync-entries h (json c) (rocks e) p same = rw (same (path_key d p)) refl
  needs_sync-entries h (rocks c) (json e) p same = rw (same (path_key d p)) refl
  needs_sync-entries h (rocks c) (rocks e) p same = rw (same (path_key d p)) refl

  get_by_rel_path-entries :
      (iter : Iteration) (b : StateBackend B) (rel : Str)
      → get_by_rel_path iter b rel ≡ find_at rel (all_entries iter b)
  unfolding get_by_rel_path State.get_by_rel_path
  get_by_rel_path-entries iter (json c) rel = refl
  get_by_rel_path-entries iter (rocks c) rel = refl

  -- Two backends, in memory or in RocksDB, whose maps hold the same states at the same keys get the
  -- same changes, and each map then gives its entries in an order of its own. They give the same
  -- state and the same answer to `needs_sync` at every path. For a remote path, either finds an
  -- entry exactly if the other does; what it finds is at this remote path, and an entry of the
  -- other one's map too.
  pub apply-agrees :
      (h : Hasher) (b c : StateBackend B) (changes : List Change) (iter jter : Iteration)
      (p rel : Str)
      → IsSameMap (entries b) (entries c)
      → Gives (all_entries iter (apply d b changes)) (entries (apply d b changes))
      → Gives (all_entries jter (apply d c changes)) (entries (apply d c changes))
      → (get d (apply d b changes) p ≡ get d (apply d c changes) p)
        × (needs_sync h d (apply d b changes) p ≡ needs_sync h d (apply d c changes) p)
        × ((get_by_rel_path iter (apply d b changes) rel ≡ none)
            ↔ (get_by_rel_path jter (apply d c changes) rel ≡ none))
        × IsFoundIn rel (entries (apply d c changes)) (get_by_rel_path iter (apply d b changes) rel)
  apply-agrees h b c changes iter jter p rel e g k =
      let x = apply d b changes in
      let y = apply d c changes in
      let same : IsSameMap (entries x) (entries y) = entries-apply b c changes e in
      let left = get_by_rel_path-entries iter x rel in
      let right = get_by_rel_path-entries jter y rel in
      (
        get-entries x p ∙ same (path_key d p) ∙ sym (get-entries y p),
        needs_sync-entries h x y p same,
        (
          λ gone. right ∙ find_at-none rel _ _ _ _ (λ i. sym (same i)) k g (sym left ∙ gone),
          λ gone. left ∙ find_at-none rel _ _ _ _ same g k (sym right ∙ gone),
        ),
        subst (IsFoundIn rel (entries y)) (sym left) (
            find_at-IsFoundIn rel (entries y) (all_entries iter x)
              (All-map _ _ _ (λ i there. sym (same i.0) ∙ there) g.given_there)),
      )

  module _ (R : IsReliable B) where
    -- The database has at every key the text of the entry, and nothing where there is none.
    abbrev pub IsMirrored : StateBackend B → Type 0
    IsMirrored (json c) = Unit
    IsMirrored (rocks c) =
        (k : Str) → R.value c.db k ≡ elim (lookup k c.entries) [ some s ↦ B.print s | none ↦ none ]

    set-IsMirrored :
        (b : StateBackend B) (p : Str) (s : SyncState) → IsMirrored b → IsMirrored (set d b p s)
    unfolding set Rocks.set
    set-IsMirrored (json c) p s h = tt
    set-IsMirrored (rocks c) p s h = λ j.
        let k = path_key d p in
        let (text, e) = R.prints s in
        elim (Bool-cases (k == j)) [
          | inl here ↦
              let same : k ≡ j = (eq_iff k j).0 here in
              rw (lookup-insert k j s c.entries, here, e)
                (ap (R.value (B.put k text c.db)) (sym same) ∙ R.value-put_self k text c.db)
          | inr other ↦
              rw (lookup-insert k j s c.entries, other, e)
                (R.value-put_ne k text j c.db (λ q. ground (arith, eq_iff k j)) ∙ h j)
        ]

    remove-IsMirrored : (b : StateBackend B) (p : Str) → IsMirrored b → IsMirrored (remove d b p)
    unfolding remove Rocks.remove
    remove-IsMirrored (json c) p h = tt
    remove-IsMirrored (rocks c) p h = λ j.
        let k = path_key d p in
        elim (Bool-cases (k == j)) [
          | inl here ↦
              let same : k ≡ j = (eq_iff k j).0 here in
              rw (lookup-erase k j c.entries, here)
                (ap (R.value (B.delete k c.db)) (sym same) ∙ R.value-delete_self k c.db)
          | inr other ↦
              rw (lookup-erase k j c.entries, other)
                (R.value-delete_ne k j c.db (λ q. ground (arith, eq_iff k j)) ∙ h j)
        ]

    -- Over a database that does not fail, RocksDB has at every key the text of the entry in
    -- memory, after any changes through the trait, if it had before.
    pub apply-IsMirrored :
        (b : StateBackend B) (changes : List Change) → IsMirrored b → IsMirrored (apply d b changes)
    unfolding apply
    apply-IsMirrored b [] h = h
    apply-IsMirrored b (setting p s ∷ changes) h =
        apply-IsMirrored (set d b p s) changes (set-IsMirrored b p s h)
    apply-IsMirrored b (removing p ∷ changes) h =
        apply-IsMirrored (remove d b p) changes (remove-IsMirrored b p h)

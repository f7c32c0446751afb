-- ===== src/State/Cache.antt =====
-- The cache as a map from canonical paths.
use tummycrypt.Prelude.{
  ◌≡◌, ◌≢◌, refl, ◌↔◌, ◌⊎◌, inl, inr, true, none, some, [], ◌∷◌, ◌++◌, Str, ◌==◌, eq_iff,
  if◌then◌else◌, List, arith, Option-cases,
}
use tummycrypt.Prelude.Dict.{Dict, lookup, lookup-insert, lookup-erase}
use tummycrypt.Disk.{Disk}
use tummycrypt.State.{
  SyncState, StateCache, Iteration, path_key, get, set, remove, ends_with, is_at, find_at,
  get_by_rel_path,
}

-- After a `set` the path reads the new state, by whichever name the system gives it, and every
-- path with another canonical name reads what it read before.
pub get-set :
    (d : Disk) (c : StateCache) (p q : Str) (s : SyncState)
    → get d (set d c p s) q ≡ (if path_key d p == path_key d q then some s else get d c q)
unfolding get set
get-set d c p q s = lookup-insert (path_key d p) (path_key d q) s c.entries

-- After a `remove` the path reads nothing, every path with another canonical name reads what it
-- read before, and the cache is dirty exactly if it was or if an entry went.
pub get-remove :
    (d : Disk) (c : StateCache) (p q : Str)
    → (get d (remove d c p) q ≡ (if path_key d p == path_key d q then none else get d c q))
      × (((remove d c p).dirty ≡ true) ↔ ((c.dirty ≡ true) ⊎ (get d c p ≢ none)))
unfolding get remove
get-remove d c p q = elim (Option-cases (lookup (path_key d p) c.entries)) [
  | inl gone ↦
      rw (gone, remove)
        (
          lookup-erase (path_key d p) (path_key d q) c.entries,
          (λ h. inl h, λ h. elim h [ inl t ↦ t | inr f ↦ absurd (f refl) ]),
        )
  | inr (s, there) ↦
      rw (there, remove)
        (lookup-erase (path_key d p) (path_key d q) c.entries, (λ h. inr (λ e. cc), λ h. refl))
]

ends_with-append : (front suffix : Str) → ends_with (front ++ suffix) suffix ≡ true
unfolding ends_with
ends_with-append [] [] = ground (arith, eq_iff [] [])
ends_with-append [] (x ∷ s) = ground (arith, eq_iff (x ∷ s) (x ∷ s))
ends_with-append (x ∷ front) suffix = ground (arith, ends_with-append front suffix)

pub find_at-given :
    (rel_path k : Str) (s : SyncState) (front back : List (Str × SyncState))
    → is_at rel_path s ≡ true
    → find_at rel_path (front ++ ((k, s) ∷ back)) ≢ none
unfolding find_at
find_at-given rel_path k s [] back e = ground arith
find_at-given rel_path k s ((j, t) ∷ front) back e =
    ground (arith, find_at-given rel_path k s front back e)

-- In whatever order the map gives its entries, an entry that lies under some prefix at `rel_path`
-- is found by it, or one that is given before it.
pub get_by_rel_path-found :
    (iter : Iteration) (entries : Dict SyncState) (front : List (Str × SyncState))
    (k prefix rel_path : Str) (s : SyncState) (back : List (Str × SyncState))
    → iter entries ≡ front ++ ((k, s) ∷ back)
    → s.remote_path ≡ prefix ++ (b'/' ∷ rel_path)
    → get_by_rel_path iter entries rel_path ≢ none
unfolding get_by_rel_path is_at
get_by_rel_path-found iter entries front k prefix rel_path s back given e = rw given (
    find_at-given rel_path k s front back
      (ground (arith, ends_with-append prefix (b'/' ∷ rel_path))))

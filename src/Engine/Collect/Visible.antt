-- ===== src/Engine/Collect/Visible.antt =====
-- Which files a collection may contain.
use tummycrypt.Prelude.{
  ◌≡◌, ◌≢◌, refl, Bool, ◌&&◌, true, false, List, [], ◌∷◌, ◌++◌, Str, str, eq_iff, All, All-map,
  All-append, arith, Bool-cases, inl, inr, if◌then◌else◌,
}
use tummycrypt.Fallible.{ok, >>=-eq-ok}
use tummycrypt.Engine.Collect.{
  Node, Entries, end, denied, entry, file, other, dir, starts_with_dot, CollectConfig, Glob,
  considers, enters, with_slash, collect_files_inner, collect_files, sort, insert_sorted, path_le,
}

-- One component of a path: not empty, and with no separator in it.
abbrev pub IsComponent : Str → Type 0
IsComponent name = (name ≢ []) × All (λ c. c ≢ b'/') name

-- The names that a listing of a directory gives are single components.
abbrev mutual
  pub IsListing : Entries → Type 0
  IsListing end = Unit
  IsListing denied = Unit
  IsListing (entry name node rest) = IsComponent name × IsListed node × IsListing rest

  pub IsListed : Node → Type 0
  IsListed file = Unit
  IsListed other = Unit
  IsListed (dir children) = IsListing children

module _ (glob : Glob) (config : CollectConfig) where
  -- A directory that a collection may enter. Its name is one component.
  abbrev pub IsAllowed : Str → Type 0
  IsAllowed name =
      IsComponent name
      × (considers glob config name ≡ true)
      × (name ≢ str "target")
      × (name ≢ str "node_modules")
      × (name ≢ str ".DS_Store")
      × (name ≡ str ".git" → (config.sync_git_dirs ≡ true) × (config.git_sync_mode ≢ str "bundle"))
      × (starts_with_dot name ≡ true → name ≢ str ".git" → config.sync_hidden_dirs ≡ true)

  -- A path below a directory, through directories of these names.
  abbrev pub below : Str → List Str → Str
  below root [] = with_slash root
  below root (name ∷ names) = below (with_slash root ++ name) names

  abbrev pub IsVisible : Str → Str → Type 0
  IsVisible root path =
      (names : List Str) × (leaf : Str) × (path ≡ below root names ++ leaf)
      × All IsAllowed names
      × IsComponent leaf
      × (considers glob config leaf ≡ true)

  enters-IsAllowed :
      (name : Str) (children : Entries)
      → IsComponent name
      → considers glob config name ≡ true
      → enters glob config name children ≡ true
      → IsAllowed name
  unfolding enters
  enters-IsAllowed name children one c h = (
    one,
    c,
    (λ e. ground (arith, eq_iff name (str "target"))),
    (λ e. ground (arith, eq_iff name (str "node_modules"))),
    (λ e. ground (arith, eq_iff name (str ".DS_Store"))),
    (λ e. (
      ground (arith, eq_iff name (str ".git")),
      λ bundled.
          ground (arith, eq_iff name (str ".git"), eq_iff config.git_sync_mode (str "bundle")),
    )),
    λ dot e. ground (arith, eq_iff name (str ".git")),
  )

  -- One directory up.
  IsVisible-up :
      (root name path : Str)
      → IsAllowed name
      → IsVisible (with_slash root ++ name) path
      → IsVisible root path
  IsVisible-up root name path a (names, leaf, e, allowed, one, c) =
      (name ∷ names, leaf, e, (a, allowed), one, c)

  IsVisible-file :
      (root name : Str) (b : Bool) (below_it files : List Str)
      → IsComponent name
      → considers glob config name ≡ b
      → All (IsVisible root) below_it
      → (if b then (with_slash root ++ name) ∷ below_it else below_it) ≡ files
      → All (IsVisible root) files
  IsVisible-file root name true below_it files one c h e =
      rw (← e) (([], name, refl, tt, one, c), h)
  IsVisible-file root name false below_it files one c h e = rw (← e) h

  collect_files_inner-IsVisible :
      (root : Str) (tree : Entries) (files : List Str)
      → IsListing tree
      → collect_files_inner glob config root tree ≡ ok files
      → All (IsVisible root) files
  unfolding collect_files_inner
  collect_files_inner-IsVisible root end files l h = let e : [] ≡ files = cc in rw (← e) tt
  collect_files_inner-IsVisible root denied files l h = absurd (cc h)
  collect_files_inner-IsVisible root (entry name other rest) files (one, l, ls) h =
      collect_files_inner-IsVisible root rest files ls h
  collect_files_inner-IsVisible root (entry name file rest) files (one, l, ls) h =
      let (later, e, q) = >>=-eq-ok (collect_files_inner glob config root rest) h in
      IsVisible-file root name (considers glob config name) later files one refl
        (collect_files_inner-IsVisible root rest later ls e) (cc)
  collect_files_inner-IsVisible root (entry name (dir children) rest) files (one, l, ls) h =
      let into = with_slash root ++ name in
      elim (Bool-cases (considers glob config name && enters glob config name children)) [
        | inr passed ↦ collect_files_inner-IsVisible root rest files ls (rw passed at h)
        | inl entered ↦
            let a = enters-IsAllowed name children one (ground arith) (ground arith) in
            let (deep, e, q) =
              >>=-eq-ok (collect_files_inner glob config into children) (rw entered at h) in
            let (later, f, p) = >>=-eq-ok (collect_files_inner glob config root rest) q in
            let same : deep ++ later ≡ files = cc in
            rw (← same) (
              All-append (IsVisible root) deep later
                (All-map (IsVisible into) (IsVisible root) deep (λ x. IsVisible-up root name x a)
                  (collect_files_inner-IsVisible into children deep l e))
                (collect_files_inner-IsVisible root rest later ls f))
      ]

  insert_sorted-All :
      (P : Str → Type 0) (p : Str) (paths : List Str)
      → P p
      → All P paths
      → All P (insert_sorted p paths)
  unfolding insert_sorted
  insert_sorted-All P p [] h hs = (h, tt)
  insert_sorted-All P p (q ∷ paths) h hs = elim (Bool-cases (path_le p q)) [
    | inl first ↦ rw first (h, hs)
    | inr later ↦ rw later (hs.0, insert_sorted-All P p paths h hs.1)
  ]

  sort-All : (P : Str → Type 0) (paths : List Str) → All P paths → All P (sort paths)
  unfolding sort
  sort-All P [] h = tt
  sort-All P (p ∷ paths) h = insert_sorted-All P p (sort paths) h.0 (sort-All P paths h.1)

  -- Where a listing gives single components for names, every file of a collection lies below the
  -- root in directories that may be entered: none is excluded by a pattern, none is "target",
  -- "node_modules" or ".DS_Store", none is ".git" unless these are synced and not as bundles, and no
  -- other begins with a dot unless hidden ones are synced; and its own name is not excluded.
  pub collect_files-IsVisible :
      (root : Str) (tree : Entries) (files : List Str)
      → IsListing tree
      → collect_files glob config root tree ≡ ok files
      → All (IsVisible root) files
  unfolding collect_files
  collect_files-IsVisible root tree files l h =
      let (found, e, q) = >>=-eq-ok (collect_files_inner glob config root tree) h in
      let same : sort found ≡ files = cc in
      rw (← same)
        (sort-All (IsVisible root) found (collect_files_inner-IsVisible root tree found l e))

-- ===== src/Remote/Keys.antt =====
-- The keys of manifests and of chunks are told apart.
use tummycrypt.Prelude.{ℕ, arith, ap, ◌≡◌, ◌≢◌, [], ◌∷◌, ◌++◌, Str, str, append-cancel_left}
use tummycrypt.Remote.{manifest_key, chunk_key, index_key}

-- The first letter behind the separator, by which the keys differ.
abbrev letter : Str → ℕ
letter [] = 0
letter (x ∷ []) = 0
letter (x ∷ y ∷ s) = y

pub chunk_key-injective : (p h g : Str) → chunk_key p h ≡ chunk_key p g → h ≡ g
chunk_key-injective p h g e =
    append-cancel_left (str "/chunks/") h g
      (append-cancel_left p (str "/chunks/" ++ h) (str "/chunks/" ++ g) e)

pub manifest_key-injective : (p h g : Str) → manifest_key p h ≡ manifest_key p g → h ≡ g
manifest_key-injective p h g e =
    append-cancel_left (str "/manifests/") h g
      (append-cancel_left p (str "/manifests/" ++ h) (str "/manifests/" ++ g) e)

pub chunk_key-ne-manifest_key : (p h g : Str) → chunk_key p h ≢ manifest_key p g
chunk_key-ne-manifest_key p h g e =
    omega (arith, ap letter (append-cancel_left p (str "/chunks/" ++ h) (str "/manifests/" ++ g) e))

pub index_key-ne-manifest_key : (p h g : Str) → index_key p h ≢ manifest_key p g
index_key-ne-manifest_key p h g e =
    omega (arith, ap letter (append-cancel_left p (str "/index/" ++ h) (str "/manifests/" ++ g) e))

pub index_key-ne-chunk_key : (p h g : Str) → index_key p h ≢ chunk_key p g
index_key-ne-chunk_key p h g e =
    omega (arith, ap letter (append-cancel_left p (str "/index/" ++ h) (str "/chunks/" ++ g) e))

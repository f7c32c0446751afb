-- ===== src/Remote.antt =====
-- The object store behind `opendal::Operator`, which is a parameter, and the keys that the engine
-- uses in it.
pub mod Keys
use tummycrypt.Prelude.{
  ◌≡◌, ◌≢◌, ◌⊎◌, Bool, Option, none, some, ◌++◌, Str, str, ◌==◌, if◌then◌else◌,
}
use tummycrypt.Prelude.Dict.{has}
use tummycrypt.Fallible.{Result, ok}
use tummycrypt.Exec.{Exec}

-- Every request may change the state of the connection and of the store, and may fail.
pub record Operator : Type 1 where
  pub State : Type 0
  pub exists : Str → Exec State Bool
  pub read : Str → Exec State Str
  pub write : Str → Str → Exec State (Unit {0})

-- The store behind the requests, `object`, and what an answer says of it. A write that fails may
-- have reached the store or not; no request touches another object.
pub record IsLawful (O : Operator) : Type 0 where
  pub object : O.State → Str → Option Str
  pub object-exists : (s : O.State) (k j : Str) → object (O.exists k s).1 j ≡ object s j
  pub exists-ok :
      (s : O.State) (k : Str) (b : Bool) → (O.exists k s).0 ≡ ok b → b ≡ has (object s k)
  pub object-read : (s : O.State) (k j : Str) → object (O.read k s).1 j ≡ object s j
  pub read-ok : (s : O.State) (k v : Str) → (O.read k s).0 ≡ ok v → object s k ≡ some v
  pub object-write_ne :
      (s : O.State) (k v j : Str) → k ≢ j → object (O.write k v s).1 j ≡ object s j
  pub object-write_self :
      (s : O.State) (k v : Str)
      → (object (O.write k v s).1 k ≡ some v) ⊎ (object (O.write k v s).1 k ≡ object s k)
  pub object-write_ok :
      (s : O.State) (k v : Str) → (O.write k v s).0 ≡ ok tt → object (O.write k v s).1 k ≡ some v

-- A store that answers every request.
pub record IsReliable (O : Operator) (L : IsLawful O) : Type 0 where
  pub exists-answers : (s : O.State) (k : Str) → (O.exists k s).0 ≡ ok (has (L.object s k))
  pub read-answers : (s : O.State) (k v : Str) → L.object s k ≡ some v → (O.read k s).0 ≡ ok v
  pub write-answers : (s : O.State) (k v : Str) → (O.write k v s).0 ≡ ok tt

-- `{prefix}/manifests/{hash}` and `{prefix}/chunks/{hash}`
abbrev pub manifest_key : Str → Str → Str
manifest_key prefix hash = prefix ++ (str "/manifests/" ++ hash)

abbrev pub chunk_key : Str → Str → Str
chunk_key prefix hash = prefix ++ (str "/chunks/" ++ hash)

abbrev pub index_key : Str → Str → Str
index_key prefix rel_path = prefix ++ (str "/index/" ++ rel_path)

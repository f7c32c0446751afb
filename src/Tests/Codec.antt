-- ===== src/Tests/Codec.antt =====
-- A codec that knows one manifest, and other small parameters.
use native.Mathlib.Decide.{ℕ_discrete}
use tummycrypt.Prelude.{
  ◌-◌, ◌/◌, ◌≡◌, refl, sym, ap, true, Option, none, some, [], ◌∷◌, ◌++◌, Str, str, ◌==◌, eq_refl,
  if◌then◌else◌, arith, length, drop,
}
use tummycrypt.Prelude.Text.Utf8.{is_utf8}
use tummycrypt.Prelude.Dict.{Dict}
use tummycrypt.Chunks.{Blake3, IsHexLawful, FastCdc, IsTiling}
use tummycrypt.Crypto
use tummycrypt.Crypto.{Aead}
use tummycrypt.Engine.{Base64}
use tummycrypt.State
use tummycrypt.State.{SyncState, StateJson}
use tummycrypt.Manifest
use tummycrypt.Manifest.{SyncManifest, ManifestJson}

unfoldable pub manifest_discrete : Discrete SyncManifest
manifest_discrete = hlevel ℕ_discrete

-- The text "{" for the one manifest.
abbrev pub one_json : SyncManifest → ManifestJson
one_json only = record {
  parse = λ s. if s == str "{" then some only else none;
  print = λ m. elim (manifest_discrete m only) [ yes _ ↦ some (str "{") | no _ ↦ none ];
}

pub one_json-IsLawful : (only : SyncManifest) → Manifest.IsLawful (one_json only)
unfolding is_utf8
one_json-IsLawful only = record {
  print-is_utf8 = λ m s e. go_utf8 m s (manifest_discrete m only) e;
  parse-print = λ m s e. go m s (manifest_discrete m only) e;
}
  where
    printed : (m : SyncManifest) → Dec (m ≡ only) → Option Str
    printed m d = elim d [ yes _ ↦ some (str "{") | no _ ↦ none ]

    go_utf8 :
        (m : SyncManifest) (s : Str) (d : Dec (m ≡ only)) → printed m d ≡ some s → is_utf8 s ≡ true
    go_utf8 m s (yes p) e = let same : str "{" ≡ s = cc e in rw (← same) refl
    go_utf8 m s (no p) e = absurd (cc e)

    go :
        (m : SyncManifest) (s : Str) (d : Dec (m ≡ only))
        → printed m d ≡ some s
        → (if s == str "{" then some only else none) ≡ some m
    go m s (yes p) e = let same : str "{" ≡ s = cc e in rw (← same, eq_refl) (ap some (sym p))
    go m s (no p) e = absurd (cc e)

-- The text "{}" for one map of entries.
unfoldable pub entries_discrete : Discrete (Dict SyncState)
entries_discrete = hlevel ℕ_discrete

abbrev pub one_map : Dict SyncState → StateJson
one_map only = record {
  parse = λ s. if s == str "{}" then some only else none;
  print = λ m. elim (entries_discrete m only) [ yes _ ↦ some (str "{}") | no _ ↦ none ];
}

pub one_map-IsLawful : (only : Dict SyncState) → State.IsLawful (one_map only)
unfolding is_utf8
one_map-IsLawful only = record {
  print-is_utf8 = λ m s e. go_utf8 m s (entries_discrete m only) e;
  parse-print = λ m s e. go m s (entries_discrete m only) e;
}
  where
    printed : (m : Dict SyncState) → Dec (m ≡ only) → Option Str
    printed m d = elim d [ yes _ ↦ some (str "{}") | no _ ↦ none ]

    go_utf8 :
        (m : Dict SyncState) (s : Str) (d : Dec (m ≡ only))
        → printed m d ≡ some s
        → is_utf8 s ≡ true
    go_utf8 m s (yes p) e = let same : str "{}" ≡ s = cc e in rw (← same) refl
    go_utf8 m s (no p) e = absurd (cc e)

    go :
        (m : Dict SyncState) (s : Str) (d : Dec (m ≡ only))
        → printed m d ≡ some s
        → (if s == str "{}" then some only else none) ≡ some m
    go m s (yes p) e = let same : str "{}" ≡ s = cc e in rw (← same, eq_refl) (ap some (sym p))
    go m s (no p) e = absurd (cc e)

-- Digests are the bytes themselves, and their hex form has a letter in front.
abbrev pub plain_hash : Blake3
plain_hash = record {
  hash = λ s. s;
  to_hex = λ d. b'h' ∷ d;
  from_hex = λ s. elim s [ [] ↦ none | c ∷ d ↦ some d ];
}

pub plain_hash-IsHexLawful : IsHexLawful plain_hash
plain_hash-IsHexLawful = record { from_hex-to_hex = λ d. refl; to_hex-is_empty = λ d. refl }

-- Two halves.
abbrev pub halves : FastCdc
halves = record { cuts = λ s _. let n = length s in (0, n / 2) ∷ (n / 2, n - n / 2) ∷ [] }

pub halves-IsTiling : IsTiling halves
halves-IsTiling = record { tiles = λ s _. (refl, (omega arith, omega arith)) }

-- A cipher that adds a tag of sixteen zeros, and nothing else.
abbrev pub tag : Str
tag = 0 ∷ 0 ∷ 0 ∷ 0 ∷ 0 ∷ 0 ∷ 0 ∷ 0 ∷ 0 ∷ 0 ∷ 0 ∷ 0 ∷ 0 ∷ 0 ∷ 0 ∷ 0 ∷ []

abbrev pub tagged : Aead
tagged = record {
  seal = λ key nonce msg aad. some (tag ++ msg);
  unseal = λ key nonce c aad. some (drop 16 c);
}

pub tagged-IsLawful : Crypto.IsLawful tagged
tagged-IsLawful = record {
  unseal-seal = λ key nonce msg aad c e. let same : tag ++ msg ≡ c = cc e in rw (← same) refl;
  length-seal =
      λ key nonce msg aad c e. let same : tag ++ msg ≡ c = cc e in rw (← same) (omega arith);
}

abbrev pub plain64 : Base64
plain64 = record { encode = λ s. s; decode = λ s. some s }

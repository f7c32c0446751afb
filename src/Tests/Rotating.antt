-- ===== src/Tests/Rotating.antt =====
-- The rotation of some credentials, the cleanup of their backups, an encrypted name, a registry in
-- a store, and a scan of secrets.
use native.Mathlib.Decide.{ℕ_discrete}
use tummycrypt.Prelude.{
  sym, ap, ◌∙◌, ◌≡◌, ◌⊎◌, refl, Bool, true, false, Option, none, some, [], ◌∷◌, ◌++◌, Str, str,
  ◌==◌, eq_iff, eq_refl, arith, if◌then◌else◌,
}
use tummycrypt.Prelude.Dict.{lookup, insert, erase}
use tummycrypt.Prelude.Text.Decimal.{to_string, digits}
use tummycrypt.Prelude.Text.FilePath.{parent, file_name, with_extension}
use tummycrypt.Prelude.Text.Utf8.{is_utf8}
use tummycrypt.Fallible.{ok, sops_failed}
use tummycrypt.Exec
use tummycrypt.Disk
use tummycrypt.Disk.{Disk, ReadDir, DirEntry}
use tummycrypt.Secrets.Rotate.{
  Yaml, IsLawful, SopsProgram, RotationResult, Rotation, backup_of, tmp_of, atomic_replace,
  strip_sops, set_keys, build_rotated_yaml, sops_encrypt, prepare, signal, replace,
  rotate_s3_credentials,
}
use tummycrypt.Secrets.Rotate.Atomic.{rotate-failed}
use tummycrypt.Secrets.Rotate.Succeeding.{rotate-ok, build_rotated_yaml-get}

-- A library that knows two texts, each for one document.
data Doc : Type 0 where
  scalar : Str → Doc
  done : Doc
  field : Str → Doc → Doc → Doc

unfoldable doc_discrete : Discrete Doc
doc_discrete = hlevel ℕ_discrete

abbrev is_mapping : Doc → Bool
is_mapping (scalar s) = false
is_mapping done = true
is_mapping (field k v rest) = is_mapping rest

unfoldable get_field : Str → Doc → Option Doc
get_field j (scalar s) = none
get_field j done = none
get_field j (field k v rest) = if k == j then some v else get_field j rest

unfoldable remove_field : Str → Doc → Doc
remove_field j (scalar s) = scalar s
remove_field j done = done
remove_field j (field k v rest) =
    let more = remove_field j rest in if k == j then more else field k v more

abbrev old_doc : Doc
old_doc = field (str "sops") (scalar (str "x")) (field (str "endpoint") (scalar (str "e")) done)

abbrev new_doc : Doc
new_doc = field (str "secret_access_key") (scalar (str "s")) (
    field (str "access_key_id") (scalar (str "a")) (field (str "endpoint") (scalar (str "e")) done))

abbrev yaml : Yaml
yaml = record {
  Value = Doc;
  from_str =
      λ s. if s == str "old" then some old_doc else if s == str "plain" then some new_doc else none;
  to_string = λ v. elim (doc_discrete v new_doc) [ yes _ ↦ some (str "plain") | no _ ↦ none ];
  text = scalar;
  is_mapping = is_mapping;
  get = get_field;
  remove = remove_field;
  insert = λ k w v. field k w (remove_field k v);
}

remove_field-is_mapping :
    (k : Str) (v : Doc) → is_mapping v ≡ true → is_mapping (remove_field k v) ≡ true
unfolding remove_field
remove_field-is_mapping k (scalar s) h = h
remove_field-is_mapping k done h = h
remove_field-is_mapping k (field j v rest) h = ground (arith, remove_field-is_mapping k rest h)

get_field-remove_field :
    (j k : Str) (v : Doc)
    → get_field j (remove_field k v) ≡ (if k == j then none else get_field j v)
unfolding remove_field get_field
get_field-remove_field j k (scalar s) = ground arith
get_field-remove_field j k done = ground arith
get_field-remove_field j k (field i v rest) =
    ground (arith, get_field-remove_field j k rest, eq_iff k j, eq_iff i j, eq_iff i k)

yaml-IsLawful : IsLawful yaml
unfolding get_field ◌==◌
yaml-IsLawful = record {
  from_str-to_string = λ v s e. go v s (doc_discrete v new_doc) e;
  remove-is_mapping = remove_field-is_mapping;
  insert-is_mapping = λ k w v h. remove_field-is_mapping k v h;
  get-remove_self = λ k v h. get_field-remove_field k k v ∙ rw eq_refl refl;
  get-remove_ne = λ j k v h apart. ground (arith, get_field-remove_field j k v, eq_iff k j);
  get-insert_self = λ k w v h. rw eq_refl refl;
  get-insert_ne = λ j k w v h apart. ground (arith, get_field-remove_field j k v, eq_iff k j);
}
  where
    go :
        (v : Doc) (s : Str) (d : Dec (v ≡ new_doc))
        → elim d [ yes _ ↦ some (str "plain") | no _ ↦ none ] ≡ some s
        → (if s == str "old" then some old_doc else if s == str "plain" then some new_doc else none)
          ≡ some v
    go v s (yes p) e = let same : str "plain" ≡ s = cc e in rw (← same) (ap some (sym p))
    go v s (no p) e = absurd (cc e)

unfoldable program : Unit {0}
unfolding Exec.◌>>=◌ rotate_s3_credentials prepare replace signal atomic_replace sops_encrypt
    build_rotated_yaml strip_sops set_keys lookup insert erase to_string digits parent file_name
    with_extension is_utf8 Disk.read Disk.write Disk.rename Disk.exists Disk.copy ◌==◌ doc_discrete
    get_field remove_field ℕ_discrete
program = tt

abbrev sops : SopsProgram
sops dir plaintext = some (str "sealed " ++ plaintext)

abbrev broken : SopsProgram
broken dir plaintext = none

abbrev creds : Str
creds = str "/e/creds.yaml"

abbrev start : Rotation
start = record {
  disk = record {
    files = (creds, record { content = str "old"; modified = some 7 }) ∷ [];
    refuses = λ _. false;
    hides = λ _. false;
    leaves = λ _. none;
    canonical = λ p. some p;
    now = 9;
  };
  sent = [];
}

backup-creds : backup_of creds 9 ≡ str "/e/creds.yaml.bak.9"
unfolding program
backup-creds = refl

tmp-creds : tmp_of creds ≡ str "/e/.creds.yaml.tmp"
unfolding program
tmp-creds = refl

rotate-failed_example :
    (Disk.read (rotate_s3_credentials yaml broken creds (str "a") (str "s") true start).1.disk creds
      ≡ Disk.read start.disk creds)
    × ((rotate_s3_credentials yaml broken creds (str "a") (str "s") true start).1.sent ≡ [])
unfolding program
rotate-failed_example =
    rotate-failed yaml broken creds (str "a") (str "s") true start {e = sops_failed} (λ e. cc e)
      (λ e. cc e) refl

abbrev rotated : RotationResult
rotated = record { path = creds; rotated_at = 9; backup_created = true }

rotate-ok_example :
    let after = (rotate_s3_credentials yaml sops creds (str "a") (str "s") true start).1 in
    (plaintext : Str) × (encrypted : Str) × (build_rotated_yaml yaml sops
        (str "old")
        (str "a")
        (str "s")
      ≡ ok plaintext)
    × (sops_encrypt yaml sops plaintext creds ≡ ok encrypted)
    × (Disk.read after.disk creds ≡ ok encrypted)
    × ((rotated.backup_created ≡ false)
        ⊎ (Disk.read after.disk (backup_of creds 9) ≡ ok (str "old")))
    × (after.sent ≡ 9 ∷ [])
unfolding program
rotate-ok_example =
    rotate-ok yaml sops creds (str "a") (str "s") (str "old") true start rotated (λ e. cc e)
      (λ e. cc e) refl refl

build_rotated_yaml-get_example :
    (new : Doc) × (yaml.from_str (str "plain") ≡ some new)
    × (get_field (str "endpoint") new ≡ some (scalar (str "e")))
unfolding program
build_rotated_yaml-get_example =
    build_rotated_yaml-get yaml sops yaml-IsLawful (str "old") (str "a") (str "s") (str "endpoint")
      old_doc {plaintext = str "plain"} refl refl refl

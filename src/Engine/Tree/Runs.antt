-- ===== src/Engine/Tree/Runs.antt =====
-- What a push of a directory does, whatever uploads fail.
use tummycrypt.Prelude.{ℕ, suc, ◌+◌, ◌≤◌, ◌≡◌, refl, List, [], ◌∷◌, Str, arith, length, ap, ◌∙◌}
use tummycrypt.Fallible.{Result, ok, err}
use tummycrypt.Exec.{pure, attempt, ◌>>=◌}
use tummycrypt.Exec.Inversion.{>>=-ok}
use tummycrypt.Manifest
use tummycrypt.Remote.{IsLawful, index_key}
use tummycrypt.Engine.{Deps, Session, UploadResult}
use tummycrypt.Engine.Upload.{upload_file_with_device}
use tummycrypt.Engine.Tree.{
  TreeArgs, Stats, upload_args, on_uploaded, push_files, remote_path_prefix, rel_path_of,
  index_entry, count,
}
use tummycrypt.Engine.Consistency.{IsConsistent, Extends-index, Runs}
use tummycrypt.Engine.Consistency.Rules.{Anything, Runs-pure, Runs-bind, Runs-attempt, Runs-write}
use tummycrypt.Engine.Consistency.Upload.{upload-Good}

module _ (D : Deps) (tree : TreeArgs) where
  open D use {op}
  open tree use {remote_prefix}

  -- What was counted, and how many files.
  answers-on_uploaded :
      (path : Str) (t : Stats) (r : Result UploadResult) (st : Session op)
      → (u : Stats) × ((on_uploaded D tree path t r st).0 ≡ ok u)
        × (u.uploaded + u.skipped ≤ t.uploaded + t.skipped + 1)
  unfolding on_uploaded pure attempt ◌>>=◌
  answers-on_uploaded path t (err e) st = (t, refl, omega arith)
  answers-on_uploaded path t (ok r) st = (count t r, refl, ground arith)

  -- A push goes through all files whatever fails: it gives its statistics, in which uploads and
  -- skips together grow by at most one for each file.
  pub answers-push_files :
      (i : ℕ) (files : List Str) (t : Stats) (st : Session op)
      → (u : Stats) × ((push_files D tree i files t st).0 ≡ ok u)
        × (u.uploaded + u.skipped ≤ t.uploaded + t.skipped + length files)
  unfolding push_files pure attempt
  answers-push_files i [] t st = (t, refl, omega arith)
  answers-push_files i (path ∷ files) t st =
      let run = upload_file_with_device D (upload_args D tree i path) st in
      let (v, e, h) = answers-on_uploaded path t run.0 run.1 in
      let (u, f, k) =
        answers-push_files (suc i) files v (on_uploaded D tree path t run.0 run.1).1 in
      (
        u,
        ap (λ (x : Result Stats × Session op). x.0)
              (>>=-ok _ _ st {a = run.0} refl ∙ >>=-ok _ _ run.1 e)
            ∙ f,
        omega arith,
      )

  module _ (L : IsLawful op) (law : Manifest.IsLawful D.json) where
    abbrev prefix : Str
    prefix = remote_path_prefix remote_prefix

    on_uploaded-Good :
        (path : Str) (t : Stats) (r : Result UploadResult) (st : Session op)
        → Runs D L prefix
            (λ _. Unit)
            (Anything D L prefix (λ _. Unit))
            (on_uploaded D tree path t r)
            st
    unfolding on_uploaded
    on_uploaded-Good path t (err e) st = Runs-pure D L prefix (λ _. Unit) _ st tt
    on_uploaded-Good path t (ok r) st =
        let k = rel_path_of tree.local_root path in
        let text = index_entry r.hash r.bytes r.chunks in
        Runs-bind D L prefix (λ _. Unit) _ _ st
          (Runs-attempt D L prefix (λ _. Unit) _ st
            (Runs-write D L prefix (λ _. Unit) (index_key prefix k) text st
              (Extends-index D L prefix (λ _. Unit) k st.remote _
                (L.object-write_ne st.remote (index_key prefix k) text))))
          (λ a u _ _. Runs-pure D L prefix (λ _. Unit) _ u tt)

    push_files-Good :
        (i : ℕ) (files : List Str) (t : Stats) (st : Session op)
        → Runs D L prefix
            (λ _. Unit)
            (Anything D L prefix (λ _. Unit))
            (push_files D tree i files t)
            st
    unfolding push_files
    push_files-Good i [] t st = Runs-pure D L prefix (λ _. Unit) t st tt
    push_files-Good i (path ∷ files) t st =
        Runs-bind D L prefix (λ _. Unit) _ _ st
          (Runs-attempt D L prefix (λ _. Unit) _ st
            (upload-Good D L law (upload_args D tree i path) (λ _. Unit) tt st))
          (λ r u _ _.
            Runs-bind D L prefix (λ _. Unit) _ _ u (on_uploaded-Good path t r u)
              (λ v w _ _. push_files-Good (suc i) files v w))

    -- Over a lawful store and with a codec that reads back the manifests it prints, the loop over
    -- a directory keeps the store consistent, whichever uploads and index entries fail on the
    -- way.
    pub push_files-IsConsistent :
        (i : ℕ) (files : List Str) (t : Stats) (st : Session op)
        → IsConsistent D L prefix st.remote
        → IsConsistent D L prefix (push_files D tree i files t st).1.remote
    push_files-IsConsistent i files t st = (push_files-Good i files t st).extends.keeps

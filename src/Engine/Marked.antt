-- ===== src/Engine/Marked.antt =====
-- crates/tcfs-sync/src/engine.rs: the mark on the state cache of what is not saved yet.
use tummycrypt.Prelude.{ℕ, suc, ◌≡◌, ◌⊎◌, true, Option, none, some, List, [], ◌∷◌, Str, arith}
use tummycrypt.Fallible.{Result, ok, err}
use tummycrypt.Exec.{modify}
use tummycrypt.Exec.Inversion.{
  Keeps, Keeps-bind, Keeps-pure, Keeps-lift, Keeps-context, Keeps-attempt, Keeps-gets, Keeps-if,
}
use tummycrypt.Chunks.{Chunk}
use tummycrypt.Manifest.{SyncManifest}
use tummycrypt.Conflict.{VectorClock, SyncOutcome, remote_newer, conflict, up_to_date, local_newer}
use tummycrypt.State.{StateCache, Reason, set}
use tummycrypt.Engine.{Deps, Session, UploadArgs, UploadResult}
use tummycrypt.Engine.Upload.{
  Prepared, Decision, finished, proceed, request, exists_or_false, record_state, act, on_manifest,
  on_read, check_remote, check_stored, put_chunk, upload_chunks, store, finish, upload_changed,
  on_needed, upload_file_with_device,
}
use tummycrypt.Engine.Tree.{TreeArgs, Stats, upload_args, on_uploaded, push_files}

-- The first cache, or a dirty one for the same file.
abbrev pub Marked : StateCache → StateCache → Type 0
Marked c x = (x ≡ c) ⊎ ((x.dirty ≡ true) × (x.db_path ≡ c.db_path))

module _ (D : Deps) (c : StateCache) where
  open D use {op}

  abbrev pub At : Session op → Type 0
  At st = Marked c st.cache

  At-request : {A : Type 0} (f : op.State → Result A × op.State) → Keeps At (request D f)
  unfolding request
  At-request f st h = h

  module _ (args : UploadArgs) where
    At-exists_or_false : (key : Str) → Keeps At (exists_or_false D key)
    unfolding exists_or_false
    At-exists_or_false key =
        Keeps-bind At _ (Keeps-attempt At _ (At-request _)) _ (λ r. Keeps-pure At _)

    At-record_state : (p : Prepared) (v : VectorClock) → Keeps At (record_state D args p v)
    unfolding record_state modify set
    At-record_state p v = Keeps-bind At _ (Keeps-lift At _) _ (λ s st h. ground arith)

    At-act :
        (p : Prepared) (v : VectorClock) (m : SyncManifest) (o : SyncOutcome)
        → Keeps At (act D args p v m o)
    unfolding act
    At-act p v m remote_newer = Keeps-pure At _
    At-act p v m (conflict info) = Keeps-pure At _
    At-act p v m up_to_date = Keeps-bind At _ (At-record_state p v) _ (λ u. Keeps-pure At _)
    At-act p v m local_newer = Keeps-pure At _

    At-on_manifest :
        (p : Prepared) (v : VectorClock) (r : Result SyncManifest)
        → Keeps At (on_manifest D args p v r)
    unfolding on_manifest
    At-on_manifest p v (err e) = Keeps-pure At _
    At-on_manifest p v (ok m) = At-act p v m _

    At-on_read : (p : Prepared) (v : VectorClock) (r : Result Str) → Keeps At (on_read D args p v r)
    unfolding on_read
    At-on_read p v (err e) = Keeps-pure At _
    At-on_read p v (ok bytes) = At-on_manifest p v _

    At-check_remote : (p : Prepared) (v : VectorClock) → Keeps At (check_remote D args p v)
    unfolding check_remote
    At-check_remote p v = Keeps-if At _ _ _ (Keeps-pure At _) (
        Keeps-bind At _ (At-exists_or_false _) _ (λ found.
          Keeps-if At found _ _
            (Keeps-bind At _ (Keeps-attempt At _ (At-request _)) _ (λ r. At-on_read p v r))
            (Keeps-pure At _)))

    At-check_stored :
        (p : Prepared) (v : VectorClock) (o : Option SyncOutcome)
        → Keeps At (check_stored D args p v o)
    unfolding check_stored
    At-check_stored p v (some o) = Keeps-pure At _
    At-check_stored p v none = Keeps-bind At _ (At-exists_or_false _) _ (λ found. Keeps-pure At _)

    At-put_chunk : (hash stored : Str) → Keeps At (put_chunk D args hash stored)
    unfolding put_chunk
    At-put_chunk hash stored =
        Keeps-bind At _ (At-exists_or_false _) _
          (λ found. Keeps-if At found _ _ (Keeps-pure At _) (Keeps-context At _ _ (At-request _)))

    At-upload_chunks :
        (keys : Option (Str × Str)) (bytes : Str) (i : ℕ) (chunks : List Chunk)
        → Keeps At (upload_chunks D args keys bytes i chunks)
    unfolding upload_chunks
    At-upload_chunks keys bytes i [] = Keeps-pure At _
    At-upload_chunks keys bytes i (x ∷ chunks) = Keeps-bind At _ (Keeps-lift At _) _ (λ e.
        Keeps-bind At _ (At-put_chunk e.1 e.0) _ (λ u.
          Keeps-bind At _ (At-upload_chunks keys bytes (suc i) chunks) _
            (λ hashes. Keeps-pure At _)))

    At-store :
        (p : Prepared) (v : VectorClock) (o : Option SyncOutcome) → Keeps At (store D args p v o)
    unfolding store
    At-store p v o = Keeps-bind At _ (Keeps-lift At _) _ (λ keys.
        Keeps-bind At _ (At-upload_chunks keys _ 0 _) _ (λ hashes.
          Keeps-bind At _ (Keeps-lift At _) _ (λ wrapped.
            Keeps-bind At _ (Keeps-lift At _) _ (λ bytes.
              Keeps-bind At _ (Keeps-context At _ _ (At-request _)) _
                (λ u. Keeps-bind At _ (At-record_state p v) _ (λ w. Keeps-pure At _))))))

    At-finish : (p : Prepared) (d : Decision) → Keeps At (finish D args p d)
    unfolding finish
    At-finish p (finished r) = Keeps-pure At _
    At-finish p (proceed v o) = Keeps-bind At _ (At-check_stored p v o) _ (λ stored.
        Keeps-if At stored _ _ (Keeps-bind At _ (At-record_state p v) _ (λ u. Keeps-pure At _))
          (At-store p _ o))

    At-on_needed : (needed : Option Reason) → Keeps At (on_needed D args needed)
    unfolding on_needed upload_changed
    At-on_needed none = Keeps-bind At _ (Keeps-gets At _) _ (λ r. Keeps-lift At r)
    At-on_needed (some reason) = Keeps-bind At _ (Keeps-lift At _) _ (λ p.
        Keeps-bind At _ (Keeps-gets At _) _
          (λ cached. Keeps-bind At _ (At-check_remote p _) _ (λ d. At-finish p d)))

    -- However an upload ends, it leaves the cache as it was or marked.
    pub Keeps-upload : Keeps At (upload_file_with_device D args)
    unfolding upload_file_with_device
    Keeps-upload =
        Keeps-bind At _ (Keeps-gets At _) _
          (λ needed. Keeps-bind At _ (Keeps-lift At _) _ (λ reason. At-on_needed reason))

  module _ (tree : TreeArgs) where
    At-on_uploaded :
        (path : Str) (t : Stats) (r : Result UploadResult) → Keeps At (on_uploaded D tree path t r)
    unfolding on_uploaded
    At-on_uploaded path t (err e) = Keeps-pure At _
    At-on_uploaded path t (ok r) =
        Keeps-bind At _ (Keeps-attempt At _ (At-request _)) _ (λ u. Keeps-pure At _)

    pub Keeps-push_files :
        (i : ℕ) (files : List Str) (t : Stats) → Keeps At (push_files D tree i files t)
    unfolding push_files
    Keeps-push_files i [] t = Keeps-pure At _
    Keeps-push_files i (path ∷ files) t =
        Keeps-bind At _ (Keeps-attempt At _ (Keeps-upload (upload_args D tree i path))) _ (λ r.
          Keeps-bind At _ (At-on_uploaded path t r) _ (λ next. Keeps-push_files (suc i) files next))

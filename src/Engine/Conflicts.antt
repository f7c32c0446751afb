-- ===== src/Engine/Conflicts.antt =====
-- When an upload reports a conflict: a manifest stands under the hash of the content, so the
-- manifest that an upload compares with has the content that it uploads.
use tummycrypt.Prelude.{
  ◌≡◌, refl, sym, ◌∙◌, ap, ◌⊎◌, inl, inr, Bool, true, false, Option, none, some, Str, ℕ, eq_refl,
  if◌then◌else◌, arith,
}
use tummycrypt.Prelude.Text.Lines.{is_empty}
use tummycrypt.Fallible.{Result, ok, err}
use tummycrypt.Exec.{pure, lift, gets, attempt, ◌>>=◌}
use tummycrypt.Exec.Inversion.{>>=-eq-ok}
use tummycrypt.Manifest.{SyncManifest, from_bytes}
use tummycrypt.Conflict.{VectorClock, SyncOutcome, up_to_date, compare_clocks}
use tummycrypt.State
use tummycrypt.State.{Reason}
use tummycrypt.Remote.{IsLawful, manifest_key}
use tummycrypt.Engine.{Deps, Session, UploadArgs, UploadResult}
use tummycrypt.Engine.Upload.{
  Prepared, Decision, finished, proceed, Run, request, exists_or_false, unchanged, result,
  record_state, act, outcome_of, on_manifest, on_read, check_remote, store, ticked, finish,
  upload_changed, on_needed, upload_file_with_device,
}
use tummycrypt.Engine.Consistency.{IsAddressed}
use tummycrypt.Engine.Consistency.Rules.{Runs-exists}

-- No conflict, and neither side newer.
abbrev pub IsQuiet : Option SyncOutcome → Type 0
IsQuiet o = (o ≡ none) ⊎ (o ≡ some up_to_date)

abbrev QuietDecision : Decision → Type 0
QuietDecision (finished r) = IsQuiet r.outcome
QuietDecision (proceed v o) = o ≡ none

compare_clocks-same :
    (now : ℕ) (a b : VectorClock) (h rel da db : Str)
    → compare_clocks now a b h h rel da db ≡ up_to_date
unfolding compare_clocks
compare_clocks-same now a b h rel da db = rw (eq_refl h)

module _ (D : Deps) (L : IsLawful D.op) (args : UploadArgs) where
  open D use {op, json}
  open args use {device_id, remote_prefix}

  act-Quiet :
      (p : Prepared) (v : VectorClock) (m : SyncManifest) (st : Session op) {d : Decision}
      → (act D args p v m up_to_date st).0 ≡ ok d
      → QuietDecision d
  unfolding act pure
  act-Quiet p v m st {d} h =
      let (_, _, _, h1) = >>=-eq-ok _ _ st h in
      let same : finished (result D args p true (some up_to_date)) ≡ d = cc in
      rw (← same) (inr refl)

  on_read-Quiet :
      (p : Prepared) (v : VectorClock) (r : Result Str) (st : Session op) {d : Decision}
      → ((bytes : Str) (m : SyncManifest)
          → r ≡ ok bytes
          → from_bytes json bytes ≡ ok m
          → p.hash ≡ m.file_hash)
      → (on_read D args p v r st).0 ≡ ok d
      → QuietDecision d
  unfolding on_read on_manifest pure
  on_read-Quiet p v (err e) st {d} same h = let q : proceed v none ≡ d = cc in rw (← q) refl
  on_read-Quiet p v (ok bytes) st {d} same h = go (from_bytes json bytes) refl h
    where
      go :
          (r : Result SyncManifest)
          → from_bytes json bytes ≡ r
          → (on_manifest D args p v r st).0 ≡ ok d
          → QuietDecision d
      go (err e) q k = let z : proceed v none ≡ d = cc in rw (← z) refl
      go (ok m) q k =
          let z : outcome_of D args p v m ≡ up_to_date =
            rw (← same bytes m refl q) (compare_clocks-same _ _ _ _ _ _ _) in
          act-Quiet p v m st (rw z at k)

  asked-Quiet :
      (p : Prepared) (v : VectorClock) (found : Bool) (st : Session op) {d : Decision}
      → IsAddressed D L remote_prefix st.remote
      → ((if found
            then (attempt (request D (op.read (manifest_key remote_prefix p.hash))) >>= λ read.
                on_read D args p v read)
            else pure (proceed v none))
          st).0
        ≡ ok d
      → QuietDecision d
  unfolding pure attempt request
  asked-Quiet p v false st {d} good h = let z : proceed v none ≡ d = cc in rw (← z) refl
  asked-Quiet p v true st {d} good h =
      let k = manifest_key remote_prefix p.hash in
      let (r, e, _, h1) = >>=-eq-ok _ _ st h in
      on_read-Quiet p v r _
        (λ bytes m q parsed. sym (good p.hash bytes m (L.read-ok st.remote k bytes (cc)) parsed)) h1

  check_remote-Quiet :
      (p : Prepared) (v : VectorClock) (st : Session op) {d : Decision}
      → IsAddressed D L remote_prefix st.remote
      → (check_remote D args p v st).0 ≡ ok d
      → QuietDecision d
  unfolding check_remote pure
  check_remote-Quiet p v st {d} good h = go (is_empty device_id) refl h
    where
      ask : Run D Decision
      ask = exists_or_false D (manifest_key remote_prefix p.hash) >>= λ found.
          if found
          then (attempt (request D (op.read (manifest_key remote_prefix p.hash))) >>= λ read.
              on_read D args p v read)
          else pure (proceed v none)

      go :
          (b : Bool)
          → is_empty device_id ≡ b
          → ((if b then pure (proceed v none) else ask) st).0 ≡ ok d
          → QuietDecision d
      go true e k = let z : proceed v none ≡ d = cc in rw (← z) refl
      go false e k =
          let (found, e1, _, h1) = >>=-eq-ok _ _ st k in
          asked-Quiet p v found _
            ((Runs-exists D L remote_prefix (λ _. Unit) (manifest_key remote_prefix p.hash)
                st).extends.addresses
              good)
            h1

  outcome-store :
      (p : Prepared) (v : VectorClock) (o : Option SyncOutcome) (st : Session op) {r : UploadResult}
      → (store D args p v o st).0 ≡ ok r
      → o ≡ r.outcome
  unfolding store pure
  outcome-store p v o st {r} h =
      let (_, _, _, h1) = >>=-eq-ok _ _ st h in
      let (_, _, _, h2) = >>=-eq-ok _ _ _ h1 in
      let (_, _, _, h3) = >>=-eq-ok _ _ _ h2 in
      let (_, _, _, h4) = >>=-eq-ok _ _ _ h3 in
      let (_, _, _, h5) = >>=-eq-ok _ _ _ h4 in
      let (_, _, _, h6) = >>=-eq-ok _ _ _ h5 in
      let same : result D args p false o ≡ r = cc in ap (λ (x : UploadResult). x.outcome) same

  finish_stored-Quiet :
      (p : Prepared) (v : VectorClock) (o : Option SyncOutcome) (stored : Bool) (st : Session op)
      {r : UploadResult}
      → o ≡ none
      → ((if stored
            then (record_state D args p v >>= λ _. pure (result D args p false none))
            else store D args p (ticked D args v) o)
          st).0
        ≡ ok r
      → IsQuiet r.outcome
  unfolding pure
  finish_stored-Quiet p v o true st {r} q h =
      let (_, _, _, h1) = >>=-eq-ok _ _ st h in
      let same : result D args p false none ≡ r = cc in
      inl (sym (ap (λ (x : UploadResult). x.outcome) same))
  finish_stored-Quiet p v o false st {r} q h =
      inl (sym (outcome-store p (ticked D args v) o st h) ∙ q)

  finish-Quiet :
      (p : Prepared) (d : Decision) (st : Session op) {r : UploadResult}
      → QuietDecision d
      → (finish D args p d st).0 ≡ ok r
      → IsQuiet r.outcome
  unfolding finish pure
  finish-Quiet p (finished x) st {r} q h = let z : x ≡ r = cc in rw (← z) q
  finish-Quiet p (proceed v o) st {r} q h =
      let (stored, _, _, h1) = >>=-eq-ok _ _ st h in finish_stored-Quiet p v o stored _ q h1

  upload_changed-Quiet :
      (st : Session op) {r : UploadResult}
      → IsAddressed D L remote_prefix st.remote
      → (upload_changed D args st).0 ≡ ok r
      → IsQuiet r.outcome
  unfolding upload_changed lift gets
  upload_changed-Quiet st {r} good h =
      let (p, _, _, h1) = >>=-eq-ok _ _ st h in
      let (cached, _, _, h2) = >>=-eq-ok _ _ _ h1 in
      let (d, e, _, h3) = >>=-eq-ok _ _ _ h2 in
      finish-Quiet p d _ (check_remote-Quiet p _ st good e) h3

  unchanged-Quiet :
      (c : State.StateCache) {r : UploadResult} → unchanged D args c ≡ ok r → IsQuiet r.outcome
  unchanged-Quiet c {r} h = ground arith

  on_needed-Quiet :
      (reason : Option Reason) (st : Session op) {r : UploadResult}
      → IsAddressed D L remote_prefix st.remote
      → (on_needed D args reason st).0 ≡ ok r
      → IsQuiet r.outcome
  unfolding on_needed lift gets
  on_needed-Quiet (some reason) st {r} good h = upload_changed-Quiet st good h
  on_needed-Quiet none st {r} good h =
      let (x, e, _, h1) = >>=-eq-ok _ _ st h in unchanged-Quiet st.cache {r = r} (cc)

  -- Over a lawful store in which every manifest states the hash under which it stands, an upload
  -- that succeeds never reports a conflict, nor that one side is newer, whatever the clocks and
  -- the device: its outcome is none, or up to date.
  pub upload-IsQuiet :
      (st : Session op) {r : UploadResult}
      → IsAddressed D L remote_prefix st.remote
      → (upload_file_with_device D args st).0 ≡ ok r
      → IsQuiet r.outcome
  unfolding upload_file_with_device lift gets
  upload-IsQuiet st {r} good h =
      let (needed, _, _, h1) = >>=-eq-ok _ _ st h in
      let (reason, _, _, h2) = >>=-eq-ok _ _ _ h1 in on_needed-Quiet reason st good h2

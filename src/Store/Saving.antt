-- ===== src/Store/Saving.antt =====
-- What saveLocked leaves in memory and on the disk.
use frp_cluster.Base.{◌≡◌, ◌≢◌, ◌⊎◌, inl, inr, refl, ap, ◌∙◌, none, some, [], Bool-cases}
use frp_cluster.Text.{text_differs, text_eq}
use frp_cluster.Types.{ClusterState}
use frp_cluster.Requests.{Error, Result, ok, err}
use frp_cluster.Store.{
  SaveOutcome, saved, mkdir_fails, encode_fails, write_fails, rename_fails, Env, Store, save_file,
  save_locked, then_return, save_and_return, commit,
}

state-save_file : (o : SaveOutcome) (s : Store) → (save_file o s).1.state ≡ s.state
unfolding save_file
state-save_file saved s = refl
state-save_file mkdir_fails s = refl
state-save_file encode_fails s = refl
state-save_file write_fails s = refl
state-save_file rename_fails s = refl

state-save_locked : (env : Env) (s : Store) → (save_locked env s).1.state ≡ s.state
unfolding save_locked
state-save_locked env s = elim (Bool-cases (text_eq s.path [])) [
  | inl e ↦ rw e refl
  | inr e ↦ rw e (state-save_file env.saving s)
]

store-then_return : {A : Type 0} (a : A) (r : Result (Unit {0}) × Store) → (then_return a r).1 ≡ r.1
unfolding then_return
store-then_return a (ok _, s) = refl
store-then_return a (err e, s) = refl

result-then_return :
    {A : Type 0} (a : A) (r : Result (Unit {0}) × Store) → r.0 ≡ ok tt → (then_return a r).0 ≡ ok a
unfolding then_return
result-then_return a (ok _, s) h = refl
result-then_return a (err e, s) h = absurd (cc h)

-- the save went well
abbrev pub Saves : ClusterState → Env → Store → Type 0
Saves state env s = (save_locked env (record s { state = state })).0 ≡ ok tt

-- The memory has the new state, whether or not it could be saved.
pub state-commit :
    {A : Type 0} (a : A) (state : ClusterState) (env : Env) (s : Store)
    → (commit a state env s).1.state ≡ state
unfolding commit save_and_return
state-commit a state env s =
    ap (λ (t : Store). t.state) (store-then_return a (save_locked env (record s { state = state })))
    ∙ state-save_locked env (record s { state = state })

pub result-commit :
    {A : Type 0} (a : A) (state : ClusterState) (env : Env) (s : Store)
    → Saves state env s
    → (commit a state env s).0 ≡ ok a
unfolding commit save_and_return
result-commit a state env s h =
    result-then_return a (save_locked env (record s { state = state })) h

-- the file holds the whole new state, with no temporary file left
abbrev pub IsWritten : Result (Unit {0}) → Store → Store → Type 0
IsWritten r s t = (r ≡ ok tt) × (t.disk.file ≡ some s.state) × (t.disk.tmp ≡ none)

-- an error, and the file is as it was
abbrev pub IsUntouched : Result (Unit {0}) → Store → Store → Type 0
IsUntouched r s t = ((e : Error) × (r ≡ err e)) × (t.disk.file ≡ s.disk.file)

save_file-cases :
    (o : SaveOutcome) (s : Store)
    → IsWritten (save_file o s).0 s (save_file o s).1
      ⊎ IsUntouched (save_file o s).0 s (save_file o s).1
unfolding save_file
save_file-cases saved s = inl (refl, refl, refl)
save_file-cases mkdir_fails s = inr ((_, refl), refl)
save_file-cases encode_fails s = inr ((_, refl), refl)
save_file-cases write_fails s = inr ((_, refl), refl)
save_file-cases rename_fails s = inr ((_, refl), refl)

-- Saving is atomic: however its steps on the disk go, either it returns no error and the state
-- file holds the whole state in memory, or it returns an error and the state file still holds
-- what it held. The state in memory never changes. (A store with a path; one without is kept in
-- memory only.)
pub save_locked_atomic :
    (env : Env) (s : Store)
    → s.path ≢ []
    → ((save_locked env s).1.state ≡ s.state)
      × (IsWritten (save_locked env s).0 s (save_locked env s).1
          ⊎ IsUntouched (save_locked env s).0 s (save_locked env s).1)
unfolding save_locked
save_locked_atomic env s h =
    (state-save_locked env s, rw (text_differs s.path [] h) (save_file-cases env.saving s))

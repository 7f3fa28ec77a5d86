-- ===== src/Boot/Snapshots.antt =====
-- `snapshot`, `backup list` and `backup restore` of ar724/cli.py, on files as values. A date is a
-- number; sqlite3's `.backup` is taken to copy the database or to fail.
use ztrade_ares_7x.Base.{
  ◌==◌, if◌then◌else◌, ℕ, ◌≡◌, sym, ◌∙◌, ap, Bool, true, false, Option, none, some, List, [], ◌∷◌,
  map, arith,
}
use ztrade_ares_7x.Base.Result.{Result, called_process_error, err, ok}

-- .ares/state.db, and the files of .ares/snapshots by their dates
pub record Ares (A : Type 0) : Type 0 where
  pub state_db : Option A
  pub snapshots : List (ℕ × A)

abbrev pub copy_of : {A : Type 0} → (date : ℕ) → List (ℕ × A) → Option A
copy_of date [] = none
copy_of date ((d, a) ∷ rest) = let later = copy_of date rest in if d == date then some a else later

abbrev pub put_copy : {A : Type 0} → (date : ℕ) → A → List (ℕ × A) → List (ℕ × A)
put_copy date a [] = (date, a) ∷ []
put_copy date a ((d, old) ∷ rest) =
    if d == date then (d, a) ∷ rest else (d, old) ∷ put_copy date a rest

abbrev pub snapshot_found :
    {A : Type 0} → (today : ℕ) (succeeds : Bool) → Ares A → Option A → Result (Option (Ares A))
snapshot_found today succeeds p none = ok none
snapshot_found today succeeds p (some db) =
    if succeeds
    then ok (some (record p { snapshots = put_copy today db p.snapshots }))
    else err called_process_error

-- `ok none` is the exit with status 1; the directory of the snapshots is made where it is missing
unfoldable pub snapshot :
    {A : Type 0} → (today : ℕ) (succeeds : Bool) → Ares A → Result (Option (Ares A))
snapshot today succeeds p = snapshot_found today succeeds p p.state_db

abbrev pub restore_found : {A : Type 0} → Ares A → Option A → Option (Ares A)
restore_found p none = none
restore_found p (some copy) = some (record p { state_db = some copy })

-- `none` is the exit with status 1
unfoldable pub backup_restore : {A : Type 0} → (date : ℕ) → Ares A → Option (Ares A)
backup_restore date p = restore_found p (copy_of date p.snapshots)

unfoldable pub backup_list : {A : Type 0} → Ares A → List ℕ
backup_list p = map (λ s. s.0) p.snapshots

copy_of-put :
    {A : Type 0} (date : ℕ) (a : A) (copies : List (ℕ × A))
    → copy_of date (put_copy date a copies) ≡ some a
copy_of-put date a [] = ground arith
copy_of-put date a ((d, old) ∷ rest) = ground (arith, copy_of-put date a rest)

snapshot_found-copy :
    {A : Type 0} (today : ℕ) (succeeds : Bool) (p : Ares A) (o : Option A) {q : Ares A}
    → snapshot_found today succeeds p o ≡ ok (some q)
    → copy_of today q.snapshots ≡ o
snapshot_found-copy today succeeds p none h = absurd cc
snapshot_found-copy today true p (some db) {q} h =
    let same : record p { snapshots = put_copy today db p.snapshots } ≡ q = cc h in
    ap (λ x. copy_of today x.snapshots) (sym same) ∙ copy_of-put today db p.snapshots
snapshot_found-copy today false p (some db) h = absurd cc

-- A snapshot that succeeds is what a restore of its date brings back, whatever the database has
-- become by then, unless the snapshots have changed.
backup_restore-snapshot :
    {A : Type 0} (today : ℕ) (succeeds : Bool) (p q later : Ares A) (db : A)
    → p.state_db ≡ some db
    → snapshot today succeeds p ≡ ok (some q)
    → later.snapshots ≡ q.snapshots
    → backup_restore today later ≡ some (record later { state_db = some db })
unfolding snapshot backup_restore
backup_restore-snapshot today succeeds p q later db e h same =
    let found = snapshot_found-copy today succeeds p p.state_db h in
    ap (restore_found later) (ap (copy_of today) same ∙ found ∙ e)

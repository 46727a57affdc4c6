-- ===== src/Tests/Database.antt =====
-- A database of two tables for one client: the rows that are committed, those of the transaction,
-- the connections that other transactions hold, whether the transaction is live, and whether
-- commits fail. Then the Postgres storage over it.
use agreements_generator_api.Prelude.{
  ℕ, ◌+◌, String, ◌≡◌, refl, sym, ap, ◌∙◌, Bool, true, false, Option, none, some, arith, eq_iff,
  inl,
}
use mathlib.Core.Path.{subst}
use agreements_generator_api.Effect.{Result, ok, fail, Proc}
use agreements_generator_api.Prelude.Dict.{lookup, lookup-insert}
use agreements_generator_api.Domain.Errors.{Err, foreign, no_rows, pg_error}
use agreements_generator_api.Domain.Generator.{JobStatus, status_text}
use agreements_generator_api.Storage.Postgres.Effects.{IsServer, IsUpdated, MayExecute, with_job}
use agreements_generator_api.Storage.Postgres.{
  Pool, Statement, insert_archive, insert_job, update_status, insert_input_archive, delete_old_jobs,
}
use agreements_generator_api.Storage.Postgres.Database.{
  IsDatabase, Tables, ArchiveRow, with_archive, archive_row,
}

abbrev pub Db : Type 0
Db = Tables × Tables × ℕ × Bool × Bool

abbrev pub begin : Proc Db (Unit {0})
begin (rows, work, n, true, broken) = (ok tt, (rows, rows, n + 1, true, broken))
begin (rows, work, n, false, broken) = (ok tt, (rows, rows, n, true, broken))

-- The two tables have unique keys.
abbrev duplicate : Err
duplicate = pg_error "23505" "duplicate key"

abbrev inserted : String → ArchiveRow → Option ArchiveRow → Proc Db ℕ
inserted id row none (rows, work, n, live, broken) =
    (ok 1, (rows, with_archive id row work, n, live, broken))
inserted id row (some old) d = (fail duplicate, d)

abbrev created : String → JobStatus → Option JobStatus → Proc Db ℕ
created id status none (rows, work, n, live, broken) =
    (ok 1, (with_job id status rows, work, n, live, broken))
created id status (some old) d = (fail duplicate, d)

abbrev with_status : String → JobStatus → Option JobStatus → Tables → Tables
with_status id status none rows = rows
with_status id status (some old) rows = with_job id status rows

with_status-IsUpdated :
    (id : String) (status : JobStatus) (o : Option JobStatus) (rows : Tables)
    → lookup id rows.jobs ≡ o
    → IsUpdated id status rows (with_status id status o rows)
with_status-IsUpdated id status none rows h = (refl, λ j. ground (arith, h, eq_iff id j))
with_status-IsUpdated id status (some old) rows h =
    (refl, λ j. ground (arith, h, eq_iff id j, lookup-insert id j status rows.jobs))

abbrev pub execute : Statement → Proc Db ℕ
execute (insert_job id status user_id) d = created id status (lookup id d.0.jobs) d
execute (update_status status time id) (rows, work, n, live, broken) =
    (ok 1, (with_status id status (lookup id rows.jobs) rows, work, n, live, broken))
execute _ d = (ok 1, d)

abbrev pub run : Unit {0} → Statement → Proc Db ℕ
run tx (insert_archive id archive count errors fatal) (rows, work, n, live, broken) =
    inserted id
      (record {
        archive = archive;
        gen_count = count;
        gen_errors = errors;
        fatal_gen_error = fatal;
      })
      (lookup id work.archives) (rows, work, n, live, broken)
run tx (delete_old_jobs ttl) d = (fail (foreign "deadlock"), d)
run tx _ d = (ok 0, d)

abbrev pub commit : Unit {0} → Proc Db (Unit {0})
commit tx (rows, work, n, false, broken) =
    (fail (foreign "tx is closed"), (rows, work, n, false, broken))
commit tx (rows, work, n, true, false) = (ok tt, (work, work, n, false, false))
commit tx (rows, work, n, true, true) =
    (fail (foreign "connection lost"), (rows, work, n, false, true))

abbrev pub rollback : Unit {0} → Proc Db (Unit {0})
rollback tx (rows, work, n, true, broken) = (ok tt, (rows, rows, n, false, broken))
rollback tx (rows, work, n, false, broken) =
    (fail (foreign "tx is closed"), (rows, work, n, false, broken))

abbrev pub found {ℓ} : {A : Type ℓ} → Option A → Result A
found none = fail no_rows
found (some a) = ok a

abbrev map_status : Option JobStatus → Option String
map_status none = none
map_status (some status) = some (status_text status)

abbrev pub pool : Pool Db (Unit {0})
pool = record {
  begin = begin;
  tx_exec = run;
  commit = commit;
  rollback = rollback;
  exec = execute;
  select_archive = λ id d. (found (archive_row id d.0), d);
  select_info = λ id d. (fail no_rows, d);
  select_status = λ id d. (found (map_status (lookup id d.0.jobs)), d);
  insert_user = λ u d. (ok 1, d);
  select_user = λ login d. (fail no_rows, d);
  time_now = λ d. 0;
}

abbrev pub held : Db → ℕ
held (rows, work, n, true, broken) = n + 1
held (rows, work, n, false, broken) = n

pub begin-ok :
    (d d' : Db) (tx : Unit {0})
    → begin d ≡ (ok tx, d')
    → (d'.0 ≡ d.0) × (held d' ≡ held d + 1) × (d'.3 ≡ true)
begin-ok (rows, work, n, true, broken) d' tx h =
    (sym (ap (λ p. p.1.0) h), sym (ap (λ p. held p.1) h), sym (ap (λ p. p.1.3) h))
begin-ok (rows, work, n, false, broken) d' tx h =
    (sym (ap (λ p. p.1.0) h), sym (ap (λ p. held p.1) h), sym (ap (λ p. p.1.3) h))

pub begin-fail : (d d' : Db) (e : Err) → begin d ≡ (fail e, d') → (d'.0 ≡ d.0) × (held d' ≡ held d)
begin-fail (rows, work, n, true, broken) d' e h = ground arith
begin-fail (rows, work, n, false, broken) d' e h = ground arith

inserted-keeps :
    (id : String) (row : ArchiveRow) (o : Option ArchiveRow) (d : Db)
    → let d' = (inserted id row o d).1 in (d'.0 ≡ d.0) × (held d' ≡ held d) × (d'.3 ≡ d.3)
inserted-keeps id row none (rows, work, n, true, broken) = (refl, refl, refl)
inserted-keeps id row none (rows, work, n, false, broken) = (refl, refl, refl)
inserted-keeps id row (some old) d = (refl, refl, refl)

-- An insertion that is accepted found no row, and has put one into the rows of the transaction.
pub inserted-ok :
    (id : String) (row : ArchiveRow) (o : Option ArchiveRow) (d d' : Db) (n : ℕ)
    → inserted id row o d ≡ (ok n, d')
    → (o ≡ none) × (d'.1 ≡ with_archive id row d.1)
inserted-ok id row none (rows, work, m, live, broken) d' n h = (refl, sym (ap (λ p. p.1.1) h))
inserted-ok id row (some old) d d' n h = absurd (ground (arith, ap (λ p. p.0) h))

pub run-keeps :
    (tx : Unit {0}) (st : Statement) (d : Db)
    → let d' = (run tx st d).1 in (d'.0 ≡ d.0) × (held d' ≡ held d) × (d'.3 ≡ d.3)
run-keeps tx (insert_archive id archive count errors fatal) d =
    inserted-keeps id
      (record {
        archive = archive;
        gen_count = count;
        gen_errors = errors;
        fatal_gen_error = fatal;
      })
      (lookup id d.1.archives) d
run-keeps tx (insert_job id status user_id) d = (refl, refl, refl)
run-keeps tx (update_status status time id) d = (refl, refl, refl)
run-keeps tx (insert_input_archive id archive) d = (refl, refl, refl)
run-keeps tx (delete_old_jobs ttl) d = (refl, refl, refl)

pub commit-closes :
    (tx : Unit {0}) (d : Db)
    → d.3 ≡ true
    → let d' = (commit tx d).1 in (held d ≡ held d' + 1) × (d'.3 ≡ false)
commit-closes tx (rows, work, n, true, true) h = (refl, refl)
commit-closes tx (rows, work, n, true, false) h = (refl, refl)
commit-closes tx (rows, work, n, false, broken) h = ground arith

pub commit-fail : (tx : Unit {0}) (d d' : Db) (e : Err) → commit tx d ≡ (fail e, d') → d'.0 ≡ d.0
commit-fail tx (rows, work, n, true, true) d' e h = sym (ap (λ p. p.1.0) h)
commit-fail tx (rows, work, n, true, false) d' e h = ground arith
commit-fail tx (rows, work, n, false, broken) d' e h = sym (ap (λ p. p.1.0) h)

-- A commit that succeeds publishes the rows of the transaction.
pub commit-ok_rows : (tx : Unit {0}) (d d' : Db) → commit tx d ≡ (ok tt, d') → d'.0 ≡ d.1
commit-ok_rows tx (rows, work, n, true, true) d' h = ground arith
commit-ok_rows tx (rows, work, n, true, false) d' h = sym (ap (λ p. p.1.0) h)
commit-ok_rows tx (rows, work, n, false, broken) d' h = ground arith

pub begin-work : (d d' : Db) (tx : Unit {0}) → begin d ≡ (ok tx, d') → d'.1 ≡ d.0
begin-work (rows, work, n, true, broken) d' tx h = sym (ap (λ p. p.1.1) h)
begin-work (rows, work, n, false, broken) d' tx h = sym (ap (λ p. p.1.1) h)

pub rollback-keeps : (tx : Unit {0}) (d : Db) → (rollback tx d).1.0 ≡ d.0
rollback-keeps tx (rows, work, n, true, broken) = refl
rollback-keeps tx (rows, work, n, false, broken) = refl

pub rollback-live : (tx : Unit {0}) (d : Db) → d.3 ≡ true → held d ≡ held (rollback tx d).1 + 1
rollback-live tx (rows, work, n, true, broken) h = refl
rollback-live tx (rows, work, n, false, broken) h = ground arith

pub rollback-closed : (tx : Unit {0}) (d : Db) → d.3 ≡ false → held (rollback tx d).1 ≡ held d
rollback-closed tx (rows, work, n, true, broken) h = ground arith
rollback-closed tx (rows, work, n, false, broken) h = refl

pub found-ok : {A : Type 0} (o : Option A) (a : A) → found o ≡ ok a → o ≡ some a
found-ok none a h = ground arith
found-ok (some b) a h = ground arith

abbrev pub db : IsDatabase pool
db = record {
  committed = λ d. d.0;
  held = held;
  is_live = λ tx d. d.3;
  begin-ok = begin-ok;
  begin-fail = begin-fail;
  tx_exec-keeps = λ tx st d d' r h.
      subst (λ p. (p.1.0 ≡ d.0) × (held p.1 ≡ held d) × (p.1.3 ≡ d.3)) h (run-keeps tx st d);
  commit-closes = commit-closes;
  commit-fail = commit-fail;
  commit-ok = λ tx id fatal archive count errors n d d' d'' d''' hb hx hc.
      let row : ArchiveRow = record {
        archive = archive;
        gen_count = count;
        gen_errors = errors;
        fatal_gen_error = fatal;
      } in
      commit-ok_rows tx d'' d''' hc
      ∙ ((inserted-ok id row (lookup id d'.1.archives) d' d'' n hx).1
          ∙ ap (with_archive id row) (begin-work d d' tx hb));
  rollback-keeps = rollback-keeps;
  rollback-live = rollback-live;
  rollback-closed = rollback-closed;
  select_archive-ok = λ id d d' row h. found-ok (archive_row id d.0) row (ap (λ p. p.0) h);
}

creates :
    (id : String) (status : JobStatus) (user_id : ℕ) (o : Option JobStatus) (d : Db)
    → lookup id d.0.jobs ≡ o
    → let (r, d') = created id status o d in MayExecute (insert_job id status user_id) r d.0 d'.0
creates id status user_id none d h = (h, refl)
creates id status user_id (some old) d h = inl refl

executes : (st : Statement) (d : Db) → let (r, d') = execute st d in MayExecute st r d.0 d'.0
executes (insert_job id status user_id) d = creates id status user_id (lookup id d.0.jobs) d refl
executes (update_status status time id) d =
    with_status-IsUpdated id status (lookup id d.0.jobs) d.0 refl
executes (insert_input_archive id archive) d = refl
executes (insert_archive id archive count errors fatal) d = tt
executes (delete_old_jobs ttl) d = tt

pub server : IsServer pool db
server = record {
  exec-MayExecute = executes;
  insert_archive-fresh = λ tx id fatal archive count errors n d d' d'' hb hx.
      let row : ArchiveRow = record {
        archive = archive;
        gen_count = count;
        gen_errors = errors;
        fatal_gen_error = fatal;
      } in
      ap (λ t. lookup id t.archives) (sym (begin-work d d' tx hb))
      ∙ (inserted-ok id row (lookup id d'.1.archives) d' d'' n hx).0;
  select_archive-keeps = λ id d. refl;
  select_info-keeps = λ id d. refl;
  select_status-keeps = λ id d. refl;
  insert_user-keeps = λ u d. refl;
  select_user-keeps = λ login d. refl;
}

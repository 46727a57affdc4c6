-- ===== src/Storage/Postgres/Durable.antt =====
-- The results of a job in the Postgres storage, over any sequence of calls of its methods.
use agreements_generator_api.Prelude.{
  ◌≡◌, sym, ap, ◌∙◌, inl, inr, String, List, [], ◌∷◌, none, some, arith, eq_iff, Option-cases,
}
use mathlib.Core.Path.{subst}
use agreements_generator_api.Prelude.Dict.{lookup, lookup-insert}
use agreements_generator_api.Effect.{Result, ok, fail, Call-cases}
use agreements_generator_api.Domain.Generator.{Bytes, FilesErrors}
use agreements_generator_api.Storage.Postgres.{Pool, get_archive}
use agreements_generator_api.Storage.Postgres.Database.{
  IsDatabase, Tables, ArchiveRow, with_archive, archive_row,
}
use agreements_generator_api.Storage.Postgres.Methods.{
  Method, find_archive, info, check, user, save, store, update, add_user, raw_archive, perform,
}
use agreements_generator_api.Storage.Postgres.Save.{row_of}
use agreements_generator_api.Storage.Postgres.Effects.{IsServer, Effect, Does, perform-Does}

-- A row of `archives` stays.
module _ (id : String) (row : ArchiveRow) where
  abbrev Has : Tables → Type 0
  Has t = lookup id t.archives ≡ some row

  added :
      (other : String) (new : ArchiveRow) (t : Tables)
      → lookup other t.archives ≡ none
      → Has t
      → Has (with_archive other new t)
  added other new t missing h =
      ground (arith, lookup-insert other id new t.archives, eq_iff other id, missing, h)

  Effect-Has : (m : Method) (t t' : Tables) → Effect m t t' → Has t → Has t'
  Effect-Has (store job user_id) t t' (missing, new) h = subst Has (sym new) h
  Effect-Has (update job) t t' (same, statuses) h = ap (lookup id) same ∙ h
  Effect-Has (save job response err) t t' (missing, inl same) h = subst Has (sym same) h
  Effect-Has (save job response err) t t' (missing, inr new) h =
      subst Has (sym new) (added job.id (row_of response err) t missing h)
  Effect-Has (find_archive i) t t' same h = subst Has (sym same) h
  Effect-Has (info i) t t' same h = subst Has (sym same) h
  Effect-Has (check i) t t' same h = subst Has (sym same) h
  Effect-Has (user l) t t' same h = subst Has (sym same) h
  Effect-Has (add_user x) t t' same h = subst Has (sym same) h
  Effect-Has (raw_archive i b) t t' same h = subst Has (sym same) h

  Does-Has : (m : Method) (r : Result (Unit {0})) (t t' : Tables) → Does m r t t' → Has t → Has t'
  Does-Has m (ok u) t t' done h = Effect-Has m t t' done h
  Does-Has m (fail e) t t' (inl same) h = subst Has (sym same) h
  Does-Has m (fail e) t t' (inr done) h = Effect-Has m t t' done h

-- The query of `GetArchive` answers from a row of `archives`.
row_behind :
    (id : String) (t : Tables) (status fatal : String) (archive : Bytes)
    → archive_row id t ≡ some (status, archive, fatal)
    → (row : ArchiveRow) × (lookup id t.archives ≡ some row)
      × (row.archive ≡ archive)
      × (row.fatal_gen_error ≡ fatal)
row_behind id t status fatal archive h = elim (Option-cases (lookup id t.archives)) [
  | inl e ↦ absurd (ground (arith, rw e at h))
  | inr (row, e) ↦ elim (Option-cases (lookup id t.jobs)) [
    | inl f ↦ absurd (ground (arith, rw (e, f) at h))
    | inr (now, f) ↦
        let same = rw (e, f) at h in (row, e, ground (arith, same), ground (arith, same))
  ]
]

module _ {D Tx : Type 0} (pool : Pool D Tx) (unmarshal : Bytes → Result (List FilesErrors)) where
  -- The state after calls of methods, one after the other, whatever each of them returns.
  abbrev pub after : List Method → D → D
  after [] d = d
  after (m ∷ ms) d = after ms (perform pool unmarshal m d).1

module _ {D Tx : Type 0} (pool : Pool D Tx) (db : IsDatabase pool) (server : IsServer pool db)
    (unmarshal : Bytes → Result (List FilesErrors)) where
  after-Has :
      (id : String) (row : ArchiveRow) (ms : List Method) (d : D)
      → Has id row (db.committed d)
      → Has id row (db.committed (after pool unmarshal ms d))
  after-Has id row [] d h = h
  after-Has id row (m ∷ ms) d h =
      let (r, d') = perform pool unmarshal m d in
      after-Has id row ms d' (
        Does-Has id row m r (db.committed d) (db.committed d')
          (perform-Does pool db server unmarshal m d) h)

  answered :
      (id : String) (d d' : D) (status fatal : String) (archive : Bytes)
      → get_archive pool id d ≡ (ok (status, archive, fatal), d')
      → (row : ArchiveRow) × Has id row (db.committed d)
        × Has id row (db.committed d')
        × (row.archive ≡ archive)
        × (row.fatal_gen_error ≡ fatal)
  unfolding get_archive
  answered id d d' status fatal archive h = elim (Call-cases (pool.select_archive id) d) [
    | inr (x, t, e) ↦ absurd (ground (arith, rw e at h))
    | inl (found, t, e) ↦
        let got = rw e at h in
        let same = ap (λ p. p.1) got in
        let kept = rw e at (server.select_archive-keeps id d) in
        let shown = db.select_archive-ok id d t found e ∙ ground (arith, ap (λ p. p.0) got) in
        let (row, held, bytes, text) = row_behind id (db.committed d) status fatal archive shown in
        (
          row,
          held,
          subst (λ s. Has id row (db.committed s)) same (subst (Has id row) (sym kept) held),
          bytes,
          text,
        )
  ]

  -- The results of a job do not change: where `GetArchive` answers twice for a job, and between the
  -- answers the storage's methods were called in any order, for any jobs and users and with any
  -- results, but no cleanup ran, both answers have the same archive and the same fatal error.
  pub get_archive-durable :
      (id : String) (ms : List Method) (d d' d'' : D) (status status' fatal fatal' : String)
      (archive archive' : Bytes)
      → get_archive pool id d ≡ (ok (status, archive, fatal), d')
      → get_archive pool id (after pool unmarshal ms d') ≡ (ok (status', archive', fatal'), d'')
      → (archive' ≡ archive) × (fatal' ≡ fatal)
  get_archive-durable id ms d d' d'' status status' fatal fatal' archive archive' first second =
      let (row, _, held, bytes, text) = answered id d d' status fatal archive first in
      let (last, found, _, bytes', text') =
        answered id (after pool unmarshal ms d') d'' status' fatal' archive' second in
      let same : last ≡ row = ground (arith, found, after-Has id row ms d' held) in
      (
        sym bytes' ∙ (ap (λ r. r.archive) same ∙ bytes),
        sym text' ∙ (ap (λ r. r.fatal_gen_error) same ∙ text),
      )

-- ===== src/Storage/Postgres/Save.antt =====
-- The transactions of the Postgres storage: what `SaveResponse` leaves in the database, and the
-- connections that `SaveResponse` and `cleanUpLoop` give back to the pool.
use agreements_generator_api.Prelude.{ℕ, ◌+◌, ◌≡◌, refl, ◌∙◌, ◌⊎◌, inl, inr, Option, arith}
use agreements_generator_api.Effect.{Result, ok, fail, Call-cases}
use agreements_generator_api.Domain.Errors.{Err, wrapf}
use agreements_generator_api.Domain.Generator.{Job, GenResponse}
use agreements_generator_api.Storage.Postgres.{
  Pool, Statement, new_domain_err, insert_archive, save_response, save_in, clean_up,
  fatal_gen_err_string, delete_old_jobs,
}
use agreements_generator_api.Storage.Postgres.Database.{IsDatabase, ArchiveRow, with_archive}

-- The row of a response.
abbrev pub row_of : GenResponse → Option Err → ArchiveRow
row_of response err = record {
  archive = response.archive;
  gen_count = response.gen_count;
  gen_errors = response.errors;
  fatal_gen_error = fatal_gen_err_string err;
}

-- The insertion of `SaveResponse`.
abbrev pub insertion : Job → GenResponse → Option Err → Statement
insertion job response err =
    insert_archive job.id response.archive response.gen_count response.errors
      (fatal_gen_err_string err)

-- `SaveResponse` along each of its ways.
module _ {D Tx : Type 0} (pool : Pool D Tx) (job : Job) (response : GenResponse) (err : Option Err)
    (d : D) where
  pub no_transaction :
      (d' : D) (e : Err)
      → pool.begin d ≡ (fail e, d')
      → save_response pool job response err d
        ≡ (fail (new_domain_err (wrapf "can't begin transaction" e)), d')
  unfolding save_response
  no_transaction d' e hb = rw hb

  pub refused :
      (d' d'' : D) (tx : Tx) (e : Err)
      → pool.begin d ≡ (ok tx, d')
      → pool.tx_exec tx (insertion job response err) d' ≡ (fail e, d'')
      → save_response pool job response err d ≡ (fail (new_domain_err e), (pool.rollback tx d'').1)
  unfolding save_response save_in
  refused d' d'' tx e hb hx = rw (hb, hx)

  pub accepted :
      (d' d'' : D) (tx : Tx) (n : ℕ)
      → pool.begin d ≡ (ok tx, d')
      → pool.tx_exec tx (insertion job response err) d' ≡ (ok n, d'')
      → save_response pool job response err d ≡ (ok tt, (pool.rollback tx (pool.commit tx d'').1).1)
  unfolding save_response save_in
  accepted d' d'' tx n hb hx = rw (hb, hx)

module _ {D Tx : Type 0} (pool : Pool D Tx) (db : IsDatabase pool) where
  -- What a call of `SaveResponse` in `d` may end as.
  abbrev pub IsSaved : Job → GenResponse → Option Err → D → Result (Unit {0}) × D → Type 0
  IsSaved job response err d (r, d') =
      (db.held d' ≡ db.held d)
      × ((db.committed d' ≡ db.committed d)
          ⊎ ((r ≡ ok tt)
              × (db.committed d' ≡ with_archive job.id (row_of response err) (db.committed d))))

  module _ (job : Job) (response : GenResponse) (err : Option Err) (d : D) where
    refused-IsSaved :
        (d' d'' : D) (tx : Tx) (e : Err)
        → pool.begin d ≡ (ok tx, d')
        → pool.tx_exec tx (insertion job response err) d' ≡ (fail e, d'')
        → IsSaved job response err d (fail (new_domain_err e), (pool.rollback tx d'').1)
    refused-IsSaved d' d'' tx e hb hx =
        let (cb, nb, lb) = db.begin-ok d d' tx hb in
        let (cx, nx, lx) = db.tx_exec-keeps tx (insertion job response err) d' d'' (fail e) hx in
        let live = db.rollback-live tx d'' (lx ∙ lb) in
        (ground (arith, live, nx, nb), inl (db.rollback-keeps tx d'' ∙ (cx ∙ cb)))

    committed-IsSaved :
        (d' d'' d''' : D) (tx : Tx) (n : ℕ) (r : Result (Unit {0}))
        → pool.begin d ≡ (ok tx, d')
        → pool.tx_exec tx (insertion job response err) d' ≡ (ok n, d'')
        → pool.commit tx d'' ≡ (r, d''')
        → (db.committed d''' ≡ db.committed d)
          ⊎ (db.committed d''' ≡ with_archive job.id (row_of response err) (db.committed d))
    committed-IsSaved d' d'' d''' tx n (ok u) hb hx hc = inr (
        db.commit-ok tx job.id (fatal_gen_err_string err) response.archive response.gen_count
          response.errors n d d' d'' d''' hb hx hc)
    committed-IsSaved d' d'' d''' tx n (fail e) hb hx hc = inl (
        db.commit-fail tx d'' d''' e hc
        ∙ ((db.tx_exec-keeps tx (insertion job response err) d' d'' (ok n) hx).0
            ∙ (db.begin-ok d d' tx hb).0))

    accepted-IsSaved :
        (d' d'' : D) (tx : Tx) (n : ℕ)
        → pool.begin d ≡ (ok tx, d')
        → pool.tx_exec tx (insertion job response err) d' ≡ (ok n, d'')
        → IsSaved job response err d (ok tt, (pool.rollback tx (pool.commit tx d'').1).1)
    accepted-IsSaved d' d'' tx n hb hx =
        let (cb, nb, lb) = db.begin-ok d d' tx hb in
        let (cx, nx, lx) = db.tx_exec-keeps tx (insertion job response err) d' d'' (ok n) hx in
        let (nc, lc) = db.commit-closes tx d'' (lx ∙ lb) in
        let (r, d''') = pool.commit tx d'' in
        let closed = db.rollback-closed tx d''' lc in
        let keeps = db.rollback-keeps tx d''' in
        (
          ground (arith, closed, nc, nx, nb),
          elim (committed-IsSaved d' d'' d''' tx n r hb hx refl) [
            | inl h ↦ inl (keeps ∙ h)
            | inr h ↦ inr (refl, keeps ∙ h)
          ],
        )

    -- `SaveResponse` gives back every connection that it takes, and it is all or nothing: an error
    -- leaves the committed rows as they are, and without one they are as they were or have the
    -- row of the response.
    pub save_response-IsSaved : IsSaved job response err d (save_response pool job response err d)
    save_response-IsSaved = elim (Call-cases pool.begin d) [
      | inr (e, d', hb) ↦
          let (cb, nb) = db.begin-fail d d' e hb in
          rw (no_transaction pool job response err d d' e hb) (nb, inl cb)
      | inl (tx, d', hb) ↦ elim (Call-cases (pool.tx_exec tx (insertion job response err)) d') [
        | inr (e, d'', hx) ↦
            rw (refused pool job response err d d' d'' tx e hb hx)
              (refused-IsSaved d' d'' tx e hb hx)
        | inl (n, d'', hx) ↦
            rw (accepted pool job response err d d' d'' tx n hb hx)
              (accepted-IsSaved d' d'' tx n hb hx)
      ]
    ]

    -- A response is lost without an error when the commit fails: the transaction begins, the
    -- insertion is accepted, the commit fails, and yet there is no error while the committed rows
    -- are those from before.
    pub save_response-lost :
        (d' d'' d''' : D) (tx : Tx) (n : ℕ) (e : Err)
        → pool.begin d ≡ (ok tx, d')
        → pool.tx_exec tx (insertion job response err) d' ≡ (ok n, d'')
        → pool.commit tx d'' ≡ (fail e, d''')
        → let (r, last) = save_response pool job response err d in
          (r ≡ ok tt) × (db.committed last ≡ db.committed d)
    save_response-lost d' d'' d''' tx n e hb hx hc =
        let lost = db.commit-fail tx d'' d''' e hc in
        let kept = db.tx_exec-keeps tx (insertion job response err) d' d'' (ok n) hx in
        rw (accepted pool job response err d d' d'' tx n hb hx, hc)
          (refl, db.rollback-keeps tx d''' ∙ (lost ∙ (kept.0 ∙ (db.begin-ok d d' tx hb).0)))

  -- A round of the cleanup whose transaction begins ends with one connection more out of the pool
  -- where its statement fails, and with as many as before where it does not.
  pub clean_up-held :
      (ttl : ℕ) (d d' d'' : D) (tx : Tx) (r : Result ℕ)
      → pool.begin d ≡ (ok tx, d')
      → pool.tx_exec tx (delete_old_jobs ttl) d' ≡ (r, d'')
      → db.held (clean_up pool ttl d).1 ≡ elim r [ ok n ↦ db.held d | fail e ↦ db.held d + 1 ]
  unfolding clean_up
  clean_up-held ttl d d' d'' tx (ok n) hb hx =
      let (cb, nb, lb) = db.begin-ok d d' tx hb in
      let (cx, nx, lx) = db.tx_exec-keeps tx (delete_old_jobs ttl) d' d'' (ok n) hx in
      let (nc, lc) = db.commit-closes tx d'' (lx ∙ lb) in rw (hb, hx) (ground (arith, nc, nx, nb))
  clean_up-held ttl d d' d'' tx (fail e) hb hx =
      let (cb, nb, lb) = db.begin-ok d d' tx hb in
      let (cx, nx, lx) = db.tx_exec-keeps tx (delete_old_jobs ttl) d' d'' (fail e) hx in
      rw (hb, hx) (nx ∙ nb)

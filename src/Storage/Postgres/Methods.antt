-- ===== src/Storage/Postgres/Methods.antt =====
-- The errors of the methods of the Postgres storage.
use agreements_generator_api.Prelude.{ℕ, refl, inr, String, List, Option, none, some}
use agreements_generator_api.Effect.{
  Result, ok, fail, Proc, ◌>>=◌, ◌>>◌, pure, raise, lift, on_error, ignore, map_error, continue,
}
use agreements_generator_api.Domain.Errors.{Err, app, as_app_err, internal, wrapv, wrapf}
use agreements_generator_api.Domain.Generator.{Bytes, Job, User, FilesErrors, GenResponse}
use agreements_generator_api.Storage.Postgres.{
  Pool, decoded, insert_archive, insert_job, update_status, insert_input_archive,
  fatal_gen_err_string, with_rollback, get_archive, get_archive_info, save_in, save_response,
  store_job, update_job, check_job_status, register, log_in, save_raw_archive, new_domain_err,
}
use agreements_generator_api.Storage.Postgres.Errors.{IsStorageErr, new_domain_err-IsStorageErr}

-- The methods with their arguments.
pub data Method : Type 0 where
  find_archive info check user : String → Method
  save : Job → GenResponse → Option Err → Method
  store : Job → ℕ → Method
  update : Job → Method
  add_user : User → Method
  raw_archive : String → Bytes → Method

abbrev pub FailsWell {ℓ} : {A : Type ℓ} → Result A → Type 0
FailsWell (ok a) = Unit
FailsWell (fail e) = IsStorageErr e

FailsWell-continue :
    {S A B : Type 0} (r : Result A) (f : A → Proc S B) (s : S)
    → FailsWell r
    → ((a : A) (s' : S) → FailsWell (f a s').0)
    → FailsWell (continue r f raise s).0
FailsWell-continue (ok a) f s h k = k a s
FailsWell-continue (fail e) f s h k = h

FailsWell-on_error :
    {A : Type 0} (g : Err → Err) (r : Result A)
    → ((e : Err) → IsStorageErr (g e))
    → FailsWell (map_error g r)
FailsWell-on_error g (ok a) w = tt
FailsWell-on_error g (fail e) w = w e

-- A call whose error is turned into one of the application's, and what follows it.
FailsWell-after :
    {S A B : Type 0} (g : Err → Err) (m : Proc S A) (f : A → Proc S B) (s : S)
    → ((e : Err) → IsStorageErr (g e))
    → ((a : A) (s' : S) → FailsWell (f a s').0)
    → FailsWell ((on_error g m >>= f) s).0
FailsWell-after g m f s w k =
    let (r, s') = m s in FailsWell-continue (map_error g r) f s' (FailsWell-on_error g r w) k

FailsWell-then :
    {S A B : Type 0} (m : Proc S A) (f : A → Proc S B) (s : S)
    → ((a : A) (s' : S) → FailsWell (f a s').0)
    → FailsWell ((on_error new_domain_err m >>= f) s).0
FailsWell-then m f s k = FailsWell-after new_domain_err m f s new_domain_err-IsStorageErr k

decoded-FailsWell :
    (unmarshal : Bytes → Result (List FilesErrors)) (bytes : Bytes)
    → FailsWell (decoded unmarshal bytes)
unfolding decoded wrapv as_app_err
decoded-FailsWell unmarshal none = tt
decoded-FailsWell unmarshal (some bytes) =
    elim (unmarshal (some bytes))
      as (λ r. FailsWell (elim r as (λ _. Result (List FilesErrors)) [
        | ok errors ↦ ok errors
        | fail e ↦ fail (wrapv "can't marshal bytes into errors" e (app internal))
      ])) [ ok errors ↦ tt | fail e ↦ inr (inr (inr refl)) ]

module _ {D Tx : Type 0} (pool : Pool D Tx) (unmarshal : Bytes → Result (List FilesErrors)) where
  abbrev pub perform : Method → Proc D (Unit {0})
  perform (find_archive id) = get_archive pool id >> pure tt
  perform (info id) = get_archive_info pool unmarshal id >> pure tt
  perform (check id) = check_job_status pool id >> pure tt
  perform (user login) = log_in pool login >> pure tt
  perform (save job response err) = save_response pool job response err
  perform (store job user_id) = store_job pool job user_id
  perform (update job) = update_job pool job
  perform (add_user u) = register pool u >> pure tt
  perform (raw_archive id bytes) = save_raw_archive pool id bytes

  info-FailsWell : (id : String) (d : D) → FailsWell (get_archive_info pool unmarshal id d).0
  unfolding get_archive_info
  info-FailsWell id d =
      FailsWell-then (pool.select_info id)
        (λ row. do
          errors ← lift (decoded unmarshal row.1)
          pure (record { status = row.0; errors = errors; count = row.2; fatal_gen_err = row.3 }))
        d
        (λ row s.
          FailsWell-continue (decoded unmarshal row.1) _ s (decoded-FailsWell unmarshal row.1)
            (λ a s'. tt))

  -- Whatever the driver does, an error of a method carries one of four errors of the application:
  -- not found, conflict, bad request or internal.
  pub perform-FailsWell : (m : Method) (d : D) → FailsWell (perform m d).0
  unfolding get_archive get_archive_info save_response save_in store_job update_job check_job_status
      register log_in save_raw_archive
  perform-FailsWell (find_archive id) d =
      FailsWell-then (pool.select_archive id) (λ a. pure tt) d (λ a s. tt)
  perform-FailsWell (info id) d =
      let (r, d') = get_archive_info pool unmarshal id d in
      FailsWell-continue r (λ a. pure tt) d' (info-FailsWell id d) (λ a s. tt)
  perform-FailsWell (check id) d =
      FailsWell-then (pool.select_status id) (λ a. pure tt) d (λ a s. tt)
  perform-FailsWell (user login) d =
      FailsWell-then (pool.select_user login) (λ a. pure tt) d (λ a s. tt)
  perform-FailsWell (save job response err) d =
      FailsWell-after (λ e. new_domain_err (wrapf "can't begin transaction" e)) pool.begin
        (λ tx. with_rollback pool tx (save_in pool tx job response err)) d
        (λ e. new_domain_err-IsStorageErr (wrapf "can't begin transaction" e))
        (λ tx d'.
          FailsWell-then
            (pool.tx_exec tx (
              insert_archive job.id response.archive response.gen_count response.errors
                (fatal_gen_err_string err)))
            (λ n. ignore (pool.commit tx)) d' (λ n s. tt))
  perform-FailsWell (store job user_id) d =
      FailsWell-then (pool.exec (insert_job job.id job.status user_id)) (λ a. pure tt) d (λ a s. tt)
  perform-FailsWell (update job) d =
      FailsWell-then (pool.exec (update_status job.status (pool.time_now d) job.id)) (λ a. pure tt)
        d (λ a s. tt)
  perform-FailsWell (add_user u) d =
      FailsWell-then (pool.insert_user u) (λ a. pure tt) d (λ a s. tt)
  perform-FailsWell (raw_archive id bytes) d =
      FailsWell-then (pool.exec (insert_input_archive id bytes)) (λ a. pure tt) d (λ a s. tt)

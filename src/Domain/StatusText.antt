-- ===== src/Domain/StatusText.antt =====
-- The texts of the job statuses, and `JobStatusFromString`.
use agreements_generator_api.Prelude.{◌≡◌, refl, ◌↔◌, String, eq_iff, arith}
use agreements_generator_api.Effect.{ok}
use agreements_generator_api.Domain.Generator.{
  JobStatus, processing, completed, failed, status_text, job_status_from_string,
}

pub job_status_from_string-status_text :
    (s : JobStatus) → job_status_from_string (status_text s) ≡ ok s
unfolding job_status_from_string
job_status_from_string-status_text processing = refl
job_status_from_string-status_text completed = refl
job_status_from_string-status_text failed = refl

text_of_status :
    (text : String) (s : JobStatus) → job_status_from_string text ≡ ok s → text ≡ status_text s
unfolding job_status_from_string
text_of_status text s h =
    ground (arith, eq_iff text "processing", eq_iff text "completed", eq_iff text "failed")

-- A text is read as a status exactly where it is that status' text; so each status is read back
-- from its text, and a text that is read is written back as it was.
pub job_status_from_string_iff :
    (text : String) (s : JobStatus) → (job_status_from_string text ≡ ok s) ↔ (text ≡ status_text s)
job_status_from_string_iff text s =
    (text_of_status text s, λ e. rw e (job_status_from_string-status_text s))

-- ===== src/Worker.antt =====
-- app/workers/worker.py: one job is run, and its success or failure is recorded. The heartbeats of
-- the background task are steps of the queue's model; a shutdown in the middle of a job leaves the
-- job running, with what was committed so far.
pub mod Recording
use doc_chat_platform.Persist.{set_document_status}
use doc_chat_platform.Ingest.{Services, Settings, run_job}
use doc_chat_platform.Text.{Text}
use doc_chat_platform.Models.{JobStatus, text, is_failed, IngestJob, DocumentStatus}
use doc_chat_platform.Database.{Error, Database}
use doc_chat_platform.Queue.{claim, finish, job_status, release}
use doc_chat_platform.Base.{
  none, some, true, false, ok, err, Bool, List, Option, ℕ, if◌then◌else◌, Result,
}

-- `refreshed == "failed"`
abbrev pub is_failed_for_good : Option JobStatus → Bool
is_failed_for_good none = false
is_failed_for_good (some status) = is_failed status

-- `f"{type(exc).__name__}: {exc}"`, where the class names are the program's
module _ (message : Error → Text) (max_attempts : ℕ) (job : IngestJob) where
  unfoldable pub mark_failed : Text → Database → Database
  unfolding job_status set_document_status is_failed
  mark_failed reason db =
      if is_failed_for_good (job_status job.id db.jobs)
      then set_document_status job.document_id DocumentStatus.failed (some reason) none false db
      else db

  -- What follows the run: `finish`, or `release` and the document's failure.
  unfoldable pub record_outcome : Result Error Unit → Database → Database
  unfolding finish release mark_failed
  record_outcome (ok tt) db = record db { jobs = finish db.clock job.id none db.jobs }
  record_outcome (err e) db =
      mark_failed (message e)
        (record db { jobs = release db.clock job.id (message e) max_attempts db.jobs })

  unfoldable pub process : Services → Settings → Database → Database
  unfolding run_job record_outcome
  process services settings db =
      let (result, after) = run_job services settings true job db in record_outcome result after

-- One turn of `worker_loop`: a job is claimed and processed, or there is none.
unfoldable pub work_once : (Error → Text) → ℕ → Services → Settings → Database → Database
unfolding claim process
work_once message max_attempts services settings db = turn (claim db.clock db.jobs)
  where
    turn : Option IngestJob × List IngestJob → Database
    turn (none, jobs) = db
    turn (some job, jobs) =
        process message max_attempts job services settings (record db { jobs = jobs })

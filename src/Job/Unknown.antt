-- ===== src/Job/Unknown.antt =====
-- Status callbacks for a job without a row, such as one that the orchestrator's scheduler fires.
use dhp.Prelude.{String, none, ◌≡◌, arith}
use dhp.Job.Table.{find}
use dhp.Job.Service.{World, update_job_status}
use dhp.Job.Retry.{Report}

pub update_job_status_unknown :
    (i : String) (r : Report) (w : World)
    → find i w.jobs ≡ none
    → update_job_status i r.broker r.now r.update w ≡ (none, w)
unfolding update_job_status
update_job_status_unknown i r w h = ground arith

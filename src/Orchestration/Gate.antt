-- ===== src/Orchestration/Gate.antt =====
-- The gate that evidence puts before the completion of a mission.
use nexara_prime.Base.{
  ℕ, String, ◌≡◌, refl, ap, ◌∙◌, false, not, ◌&&◌, ◌||◌, Option, none, some, List, [], ◌∷◌, arith,
  ◌==◌, ==-refl, string_eq, nat_eq, length, all,
}
use nexara_prime.Base.Dict.{get, values, get-save}
use nexara_prime.Orchestration.{
  queue_state_eq, lease_state_eq, claim_id_eq, approval_status_eq, recovery_state_eq,
  VerificationStatus, unverified, verified, failed, verification_status_eq,
  VerificationStatus-discrete, EvidenceJob, Store, add_evidence,
}
use nexara_prime.Orchestration.Jobs.{
  checksum_ok, completed_job, complete_job, jobs_in, pending_for_mission, failed_for_mission,
  completion_gate_passed,
}

jobs_in-length :
    (id : String) (js : List EvidenceJob)
    → (length (jobs_in id unverified js) == 0 && length (jobs_in id failed js) == 0)
      ≡ all (λ j. not (j.mission_id == id) || j.verification_status == verified) js
unfolding jobs_in VerificationStatus-discrete nat_eq
jobs_in-length id [] = refl
jobs_in-length id (j ∷ js) = ground (arith, jobs_in-length id js)

-- The gate of a mission is open just when every evidence job of the mission is verified.
pub completion_gate_passed-all :
    (s : Store) (id : String)
    → completion_gate_passed s id
      ≡ all
          (λ j. not (j.mission_id == id) || j.verification_status == verified)
          (values s.evidence_queue)
unfolding completion_gate_passed pending_for_mission failed_for_mission
completion_gate_passed-all s id = jobs_in-length id (values s.evidence_queue)

complete_job-some :
    (s : Store) (id : String) (code : ℕ) (checksum : Option String) (now : ℕ) (j : EvidenceJob)
    → get s.evidence_queue id ≡ some j
    → (complete_job s id code checksum now).1 ≡ some (completed_job j code checksum now)
unfolding complete_job
complete_job-some s id code checksum now j found = rw (complete_job, found) refl

complete_job-get :
    (s : Store) (id : String) (code : ℕ) (checksum : Option String) (now : ℕ) (j : EvidenceJob)
    → get s.evidence_queue id ≡ some j
    → get (complete_job s id code checksum now).0.evidence_queue id
      ≡ some (completed_job j code checksum now)
unfolding complete_job add_evidence
complete_job-get s id code checksum now j found =
    rw
      (
        complete_job,
        found,
        get-save s.evidence_queue id id (completed_job j code checksum now),
        ==-refl id,
      )
      refl

abbrev pub job_status : Option EvidenceJob → Option VerificationStatus
job_status none = none
job_status (some j) = some j.verification_status

-- A completion replaces the checksum that was expected by the one that is given. So a job that fails
-- because its checksum is a wrong one is verified when it is completed once more with the same wrong
-- checksum.
pub complete_job-again :
    (s : Store) (id expected given : String) (now later : ℕ) (j : EvidenceJob)
    → get s.evidence_queue id ≡ some j
    → j.checksum ≡ some expected
    → (expected == "") ≡ false
    → (given == expected) ≡ false
    → (job_status (complete_job s id 0 (some given) now).1 ≡ some failed)
      × (job_status
            (complete_job (complete_job s id 0 (some given) now).0 id 0 (some given) later).1
          ≡ some verified)
unfolding completed_job checksum_ok nat_eq
complete_job-again s id expected given now later j found expects set_ differs = (
  ap job_status (complete_job-some s id 0 (some given) now j found) ∙ ground (arith),
  ap job_status (
        complete_job-some (complete_job s id 0 (some given) now).0 id 0 (some given) later
          (completed_job j 0 (some given) now) (complete_job-get s id 0 (some given) now j found))
      ∙ ground (arith, ==-refl given),
)

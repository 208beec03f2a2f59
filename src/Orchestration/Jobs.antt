-- ===== src/Orchestration/Jobs.antt =====
-- src/nexara_prime/orchestration.py: `EvidenceQueue`. An exit code is a natural number: the code only
-- compares it with zero.
use nexara_prime.Base.{
  ℕ, String, Bool, true, false, ◌&&◌, ◌||◌, Option, none, some, List, [], ◌∷◌, if◌then◌else◌, ◌==◌,
  string_eq, nat_eq, length,
}
use nexara_prime.Base.Dict.{get, save, values}
use nexara_prime.Orchestration.{
  instant, VerificationStatus, unverified, verified, failed, verification_status_eq, EvidenceJob,
  Store, add_evidence,
}

unfoldable pub enqueue_job : Store → EvidenceJob → Store
enqueue_job s j = record s { evidence_queue = save s.evidence_queue j.evidence_job_id j }

abbrev pub same_checksum : String → Option String → Bool
same_checksum e none = false
same_checksum e (some c) = c == e

-- No checksum was set when the job was enqueued, or it is the one that is passed.
unfoldable pub checksum_ok : Option String → Option String → Bool
checksum_ok none given = true
checksum_ok (some e) given = e == "" || same_checksum e given

unfoldable pub completed_job : EvidenceJob → ℕ → Option String → ℕ → EvidenceJob
completed_job j exit_code checksum now = record j {
  exit_code = some exit_code;
  verification_status =
      if exit_code == 0 && checksum_ok j.checksum checksum then verified else failed;
  checksum = checksum;
  completed_at = instant now;
}

unfoldable pub complete_job : Store → String → ℕ → Option String → ℕ → Store × Option EvidenceJob
complete_job s id exit_code checksum now = elim (get s.evidence_queue id) [
  | none ↦ (s, none)
  | some j ↦
      let j' = completed_job j exit_code checksum now in
      (
        add_evidence (record s { evidence_queue = save s.evidence_queue id j' }) j.mission_id
            j.evidence_type,
        some j',
      )
]

unfoldable pub jobs_in : String → VerificationStatus → List EvidenceJob → List EvidenceJob
jobs_in id v [] = []
jobs_in id v (j ∷ js) =
    let rest = jobs_in id v js in
    if j.mission_id == id && j.verification_status == v then j ∷ rest else rest

unfoldable pub pending_for_mission : Store → String → List EvidenceJob
pending_for_mission s id = jobs_in id unverified (values s.evidence_queue)

unfoldable pub failed_for_mission : Store → String → List EvidenceJob
failed_for_mission s id = jobs_in id failed (values s.evidence_queue)

unfoldable pub completion_gate_passed : Store → String → Bool
completion_gate_passed s id =
    length (pending_for_mission s id) == 0 && length (failed_for_mission s id) == 0

-- ===== src/Orchestration.antt =====
-- src/nexara_prime/orchestration.py: the records of the control plane (of src/nexara_prime/models.py),
-- its comparisons of instants, and the store that its queues share. A record type of the store is a
-- dictionary by record id. `save_record` stamps a row with the current time and `list_records` goes by
-- that stamp, so the order of the rows is that of their last save. Times are in microseconds; an
-- operation reads the clock once. Of a published event the type and the aggregate are kept.
pub mod Queue
pub mod Order
pub mod Keys
pub mod Dispatch
pub mod Conflicts
pub mod Held
pub mod Newest
pub mod Others
pub mod Exclusion
pub mod Calls
pub mod Views
pub mod Keyed
pub mod Expiry
pub mod Refinement
pub mod Consumption
pub mod Strategies
pub mod Gate
pub mod Placement
pub mod Completion
pub mod Resume
pub mod Workers
pub mod Leases
pub mod Approvals
pub mod Recoveries
pub mod Jobs
pub mod Control
pub mod Tests
use nexara_prime.Base.{
  ℤ, ℕ, zero, suc, ◌+◌, ◌-◌, ◌*◌, ◌/◌, ◌%◌, ◌≤◌, ◌<◌, min, max, String, ◌<>◌, ◌≡◌, refl, sym, ap,
  ◌∙◌, ◌≢◌, ◌↔◌, ◌⊎◌, inl, inr, Bool, true, false, not, ◌&&◌, ◌||◌, Option, none, some, List, [],
  ◌∷◌, ◌++◌, map, arith, ltb, leb, if◌then◌else◌, Bool-cases, Option-cases, Eq, ◌==◌, eq_iff,
  contains, ==-refl, string_eq, nat_eq, length, get_elem?, length-append, all, all-get_elem?, any,
  All, All-append, is_some, or_else,
}
use nexara_prime.Base.Dict.{Dict}
use nexara_prime.Repair.{RiskLevel}

-- A time stamp as `_parse_instant` reads it: there may be none, or a text that is no time.
pub data Stamp : Type 0 where
  missing unparsed : Stamp
  instant : ℕ → Stamp

unfoldable pub parse_instant : Stamp → Option ℕ
parse_instant missing = none
parse_instant unparsed = none
parse_instant (instant t) = some t

abbrev both_known : (ℕ → ℕ → Bool) → Option ℕ → Option ℕ → Bool
both_known test none b = true
both_known test (some s) none = false
both_known test (some s) (some t) = test s t

unfoldable pub instant_before : Stamp → Stamp → Bool
unfolding parse_instant
instant_before a b = both_known ltb (parse_instant a) (parse_instant b)

unfoldable pub instant_before_or_equal : Stamp → Stamp → Bool
unfolding parse_instant
instant_before_or_equal a b = both_known leb (parse_instant a) (parse_instant b)

abbrev pub is_set : Stamp → Bool
is_set missing = false
is_set unparsed = true
is_set (instant t) = true

pub data QueueItemState : Type 0 where
  queued ready leased running verifying evidence_pending waiting_approval recovering completed
        blocked cancelled :
      QueueItemState

unfoldable pub QueueItemState-discrete : Discrete QueueItemState
QueueItemState-discrete = hlevel

instance abbrev pub queue_state_eq : Eq QueueItemState
queue_state_eq = record { dec = QueueItemState-discrete }

pub record MissionQueueItem : Type 0 where
  pub mission_id : String
  pub priority : ℤ
  pub state : QueueItemState
  pub risk_level : RiskLevel
  pub dependencies : List String
  pub required_capabilities : List String
  pub preferred_worker : Option String
  pub attempt_count : ℕ
  pub max_attempts : ℕ
  pub available_at : Stamp
  pub idempotency_key : Option String
  pub lease_owner : Option String
  pub lease_expires_at : Stamp
  pub created_at : ℕ
  pub updated_at : ℕ

pub record WorkerDescriptor : Type 0 where
  pub worker_id : String
  pub capabilities : List String
  pub available : Bool
  pub health : String
  pub writer_capable : Bool
  pub last_heartbeat : Stamp

pub data LeaseState : Type 0 where
  active stale released : LeaseState

unfoldable pub LeaseState-discrete : Discrete LeaseState
LeaseState-discrete = hlevel

instance abbrev pub lease_state_eq : Eq LeaseState
lease_state_eq = record { dec = LeaseState-discrete }

-- The id f"lease_claim:{mission_id}:{worker_id}:{now}" by its parts.
pub record ClaimId : Type 0 where
  pub mission : String
  pub worker : String
  pub time : ℕ

unfoldable pub ClaimId-discrete : Discrete ClaimId
unfolding string_eq nat_eq
ClaimId-discrete = hlevel (string_eq.dec, nat_eq.dec)

instance abbrev pub claim_id_eq : Eq ClaimId
claim_id_eq = record { dec = ClaimId-discrete }

pub record Lease : Type 0 where
  pub lease_id : ClaimId
  pub mission_id : String
  pub worker_id : String
  pub acquired_at : ℕ
  pub expires_at : Stamp
  pub heartbeat_at : ℕ
  pub state : LeaseState

pub data ApprovalStatus : Type 0 where
  pending approved rejected changes_requested paused expired consumed : ApprovalStatus

unfoldable pub ApprovalStatus-discrete : Discrete ApprovalStatus
ApprovalStatus-discrete = hlevel

instance abbrev pub approval_status_eq : Eq ApprovalStatus
approval_status_eq = record { dec = ApprovalStatus-discrete }

pub record ApprovalRequest : Type 0 where
  pub approval_id : String
  pub mission_id : String
  pub action : String
  pub expires_at : Stamp
  pub status : ApprovalStatus
  pub decided_by : Option String
  pub decided_at : Stamp

pub data FailureClass : Type 0 where
  code_failure test_failure environment_failure ci_platform_failure external_service_failure
        permission_block worker_failure lease_expired state_drift evidence_failure :
      FailureClass

pub data RecoveryState : Type 0 where
  pending analyzing strategy_1 strategy_2 exhausted rolled_back : RecoveryState

unfoldable pub RecoveryState-discrete : Discrete RecoveryState
RecoveryState-discrete = hlevel

instance abbrev pub recovery_state_eq : Eq RecoveryState
recovery_state_eq = record { dec = RecoveryState-discrete }

pub record RecoveryItem : Type 0 where
  pub recovery_id : String
  pub mission_id : String
  pub failure_class : FailureClass
  pub failed_strategy : Option String
  pub next_strategy : Option String
  pub rollback_checkpoint : Option String
  pub attempt : ℕ
  pub state : RecoveryState
  pub updated_at : ℕ

pub data VerificationStatus : Type 0 where
  unverified verified failed : VerificationStatus

unfoldable pub VerificationStatus-discrete : Discrete VerificationStatus
VerificationStatus-discrete = hlevel

instance abbrev pub verification_status_eq : Eq VerificationStatus
verification_status_eq = record { dec = VerificationStatus-discrete }

-- `unverified` is the status "pending".
pub record EvidenceJob : Type 0 where
  pub evidence_job_id : String
  pub mission_id : String
  pub evidence_type : String
  pub checksum : Option String
  pub exit_code : Option ℕ
  pub verification_status : VerificationStatus
  pub completed_at : Stamp

-- One record type of the store for each queue, the events that were published, and the titles of the
-- evidence that was added, each with its mission.
pub record Store : Type 0 where
  pub mission_queue : Dict String MissionQueueItem
  pub worker_registry : Dict String WorkerDescriptor
  pub writer_leases : Dict ClaimId Lease
  pub approval_requests : Dict String ApprovalRequest
  pub recovery_queue : Dict String RecoveryItem
  pub evidence_queue : Dict String EvidenceJob
  pub events : List (String × String)
  pub evidence : List (String × String)

unfoldable pub emit : Store → String → String → Store
emit s event_type aggregate = record s { events = s.events ++ (event_type, aggregate) ∷ [] }

unfoldable pub add_evidence : Store → String → String → Store
add_evidence s mission_id kind = record s { evidence = s.evidence ++ (mission_id, kind) ∷ [] }

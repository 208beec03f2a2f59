-- ===== src/Mission.antt =====
-- src/nexara_prime/state_machine.py, with `MissionState` of src/nexara_prime/models.py.
-- Of a mission the model keeps the fields that `transition` reads and writes. The evidence store is
-- an interface: it takes one request and returns its new contents.
pub mod Transition
pub mod Paths
pub mod Gates
pub mod Ends
pub mod Tests
use nexara_prime.Base.{
  ℕ, zero, suc, ◌+◌, ◌-◌, ◌*◌, ◌/◌, ◌≤◌, ◌<◌, min, max, String, ◌<>◌, ◌≡◌, refl, sym, ap, ◌∙◌, ◌≢◌,
  ◌↔◌, ◌⊎◌, inl, inr, Bool, true, false, not, ◌&&◌, ◌||◌, Option, none, some, List, [], ◌∷◌, ◌++◌,
  map, arith, ltb, leb, if◌then◌else◌, Bool-cases, Option-cases, Eq, ◌==◌, contains, ==-refl,
  string_eq, nat_eq, length, get_elem?, length-append, all, all-get_elem?, All, All-append, is_some,
  or_else,
}
use nexara_prime.Events.{Event, Bus, Published, published, refused, PublishError, publish}

pub data MissionState : Type 0 where
  intent context contract plan simulation approval execution verification evidence memory_patch
        evaluation completed blocked failed rolled_back created triaged contracted planned scheduled
        awaiting_approval running verifying degraded paused cancelled rolling_back :
      MissionState

pub MissionState-discrete : Discrete MissionState
MissionState-discrete = hlevel

instance abbrev pub state_eq : Eq MissionState
state_eq = record { dec = MissionState-discrete }

unfoldable pub value : MissionState → String
value intent = "Intent"
value context = "Context"
value contract = "Contract"
value plan = "Plan"
value simulation = "Simulation"
value approval = "Approval"
value execution = "Execution"
value verification = "Verification"
value evidence = "Evidence"
value memory_patch = "MemoryPatch"
value evaluation = "Evaluation"
value completed = "Completed"
value blocked = "Blocked"
value failed = "Failed"
value rolled_back = "RolledBack"
value created = "Created"
value triaged = "Triaged"
value contracted = "Contracted"
value planned = "Planned"
value scheduled = "Scheduled"
value awaiting_approval = "AwaitingApproval"
value running = "Running"
value verifying = "Verifying"
value degraded = "Degraded"
value paused = "Paused"
value cancelled = "Cancelled"
value rolling_back = "RollingBack"

-- TRANSITIONS
unfoldable pub transitions : MissionState → List MissionState
transitions intent = context ∷ blocked ∷ failed ∷ []
transitions context = contract ∷ blocked ∷ failed ∷ []
transitions contract = plan ∷ blocked ∷ failed ∷ []
transitions plan = simulation ∷ blocked ∷ failed ∷ []
transitions simulation = approval ∷ execution ∷ blocked ∷ failed ∷ []
transitions approval = execution ∷ blocked ∷ failed ∷ []
transitions execution = verification ∷ blocked ∷ failed ∷ rolled_back ∷ []
transitions verification = evidence ∷ blocked ∷ failed ∷ rolled_back ∷ []
transitions evidence = memory_patch ∷ blocked ∷ failed ∷ []
transitions memory_patch = evaluation ∷ blocked ∷ failed ∷ []
transitions evaluation = completed ∷ blocked ∷ failed ∷ rolled_back ∷ []
transitions completed = rolled_back ∷ []
transitions blocked = failed ∷ rolled_back ∷ []
transitions failed = rolled_back ∷ []
transitions rolled_back = []
transitions created = triaged ∷ cancelled ∷ failed ∷ []
transitions triaged = contracted ∷ scheduled ∷ degraded ∷ cancelled ∷ failed ∷ []
transitions contracted = planned ∷ cancelled ∷ failed ∷ []
transitions planned = scheduled ∷ cancelled ∷ failed ∷ []
transitions scheduled = awaiting_approval ∷ running ∷ degraded ∷ cancelled ∷ failed ∷ []
transitions awaiting_approval = running ∷ degraded ∷ blocked ∷ cancelled ∷ failed ∷ []
transitions running = verifying ∷ degraded ∷ paused ∷ failed ∷ rolling_back ∷ []
transitions verifying = completed ∷ degraded ∷ failed ∷ rolling_back ∷ []
transitions degraded = running ∷ verifying ∷ completed ∷ failed ∷ rolling_back ∷ cancelled ∷ []
transitions paused = running ∷ cancelled ∷ failed ∷ []
transitions cancelled = rolled_back ∷ []
transitions rolling_back = rolled_back ∷ failed ∷ []

unfoldable pub can_transition : MissionState → MissionState → Bool
unfolding transitions
can_transition current target = contains (transitions current) target

pub record Mission : Type 0 where
  pub mission_id : String
  pub trace_id : String
  pub state : MissionState
  pub updated_at : String

-- The arguments of `EvidenceStore.add` that `state_change` gives.
pub record EvidenceRequest : Type 0 where
  pub mission_id : String
  pub kind : String
  pub title : String
  pub content : String
  pub trace_id : String
  pub source_event_id : String
  pub actor : String
  pub source : String
  pub verification_status : String

pub record EvidenceStore (Log : Type 0) : Type 0 where
  pub add : Log → EvidenceRequest → Log

-- The payload of the event: {"from": …, "to": …}.
pub record StateChange : Type 0 where
  pub from : MissionState
  pub to : MissionState

pub data TransitionError : Type 0 where
  invalid_transition : MissionState → MissionState → TransitionError
  publish_error : PublishError → TransitionError

pub data Transitioned : Type 0 where
  transitioned : Event StateChange → Transitioned
  failed_with : TransitionError → Transitioned

-- What a call sees and may change.
pub record World (Log : Type 0) : Type 0 where
  pub mission : Mission
  pub bus : Bus StateChange
  pub log : Log

unfoldable pub state_change_request :
    Mission → MissionState → MissionState → String → EvidenceRequest
unfolding value
state_change_request m current target event_id = record {
  mission_id = m.mission_id;
  kind = "state_transition";
  title = value current <> (" → " <> value target);
  content =
      "Mission "
      <> (m.mission_id
          <> (" transitioned from " <> (value current <> (" to " <> (value target <> ".")))));
  trace_id = m.trace_id;
  source_event_id = event_id;
  actor = "state_machine";
  source = "mission.state_changed";
  verification_status = "verified";
}

-- The event that `transition` publishes, with the id and the time that it draws.
unfoldable pub change_event : Mission → MissionState → String → String → String → Event StateChange
change_event m target actor event_id now = record {
  event_id = event_id;
  event_type = "mission.state_changed";
  aggregate_id = m.mission_id;
  aggregate_type = "mission";
  actor = actor;
  trace_id = m.trace_id;
  timestamp = now;
  idempotency_key = none;
  payload = record { from = m.state; to = target };
}

module _ {Log : Type 0} (evidence : EvidenceStore Log) where
  -- What follows the publication: the mission moves, then the evidence is written.
  unfoldable pub after_publish :
      World Log → MissionState → Bus StateChange × Published StateChange → World Log × Transitioned
  after_publish w target (bus, refused e) = (record w { bus = bus }, failed_with (publish_error e))
  after_publish w target (bus, published event) = (
    record {
      mission = record w.mission { state = target; updated_at = event.timestamp };
      bus = bus;
      log =
          evidence.add w.log (state_change_request w.mission w.mission.state target event.event_id);
    },
    transitioned event,
  )

  unfoldable pub transition :
      World Log → MissionState → String → String → String → World Log × Transitioned
  unfolding after_publish
  transition w target actor event_id now =
      if not (can_transition w.mission.state target)
      then (w, failed_with (invalid_transition w.mission.state target))
      else after_publish w target (publish w.bus (change_event w.mission target actor event_id now))

-- Adaptive modes by name; any other text has no rank.
unfoldable pub mode_order : String → Option ℕ
mode_order mode =
    if mode == "S0"
    then some 0
    else if mode == "S1"
    then some 1
    else if mode == "S2"
    then some 2
    else if mode == "S3"
    then some 3
    else none

-- `order.get(mode, -1)`, moved up by one
unfoldable pub mode_rank : String → ℕ
unfolding mode_order
mode_rank mode = elim (mode_order mode) [ none ↦ 0 | some r ↦ r + 1 ]

unfoldable pub can_escalate : String → String → Bool
can_escalate current target = ltb (mode_rank current) (mode_rank target)

unfoldable pub can_de_escalate : String → String → Bool
can_de_escalate current target = ltb (mode_rank target) (mode_rank current)

-- ===== src/Orchestration/Resume.antt =====
-- What becomes of a mission whose writer lease went stale.
use nexara_prime.Base.{
  ℕ, ◌+◌, ◌<◌, String, ◌≡◌, refl, ap, ◌∙◌, ◌↔◌, true, none, some, arith, leb, if◌then◌else◌,
  ==-refl, string_eq, nat_eq,
}
use nexara_prime.Base.Dict.{get, get-save}
use nexara_prime.Orchestration.{
  QueueItemState, ready, blocked, queue_state_eq, QueueItemState-discrete, MissionQueueItem,
  lease_state_eq, claim_id_eq, approval_status_eq, recovery_state_eq, verification_status_eq, Store,
  emit,
}
use nexara_prime.Orchestration.Queue.{
  with_extra, moved, put_item, transition_item, bump_attempt, get_item,
}
use nexara_prime.Orchestration.Recoveries.{put_recovery, enqueue_recovery}
use nexara_prime.Orchestration.Control.{interrupted, retry_or_block, resume_mission}
use nexara_prime.Orchestration.Dispatch.{transition_item-some}

-- A mission that was resumed for the last time is blocked.
abbrev pub resumed_state : MissionQueueItem → QueueItemState
resumed_state i = if leb i.max_attempts (i.attempt_count + 1) then blocked else ready

abbrev pub resumed : MissionQueueItem → ℕ → MissionQueueItem
resumed i now = record i {
  state = resumed_state i;
  attempt_count = i.attempt_count + 1;
  updated_at = now;
}

abbrev bumped_item : MissionQueueItem → ℕ → MissionQueueItem
bumped_item i now = record i { attempt_count = i.attempt_count + 1; updated_at = now }

bump_attempt-some :
    (s : Store) (id : String) (now : ℕ) (i : MissionQueueItem)
    → get s.mission_queue id ≡ some i
    → (bump_attempt s id now).0 ≡ put_item s id (bumped_item i now)
unfolding bump_attempt
bump_attempt-some s id now i found = rw (bump_attempt, found) refl

put_item-get :
    (s : Store) (id : String) (i : MissionQueueItem)
    → get (put_item s id i).mission_queue id ≡ some i
unfolding put_item
put_item-get s id i = rw (get-save s.mission_queue id id i, ==-refl id) refl

transition_item-get :
    (s : Store) (id : String) (q : QueueItemState) (now : ℕ) (i : MissionQueueItem)
    → get s.mission_queue id ≡ some i
    → get (transition_item s id q none now).0.mission_queue id ≡ some (moved i q none now)
unfolding emit
transition_item-get s id q now i found =
    ap (λ x. get x.0.mission_queue id) (transition_item-some s id q none now i found)
    ∙ put_item-get s id (moved i q none now)

retry_or_block-get :
    (s : Store) (id rid : String) (now : ℕ) (i : MissionQueueItem)
    → get s.mission_queue id ≡ some i
    → get (retry_or_block s id rid now (some i)).mission_queue id
      ≡ some (record i {
        state = if leb i.max_attempts i.attempt_count then blocked else ready;
        updated_at = now;
      })
unfolding retry_or_block moved with_extra enqueue_recovery put_recovery emit
retry_or_block-get s id rid now i found = ground (
  arith,
  transition_item-get s id blocked now i found,
  transition_item-get s id ready now i found,
)

resume_mission-interrupted :
    (s : Store) (id rid : String) (now : ℕ) (i : MissionQueueItem)
    → get s.mission_queue id ≡ some i
    → interrupted (some i) ≡ true
    → resume_mission s id rid now
      ≡ retry_or_block
          (put_item (emit s "stale_lease_recovered" id) id (bumped_item i now))
          id
          rid
          now
          (some (bumped_item i now))
unfolding resume_mission get_item emit
resume_mission-interrupted s id rid now i found broken =
    let s' : Store = emit s "stale_lease_recovered" id in
    ap
      (λ o.
        if interrupted o
        then retry_or_block (bump_attempt s' id now).0 id rid now
            (get (bump_attempt s' id now).0.mission_queue id)
        else s')
      found
    ∙ rw broken refl
    ∙ ap (λ b. retry_or_block b id rid now (get b.mission_queue id))
        (bump_attempt-some s' id now i found)
    ∙ ap (retry_or_block (put_item s' id (bumped_item i now)) id rid now)
        (put_item-get s' id (bumped_item i now))

-- The mission of a lease that went stale while it was leased or running counts one attempt more; it is
-- ready again just when it then has attempts left, and is blocked otherwise.
pub resume_mission-attempt :
    (s : Store) (id rid : String) (now : ℕ) (i : MissionQueueItem)
    → get s.mission_queue id ≡ some i
    → interrupted (some i) ≡ true
    → (get (resume_mission s id rid now).mission_queue id ≡ some (resumed i now))
      × (((resumed i now).state ≡ ready) ↔ (i.attempt_count + 1 < i.max_attempts))
unfolding QueueItemState-discrete
resume_mission-attempt s id rid now i found broken = (
  ap (λ x. get x.mission_queue id) (resume_mission-interrupted s id rid now i found broken)
      ∙ retry_or_block-get (put_item (emit s "stale_lease_recovered" id) id (bumped_item i now)) id
          rid now (bumped_item i now)
          (put_item-get (emit s "stale_lease_recovered" id) id (bumped_item i now)),
  (λ h. ground arith, λ h. ground arith),
)

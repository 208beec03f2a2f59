-- ===== src/Sessions.antt =====
-- src/nexara_prime/session.py: `Session` and `SessionStore`. The id of a new session is an argument;
-- time stamps are left out. An exception is `none`, and leaves the store as it was.
pub mod Lifecycle
pub mod Tests
use nexara_prime.Base.{
  ℕ, zero, suc, ◌+◌, ◌-◌, ◌*◌, ◌/◌, ◌%◌, ◌≤◌, ◌<◌, min, max, String, ◌<>◌, ◌≡◌, refl, sym, ap, ◌∙◌,
  ◌≢◌, ◌↔◌, ◌⊎◌, inl, inr, Bool, true, false, not, ◌&&◌, ◌||◌, Option, none, some, List, [], ◌∷◌,
  ◌++◌, map, arith, ltb, leb, if◌then◌else◌, Bool-cases, Option-cases, Eq, ◌==◌, eq_iff, contains,
  ==-refl, string_eq, nat_eq, length, get_elem?, length-append, all, all-get_elem?, any, All,
  All-append, In, any-append, is_some, or_else,
}
use nexara_prime.Base.Dict.{Dict, get, put, values}

pub data SessionStatus : Type 0 where
  created active idle recovering suspended closed failed : SessionStatus

unfoldable pub SessionStatus-discrete : Discrete SessionStatus
SessionStatus-discrete = hlevel

instance abbrev pub session_status_eq : Eq SessionStatus
session_status_eq = record { dec = SessionStatus-discrete }

unfoldable pub session_transitions : SessionStatus → List SessionStatus
session_transitions created = active ∷ []
session_transitions active = idle ∷ suspended ∷ recovering ∷ closed ∷ []
session_transitions idle = active ∷ []
session_transitions recovering = active ∷ []
session_transitions suspended = active ∷ []
session_transitions closed = []
session_transitions failed = []

-- The states that the code calls terminal
abbrev pub terminal_states : List SessionStatus
terminal_states = closed ∷ failed ∷ []

unfoldable pub can_go : SessionStatus → SessionStatus → Bool
can_go current target =
    if target == failed
    then not (current == failed)
    else contains (session_transitions current) target

pub record Session : Type 0 where
  pub id : String
  pub user_id : String
  pub status : SessionStatus
  pub version : ℕ
  pub conversation_ids : List String

unfoldable pub new_session : String → String → Session
new_session id user = record {
  id = id;
  user_id = user;
  status = created;
  version = 1;
  conversation_ids = [];
}

unfoldable pub bump : Session → Session
bump s = record s { version = s.version + 1 }

unfoldable pub transition_session : Session → SessionStatus → Option Session
transition_session s target =
    if not (can_go s.status target)
    then none
    else if not (target == s.status)
    then some (bump (record s { status = target }))
    else some s

unfoldable pub bind_conversation : Session → String → Session
bind_conversation s c =
    if contains s.conversation_ids c
    then s
    else bump (record s { conversation_ids = s.conversation_ids ++ c ∷ [] })

abbrev pub SessionStore : Type 0
SessionStore = Dict String Session

unfoldable pub create_session : SessionStore → String → String → SessionStore × Session
create_session st id user = (put st id (new_session id user), new_session id user)

abbrev pub kept : SessionStore → String → Option Session → SessionStore × Option Session
kept st id none = (st, none)
kept st id (some s) = (put st id s, some s)

unfoldable pub update_status : SessionStore → String → SessionStatus → SessionStore × Option Session
update_status st id status = elim (get st id) [
  | none ↦ (st, none)
  | some s ↦ kept st id (transition_session s status)
]

unfoldable pub touch_session : SessionStore → String → SessionStore × Option Session
touch_session st id = elim (get st id) [ none ↦ (st, none) | some s ↦ kept st id (some (bump s)) ]

unfoldable pub add_conversation : SessionStore → String → String → SessionStore × Option Session
add_conversation st id c = elim (get st id) [
  | none ↦ (st, none)
  | some s ↦ kept st id (some (bind_conversation s c))
]

unfoldable pub list_sessions : SessionStore → List Session
list_sessions st = values st

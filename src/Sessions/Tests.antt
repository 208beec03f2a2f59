-- ===== src/Sessions/Tests.antt =====
-- A session that is closed and then asked for more.
use nexara_prime.Base.{◌≤◌, ◌≡◌, refl, true, List, [], ◌∷◌, string_eq, nat_eq}
use nexara_prime.Sessions.{
  active, closed, failed, Session, new_session, bump, transition_session, bind_conversation, can_go,
  session_transitions, SessionStatus-discrete,
}
use nexara_prime.Sessions.Lifecycle.{
  SessionCall, go, touch, bind, session_call, session_calls, end_rank, all_distinct,
  session_calls-kept,
}

abbrev closed_session : Session
closed_session = record (new_session "s" "u") { status = closed; conversation_ids = "c" ∷ [] }

abbrev more : List SessionCall
more = go active ∷ bind "c" ∷ bind "d" ∷ touch ∷ go failed ∷ []

session_calls-kept_example :
    (all_distinct (session_calls closed_session more).conversation_ids ≡ true)
    × (closed_session.version ≤ (session_calls closed_session more).version)
    × (end_rank closed ≤ end_rank (session_calls closed_session more).status)
session_calls-kept_example = session_calls-kept closed_session more refl

-- A closed session fails all the same, though its state is called terminal.
closed_fails : (session_calls closed_session more).status ≡ failed
unfolding session_calls session_call transition_session bind_conversation bump can_go
    session_transitions SessionStatus-discrete string_eq new_session
closed_fails = refl

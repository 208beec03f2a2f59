-- ===== src/Sessions/Lifecycle.antt =====
-- What no operation on a session undoes.
use nexara_prime.Base.{
  ℕ, ◌≤◌, String, ◌≡◌, Bool, true, false, not, ◌&&◌, ◌||◌, Option, none, some, List, [], ◌∷◌, ◌++◌,
  arith, ◌==◌, contains, string_eq, nat_eq,
}
use nexara_prime.Sessions.{
  SessionStatus, created, active, idle, recovering, suspended, closed, failed,
  SessionStatus-discrete, session_status_eq, session_transitions, can_go, Session, bump,
  transition_session, bind_conversation,
}

pub data SessionCall : Type 0 where
  go : SessionStatus → SessionCall
  touch : SessionCall
  bind : String → SessionCall

abbrev pub or_same : Session → Option Session → Session
or_same s none = s
or_same s (some s') = s'

-- A call that raises leaves the session as it was.
unfoldable pub session_call : Session → SessionCall → Session
session_call s (go target) = or_same s (transition_session s target)
session_call s touch = bump s
session_call s (bind c) = bind_conversation s c

unfoldable pub session_calls : Session → List SessionCall → Session
session_calls s [] = s
session_calls s (c ∷ cs) = session_calls (session_call s c) cs

-- How far a session has ended: not yet, closed, failed.
abbrev pub end_rank : SessionStatus → ℕ
end_rank created = 0
end_rank active = 0
end_rank idle = 0
end_rank recovering = 0
end_rank suspended = 0
end_rank closed = 1
end_rank failed = 2

abbrev pub all_distinct : List String → Bool
all_distinct [] = true
all_distinct (x ∷ xs) = not (contains xs x) && all_distinct xs

contains-append :
    (xs : List String) (c x : String) → contains (xs ++ c ∷ []) x ≡ contains xs x || c == x
contains-append [] c x = ground arith
contains-append (y ∷ xs) c x = ground (arith, contains-append xs c x)

all_distinct-append :
    (xs : List String) (c : String)
    → all_distinct xs ≡ true
    → contains xs c ≡ false
    → all_distinct (xs ++ c ∷ []) ≡ true
all_distinct-append [] c h new = ground arith
all_distinct-append (x ∷ xs) c h new =
    ground (arith, contains-append xs c x, all_distinct-append xs c)

-- The rank of an end is never lowered by a legal transition.
can_go-rank : (q target : SessionStatus) → can_go q target ≡ true → end_rank q ≤ end_rank target
unfolding can_go session_transitions SessionStatus-discrete
can_go-rank created target h = omega arith
can_go-rank active target h = omega arith
can_go-rank idle target h = omega arith
can_go-rank recovering target h = omega arith
can_go-rank suspended target h = omega arith
can_go-rank closed created h = cc
can_go-rank closed active h = cc
can_go-rank closed idle h = cc
can_go-rank closed recovering h = cc
can_go-rank closed suspended h = cc
can_go-rank closed closed h = omega arith
can_go-rank closed failed h = omega arith
can_go-rank failed created h = cc
can_go-rank failed active h = cc
can_go-rank failed idle h = cc
can_go-rank failed recovering h = cc
can_go-rank failed suspended h = cc
can_go-rank failed closed h = cc
can_go-rank failed failed h = omega arith

session_call-kept :
    (s : Session) (c : SessionCall)
    → all_distinct s.conversation_ids ≡ true
    → (all_distinct (session_call s c).conversation_ids ≡ true)
      × (s.version ≤ (session_call s c).version)
      × (end_rank s.status ≤ end_rank (session_call s c).status)
unfolding session_call transition_session bind_conversation bump
session_call-kept s (go target) h = ground (arith, can_go-rank s.status target)
session_call-kept s touch h = ground arith
session_call-kept s (bind c) h = ground (arith, all_distinct-append s.conversation_ids c)

-- Whatever is asked of a session, its conversations stay distinct, its version never falls, a closed
-- session stays closed or fails, and a failed one stays failed.
pub session_calls-kept :
    (s : Session) (cs : List SessionCall)
    → all_distinct s.conversation_ids ≡ true
    → (all_distinct (session_calls s cs).conversation_ids ≡ true)
      × (s.version ≤ (session_calls s cs).version)
      × (end_rank s.status ≤ end_rank (session_calls s cs).status)
unfolding session_calls
session_calls-kept s [] h = (h, omega arith, omega arith)
session_calls-kept s (c ∷ cs) h =
    let (distinct, newer, ends) = session_call-kept s c h in
    let (distinct', newer', ends') = session_calls-kept (session_call s c) cs distinct in
    (distinct', omega arith, omega arith)

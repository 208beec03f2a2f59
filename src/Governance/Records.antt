-- ===== src/Governance/Records.antt =====
-- What each call of the orchestrator does to the record of every id.
use nexara_prime.Base.{
  String, ◌≡◌, inl, inr, Option, none, some, arith, if◌then◌else◌, Option-cases, ◌==◌, string_eq,
  nat_eq,
}
use nexara_prime.Base.Dict.{get, get-put}
use nexara_prime.Governance.{rejected, revoked, status_eq, is_valid}
use nexara_prime.Governance.Orchestrator.{
  Orchestrator, Asked, request, approve, reject, revoke, consume, approve_record, close_record,
  consume_record,
}

abbrev pub map_option {ℓ κ} : {A : Type ℓ} {B : Type κ} → (A → B) → Option A → Option B
map_option f none = none
map_option f (some a) = some (f a)

pub get-request :
    (o : Orchestrator) (a : Asked) (id nonce now j : String)
    → get (request o a id nonce now).0.decisions j
      ≡ (if id == j then some (request o a id nonce now).1 else get o.decisions j)
unfolding request
get-request o a id nonce now j = get-put o.decisions id j _

pub get-approve :
    (o : Orchestrator) (id who now j : String)
    → get (approve o id who now).0.decisions j ≡ (
        if id == j
        then map_option (λ d. approve_record d who now) (get o.decisions j)
        else get o.decisions j)
unfolding approve
get-approve o id who now j = elim (Option-cases (get o.decisions id)) [
  | inl missing ↦ ground arith
  | inr (d, found) ↦ ground (arith, get-put o.decisions id j (approve_record d who now))
]

pub get-reject :
    (o : Orchestrator) (id reason j : String)
    → get (reject o id reason).0.decisions j ≡ (
        if id == j
        then map_option (λ d. close_record d rejected reason) (get o.decisions j)
        else get o.decisions j)
unfolding reject
get-reject o id reason j = elim (Option-cases (get o.decisions id)) [
  | inl missing ↦ ground arith
  | inr (d, found) ↦ ground (arith, get-put o.decisions id j (close_record d rejected reason))
]

pub get-revoke :
    (o : Orchestrator) (id j : String)
    → get (revoke o id).0.decisions j ≡ (
        if id == j
        then map_option (λ d. close_record d revoked "revoked") (get o.decisions j)
        else get o.decisions j)
unfolding revoke
get-revoke o id j = elim (Option-cases (get o.decisions id)) [
  | inl missing ↦ ground arith
  | inr (d, found) ↦ ground (arith, get-put o.decisions id j (close_record d revoked "revoked"))
]

pub get-consume :
    (o : Orchestrator) (id now j : String)
    → get (consume o id now).0.decisions j ≡ (
        if id == j
        then map_option (λ d. if is_valid d now then consume_record d else d) (get o.decisions j)
        else get o.decisions j)
unfolding consume
get-consume o id now j = elim (Option-cases (get o.decisions id)) [
  | inl missing ↦ ground arith
  | inr (d, found) ↦ ground (arith, get-put o.decisions id j (consume_record d))
]

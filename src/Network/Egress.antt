-- ===== src/Network/Egress.antt =====
-- What the network policy lets out.
use nexara_prime.Base.{
  ℕ, String, ◌≡◌, refl, ap, ◌∙◌, Bool, true, false, not, ◌&&◌, ◌||◌, Option, none, some, [], ◌∷◌,
  ◌++◌, arith, if◌then◌else◌, ◌==◌, contains, string_eq, nat_eq,
}
use nexara_prime.Network.{
  Address, is_metadata, is_private, blocked_schemes, NetworkPolicyEngine, ParsedUrl, Resolver,
  actual_port, listed, last_check, check_parsed, check_address, check_resolved, judge, evaluate,
}

abbrev pub is_empty : String → Bool
is_empty t = t == ""

-- The host is listed, or the engine does not deny by default, or there is no host.
abbrev pub host_admitted : NetworkPolicyEngine → String → Bool
host_admitted e host = not e.deny_by_default || (is_empty host || listed e.domain_allowlist host)

-- An address is read, is not that of the metadata, and is public or that of a listed host.
abbrev pub address_admitted : NetworkPolicyEngine → String → Option Address → Bool
address_admitted e host none = false
address_admitted e host (some a) =
    not (is_metadata a) && (listed e.domain_allowlist host || not (is_private a))

-- The address that is checked; none if the name of the host does not resolve.
abbrev pub destination : Resolver → String → String → Option String
destination o host ip = if is_empty ip && not (is_empty host) then o.gethostbyname host else some ip

abbrev pub destination_admitted : Resolver → NetworkPolicyEngine → String → Option String → Bool
destination_admitted o e host none = false
destination_admitted o e host (some ip) =
    (is_empty ip || address_admitted e host (o.ip_address ip)) && host_admitted e host

abbrev pub request_admitted : Resolver → NetworkPolicyEngine → ParsedUrl → String → ℕ → Bool
request_admitted o e u method port =
    not (contains blocked_schemes u.url_scheme)
    && (contains e.scheme_allowlist u.url_scheme
        && (contains e.port_allowlist port
            && ((o.upper method == "GET" || o.upper method == "HEAD")
                && not (listed e.domain_denylist u.hostname))))

last_check-allowed :
    (e : NetworkPolicyEngine) (u : ParsedUrl) (ip : String) (port : ℕ) (method : String)
    → (last_check e u ip port method).allowed ≡ host_admitted e u.hostname
unfolding last_check
last_check-allowed e u ip port method = ground arith

check_parsed-allowed :
    (e : NetworkPolicyEngine) (u : ParsedUrl) (ip : String) (port : ℕ) (method : String)
    (a : Option Address)
    → (check_parsed e u ip port method a).allowed
      ≡ (address_admitted e u.hostname a && host_admitted e u.hostname)
unfolding check_parsed
check_parsed-allowed e u ip port method none = refl
check_parsed-allowed e u ip port method (some a) =
    ground (arith, last_check-allowed e u ip port method)

check_address-allowed :
    (o : Resolver) (e : NetworkPolicyEngine) (u : ParsedUrl) (ip : String) (port : ℕ)
    (method : String)
    → (check_address o e u ip port method).allowed ≡ destination_admitted o e u.hostname (some ip)
unfolding check_address
check_address-allowed o e u ip port method = ground (
  arith,
  last_check-allowed e u ip port method,
  check_parsed-allowed e u ip port method (o.ip_address ip),
)

check_resolved-allowed :
    (o : Resolver) (e : NetworkPolicyEngine) (u : ParsedUrl) (port : ℕ) (method : String)
    (ip : Option String)
    → (check_resolved o e u port method ip).allowed ≡ destination_admitted o e u.hostname ip
unfolding check_resolved
check_resolved-allowed o e u port method none = refl
check_resolved-allowed o e u port method (some ip) = check_address-allowed o e u ip port method

judge-allowed :
    (o : Resolver) (e : NetworkPolicyEngine) (u : ParsedUrl) (method ip : String) (port : ℕ)
    → (judge o e u method ip port).allowed ≡ (
        request_admitted o e u method port
        && ((listed e.domain_allowlist u.hostname && is_empty ip)
            || destination_admitted o e u.hostname (destination o u.hostname ip)))
unfolding judge
judge-allowed o e u method ip port = ground (
  arith,
  check_resolved-allowed o e u port method (o.gethostbyname u.hostname),
  check_address-allowed o e u ip port method,
)

-- A request is let out exactly if its scheme, port and method are allowed and its host is not denied,
-- and either the host is listed and no address is given, or the address that is given, or that the
-- host resolves to, is not that of the metadata, is public unless the host is listed, and the host is
-- listed, empty, or the engine does not deny by default. The decision is the last one in the log.
pub evaluate_iff :
    (o : Resolver) (e : NetworkPolicyEngine) (url method ip : String) (port : ℕ)
    → ((evaluate o e url method ip port).1.allowed ≡ (
        request_admitted o e (o.urlparse url) method (actual_port (o.urlparse url) port)
        && ((listed e.domain_allowlist (o.urlparse url).hostname && is_empty ip)
            || destination_admitted o e
                (o.urlparse url).hostname
                (destination o (o.urlparse url).hostname ip))))
      × ((evaluate o e url method ip port).0.decision_log
          ≡ e.decision_log ++ (evaluate o e url method ip port).1 ∷ [])
unfolding evaluate
evaluate_iff o e url method ip port =
    (judge-allowed o e (o.urlparse url) method ip (actual_port (o.urlparse url) port), refl)

empty_host :
    (o : Resolver) (e : NetworkPolicyEngine)
    → (listed e.domain_allowlist "" && is_empty "")
        || destination_admitted o e "" (destination o "" "")
      ≡ true
unfolding string_eq
empty_host o e = ground arith

-- An engine that denies by default lets out a request whose URL has no host, if none is listed or
-- denied under the empty name: no address is resolved or checked.
pub nameless_allowed :
    (o : Resolver) (e : NetworkPolicyEngine) (url method : String) (port : ℕ)
    → (o.urlparse url).hostname ≡ ""
    → request_admitted o e (o.urlparse url) method (actual_port (o.urlparse url) port) ≡ true
    → (evaluate o e url method "" port).1.allowed ≡ true
nameless_allowed o e url method port nameless admitted =
    (evaluate_iff o e url method "" port).0
    ∙ ap
        (λ b.
          b
          && ((listed e.domain_allowlist (o.urlparse url).hostname && is_empty "")
              || destination_admitted o e (o.urlparse url).hostname
                  (destination o (o.urlparse url).hostname "")))
        admitted
    ∙ ap
        (λ h.
          (listed e.domain_allowlist h && is_empty "")
          || destination_admitted o e h (destination o h ""))
        nameless
    ∙ empty_host o e

-- ===== src/Network.antt =====
-- src/nexara_prime/network_policy.py: `NetworkPolicyEngine`. What urllib makes of a URL, the reading of
-- an address and the resolution of a name are parameters. The limits on size, time and redirects,
-- which nothing here reads, ids and time stamps of decisions, and the number of a port in a reason
-- are left out.
pub mod Egress
pub mod Tests
use nexara_prime.Base.{
  ℕ, zero, suc, ◌+◌, ◌-◌, ◌*◌, ◌/◌, ◌%◌, ◌≤◌, ◌<◌, min, max, String, ◌<>◌, ◌≡◌, refl, sym, ap, ◌∙◌,
  ◌≢◌, ◌↔◌, ◌⊎◌, inl, inr, Bool, true, false, not, ◌&&◌, ◌||◌, Option, none, some, List, [], ◌∷◌,
  ◌++◌, map, arith, ltb, leb, if◌then◌else◌, Bool-cases, Option-cases, Eq, ◌==◌, eq_iff, contains,
  ==-refl, string_eq, nat_eq, length, get_elem?, length-append, all, all-get_elem?, any, All,
  All-append, In, any-append, is_some, or_else,
}

pub data Address : Type 0 where
  v4 v6 : ℕ → Address

-- A network by its base and the number of addresses in it
pub data Network : Type 0 where
  net4 net6 : ℕ → ℕ → Network

unfoldable pub in_network : Address → Network → Bool
in_network (v4 a) (net4 base size) = leb base a && ltb a (base + size)
in_network (v6 a) (net6 base size) = leb base a && ltb a (base + size)
in_network (v4 a) (net6 base size) = false
in_network (v6 a) (net4 base size) = false

-- 10.0.0.0/8, 172.16.0.0/12, 192.168.0.0/16, 127.0.0.0/8, 169.254.0.0/16, ::1/128, fc00::/7, fe80::/10
abbrev pub private_ranges : List Network
private_ranges =
    net4 167772160 16777216
    ∷ net4 2886729728 1048576
    ∷ net4 3232235520 65536
    ∷ net4 2130706432 16777216
    ∷ net4 2851995648 65536
    ∷ net6 1 1
    ∷ net6 334965454937798799971759379190646833152 2658455991569831745807614120560689152
    ∷ net6 338288524927261089654018896841347694592 332306998946228968225951765070086144
    ∷ []

-- 169.254.169.254
unfoldable pub is_metadata : Address → Bool
is_metadata (v4 a) = a == 2852039166
is_metadata (v6 a) = false

unfoldable pub is_private : Address → Bool
is_private a = any (in_network a) private_ranges

abbrev pub blocked_schemes : List String
blocked_schemes = "file" ∷ "javascript" ∷ "data" ∷ "ftp" ∷ []

pub record NetworkPolicyDecision : Type 0 where
  pub allowed : Bool
  pub reason : String
  pub target_host : String
  pub resolved_ip : String
  pub port : ℕ
  pub scheme : String
  pub method : String

pub record NetworkPolicyEngine : Type 0 where
  pub deny_by_default : Bool
  pub domain_allowlist : List String
  pub domain_denylist : List String
  pub scheme_allowlist : List String
  pub port_allowlist : List ℕ
  pub decision_log : List NetworkPolicyDecision

unfoldable pub new_engine : Bool → NetworkPolicyEngine
new_engine deny = record {
  deny_by_default = deny;
  domain_allowlist = [];
  domain_denylist = [];
  scheme_allowlist = "https" ∷ "http" ∷ [];
  port_allowlist = 443 ∷ 80 ∷ [];
  decision_log = [];
}

unfoldable pub allow_domain : NetworkPolicyEngine → String → NetworkPolicyEngine
allow_domain e d = record e { domain_allowlist = d ∷ e.domain_allowlist }

unfoldable pub deny_domain : NetworkPolicyEngine → String → NetworkPolicyEngine
deny_domain e d = record e { domain_denylist = d ∷ e.domain_denylist }

unfoldable pub allow_scheme : NetworkPolicyEngine → String → NetworkPolicyEngine
allow_scheme e s = record e { scheme_allowlist = s ∷ e.scheme_allowlist }

unfoldable pub allow_port : NetworkPolicyEngine → ℕ → NetworkPolicyEngine
allow_port e p = record e { port_allowlist = p ∷ e.port_allowlist }

-- A URL as it is parsed: a host that is missing is empty, a port that is missing is 0, and the scheme
-- is in lower case.
pub record ParsedUrl : Type 0 where
  pub hostname : String
  pub url_scheme : String
  pub url_port : ℕ

pub record Resolver : Type 0 where
  pub urlparse : String → ParsedUrl
  pub upper : String → String
  pub ip_address : String → Option Address
  pub gethostbyname : String → Option String

unfoldable pub actual_port : ParsedUrl → ℕ → ℕ
actual_port u port =
    if not (port == 0)
    then port
    else if not (u.url_port == 0)
    then u.url_port
    else if u.url_scheme == "https"
    then 443
    else 80

abbrev pub refused : String → NetworkPolicyDecision
refused why = record {
  allowed = false;
  reason = why;
  target_host = "";
  resolved_ip = "";
  port = 0;
  scheme = "";
  method = "GET";
}

abbrev pub granted : ParsedUrl → String → ℕ → String → NetworkPolicyDecision
granted u ip port method = record {
  allowed = true;
  reason = "allowed";
  target_host = u.hostname;
  resolved_ip = ip;
  port = port;
  scheme = u.url_scheme;
  method = method;
}

abbrev pub listed : List String → String → Bool
listed ds d = contains ds d

-- From the check of the address on; no address is the empty text.
unfoldable pub last_check :
    NetworkPolicyEngine → ParsedUrl → String → ℕ → String → NetworkPolicyDecision
last_check e u ip port method =
    if e.deny_by_default && (not (u.hostname == "") && not (listed e.domain_allowlist u.hostname))
    then refused ("domain not in allowlist: " <> u.hostname)
    else granted u ip port method

unfoldable pub check_parsed :
    NetworkPolicyEngine → ParsedUrl → String → ℕ → String → Option Address → NetworkPolicyDecision
check_parsed e u ip port method none = refused ("invalid IP: " <> ip)
check_parsed e u ip port method (some a) =
    if is_metadata a
    then refused "blocked metadata IP"
    else if not (listed e.domain_allowlist u.hostname) && is_private a
    then refused ("blocked private IP: " <> ip)
    else last_check e u ip port method

unfoldable pub check_address :
    Resolver → NetworkPolicyEngine → ParsedUrl → String → ℕ → String → NetworkPolicyDecision
check_address o e u ip port method =
    if ip == ""
    then last_check e u ip port method
    else check_parsed e u ip port method (o.ip_address ip)

unfoldable pub check_resolved :
    Resolver → NetworkPolicyEngine → ParsedUrl → ℕ → String → Option String → NetworkPolicyDecision
check_resolved o e u port method none = refused ("DNS resolve failed: " <> u.hostname)
check_resolved o e u port method (some ip) = check_address o e u ip port method

unfoldable pub judge :
    Resolver → NetworkPolicyEngine → ParsedUrl → String → String → ℕ → NetworkPolicyDecision
judge o e u method ip port =
    if contains blocked_schemes u.url_scheme
    then refused ("blocked scheme: " <> u.url_scheme)
    else if not (contains e.scheme_allowlist u.url_scheme)
    then refused ("scheme not allowed: " <> u.url_scheme)
    else if not (contains e.port_allowlist port)
    then refused "port not allowed"
    else if not (o.upper method == "GET" || o.upper method == "HEAD")
    then refused ("method " <> method <> " not allowed by default policy")
    else if listed e.domain_denylist u.hostname
    then refused ("domain denied: " <> u.hostname)
    else if listed e.domain_allowlist u.hostname && ip == ""
    then granted u "" port method
    else if ip == "" && not (u.hostname == "")
    then check_resolved o e u port method (o.gethostbyname u.hostname)
    else check_address o e u ip port method

-- Every decision is logged.
unfoldable pub evaluate :
    Resolver
    → NetworkPolicyEngine
    → String
    → String
    → String
    → ℕ
    → NetworkPolicyEngine × NetworkPolicyDecision
evaluate o e url method ip port =
    let u = o.urlparse url in
    let d = judge o e u method ip (actual_port u port) in
    (record e { decision_log = e.decision_log ++ d ∷ [] }, d)

unfoldable pub evaluate_redirect :
    Resolver → NetworkPolicyEngine → String → String → NetworkPolicyEngine × NetworkPolicyDecision
evaluate_redirect o e original redirect = evaluate o e redirect "GET" "" 0

unfoldable pub is_connector_allowed : NetworkPolicyEngine → String → String → NetworkPolicyDecision
is_connector_allowed e connector action = record (refused "connector policy: default allow R0/R1") {
  allowed = true;
}

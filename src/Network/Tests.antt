-- ===== src/Network/Tests.antt =====
-- The network policy at concrete requests.
use nexara_prime.Base.{
  ◌≡◌, refl, true, ◌&&◌, ◌||◌, none, some, [], ◌∷◌, ◌++◌, if◌then◌else◌, ◌==◌, string_eq, nat_eq,
}
use nexara_prime.Network.{
  v4, NetworkPolicyEngine, new_engine, allow_domain, ParsedUrl, Resolver, actual_port, listed,
  evaluate,
}
use nexara_prime.Network.Egress.{
  is_empty, request_admitted, destination_admitted, destination, evaluate_iff, nameless_allowed,
}

abbrev api_url : ParsedUrl
api_url = record { hostname = "api.test"; url_scheme = "https"; url_port = 0 }

abbrev bare_url : ParsedUrl
bare_url = record { hostname = ""; url_scheme = "https"; url_port = 0 }

abbrev net : Resolver
net = record {
  urlparse = λ url. if url == "https://api.test/" then api_url else bare_url;
  upper = λ m. m;
  ip_address = λ ip. if ip == "10.0.0.1" then some (v4 167772161) else none;
  gethostbyname = λ host. none;
}

abbrev engine : NetworkPolicyEngine
engine = allow_domain (new_engine true) "api.test"

evaluate_iff_example :
    ((evaluate net engine "https://api.test/" "GET" "10.0.0.1" 0).1.allowed ≡ (
      request_admitted net engine
        (net.urlparse "https://api.test/")
        "GET"
        (actual_port (net.urlparse "https://api.test/") 0)
      && ((listed engine.domain_allowlist (net.urlparse "https://api.test/").hostname
            && is_empty "10.0.0.1")
          || destination_admitted net engine
              (net.urlparse "https://api.test/").hostname
              (destination net (net.urlparse "https://api.test/").hostname "10.0.0.1"))))
    × ((evaluate net engine "https://api.test/" "GET" "10.0.0.1" 0).0.decision_log
        ≡ engine.decision_log
          ++ (evaluate net engine "https://api.test/" "GET" "10.0.0.1" 0).1 ∷ [])
evaluate_iff_example = evaluate_iff net engine "https://api.test/" "GET" "10.0.0.1" 0

nameless_allowed_example : (evaluate net (new_engine true) "https:///x" "GET" "" 0).1.allowed ≡ true
unfolding string_eq nat_eq new_engine actual_port
nameless_allowed_example = nameless_allowed net (new_engine true) "https:///x" "GET" 0 refl refl

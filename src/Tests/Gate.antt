-- ===== src/Tests/Gate.antt =====
-- Requests at the middleware. An address is one character, and a network has the addresses below the
-- second character of its text.
use arqs.Access.Entry.{enforce_ip_policy-set_ip_rule}
use arqs.Http.{missing_api_key, err, ok}
use arqs.Conventions.{codes}
use arqs.Auth.{Text}
use arqs.Access.{deny, set_ip_rule, allow, load_snapshot, dynamic, AccessConfig, AccessTables}
use arqs.Prelude.{◌+◌, ltb, refl, Bool, Option, [], none, some, ◌≡◌, ℕ, ◌∷◌}
use arqs.Access.Client.{
  denied, made, response, Outcome, enforce_ip_policy_and_no_store, extract_api_key, get_client_ip,
  NetworkConfig, Request,
}

abbrev parse : Text → Option ℕ
parse [] = none
parse (c ∷ cs) = some c

abbrev write : ℕ → Text
write a = a ∷ []

abbrev in_network : ℕ → Text → Option Bool
in_network a (c ∷ top ∷ rest) = some (ltb a top)
in_network a _ = none

-- The proxies are the address 5 and the network "/3".
abbrev proxies : NetworkConfig
proxies = record {
  trusted_proxies = (5 ∷ []) ∷ (47 ∷ 3 ∷ []) ∷ [];
  trusted_forwarded_headers = codes "X-Forwarded-For" ∷ [];
}

-- Every request claims to come from the address 99, by way of the address 98.
abbrev forged : ℕ → Request
forged a = record { client = some (a ∷ []); header = λ name. some (32 ∷ 99 ∷ 44 ∷ 98 ∷ []) }

abbrev dynamic_access : AccessConfig Text
dynamic_access = record { ip_access_mode = dynamic; client_ips = [] }

abbrev open_tables : AccessTables
open_tables = record { rules = []; default_ip_policy = allow }

-- A handler that counts the requests.
abbrev counter : ℕ → Outcome ℕ × ℕ
counter n = (response (record { status_code = 200; content = made n; cache_control = none }), n + 1)

enforce_ip_policy-set_ip_rule_example :
    enforce_ip_policy_and_no_store parse write in_network proxies dynamic_access
      (some (load_snapshot parse write dynamic_access (set_ip_rule 1 7 deny open_tables)))
      (forged 7)
      counter
      4
    ≡ denied (7 ∷ []) (7 ∷ []) 4
unfolding arqs.Access.Client.is_trusted_proxy
enforce_ip_policy-set_ip_rule_example =
    enforce_ip_policy-set_ip_rule parse write in_network (λ a. refl) proxies dynamic_access 1 7 deny
      open_tables (forged 7) (7 ∷ []) counter 4 tt refl refl refl refl

from_proxy : get_client_ip parse in_network proxies (forged 5) ≡ 99 ∷ []
unfolding get_client_ip arqs.Access.Client.peer_ip arqs.Access.Client.is_trusted_proxy
    arqs.Access.Client.forwarded_ip arqs.Auth.text_eq arqs.Conventions.lowered arqs.Auth.strip
    arqs.Access.Client.first_part arqs.Auth.split_once
from_proxy = refl

from_network : get_client_ip parse in_network proxies (forged 2) ≡ 99 ∷ []
unfolding get_client_ip arqs.Access.Client.peer_ip arqs.Access.Client.is_trusted_proxy
    arqs.Access.Client.forwarded_ip arqs.Auth.text_eq arqs.Conventions.lowered arqs.Auth.strip
    arqs.Access.Client.first_part arqs.Auth.split_once
from_network = refl

from_bearer : extract_api_key (some []) (some (codes "bEArer  key ")) ≡ ok (codes "key")
unfolding extract_api_key arqs.Access.Client.bearer_key arqs.Access.Client.after_prefix
    arqs.Auth.text_eq arqs.Conventions.lowered arqs.Auth.strip
from_bearer = refl

from_nowhere : extract_api_key none (some (codes "basic key")) ≡ err missing_api_key
unfolding extract_api_key arqs.Access.Client.bearer_key arqs.Access.Client.after_prefix
    arqs.Auth.text_eq arqs.Conventions.lowered
from_nowhere = refl

-- ===== src/Access/Entry.antt =====
-- A request of a peer whose address has a rule: the rules of arqs-server/app/admin_services.py, the
-- cache that is loaded from them, and the middleware of arqs-server/app/main.py.
use arqs.Access.Client.{
  denied, finish, Outcome, is_trusted_proxy, Request, peer_ip, enforce_ip_policy_and_no_store,
  get_client_ip, NetworkConfig,
}
use arqs.Auth.{Text}
use arqs.Prelude.{
  has_row-append, some, Bool, Option, if◌then◌else◌, [], refl, arith, inr, ◌++◌, false, inl, ◌∷◌,
  update_rows, ◌==◌, Bool-cases, has_row, ◌≡◌, List, ℕ,
}
use arqs.Access.{
  dynamic, dynamic_allows, mode_allows, is_ip_allowed, set_ip_rule, AccessConfig, AccessTables,
  Action, IpRule, is_allow, load_snapshot,
}
use arqs.Access.Rules.{HasUniqueRules, is_ip_allowed_cached-load_snapshot, set_ip_rule-lookup}

has_row-update_rule :
    (b ip : ℕ) (rule : IpRule) (rules : List IpRule)
    → rule.ip ≡ ip
    → has_row (λ q. q.ip == b) (update_rows (λ q. q.ip == ip) (λ q. rule) rules)
      ≡ has_row (λ q. q.ip == b) rules
has_row-update_rule b ip rule [] e = refl
has_row-update_rule b ip rule (r ∷ rules) e = ground (arith, has_row-update_rule b ip rule rules e)

update_rules-HasUniqueRules :
    (ip : ℕ) (rule : IpRule) (rules : List IpRule)
    → rule.ip ≡ ip
    → HasUniqueRules rules
    → HasUniqueRules (update_rows (λ q. q.ip == ip) (λ q. rule) rules)
update_rules-HasUniqueRules ip rule [] e u = tt
update_rules-HasUniqueRules ip rule (r ∷ rules) e u =
    let keeps_ip : (if r.ip == ip then rule else r).ip ≡ r.ip = ground arith in
    (
      rw (keeps_ip, has_row-update_rule r.ip ip rule rules e) u.0,
      update_rules-HasUniqueRules ip rule rules e u.1,
    )

append_rule-HasUniqueRules :
    (rule : IpRule) (rules : List IpRule)
    → has_row (λ q. q.ip == rule.ip) rules ≡ false
    → HasUniqueRules rules
    → HasUniqueRules (rules ++ rule ∷ [])
append_rule-HasUniqueRules rule [] h u = (refl, tt)
append_rule-HasUniqueRules rule (r ∷ rules) h u = (
  rw (has_row-append (λ q. q.ip == r.ip) rules (rule ∷ [])) (ground arith),
  append_rule-HasUniqueRules rule rules (ground arith) u.1,
)

set_ip_rule-HasUniqueRules :
    (now ip : ℕ) (action : Action) (db : AccessTables)
    → HasUniqueRules db.rules
    → HasUniqueRules (set_ip_rule now ip action db).rules
unfolding set_ip_rule
set_ip_rule-HasUniqueRules now ip action db u =
    let rule : IpRule = record { ip = ip; action = action; created_at = now } in
    elim (Bool-cases (has_row (λ r. r.ip == ip) db.rules)) [
      | inl e ↦ rw e (update_rules-HasUniqueRules ip rule db.rules refl u)
      | inr e ↦ rw e (append_rule-HasUniqueRules rule db.rules e u)
    ]

module _ (parse : Text → Option ℕ) (text : ℕ → Text) (in_network : ℕ → Text → Option Bool)
    (network : NetworkConfig) (access : AccessConfig Text) where
  get_client_ip-untrusted :
      (request : Request) (host : Text) (a : ℕ)
      → request.client ≡ some host
      → parse host ≡ some a
      → has_row (is_trusted_proxy parse in_network a) network.trusted_proxies ≡ false
      → get_client_ip parse in_network network request ≡ host
  unfolding get_client_ip peer_ip
  get_client_ip-untrusted request host a c p t = rw (get_client_ip, c, p, t) (rw c refl)

  is_ip_allowed-set_ip_rule :
      (now a : ℕ) (action : Action) (db : AccessTables) (host : Text)
      → access.ip_access_mode ≡ dynamic
      → parse host ≡ some a
      → is_ip_allowed parse text access (set_ip_rule now a action db) host ≡ is_allow action
  unfolding is_ip_allowed mode_allows dynamic_allows
  is_ip_allowed-set_ip_rule now a action db host m p =
      rw (p, m, dynamic_allows, set_ip_rule-lookup now a a action db) (ground arith)

module _ (parse : Text → Option ℕ) (text : ℕ → Text) (in_network : ℕ → Text → Option Bool)
    (parse-text : (a : ℕ) → parse (text a) ≡ some a) (network : NetworkConfig)
    (access : AccessConfig Text) {B S : Type 0} where
  -- Once an operator sets a rule for an address and the cache is loaded again, the rule decides in
  -- the dynamic mode on every request whose peer has the address and is no trusted proxy, whatever
  -- its headers, the blacklist and the default policy are: allowed, the handler's outcome is
  -- returned; denied, the answer is 403 and the handler does not run.
  pub enforce_ip_policy-set_ip_rule :
      (now a : ℕ) (action : Action) (db : AccessTables) (request : Request) (host : Text)
      (call_next : S → Outcome B × S) (s : S)
      → HasUniqueRules db.rules
      → access.ip_access_mode ≡ dynamic
      → request.client ≡ some host
      → parse host ≡ some a
      → has_row (is_trusted_proxy parse in_network a) network.trusted_proxies ≡ false
      → enforce_ip_policy_and_no_store parse text in_network network access
          (some (load_snapshot parse text access (set_ip_rule now a action db)))
          request
          call_next
          s
        ≡ (if is_allow action then finish host host (call_next s) else denied host host s)
  unfolding enforce_ip_policy_and_no_store peer_ip
  enforce_ip_policy-set_ip_rule now a action db request host call_next s u m c p t =
      rw
        (
          get_client_ip-untrusted parse text in_network network access request host a c p t,
          c,
          is_ip_allowed_cached-load_snapshot parse text parse-text access
              (set_ip_rule now a action db) host (set_ip_rule-HasUniqueRules now a action db u),
          is_ip_allowed-set_ip_rule parse text in_network network access now a action db host m p,
        )
        refl

-- ===== src/Access.antt =====
-- Which addresses may reach the server: arqs-server/app/runtime_access_cache.py and the address
-- rules of arqs-server/app/admin_services.py. Addresses are parsed by Python's `ipaddress`, which is
-- a parameter: `parse` gives the canonical address of a text, or nothing, and `text` its text.
pub mod Rules
pub mod Client
pub mod Entry
use arqs.Prelude.{
  ℕ, Bool, true, false, not, ◌&&◌, ◌||◌, Option, none, some, List, [], ◌∷◌, ◌++◌, ◌==◌,
  if◌then◌else◌, has_row, find_row, delete_rows, update_rows, count_rows,
}
use arqs.Config.{RuntimeSettings}

pub data AccessMode : Type 0 where
  off config dynamic : AccessMode

pub data Action : Type 0 where
  allow deny : Action

abbrev pub is_allow : Action → Bool
is_allow allow = true
is_allow deny = false

-- A row of ip_access_rules; `ip` is the primary key.
pub record IpRule : Type 0 where
  pub ip : ℕ
  pub action : Action
  pub created_at : ℕ

-- The part of the database that decides: the rules and runtime_settings.default_ip_policy.
pub record AccessTables : Type 0 where
  pub rules : List IpRule
  pub default_ip_policy : Action

pub record RuntimeAccessSnapshot : Type 0 where
  pub ip_access_mode : AccessMode
  pub default_ip_policy : Action
  pub allowed_ips : List ℕ
  pub denied_ips : List ℕ

abbrev pub in_set : ℕ → List ℕ → Bool
in_set a s = has_row (λ x. x == a) s

abbrev pub discard : ℕ → List ℕ → List ℕ
discard a s = delete_rows (λ x. x == a) s

-- network.ip_access_mode and blacklist.client_ips of the configuration
pub record AccessConfig (Text : Type 0) : Type 0 where
  pub ip_access_mode : AccessMode
  pub client_ips : List Text

module _ {Text : Type 0} (parse : Text → Option ℕ) (text : ℕ → Text) where
  unfoldable pub same_address : Option ℕ → ℕ → Bool
  same_address none a = false
  same_address (some b) a = b == a

  unfoldable pub static_config_ip_denied : AccessConfig Text → Option ℕ → Bool
  unfolding same_address
  static_config_ip_denied cfg none = false
  static_config_ip_denied cfg (some a) = has_row (λ t. same_address (parse t) a) cfg.client_ips

  -- The rows of the query one after the other; a row whose text is no address is skipped.
  unfoldable pub load_rules : List IpRule → List ℕ × List ℕ → List ℕ × List ℕ
  load_rules [] sets = sets
  load_rules (r ∷ rules) sets = load_rules rules (elim (parse (text r.ip)) [
    | none ↦ sets
    | some a ↦
        if is_allow r.action then (a ∷ sets.0, discard a sets.1) else (discard a sets.0, a ∷ sets.1)
  ])

  -- The query sorts by address, which changes nothing, as an address has one row.
  unfoldable pub load_snapshot : AccessConfig Text → AccessTables → RuntimeAccessSnapshot
  unfolding load_rules
  load_snapshot cfg db =
      let sets : List ℕ × List ℕ = elim cfg.ip_access_mode [
        | dynamic ↦ load_rules db.rules ([], [])
        | _ ↦ ([], [])
      ] in
      record {
        ip_access_mode = cfg.ip_access_mode;
        default_ip_policy = db.default_ip_policy;
        allowed_ips = sets.0;
        denied_ips = sets.1;
      }

  abbrev is_member : Option ℕ → List ℕ → Bool
  is_member none s = false
  is_member (some a) s = in_set a s

  unfoldable pub snapshot_allows :
      AccessConfig Text → RuntimeAccessSnapshot → AccessMode → Option ℕ → Bool
  unfolding static_config_ip_denied
  snapshot_allows cfg s off a = true
  snapshot_allows cfg s config a = not (static_config_ip_denied cfg a)
  snapshot_allows cfg s dynamic a =
      if is_member a s.allowed_ips
      then true
      else if is_member a s.denied_ips
      then false
      else if static_config_ip_denied cfg a
      then false
      else is_allow s.default_ip_policy

  unfoldable pub uncached_allows : AccessConfig Text → AccessMode → Option ℕ → Bool
  unfolding static_config_ip_denied
  uncached_allows cfg off a = true
  uncached_allows cfg _ a = not (static_config_ip_denied cfg a)

  -- The snapshot is none until the cache is initialized.
  unfoldable pub is_ip_allowed_cached :
      AccessConfig Text → Option RuntimeAccessSnapshot → Text → Bool
  unfolding snapshot_allows uncached_allows
  is_ip_allowed_cached cfg none ip = uncached_allows cfg cfg.ip_access_mode (parse ip)
  is_ip_allowed_cached cfg (some s) ip = snapshot_allows cfg s s.ip_access_mode (parse ip)

  -- SELECT action FROM ip_access_rules WHERE ip
  abbrev pub rule_for : ℕ → List IpRule → Option IpRule
  rule_for a rules = find_row (λ r. r.ip == a) rules

  unfoldable pub dynamic_allows : AccessConfig Text → AccessTables → Option ℕ → Bool
  unfolding static_config_ip_denied
  dynamic_allows cfg db none = is_allow db.default_ip_policy
  dynamic_allows cfg db (some a) = elim (rule_for a db.rules) [
    | some r ↦ is_allow r.action
    | none ↦ if static_config_ip_denied cfg (some a) then false else is_allow db.default_ip_policy
  ]

  unfoldable pub mode_allows : AccessConfig Text → AccessTables → AccessMode → Option ℕ → Bool
  unfolding dynamic_allows static_config_ip_denied
  mode_allows cfg db off a = true
  mode_allows cfg db config a = not (static_config_ip_denied cfg a)
  mode_allows cfg db dynamic a = dynamic_allows cfg db a

  unfoldable pub is_ip_allowed : AccessConfig Text → AccessTables → Text → Bool
  unfolding mode_allows
  is_ip_allowed cfg db ip = mode_allows cfg db cfg.ip_access_mode (parse ip)

-- INSERT ... ON CONFLICT(ip) DO UPDATE
unfoldable pub set_ip_rule : ℕ → ℕ → Action → AccessTables → AccessTables
set_ip_rule now ip action db =
    let rule : IpRule = record { ip = ip; action = action; created_at = now } in
    if has_row (λ r. r.ip == ip) db.rules
    then record db { rules = update_rows (λ r. r.ip == ip) (λ r. rule) db.rules }
    else record db { rules = db.rules ++ rule ∷ [] }

-- `none` is AdminNotFoundError.
unfoldable pub remove_ip_rule : ℕ → AccessTables → Option AccessTables
remove_ip_rule ip db =
    if has_row (λ r. r.ip == ip) db.rules
    then some (record db { rules = delete_rows (λ r. r.ip == ip) db.rules })
    else none

-- update_runtime_settings(default_ip_policy=...); `none` is AdminConflictError.
unfoldable pub set_ip_policy : Action → AccessTables → Option AccessTables
set_ip_policy policy db =
    if not (is_allow policy) && (count_rows (λ r. is_allow r.action) db.rules == 0)
    then none
    else some (record db { default_ip_policy = policy })

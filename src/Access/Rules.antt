-- ===== src/Access/Rules.antt =====
-- The cached decision on an address and the decision of the database are the same.
use arqs.Prelude.{
  ℕ, ◌≡◌, refl, ◌∙◌, ap, inl, inr, Bool, true, false, not, ◌&&◌, Option, none, some, List, [], ◌∷◌,
  ◌==◌, if◌then◌else◌, has_row, find_row, update_rows, Bool-cases, arith, ==→≡, find_row-insert_new,
  find_row-insert_ne,
}
use arqs.Access.{
  AccessMode, off, config, dynamic, Action, allow, deny, is_allow, IpRule, AccessTables,
  AccessConfig, in_set, discard, load_rules, load_snapshot, is_ip_allowed_cached, is_ip_allowed,
  static_config_ip_denied, snapshot_allows, mode_allows, dynamic_allows, rule_for, set_ip_rule,
}

-- An address has at most one rule.
abbrev pub HasUniqueRules : List IpRule → Type 0
HasUniqueRules [] = Unit
HasUniqueRules (r ∷ rules) = (has_row (λ q. q.ip == r.ip) rules ≡ false) × HasUniqueRules rules

in_set-discard : (a b : ℕ) (s : List ℕ) → in_set a (discard b s) ≡ (in_set a s && not (b == a))
in_set-discard a b [] = refl
in_set-discard a b (x ∷ s) = ground (arith, in_set-discard a b s)

no_rule :
    (a : ℕ) (rules : List IpRule)
    → has_row (λ q. q.ip == a) rules ≡ false
    → find_row (λ q. q.ip == a) rules ≡ none
no_rule a [] h = refl
no_rule a (r ∷ rules) h = ground (arith, no_rule a rules)

-- What is in the two sets after a load: the action of the rule, or what was there.
abbrev loaded : (Action → Bool) → Bool → Option IpRule → Bool
loaded which before none = before
loaded which before (some r) = which r.action

abbrev is_deny : Action → Bool
is_deny allow = false
is_deny deny = true

module _ {Text : Type 0} (parse : Text → Option ℕ) (text : ℕ → Text)
    (canonical : (a : ℕ) → parse (text a) ≡ some a) where
  abbrev load_one : IpRule → List ℕ × List ℕ → List ℕ × List ℕ
  load_one r sets =
      if is_allow r.action
      then (r.ip ∷ sets.0, discard r.ip sets.1)
      else (discard r.ip sets.0, r.ip ∷ sets.1)

  load_rules-cons :
      (r : IpRule) (rules : List IpRule) (sets : List ℕ × List ℕ)
      → load_rules parse text (r ∷ rules) sets ≡ load_rules parse text rules (load_one r sets)
  unfolding load_rules
  load_rules-cons r rules sets = rw (canonical r.ip) refl

  load_one-allowed :
      (a : ℕ) (r : IpRule) (c : Action) (sets : List ℕ × List ℕ)
      → r.action ≡ c
      → in_set a (load_one r sets).0 ≡ (if r.ip == a then is_allow c else in_set a sets.0)
  load_one-allowed a r allow sets e = rw e (ground arith)
  load_one-allowed a r deny sets e = rw e (ground (arith, in_set-discard a r.ip sets.0))

  load_one-denied :
      (a : ℕ) (r : IpRule) (c : Action) (sets : List ℕ × List ℕ)
      → r.action ≡ c
      → in_set a (load_one r sets).1 ≡ (if r.ip == a then is_deny c else in_set a sets.1)
  load_one-denied a r allow sets e = rw e (ground (arith, in_set-discard a r.ip sets.1))
  load_one-denied a r deny sets e = rw e (ground arith)

  load_rules-allowed :
      (a : ℕ) (rules : List IpRule) (sets : List ℕ × List ℕ)
      → HasUniqueRules rules
      → in_set a (load_rules parse text rules sets).0
        ≡ loaded is_allow (in_set a sets.0) (rule_for parse text a rules)
  unfolding load_rules
  load_rules-allowed a [] sets u = refl
  load_rules-allowed a (r ∷ rules) sets u =
      ap (in_set a) (ap (λ (s : List ℕ × List ℕ). s.0) (load_rules-cons r rules sets))
      ∙ load_rules-allowed a rules (load_one r sets) u.1
      ∙ elim (Bool-cases (r.ip == a)) [
        | inl e ↦
            rw (e, no_rule a rules (rw (==→≡ r.ip a e) at u.0))
              (load_one-allowed a r r.action sets refl ∙ rw e refl)
        | inr e ↦ rw (e, load_one-allowed a r r.action sets refl, e) refl
      ]

  load_rules-denied :
      (a : ℕ) (rules : List IpRule) (sets : List ℕ × List ℕ)
      → HasUniqueRules rules
      → in_set a (load_rules parse text rules sets).1
        ≡ loaded is_deny (in_set a sets.1) (rule_for parse text a rules)
  unfolding load_rules
  load_rules-denied a [] sets u = refl
  load_rules-denied a (r ∷ rules) sets u =
      ap (in_set a) (ap (λ (s : List ℕ × List ℕ). s.1) (load_rules-cons r rules sets))
      ∙ load_rules-denied a rules (load_one r sets) u.1
      ∙ elim (Bool-cases (r.ip == a)) [
        | inl e ↦
            rw (e, no_rule a rules (rw (==→≡ r.ip a e) at u.0))
              (load_one-denied a r r.action sets refl ∙ rw e refl)
        | inr e ↦ rw (e, load_one-denied a r r.action sets refl, e) refl
      ]

  by_rule :
      (o : Option IpRule) (static : Bool) (policy : Action)
      → (if loaded is_allow false o
          then true
          else if loaded is_deny false o
          then false
          else if static
          then false
          else is_allow policy)
        ≡ elim o [ some r ↦ is_allow r.action | none ↦ if static then false else is_allow policy ]
  by_rule none static policy = refl
  by_rule (some r) static policy = by_action r.action
    where
      by_action :
          (c : Action)
          → (if is_allow c
              then true
              else if is_deny c
              then false
              else if static
              then false
              else is_allow policy)
            ≡ is_allow c
      by_action allow = refl
      by_action deny = refl

  mode_allows-load :
      (cfg : AccessConfig Text) (db : AccessTables) (mode : AccessMode) (o : Option ℕ)
      → HasUniqueRules db.rules
      → cfg.ip_access_mode ≡ mode
      → snapshot_allows parse text cfg (load_snapshot parse text cfg db) mode o
        ≡ mode_allows parse text cfg db mode o
  unfolding snapshot_allows mode_allows load_snapshot dynamic_allows static_config_ip_denied
  mode_allows-load cfg db off o u e = refl
  mode_allows-load cfg db config o u e = refl
  mode_allows-load cfg db dynamic none u e = refl
  mode_allows-load cfg db dynamic (some a) u e =
      rw (e, load_rules-allowed a db.rules ([], []) u, load_rules-denied a db.rules ([], []) u)
        (by_rule (rule_for parse text a db.rules) (static_config_ip_denied parse text cfg (some a))
          db.default_ip_policy)

  -- A request is let in by a freshly loaded cache exactly if the database lets it in, in every mode
  -- and for every text of an address, also for one that is no address. An address has at most one
  -- rule, and parsing the text of an address gives that address.
  pub is_ip_allowed_cached-load_snapshot :
      (cfg : AccessConfig Text) (db : AccessTables) (ip : Text)
      → HasUniqueRules db.rules
      → is_ip_allowed_cached parse text cfg (some (load_snapshot parse text cfg db)) ip
        ≡ is_ip_allowed parse text cfg db ip
  unfolding is_ip_allowed_cached is_ip_allowed load_snapshot
  is_ip_allowed_cached-load_snapshot cfg db ip u =
      mode_allows-load cfg db cfg.ip_access_mode (parse ip) u refl

rule_for-update :
    (a ip : ℕ) (rule : IpRule) (rules : List IpRule)
    → rule.ip ≡ ip
    → find_row (λ r. r.ip == a) (update_rows (λ r. r.ip == ip) (λ r. rule) rules) ≡ (
        if (ip == a) && has_row (λ r. r.ip == ip) rules
        then some rule
        else find_row (λ r. r.ip == a) rules)
rule_for-update a ip rule [] e = ground arith
rule_for-update a ip rule (r ∷ rules) e = ground (arith, rule_for-update a ip rule rules e)

-- After a rule is set, it is the rule of its address, whether or not there was one, and the rules of
-- all other addresses are what they were.
pub set_ip_rule-lookup :
    (now ip a : ℕ) (action : Action) (db : AccessTables)
    → find_row (λ r. r.ip == a) (set_ip_rule now ip action db).rules ≡ (
        if ip == a
        then some (record { ip = ip; action = action; created_at = now })
        else find_row (λ r. r.ip == a) db.rules)
unfolding set_ip_rule
set_ip_rule-lookup now ip a action db =
    let rule : IpRule = record { ip = ip; action = action; created_at = now } in
    elim (Bool-cases (has_row (λ r. r.ip == ip) db.rules)) [
      | inl e ↦ rw e (rule_for-update a ip rule db.rules refl ∙ rw e (ground arith))
      | inr e ↦ rw e (elim (Bool-cases (ip == a)) [
        | inl same ↦
            rw same
              (find_row-insert_new (λ r. r.ip == a) db.rules rule (rw (==→≡ ip a same) at e) same)
        | inr other ↦ rw other (find_row-insert_ne (λ r. r.ip == a) db.rules rule other)
      ])
    ]

-- ===== src/Transport.antt =====
-- TransportResolver of apis/appkit/transport.py: which URL a client talks to and whether it may send
-- its key over HTTP. URLs are a parameter, with their scheme (`urlsplit`); the probe is what
-- probe_transport of apis/arqs_api.py returned.
pub mod Secure
use arqs.Prelude.{
  ℕ, Bool, true, false, not, ◌&&◌, ◌||◌, Option, none, some, List, [], ◌∷◌, if◌then◌else◌,
}

pub data Policy : Type 0 where
  require_https prefer_https allow_http : Policy

pub data Scheme : Type 0 where
  http https : Scheme

abbrev pub is_http : Scheme → Bool
is_http http = true
is_http https = false

pub data ResolveError : Type 0 where
  https_not_reachable public_http_blocked unreachable unreachable_allow_http : ResolveError

pub data Resolved {ℓ} (A : Type ℓ) : Type ℓ where
  ok : A → Resolved A
  err : ResolveError → Resolved A

module _ (Url : Type 0) where
  -- http_attempt and https_attempt, whether they reached the server, with the URLs they went to.
  pub record Probe : Type 0 where
    pub http_reachable : Bool
    pub https_reachable : Bool
    pub normalized_http_base_url : Option Url
    pub normalized_https_base_url : Option Url

  -- `remembers_http`: preference_updates has "allow_http" for the host.
  pub record TransportResolution : Type 0 where
    pub base_url : Url
    pub transport_policy : Policy
    pub allow_local_http_auth : Bool
    pub remembers_http : Bool

module _ {Url : Type 0} (scheme : Url → Scheme) where
  -- `reachable and url is not None`
  abbrev pub usable : Bool → Option Url → Option Url
  usable false url = none
  usable true url = url

  unfoldable pub https_url : Probe Url → Option Url
  https_url p = usable p.https_reachable p.normalized_https_base_url

  unfoldable pub http_url : Probe Url → Option Url
  http_url p = usable p.http_reachable p.normalized_http_base_url

  unfoldable pub or_else : Option Url → Resolved Url → Resolved Url
  or_else none rest = rest
  or_else (some url) rest = ok url

  -- The configured scheme is tried first, then HTTPS, then HTTP.
  unfoldable pub choose_allow_http_base_url : Scheme → Probe Url → Resolved Url
  unfolding or_else
  choose_allow_http_base_url configured p =
      let rest = or_else (https_url p) (or_else (http_url p) (err unreachable_allow_http)) in
      elim configured [ https ↦ or_else (https_url p) rest | http ↦ or_else (http_url p) rest ]

  unfoldable pub effective_policy : Option Policy → Policy → Policy
  effective_policy (some remembered) policy = remembered
  effective_policy none policy = policy

  unfoldable pub over_https :
      Policy → Option Url → ResolveError → Resolved (TransportResolution Url)
  over_https policy none e = err e
  over_https policy (some url) e = ok (record {
    base_url = url;
    transport_policy = policy;
    allow_local_http_auth = false;
    remembers_http = false;
  })

  unfoldable pub over_any : Bool → Resolved Url → Resolved (TransportResolution Url)
  over_any has_host (err e) = err e
  over_any has_host (ok url) = ok (record {
    base_url = url;
    transport_policy = allow_http;
    allow_local_http_auth = true;
    remembers_http = is_http (scheme url) && has_host;
  })

  unfoldable pub remembered_http : Option Policy → Bool
  remembered_http (some allow_http) = true
  remembered_http _ = false

  unfoldable pub over_http :
      Bool → Bool → Option Policy → Option Url → Resolved (TransportResolution Url)
  unfolding remembered_http
  over_http has_host is_local remembered none = err unreachable
  over_http has_host is_local remembered (some url) =
      if not is_local && not (remembered_http remembered)
      then err public_http_blocked
      else ok (record {
        base_url = url;
        transport_policy = allow_http;
        allow_local_http_auth = true;
        remembers_http = has_host;
      })

  unfoldable pub prefer_secure :
      Bool → Bool → Option Policy → Probe Url → Option Url → Resolved (TransportResolution Url)
  unfolding over_https over_http
  prefer_secure has_host is_local remembered p none =
      over_http has_host is_local remembered (http_url p)
  prefer_secure has_host is_local remembered p (some url) =
      over_https prefer_https (some url) unreachable

  -- `has_host`: the URL names a host, under which the preference is kept; `is_local`:
  -- _is_local_or_private_host of it.
  unfoldable pub resolve :
      Bool → Bool → Url → Policy → Option Policy → Probe Url → Resolved (TransportResolution Url)
  unfolding over_https over_any prefer_secure choose_allow_http_base_url
  resolve has_host is_local configured policy remembered p =
      elim (effective_policy remembered policy) [
        | require_https ↦ over_https require_https (https_url p) https_not_reachable
        | allow_http ↦ over_any has_host (choose_allow_http_base_url (scheme configured) p)
        | prefer_https ↦ prefer_secure has_host is_local remembered p (https_url p)
      ]

-- ===== src/Transport/Secure.antt =====
-- When a client may talk to the server over plain HTTP.
use arqs.Prelude.{◌≡◌, ◌⊎◌, Bool, true, false, none, some}
use arqs.Transport.{
  Policy, allow_http, Scheme, https, is_http, Probe, TransportResolution, https_url,
}

abbrev pub allows_http : Policy → Bool
allows_http allow_http = true
allows_http _ = false

module _ {Url : Type 0} (scheme : Url → Scheme) where
  -- The URL that the probe of HTTPS went to is an HTTPS URL.
  abbrev pub IsProbe : Probe Url → Type 0
  IsProbe p = (url : Url) → p.normalized_https_base_url ≡ some url → scheme url ≡ https

  -- What makes a resolution safe: HTTPS and no key over HTTP, or HTTP was asked for, or the host is
  -- local and HTTPS does not answer.
  abbrev pub IsSafe : Bool → Policy → Probe Url → TransportResolution Url → Type 0
  IsSafe is_local policy p r =
      ((is_http (scheme r.base_url) ≡ false) × (r.allow_local_http_auth ≡ false))
      ⊎ ((allows_http policy ≡ true) ⊎ ((is_local ≡ true) × (https_url scheme p ≡ none)))

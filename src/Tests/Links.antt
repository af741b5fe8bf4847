-- ===== src/Tests/Links.antt =====
-- Bob redeems a link code of Alice, and the link is revoked.
use arqs.Config.{default_settings}
use arqs.Prelude.{false, ◌≡◌, refl, [], ◌∷◌, true}
use arqs.Http.{ok}
use arqs.Models.{LinkStatus, Db, Link, LinkCode, CodeStatus, bidirectional, empty_db}
use arqs.Services
use arqs.Services.{cleanup_expired, active_route_exists}
use arqs.Server.Links
use arqs.Server.Links.{redeem_link_code, revoke_link}
use arqs.Server.Links.Redeem.{is_error}
use arqs.Server.Links.Once.{at_once, after, redeem_link_code-once}
use arqs.Server.Consistent.Steps.{cleaning}
use arqs.Server.Links.Routes.{revoke_link-routes, revoke_link-redeem_link_code}
use arqs.Tests.Scene.{
  alice, bob, alice_endpoint, bob_endpoint, their_link, to_bob, to_alice, linked,
}

abbrev the_code : LinkCode
the_code = record {
  link_code_id = 70;
  code = "ABC123";
  source_endpoint_id = 10;
  requested_mode = bidirectional;
  created_at = 5;
  expires_at = 100;
  status = CodeStatus.active;
}

abbrev unlinked : Db
unlinked = record empty_db {
  nodes = alice ∷ bob ∷ [];
  endpoints = alice_endpoint ∷ bob_endpoint ∷ [];
  link_codes = the_code ∷ [];
}

abbrev with_link : Db
with_link = record linked { link_codes = record the_code { status = CodeStatus.used } ∷ [] }

redeemed :
    redeem_link_code 6 30 (31 ∷ 32 ∷ []) "ABC123" 20 bob unlinked unlinked
    ≡ (ok their_link, with_link)
unfolding redeem_link_code Links.redeem_checked Services.ensure_node_active
    Services.ensure_node_owns_endpoint Links.redeem_code Links.claim Links.connect
    Links.source_unavailable Services.exact_active_link_exists Links.any_route_exists
    Services.resolve_redeem_routes active_route_exists Links.new_routes
redeemed = refl

-- A cleanup comes between the two redemptions.
abbrev cleaned : Db
cleaned = (cleanup_expired 7 default_settings with_link).1

redeem_link_code-once_example :
    is_error (redeem_link_code 7 33 (34 ∷ 35 ∷ []) "ABC123" 20 bob unlinked cleaned).0 ≡ true
redeem_link_code-once_example =
    redeem_link_code-once 6 30 (31 ∷ 32 ∷ []) "ABC123" 20 bob unlinked unlinked their_link with_link
      cleaned the_code 7 33 (34 ∷ 35 ∷ []) "ABC123" 20 bob unlinked the_code redeemed refl
      (after at_once (cleaning 7 default_settings) tt) refl refl

opened_back : active_route_exists with_link 20 10 ≡ true
unfolding active_route_exists
opened_back = refl

abbrev revoked : Db
revoked = record with_link {
  links = record their_link { status = LinkStatus.revoked } ∷ [];
  routes =
      record to_bob { status = LinkStatus.revoked }
      ∷ record to_alice { status = LinkStatus.revoked }
      ∷ [];
}

bob_revokes : revoke_link 30 bob with_link ≡ (ok 30, revoked)
unfolding revoke_link arqs.Models.Cascade.owns_endpoint Links.created_by
bob_revokes = refl

revoke_link-routes_example : active_route_exists revoked 10 20 ≡ false
unfolding Links.created_by
revoke_link-routes_example = revoke_link-routes 30 bob with_link 30 revoked bob_revokes 10 20

revoke_link-redeem_link_code_example :
    active_route_exists revoked 10 20 ≡ active_route_exists unlinked 10 20
revoke_link-redeem_link_code_example =
    revoke_link-redeem_link_code 6 30 (31 ∷ 32 ∷ []) "ABC123" 20 bob bob unlinked unlinked
      their_link with_link 30 revoked refl redeemed bob_revokes 10 20

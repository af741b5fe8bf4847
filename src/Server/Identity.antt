-- ===== src/Server/Identity.antt =====
-- register, self_rotate_key and delete_identity of arqs-server/app/main.py. New uuids, and the
-- secret and the salt of a new key, are arguments.
pub mod Deleted
use arqs.Auth.{Text, Crypto, hash_api_key, generate_api_key}
use arqs.Prelude.{ℕ, ◌||◌, Option, some, List, [], ◌∷◌, ◌++◌, String, ◌==◌, count_rows, update_rows}
use arqs.Json.{end}
use arqs.Http.{NodeStatus, Result, ok, ◌>>◌}
use arqs.Models.{Node, EndpointStatus, Db}
use arqs.Models.Cascade.{delete_node, owns_endpoint}
use arqs.Services.{ensure_node_active}
use arqs.Txn.{atomically}

pub record RegisterResponse : Type 0 where
  pub node_id : ℕ
  pub api_key : List ℕ
  pub default_endpoint_id : ℕ

unfoldable pub register :
    Crypto → ℕ → ℕ → ℕ → Text → Text → List ℕ → Option String → Db → Result RegisterResponse × Db
register crypto now node_id endpoint_id key_id secret salt name db =
    let api_key = generate_api_key crypto key_id secret in
    (
      ok (record { node_id = node_id; api_key = api_key; default_endpoint_id = endpoint_id }),
      record db {
        nodes =
            db.nodes
            ++ record {
              node_id = node_id;
              key_id = key_id;
              api_key_hash = hash_api_key crypto salt api_key;
              node_name = name;
              created_at = now;
              status = NodeStatus.active;
            }
              ∷ [];
        endpoints =
            db.endpoints
            ++ record {
              endpoint_id = endpoint_id;
              node_id = node_id;
              endpoint_name = some "default";
              kind = some "default";
              meta = some end;
              created_at = now;
              status = EndpointStatus.active;
            }
              ∷ [];
      },
    )

-- The key id stays; only the hash of the row is written.
unfoldable pub self_rotate_key : Crypto → Text → List ℕ → Node → Db → Result (ℕ × Text) × Db
unfolding ensure_node_active
self_rotate_key crypto secret salt node db = atomically db do
  ensure_node_active node
  let api_key = generate_api_key crypto node.key_id secret
  ok (
    (node.node_id, api_key),
    record db {
      nodes =
          update_rows (λ n. n.node_id == node.node_id)
            (λ n. record n { api_key_hash = hash_api_key crypto salt api_key }) db.nodes;
    },
  )

pub record DeleteIdentityResponse : Type 0 where
  pub node_id : ℕ
  pub endpoints_deleted : ℕ
  pub links_deleted : ℕ
  pub routes_deleted : ℕ
  pub link_codes_deleted : ℕ
  pub packets_deleted : ℕ
  pub deliveries_deleted : ℕ
  pub send_events_deleted : ℕ

-- Without endpoints `owns_endpoint` accepts nothing, so that the counts are those of the source's
-- `else` branch.
unfoldable pub delete_identity : Node → Db → Result DeleteIdentityResponse × Db
unfolding delete_node owns_endpoint
delete_identity node db =
    let owned = owns_endpoint db node.node_id in
    (
      ok (record {
        node_id = node.node_id;
        endpoints_deleted = count_rows (λ e. e.node_id == node.node_id) db.endpoints;
        links_deleted = count_rows (λ l. owned l.endpoint_a_id || owned l.endpoint_b_id) db.links;
        routes_deleted =
            count_rows (λ r. owned r.from_endpoint_id || owned r.to_endpoint_id) db.routes;
        link_codes_deleted = count_rows (λ c. owned c.source_endpoint_id) db.link_codes;
        packets_deleted =
            count_rows
              (λ p.
                (p.sender_node_id == node.node_id)
                || owned p.from_endpoint_id
                || owned p.to_endpoint_id)
              db.packets;
        deliveries_deleted =
            count_rows
              (λ d. (d.destination_node_id == node.node_id) || owned d.destination_endpoint_id)
              db.deliveries;
        send_events_deleted = count_rows (λ e. e.node_id == node.node_id) db.send_events;
      }),
      delete_node node.node_id db,
    )

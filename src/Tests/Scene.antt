-- ===== src/Tests/Scene.antt =====
-- Two nodes, 1 and 2, whose endpoints 10 and 20 are linked in both directions.
use arqs.Prelude.{none, some, [], ◌∷◌}
use arqs.Json.{end, field, str}
use arqs.Http.{NodeStatus}
use arqs.Models.{
  Node, Endpoint, EndpointStatus, Link, LinkStatus, bidirectional, DirectedRoute, Db, empty_db,
}
use arqs.Config.{default_settings, default_retention}
use arqs.Server.Packets.{SendEnv, SendRequest}

abbrev pub alice : Node
alice = record {
  node_id = 1;
  key_id = 101 ∷ [];
  api_key_hash = [];
  node_name = none;
  created_at = 5;
  status = NodeStatus.active;
}

abbrev pub bob : Node
bob = record alice { node_id = 2; key_id = 102 ∷ [] }

abbrev pub alice_endpoint : Endpoint
alice_endpoint = record {
  endpoint_id = 10;
  node_id = 1;
  endpoint_name = some "default";
  kind = some "default";
  meta = some end;
  created_at = 5;
  status = EndpointStatus.active;
}

abbrev pub bob_endpoint : Endpoint
bob_endpoint = record alice_endpoint { endpoint_id = 20; node_id = 2 }

abbrev pub their_link : Link
their_link = record {
  link_id = 30;
  endpoint_a_id = 10;
  endpoint_b_id = 20;
  mode = bidirectional;
  created_at = 6;
  status = LinkStatus.active;
}

abbrev pub to_bob : DirectedRoute
to_bob = record {
  route_id = 31;
  from_endpoint_id = 10;
  to_endpoint_id = 20;
  created_at = 6;
  status = LinkStatus.active;
  created_by_link_id = some 30;
}

abbrev pub to_alice : DirectedRoute
to_alice = record to_bob { route_id = 32; from_endpoint_id = 20; to_endpoint_id = 10 }

abbrev pub linked : Db
linked = record empty_db {
  nodes = alice ∷ bob ∷ [];
  endpoints = alice_endpoint ∷ bob_endpoint ∷ [];
  links = their_link ∷ [];
  routes = to_bob ∷ to_alice ∷ [];
}

abbrev pub hello : SendRequest
hello = record {
  version = 1;
  packet_id = 40;
  from_endpoint_id = 10;
  to_endpoint_id = 20;
  headers = field "arqs_type" (str "message.v1") end;
  body = some "hello";
  payload = end;
  meta = end;
  ttl_seconds = some 60;
}

abbrev pub send_env : SendEnv
send_env = record {
  now = 100;
  settings = default_settings;
  retention = default_retention;
  storage_bytes = 4096;
  event_id = 50;
  delivery_id = 60;
}

-- ===== src/Registry/Tests.antt =====
-- A node that comes back, and the theorem of this part at it.
use constrainable.Base.{◌≢◌, String, eq_iff, ◌≡◌, refl, none, []}
use constrainable.Registry.{Registry, NodeReport, derive_node_id, register}

abbrev report : NodeReport
report = record {
  identifier = "https://Node_1.example.org:38081/x";
  hostname = "h1";
  version = "1";
  srs_flv_base = "";
  public_origin = "";
  public_rtmp_port = 0;
  public_probe_udp_port = none;
  public_srs_udp_port = none;
}

derived : derive_node_id "https://Node_1.example.org:38081/x" ≡ "node-1-example-org"
unfolding derive_node_id
derived = refl

abbrev nobody : Registry
nobody = record { nodes = []; socket_to_node = [] }

abbrev first : Registry
first = (register 1000 "c1" report nobody).1

apart : ◌≢◌ {A = String} "c1" "c2"
apart e = cc ((eq_iff "c1" "c2").1 e)

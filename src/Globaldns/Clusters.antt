-- ===== src/Globaldns/Clusters.antt =====
-- pkg/globaldns/globaldns.go: the zones of all clusters on one server, whatever arrives.

use gao_cloud.Prelude.{String, List, []}
use gao_cloud.Globaldns.Ingresses.{new_hosts}
use gao_cloud.Globaldns.Manager.{Arrival, from_k8s}

-- The hosts that an arrival brings.
abbrev pub arrival_hosts : Arrival → List String
arrival_hosts (from_k8s name ev) = new_hosts ev
arrival_hosts _ = []

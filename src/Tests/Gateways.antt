-- ===== src/Tests/Gateways.antt =====
-- A gateway over two clusters, of which one has a service of an unknown type.
use sco.Common.{ℕ, ◌≡◌, refl, List, [], ◌∷◌, ◌++◌, Option, none, some}
use sco.Common.Result.{ok, err}
use sco.Common.Text.{Text, codes}
use sco.Server.Gateway.Serving.{start_tcp_server}
use sco.Server.Cluster.{Service, Cluster}
use sco.Server.Gateway.{tcp, PublicServer, start_public_servers}
use sco.Server.Gateway.Starting.{start_public_servers-unknown}
use sco.Tests.Cluster.{service}

abbrev web : Service ℕ
web = record service { ports = (codes "80", codes "8080") ∷ (codes "81", codes "8081") ∷ [] }

abbrev mail : Service ℕ
mail = record service { type = codes "udp" }

abbrev clusters : List (Cluster ℕ)
clusters =
    record { name = codes "blue"; services = web ∷ [] }
    ∷ record { name = codes "red"; services = mail ∷ web ∷ [] }
    ∷ []

abbrev serving : Text → Text → PublicServer ℕ
serving ctr_port host_port = record {
  kind = tcp;
  service = web;
  ctr_port = ctr_port;
  host_port = host_port;
}

start_public_servers-unknown_example : start_public_servers clusters ≡ (
  some (codes "unknown service type: udp"),
  serving (codes "80") (codes "8080") ∷ serving (codes "81") (codes "8081") ∷ [],
)
unfolding sco.Common.Text.Text-discrete
start_public_servers-unknown_example =
    start_public_servers-unknown clusters (web ∷ []) (web ∷ []) mail refl ((λ e. cc), tt) refl

-- The port is open, and the third Accept fails.
start_tcp_server_run :
    start_tcp_server {A = ℕ} (ok tt) (ok 1 ∷ ok 2 ∷ err (codes "closed") ∷ ok 3 ∷ []) ≡ 1 ∷ 2 ∷ []
start_tcp_server_run = refl

start_tcp_server_refused : start_tcp_server {A = ℕ} (err (codes "in use")) (ok 1 ∷ []) ≡ []
start_tcp_server_refused = refl

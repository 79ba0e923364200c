-- ===== src/Server/Cli.antt =====
-- server/cmd/cli/main.go: a node and a cluster that are written into the program. `float` gives the
-- float32 of a number; the logging service is left out.
use sco.Common.{ℕ, ◌*◌, List, [], ◌∷◌, Option, none, some}
use sco.Common.Int.{pos}
use sco.Common.Run.{Run, done, panic}
use sco.Common.Result.{Result, ok, err}
use sco.Common.Text.{Text, codes}
use sco.Server.Cluster.{Service, Cluster, load_balance_strategy_round_robin}
use sco.Server.ClusterStore
use sco.Server.NodeStore
use sco.Server.NodeStore.{Node}
use sco.Server.Node.{Icmp, ping}
use sco.Server.Gateway.{PublicServer, start_public_servers}

module _ {F Conn : Type 0} (float : ℕ → F) where
  abbrev pub example_node : Node F Conn
  example_node = record {
    id = codes "node-1";
    host = codes "localhost";
    max_cpu = float 14;
    used_cpu = float 4;
    max_memory = pos (24 * 1024 * 1024 * 1024);
    used_memory = pos (8 * 1024 * 1024 * 1024);
    conn = none;
  }

  -- if err := n.Ping(); err != nil { panic(err) }, and the rest of testNode
  abbrev pub pinged : {W : Type 0} → Result Text (Unit {0}) × W → Run (NodeStore.Store F Conn × W)
  pinged (err e, w) = panic
  pinged (ok u, w) = done (NodeStore.add example_node NodeStore.new, w)

  unfoldable pub test_node : {W A : Type 0} → Icmp W A → W → Run (NodeStore.Store F Conn × W)
  test_node net w = pinged (ping net example_node w)

module _ {F : Type 0} (float : ℕ → F) where
  abbrev pub http_service : Service F
  http_service = record {
    type = codes "tcp";
    name = codes "http-service";
    image = codes "nginx:latest";
    command = codes "nginx" ∷ codes "-g" ∷ codes "daemon off;" ∷ [];
    environment_variables = codes "ENV_VAR_1=value1" ∷ [];
    ports = (codes "80", codes "8080") ∷ [];
    volumes = codes "/path/to/host:/path/to/container" ∷ [];
    max_cpu = float 1;
    max_memory = pos 200;
    replicas = pos 5;
    load_balance_strategy = load_balance_strategy_round_robin;
    endpoints =
        (
          codes "80",
          record { node_id = codes "node-1"; host = codes "127.0.0.1"; port = codes "8090" } ∷ [],
        )
        ∷ [];
    round_robin_counter = pos 0;
  }

  abbrev pub fun_cluster : Cluster F
  fun_cluster = record { name = codes "fun-cluster"; services = http_service ∷ [] }

  -- if err := gw.StartPublicServers(); err != nil { panic(err) }
  abbrev pub started : Option Text × List (PublicServer F) → Run (List (PublicServer F))
  started (some e, servers) = panic
  started (none, servers) = done servers

  -- if err != nil { panic(err) }, and the rest of testGateway
  abbrev pub added : ClusterStore.Store F × Option ClusterStore.Error → Run (List (PublicServer F))
  added (cs, some e) = panic
  added (cs, none) = started (start_public_servers (ClusterStore.list cs))

  unfoldable pub test_gateway : Run (List (PublicServer F))
  test_gateway = added (ClusterStore.add fun_cluster ClusterStore.new)

-- ===== src/Server/Gateway/Serving.antt =====
-- The accepting goroutines of startTcpServer in server/internal/gateway/gateway.go. What the goroutine
-- of a connection does is handle_tcp of Server/Gateway; in which order and how interleaved these
-- goroutines run is left open.
use sco.Common.{List, [], ◌∷◌}
use sco.Common.Result.{Result, ok, err}
use sco.Common.Text.{Text}

-- The accept loop, for what its calls of Accept return: the connections for which it starts a
-- goroutine, in their order. An error of Accept ends it, and the server with it.
abbrev tcp_loop : {A : Type 0} → List (Result Text A) → List A
tcp_loop [] = []
tcp_loop (err e ∷ conns) = []
tcp_loop (ok conn ∷ conns) = conn ∷ tcp_loop conns

-- The goroutine of startTcpServer for one port; the first argument is what net.Listen returned.
abbrev pub start_tcp_server : {A : Type 0} → Result Text (Unit {0}) → List (Result Text A) → List A
start_tcp_server (err e) conns = []
start_tcp_server (ok ln) conns = tcp_loop conns

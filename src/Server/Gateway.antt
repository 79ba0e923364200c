-- ===== src/Server/Gateway.antt =====
-- server/internal/gateway: which servers start, and what becomes of a request or a connection. The
-- listening sockets, net.Dial and http.DefaultClient.Do are outside; so is the copying of bytes.
pub mod Starting
pub mod Requests
pub mod Serving
use sco.Common.{ℕ, Bool, true, false, List, [], ◌∷◌, ◌++◌, map, Option, none, some, ite}
use sco.Common.Dict.{text_key, same, insert}
use sco.Common.Result.{Result, ok, err}
use sco.Common.Run.{Run, done, ◌>>=◌}
use sco.Common.Text.{Text, codes}
use sco.Server.Cluster.{Endpoint, address, Service, Cluster, pick_endpoint}

-- ServiceTypeTCP and ServiceTypeHTTP
pub data Kind : Type 0 where
  tcp http : Kind

abbrev pub kind_of : Text → Option Kind
kind_of type =
    ite (same type (codes "tcp")) (some tcp) (ite (same type (codes "http")) (some http) none)

-- A goroutine that startTcpServer or startHttpServer starts
pub record PublicServer (F : Type 0) : Type 0 where
  pub kind : Kind
  pub service : Service F
  pub ctr_port : Text
  pub host_port : Text

module _ {F : Type 0} where
  -- startTcpServer and startHttpServer: one server for each port
  abbrev pub start_service : Kind → Service F → List (PublicServer F)
  start_service kind s =
      map (λ p. record { kind = kind; service = s; ctr_port = p.0; host_port = p.1 }) s.ports

  -- The loop over the services of a cluster; `started` is what runs already.
  unfoldable pub start_services :
      List (Service F) → List (PublicServer F) → Option Text × List (PublicServer F)
  start_services [] started = (none, started)
  start_services (s ∷ services) started = elim (kind_of s.type) [
    | none ↦ (some (codes "unknown service type: " ++ s.type), started)
    | some kind ↦ start_services services (started ++ start_service kind s)
  ]

  -- Where one cluster's services returned an error, the loop over the clusters is left.
  abbrev pub next_cluster :
      (List (PublicServer F) → Option Text × List (PublicServer F))
      → Option Text × List (PublicServer F)
      → Option Text × List (PublicServer F)
  next_cluster rest (none, started) = rest started
  next_cluster rest (some e, started) = (some e, started)

  unfoldable pub start_clusters :
      List (Cluster F) → List (PublicServer F) → Option Text × List (PublicServer F)
  unfolding start_services
  start_clusters [] started = (none, started)
  start_clusters (cl ∷ clusters) started =
      next_cluster (start_clusters clusters) (start_services cl.services started)

  -- StartPublicServers, for what List returned
  pub start_public_servers : List (Cluster F) → Option Text × List (PublicServer F)
  unfolding start_clusters
  start_public_servers clusters = start_clusters clusters []

-- The parts of a http.Request that forwardHttpReq sets
pub record Request : Type 0 where
  pub url_host : Text
  pub host : Text
  pub remote_addr : Text
  pub header : List (Text × List Text)

pub record HttpResponse : Type 0 where
  pub status_code : ℕ
  pub body : Text

-- Header.Set, for a key in its canonical form
abbrev pub set_header : Text → Text → List (Text × List Text) → List (Text × List Text)
set_header key value header = insert key (value ∷ []) header

-- forwardHttpReq up to the request to the endpoint; req.Host has been overwritten when it is read.
unfoldable pub forwarded : Endpoint → Request → Request
forwarded e req = record {
  url_host = address e;
  host = address e;
  remote_addr = address e;
  header = set_header (codes "X-Real-Ip") (address e) (
      set_header (codes "X-Forwarded-Proto") (codes "http") (
        set_header (codes "X-Forwarded-Host") (address e)
          (set_header (codes "X-Forwarded-For") (address e) req.header)));
}

-- http.Error
abbrev pub http_error : ℕ → Text → HttpResponse
http_error code text = record { status_code = code; body = text ++ 10 ∷ [] }

-- The reply of the HTTP handler: the status and the body of the response, and none of its headers.
abbrev pub relay : Result Text HttpResponse → HttpResponse
relay (ok resp) = record { status_code = resp.status_code; body = resp.body }
relay (err e) = http_error 500 (codes "Internal Server Error")

-- What becomes of an accepted TCP connection: with which endpoint bytes were exchanged, and which
-- of the two connections were closed.
pub record TcpEnd : Type 0 where
  pub endpoint : Option Endpoint
  pub client_closed : Bool
  pub endpoint_closed : Bool

-- forwardTcpConn, and what its caller does on an error; the argument is what net.Dial returned.
abbrev pub forward_tcp_conn : Endpoint → Result Text (Unit {0}) → TcpEnd
forward_tcp_conn e (ok u) = record {
  endpoint = some e;
  client_closed = true;
  endpoint_closed = true;
}
forward_tcp_conn e (err error) = record {
  endpoint = none;
  client_closed = true;
  endpoint_closed = false;
}

module _ {F W : Type 0} where
  -- The handler of startHttpServer; `send` is http.DefaultClient.Do, `random` what rand.Int returns.
  abbrev pub handle_picked :
      (Request → W → Result Text HttpResponse × W)
      → Request
      → W
      → Option Endpoint × Service F
      → HttpResponse × (Service F × W)
  handle_picked send req w (none, s) = (http_error 503 (codes "Service Unavailable"), (s, w))
  handle_picked send req w (some e, s) = let r = send (forwarded e req) w in (relay r.0, (s, r.1))

  unfoldable pub handle_http :
      (Request → W → Result Text HttpResponse × W)
      → ℕ
      → Text
      → Service F
      → Request
      → W
      → Run (HttpResponse × (Service F × W))
  handle_http send random ctr_port s req w = do
    picked ← pick_endpoint random ctr_port s
    done (handle_picked send req w picked)

module _ {F : Type 0} where
  -- The goroutine of an accepted connection in startTcpServer
  abbrev pub tcp_picked :
      (Endpoint → Result Text (Unit {0})) → Option Endpoint × Service F → TcpEnd × Service F
  tcp_picked dial (none, s) =
      (record { endpoint = none; client_closed = true; endpoint_closed = false }, s)
  tcp_picked dial (some e, s) = (forward_tcp_conn e (dial e), s)

  unfoldable pub handle_tcp :
      (Endpoint → Result Text (Unit {0})) → ℕ → Text → Service F → Run (TcpEnd × Service F)
  handle_tcp dial random ctr_port s = do
    picked ← pick_endpoint random ctr_port s
    done (tcp_picked dial picked)

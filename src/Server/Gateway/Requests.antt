-- ===== src/Server/Gateway/Requests.antt =====
-- What an endpoint and a client see of a request.
use sco.Common.{ℕ, ◌≡◌, ◌≢◌, refl, true, Option, none, some, arith}
use sco.Common.Dict.{text_key}
use sco.Common.Result.{Result}
use sco.Common.Run.{done, >>=-eq-done}
use sco.Common.Text.{Text, codes}
use sco.Server.Cluster.{Endpoint, Service, pick_endpoint}
use sco.Server.Gateway.{
  Request, HttpResponse, forwarded, http_error, relay, TcpEnd, handle_http, handle_tcp, tcp_picked,
}

module _ {F W : Type 0} (send : Request → W → Result Text HttpResponse × W) where
  -- A request for which an endpoint is picked goes to its address once, and the client gets the
  -- endpoint's status and body, or the status 500 if the request failed; without an endpoint the
  -- client gets the status 503, and nothing is sent.
  pub handle_http-answers :
      (random : ℕ) (ctr_port : Text) (s s' : Service F) (req : Request) (w : W)
      (o : Option Endpoint)
      → pick_endpoint random ctr_port s ≡ done (o, s')
      → handle_http send random ctr_port s req w ≡ elim o [
        | none ↦ done (http_error 503 (codes "Service Unavailable"), (s', w))
        | some e ↦ done (relay (send (forwarded e req) w).0, (s', (send (forwarded e req) w).1))
      ]
  unfolding handle_http
  handle_http-answers random ctr_port s s' req w none h = rw (h, handle_http) refl
  handle_http-answers random ctr_port s s' req w (some e) h = rw (h, handle_http) refl

-- An accepted TCP connection is closed in the end, whatever endpoint is picked and whatever its dial
-- returns, and so is the connection to the endpoint where there was one.
pub handle_tcp-closes :
    {F : Type 0} (dial : Endpoint → Result Text (Unit {0})) (random : ℕ) (ctr_port : Text)
    (s s' : Service F) (r : TcpEnd)
    → handle_tcp dial random ctr_port s ≡ done (r, s')
    → (r.client_closed ≡ true) × (r.endpoint ≢ none → r.endpoint_closed ≡ true)
unfolding handle_tcp
handle_tcp-closes dial random ctr_port s s' r h =
    let (picked, _, e) =
      >>=-eq-done (pick_endpoint random ctr_port s) (λ p. done (tcp_picked dial p)) h in
    ground arith

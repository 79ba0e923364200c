-- ===== src/Tests/Pinging.antt =====
-- A node that is pinged over a network that counts its open sockets.
use sco.Common.{ℕ, suc, ◌-◌, ◌≡◌, refl, arith, [], ◌∷◌, none}
use sco.Common.Int.{pos}
use sco.Common.Result.{ok, err}
use sco.Common.Text.{Text, codes}
use sco.Server.NodeStore.{Node}
use sco.Server.Node.{Icmp, ping}
use sco.Server.Node.Sockets.{SocketLaws, ping-sockets}

-- Replies never come.
abbrev silent : Icmp ℕ Text
silent = record {
  resolve_ip_addr = λ host w. (ok host, w);
  listen_packet = λ w. (ok tt, suc w);
  marshal = ok (8 ∷ []);
  write_to = λ xs a w. (ok tt, w);
  set_read_deadline = λ w. (ok tt, w);
  read_from = λ w. (err (codes "i/o timeout"), w);
  parse_message = λ xs. ok 0;
  echo_reply = 0;
  close = λ w. w - 1;
}

silent-SocketLaws : SocketLaws silent (λ w. w)
silent-SocketLaws = record {
  resolving = λ h w. refl;
  listening = λ w h. omega arith;
  refused = λ w e h. absurd cc;
  writing = λ xs a w. refl;
  limiting = λ w. refl;
  reading = λ w. refl;
  closing_one = λ n w h. omega arith;
}

abbrev node : Node ℕ ℕ
node = record {
  id = codes "n1";
  host = codes "10.0.0.1";
  max_cpu = 4;
  used_cpu = 0;
  max_memory = pos 100;
  used_memory = pos 0;
  conn = none;
}

ping-sockets_example : (ping silent node 3).1 ≡ 3
ping-sockets_example = ping-sockets silent (λ w. w) silent-SocketLaws node 3

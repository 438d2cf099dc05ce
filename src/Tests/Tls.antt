-- ===== src/Tests/Tls.antt =====
-- The TLS client's handshake against a server that answers the third try.
use make_down_file.Prelude.{refl, Bool, true, false, not, some, [], ◌∷◌, arith, leb}
use make_down_file.Run.{Returns}
use make_down_file.Tls.World.{ℤ, pos, negsuc, other_error, Lib, World}
use make_down_file.Tls.Connect.{create_ssl_conect}
use make_down_file.Tls.Connect.Rounds.{connects}
use make_down_file.Tls.Connect.Settled.{Settles, Owned, create_ssl_conect-Owned}

abbrev answer : Bool → ℤ
answer true = pos 1
answer false = negsuc 0

-- The first two tries fail, and the socket asks for another one after the first.
abbrev slow_server : Lib
unfolding connects
slow_server = record {
  memory = λ n. true;
  ctx_new = λ t. some 10;
  pem_read = λ t file. some 3;
  sk_find = λ certs c. false;
  sk_sort = λ certs. certs;
  load_file = λ t c. true;
  socket = λ t. some 5;
  connect = λ t fd. true;
  ssl_new = λ t ctx. some 20;
  ssl_connect = λ t ssl. answer (leb 2 (connects t));
  ssl_get_error = λ t ssl r. other_error;
  sock_should_retry = λ t r. not (leb 3 (connects t));
}

abbrev start : World
start = record {
  next = 1;
  ctxs = [];
  ssls = [];
  fds = 5 ∷ [];
  certs = [];
  held_locks = [];
  calls = [];
}

slow_server-Settles : Settles slow_server 3
unfolding slow_server
slow_server-Settles t r h = ground arith

create_ssl_conect-Owned_example :
    Returns (Owned 10 20 5 start) (create_ssl_conect slow_server 4 5 true start)
unfolding slow_server
create_ssl_conect-Owned_example =
    create_ssl_conect-Owned slow_server 3 10 20 5 true start slow_server-Settles (λ m. refl) refl
      (λ t c. refl)

-- ===== src/Tests/Domain.antt =====
-- The socket code on a concrete kernel.
use make_down_file.Prelude.{
  ℕ, zero, suc, ◌≡◌, ◌⊎◌, refl, true, false, none, some, List, [], ◌∷◌, ◌++◌, arith, length, take,
}
use make_down_file.Run.{Returns, out_of_fuel}
use make_down_file.Domain.World.{Kernel, World}
use make_down_file.Domain.Transfer.{send_data, recv_data}
use make_down_file.Domain.Transfer.Total.{
  Refused, SendsSome, RecvsAtMost, EndsNever, accepted, arrived, send_data-Returns,
  recv_data-Returns, recv_data-closed,
}
use make_down_file.Domain.Sockets.{listen_domain_socket, get_domain_socket}
use make_down_file.Domain.Sockets.Descriptors.{held, sockets-open_fds}
use make_down_file.Domain.Server.{handle_events}
use make_down_file.Domain.Server.Clients.{SendsText, Served, handle_events-Served}

-- Takes one byte at a time, and gives one byte at a time.
abbrev one_by_one : Kernel
one_by_one = record {
  socket = λ t. some 5;
  bind = λ t fd path. true;
  listen = λ t fd. false;
  connect = λ t fd path. true;
  accept = λ t fd. some 6;
  send = λ t fd bytes. some 1;
  recv = λ t fd room. some (take room (b'x' ∷ []));
  epoll_create = λ t size. none;
  epoll_ctl = λ t epfd op fd. false;
  epoll_wait = λ t epfd. none;
  getrlimit = λ t. some 1024;
  fcntl_getfl = λ t fd. some 2;
  fcntl_setfl = λ t fd flags. true;
  system = λ t cmd. none;
  setsockopt_reuseaddr = λ t fd. true;
  error_code = λ t. 24;
}

-- The peer has closed its side.
abbrev peer_closed : Kernel
peer_closed = record one_by_one { recv = λ t fd room. some [] }

abbrev start : World
start = record { open_fds = 1 ∷ 0 ∷ []; errno = 0; calls = [] }

abbrev serving : World
serving = record { open_fds = 9 ∷ 8 ∷ 7 ∷ 4 ∷ 3 ∷ []; errno = 0; calls = [] }

abbrev hello : List ℕ
hello = b'h' ∷ b'i' ∷ b'!' ∷ []

one_by_one-SendsSome : SendsSome one_by_one
one_by_one-SendsSome t fd n bytes h e = ground arith

one_by_one-RecvsAtMost : RecvsAtMost one_by_one
one_by_one-RecvsAtMost t fd zero bytes e = ground arith
one_by_one-RecvsAtMost t fd (suc zero) bytes e = ground arith
one_by_one-RecvsAtMost t fd (suc (suc room)) bytes e = ground arith

one_by_one-EndsNever : EndsNever one_by_one
one_by_one-EndsNever t fd zero bytes h e = ground arith
one_by_one-EndsNever t fd (suc room) bytes h e = ground arith

send_data-Returns_example :
    Returns
      (λ r w'.
        ((r ≡ none) × Refused one_by_one 5 w')
        ⊎ ((r ≡ some (length hello))
            × (accepted one_by_one w'.calls ≡ accepted one_by_one start.calls ++ hello)))
      (send_data one_by_one 4 5 hello start)
send_data-Returns_example =
    send_data-Returns one_by_one 4 5 hello start one_by_one-SendsSome (omega arith)

recv_data-Returns_example :
    Returns
      (λ r w'.
        (r ≡ none)
        ⊎ ((bytes : List ℕ) × (r ≡ some bytes)
            × (length bytes ≡ 3)
            × (arrived one_by_one w'.calls ≡ arrived one_by_one start.calls ++ bytes)))
      (recv_data one_by_one 4 5 3 start)
recv_data-Returns_example =
    recv_data-Returns one_by_one 4 5 3 start one_by_one-RecvsAtMost one_by_one-EndsNever
      (omega arith)

recv_data-closed_example : recv_data peer_closed 100 5 (suc 1023) start ≡ out_of_fuel
recv_data-closed_example = recv_data-closed peer_closed 100 5 1023 start (λ t room. refl)

sockets-open_fds_example :
    Returns
      (λ r w'. w'.open_fds ≡ held r start.open_fds)
      (listen_domain_socket one_by_one hello start)
    × Returns
        (λ r w'. w'.open_fds ≡ held r start.open_fds)
        (get_domain_socket one_by_one hello start)
sockets-open_fds_example = sockets-open_fds one_by_one hello start

-- The clients send a terminated text.
abbrev texting : Kernel
texting = record one_by_one { recv = λ t fd room. some (b'x' ∷ 0 ∷ []) }

texting-SendsText : SendsText texting
texting-SendsText t fd bytes e = ground arith

handle_events-Served_example :
    Returns (Served texting (8 ∷ 9 ∷ []) serving) (handle_events texting 4 3 (8 ∷ 9 ∷ []) serving)
handle_events-Served_example =
    handle_events-Served texting 4 3 (8 ∷ 9 ∷ []) serving texting-SendsText (refl, (refl, tt))

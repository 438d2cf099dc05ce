-- ===== src/Domain/Server.antt =====
-- The epoll server: epoll_init, epoll_listen with one handler call for each event, and main.
pub mod Clients
use make_down_file.Prelude.{
  ℕ, zero, suc, Bool, true, false, not, Option, none, some, List, [], ◌∷◌, ◌==◌, if◌then◌else◌, has,
}
use make_down_file.Run.{fault, out_of_fuel, pure, ◌>>=◌, ◌>>◌}
use make_down_file.Domain.World.{EpollOp, add, del, SysCall, Kernel, World, M, call, opened, close}
use make_down_file.Domain.Wrappers.{epoll_create, epoll_ctl, epoll_wait}
use make_down_file.Domain.Sockets.{listen_domain_socket}

-- What a round of the loop, or one event of it, leads to.
pub data Next : Type 0 where
  go_on stop : Next

module _ (kernel : Kernel) where
  unfoldable pub accept_fd : ℕ → M (Option ℕ)
  unfolding call opened
  accept_fd fd = do n ← call (SysCall.accept fd) (λ t. kernel.accept t fd); opened n

  -- An epoll instance that watches one descriptor.
  unfoldable pub epoll_init : ℕ → M (Option ℕ)
  unfolding epoll_create epoll_ctl
  epoll_init fd = do
    created ← epoll_create kernel 256
    elim created [
      | none ↦ pure none
      | some epfd ↦ (do
        added ← epoll_ctl kernel epfd add fd
        if not added then pure none else pure (some epfd))
    ]

  -- The handler of a client's descriptor: one `recv` of at most 1024 bytes into a buffer that was never
  -- written, which is then shown as a text: without a terminator among the bytes received, what is
  -- read behind them is undefined.
  unfoldable pub do_use_fd : ℕ → M (Unit {0})
  unfolding call
  do_use_fd fd = do
    got ← call (SysCall.recv fd 1024) (λ t. kernel.recv t fd 1024)
    elim got [
      | none ↦ pure tt
      | some bytes ↦ elim (has 0 bytes) [ true ↦ pure tt | false ↦ (λ w. fault) ]
    ]

  -- One event: a connection to accept and watch, or a client to serve, unwatch and close.
  unfoldable pub handle_event : ℕ → ℕ → ℕ → M Next
  unfolding close accept_fd epoll_ctl do_use_fd
  handle_event epfd fd ready =
      if ready == fd
      then (do
        accepted ← accept_fd fd
        elim accepted [
          | none ↦ pure stop
          | some n ↦ (do
            added ← epoll_ctl kernel epfd add n
            if not added then pure stop else pure go_on)
        ])
      else (do do_use_fd ready; removed ← epoll_ctl kernel epfd del ready; close ready; pure go_on)

  -- The events of one `epoll_wait`, in order.
  unfoldable pub handle_events : ℕ → ℕ → List ℕ → M Next
  unfolding handle_event
  handle_events epfd fd [] = pure go_on
  handle_events epfd fd (ready ∷ rest) = do
    next ← handle_event epfd fd ready
    elim next [ stop ↦ pure stop | go_on ↦ handle_events epfd fd rest ]

  -- `while (1)`: the loop ends only by a failing accept or epoll_ctl. A failing wait has no events.
  unfoldable pub serve : ℕ → ℕ → ℕ → M (Unit {0})
  unfolding epoll_wait handle_events
  serve zero epfd fd w = out_of_fuel
  serve (suc fuel) epfd fd w =
      (do
        waited ← epoll_wait kernel epfd 20 500
        next ← (elim waited [ none ↦ pure go_on | some events ↦ handle_events epfd fd events ])
        elim next [ stop ↦ pure tt | go_on ↦ serve fuel epfd fd ])
        w

  -- Always -1 once it returns.
  unfoldable pub epoll_listen : ℕ → ℕ → M (Unit {0})
  unfolding epoll_init serve
  epoll_listen fuel fd = do
    created ← epoll_init fd
    elim created [ none ↦ pure tt | some epfd ↦ serve fuel epfd fd ]

  -- The server's main: `true` is a return of 0.
  unfoldable pub server_main : ℕ → List ℕ → M Bool
  unfolding listen_domain_socket epoll_init epoll_listen
  server_main fuel unix_domain = do
    listening ← listen_domain_socket kernel unix_domain
    elim listening [
      | none ↦ pure false
      | some fd ↦ (do
        created ← epoll_init fd
        elim created [ none ↦ pure false | some epfd ↦ (do epoll_listen fuel epfd; pure true) ])
    ]

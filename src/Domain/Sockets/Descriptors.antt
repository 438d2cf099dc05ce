-- ===== src/Domain/Sockets/Descriptors.antt =====
-- The two functions that make a socket keep no descriptor when they fail.
use make_down_file.Prelude.{ℕ, ◌≡◌, Option, none, some, List, ◌∷◌, erase, arith}
use make_down_file.Run.{Returns, Ends-Returns}
use make_down_file.Domain.World.{Kernel, World}
use make_down_file.Domain.Sockets.{listen_domain_socket, get_domain_socket}

-- The descriptors open after a call that returns a descriptor or fails.
abbrev pub held : Option ℕ → List ℕ → List ℕ
held none fds = fds
held (some fd) fds = fd ∷ fds

erase_head : (fd : ℕ) (fds : List ℕ) → erase fd (fd ∷ fds) ≡ fds
erase_head fd fds = ground arith

module _ (kernel : Kernel) (path : List ℕ) (w : World) where
  -- Listening on a path, and connecting to one, always return; the descriptors open afterwards are
  -- those open before, and the new socket exactly if it is the result.
  pub sockets-open_fds :
      Returns (λ r w'. w'.open_fds ≡ held r w.open_fds) (listen_domain_socket kernel path w)
      × Returns (λ r w'. w'.open_fds ≡ held r w.open_fds) (get_domain_socket kernel path w)
  unfolding listen_domain_socket get_domain_socket
  sockets-open_fds = (
    Ends-Returns (listen_domain_socket kernel path w) (ground arith),
    Ends-Returns (get_domain_socket kernel path w) (ground arith),
  )

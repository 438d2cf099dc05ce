-- ===== src/Domain/Sockets.antt =====
-- listen_domain_socket and get_domain_socket.
pub mod Descriptors
use make_down_file.Prelude.{
  ℕ, Bool, true, false, not, Option, none, some, List, if◌then◌else◌, take,
}
use make_down_file.Run.{pure, ◌>>=◌, ◌>>◌}
use make_down_file.Domain.World.{SysCall, Kernel, World, M, call, opened, close}

-- The path as it lands in `sun_path`, of 108 bytes: cut to leave room for the terminator.
unfoldable pub sun_path_of : List ℕ → List ℕ
sun_path_of path = take 107 path

module _ (kernel : Kernel) where
  unfoldable pub socket_unix : M (Option ℕ)
  unfolding call opened
  socket_unix = do fd ← call SysCall.socket kernel.socket; opened fd

  -- Binds, then listens with a backlog of 5.
  unfoldable pub listen_domain_socket : List ℕ → M (Option ℕ)
  unfolding call close socket_unix sun_path_of
  listen_domain_socket path = do
    sock ← socket_unix
    elim sock [
      | none ↦ pure none
      | some fd ↦ (do
        bound ← call (SysCall.bind fd (sun_path_of path)) (λ t. kernel.bind t fd (sun_path_of path))
        if not bound then (do close fd; pure none) else (do
          listening ← call (SysCall.listen fd 5) (λ t. kernel.listen t fd)
          if not listening then (do close fd; pure none) else pure (some fd)))
    ]

  unfoldable pub get_domain_socket : List ℕ → M (Option ℕ)
  unfolding call close socket_unix sun_path_of
  get_domain_socket path = do
    sock ← socket_unix
    elim sock [
      | none ↦ pure none
      | some fd ↦ (do
        connected ←
            call (SysCall.connect fd (sun_path_of path))
              (λ t. kernel.connect t fd (sun_path_of path))
        if not connected then (do close fd; pure none) else pure (some fd))
    ]

-- ===== src/Domain/Wrappers.antt =====
-- The small wrappers of system calls, and the epoll calls made through `syscall`.
pub mod Errno
use make_down_file.Prelude.{
  ℕ, Bool, true, false, not, Option, none, some, List, ◌==◌, if◌then◌else◌,
}
use make_down_file.Run.{pure, ◌>>=◌, ◌>>◌}
use make_down_file.Domain.World.{
  EpollOp, SysCall, ExitStatus, Kernel, World, M, call, opened, set_errno,
}

module _ (kernel : Kernel) (bit_or_nonblock : ℕ → ℕ) where
  -- `flags | O_NONBLOCK` is a parameter.
  unfoldable pub set_nonblock : ℕ → M Bool
  unfolding call
  set_nonblock fd = do
    got ← call (SysCall.fcntl_getfl fd) (λ t. kernel.fcntl_getfl t fd)
    elim got [
      | none ↦ pure false
      | some flags ↦
          call (SysCall.fcntl_setfl fd (bit_or_nonblock flags))
            (λ t. kernel.fcntl_setfl t fd (bit_or_nonblock flags))
    ]

module _ (kernel : Kernel) where
  unfoldable pub get_sys_max_fd : M (Option ℕ)
  unfolding call
  get_sys_max_fd = call SysCall.getrlimit kernel.getrlimit

  -- `true` is a return of 0: the command ran and exited with 0.
  unfoldable pub do_system : Option (List ℕ) → M Bool
  unfolding call
  do_system none = pure false
  do_system (some cmd) = do
    status ← call (SysCall.system cmd) (λ t. kernel.system t cmd)
    elim status [ none ↦ pure false | some st ↦ pure (if st.exited then st.status == 0 else false) ]

  unfoldable pub set_reuseaddr : ℕ → M Bool
  unfolding call
  set_reuseaddr fd =
      call (SysCall.setsockopt_reuseaddr fd 1) (λ t. kernel.setsockopt_reuseaddr t fd)

  -- Blocks SIGPIPE.
  unfoldable pub mask_pipe : M (Unit {0})
  unfolding call
  mask_pipe = call SysCall.block_sigpipe (λ t. tt)

  -- The kernel reports a failure by -1 and its code in errno.
  unfoldable pub kernel_error : M (Unit {0})
  unfolding set_errno
  kernel_error w = set_errno (kernel.error_code w.calls) w

  -- On a failure the wrapper writes `errno = -(-1)`.
  unfoldable pub epoll_create : ℕ → M (Option ℕ)
  unfolding call opened set_errno kernel_error
  epoll_create size = do
    epfd ← call (SysCall.epoll_create size) (λ t. kernel.epoll_create t size)
    elim epfd [ none ↦ (do kernel_error; set_errno 1; pure none) | some fd ↦ opened (some fd) ]

  unfoldable pub epoll_ctl : ℕ → EpollOp → ℕ → M Bool
  unfolding call set_errno kernel_error
  epoll_ctl epfd op fd = do
    ret ← call (SysCall.epoll_ctl epfd op fd) (λ t. kernel.epoll_ctl t epfd op fd)
    if not ret then (do kernel_error; set_errno 1; pure false) else pure true

  -- The descriptors that are ready; `none` is -1.
  unfoldable pub epoll_wait : ℕ → ℕ → ℕ → M (Option (List ℕ))
  unfolding call set_errno kernel_error
  epoll_wait epfd maxevents timeout = do
    ready ← call (SysCall.epoll_wait epfd maxevents timeout) (λ t. kernel.epoll_wait t epfd)
    elim ready [ none ↦ (do kernel_error; set_errno 1; pure none) | some fds ↦ pure (some fds) ]

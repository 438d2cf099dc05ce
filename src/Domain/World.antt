-- ===== src/Domain/World.antt =====
-- What the socket code acts on: the process's open descriptors, `errno`, and the system calls made.
-- The kernel's answers are parameters: functions of the calls made before.
use make_down_file.Prelude.{ℕ, Bool, Option, none, some, List, ◌∷◌, erase}
use make_down_file.Run.{Cmd, ok}

-- The operations of epoll_ctl that the code uses.
pub data EpollOp : Type 0 where
  add del : EpollOp

pub data SysCall : Type 0 where
  socket : SysCall
  bind : ℕ → List ℕ → SysCall
  listen : ℕ → ℕ → SysCall
  connect : ℕ → List ℕ → SysCall
  accept : ℕ → SysCall
  close_fd : ℕ → SysCall
  send : ℕ → List ℕ → SysCall
  recv : ℕ → ℕ → SysCall
  epoll_create : ℕ → SysCall
  epoll_ctl : ℕ → EpollOp → ℕ → SysCall
  epoll_wait : ℕ → ℕ → ℕ → SysCall
  getrlimit : SysCall
  fcntl_getfl : ℕ → SysCall
  fcntl_setfl : ℕ → ℕ → SysCall
  system : List ℕ → SysCall
  setsockopt_reuseaddr : ℕ → ℕ → SysCall
  block_sigpipe : SysCall

-- The status of `system`, as WIFEXITED and WEXITSTATUS read it.
pub record ExitStatus : Type 0 where
  pub exited : Bool
  pub status : ℕ

-- `none` is a negative result; for the raw epoll calls the kernel has then put its own code in errno.
pub record Kernel : Type 0 where
  pub socket : List SysCall → Option ℕ
  pub bind : List SysCall → ℕ → List ℕ → Bool
  pub listen : List SysCall → ℕ → Bool
  pub connect : List SysCall → ℕ → List ℕ → Bool
  pub accept : List SysCall → ℕ → Option ℕ
  pub send : List SysCall → ℕ → List ℕ → Option ℕ
  pub recv : List SysCall → ℕ → ℕ → Option (List ℕ)
  pub epoll_create : List SysCall → ℕ → Option ℕ
  pub epoll_ctl : List SysCall → ℕ → EpollOp → ℕ → Bool
  pub epoll_wait : List SysCall → ℕ → Option (List ℕ)
  pub getrlimit : List SysCall → Option ℕ
  pub fcntl_getfl : List SysCall → ℕ → Option ℕ
  pub fcntl_setfl : List SysCall → ℕ → ℕ → Bool
  pub system : List SysCall → List ℕ → Option ExitStatus
  pub setsockopt_reuseaddr : List SysCall → ℕ → Bool
  pub error_code : List SysCall → ℕ

pub record World : Type 0 where
  pub open_fds : List ℕ
  pub errno : ℕ
  pub calls : List SysCall

abbrev pub M : Type 0 → Type 0
M A = Cmd World A

unfoldable pub call : {A : Type 0} → SysCall → (List SysCall → A) → M A
call c answer w = ok (answer w.calls) (record w { calls = c ∷ w.calls })

-- A call whose result, if there is one, is a new descriptor.
unfoldable pub opened : Option ℕ → M (Option ℕ)
opened none w = ok none w
opened (some fd) w = ok (some fd) (record w { open_fds = fd ∷ w.open_fds })

unfoldable pub close : ℕ → M (Unit {0})
close fd w =
    ok tt (record w { open_fds = erase fd w.open_fds; calls = SysCall.close_fd fd ∷ w.calls })

unfoldable pub set_errno : ℕ → M (Unit {0})
set_errno e w = ok tt (record w { errno = e })

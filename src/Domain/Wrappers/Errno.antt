-- ===== src/Domain/Wrappers/Errno.antt =====
-- What the epoll wrappers leave in errno.
use make_down_file.Prelude.{ℕ, ◌≡◌, false, none, refl}
use make_down_file.Run.{Returns, returns}
use make_down_file.Domain.World.{EpollOp, Kernel, World}
use make_down_file.Domain.Wrappers.{epoll_create, epoll_ctl, epoll_wait}

-- When the kernel refuses a call of an epoll wrapper, the wrapper reports the failure, and errno is
-- 1 afterwards, whatever error code the kernel gave.
epoll-errno :
    (kernel : Kernel) (size epfd fd maxevents timeout : ℕ) (op : EpollOp) (w : World)
    → kernel.epoll_create w.calls size ≡ none
    → kernel.epoll_ctl w.calls epfd op fd ≡ false
    → kernel.epoll_wait w.calls epfd ≡ none
    → Returns (λ r w'. (r ≡ none) × (w'.errno ≡ 1)) (epoll_create kernel size w)
      × Returns (λ r w'. (r ≡ false) × (w'.errno ≡ 1)) (epoll_ctl kernel epfd op fd w)
      × Returns (λ r w'. (r ≡ none) × (w'.errno ≡ 1)) (epoll_wait kernel epfd maxevents timeout w)
unfolding epoll_create epoll_ctl epoll_wait
epoll-errno kernel size epfd fd maxevents timeout op w a b c = (
  rw (a, epoll_create) (returns (refl, refl)),
  rw (b, epoll_ctl) (returns (refl, refl)),
  rw (c, epoll_wait) (returns (refl, refl)),
)

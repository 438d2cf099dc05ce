-- ===== src/Domain/Server/Clients.antt =====
-- The server's handling of the clients that epoll reports ready.
use mathlib.Core.List.{append_assoc, reverse-append}
use make_down_file.Prelude.{
  ℕ, ◌≡◌, ◌∙◌, sym, ap, refl, true, false, List, some, has, inl, inr, Option-cases, [], ◌∷◌, ◌++◌,
  reverse, arith, erase, ◌==◌,
}
use make_down_file.Run.{pure, Returns, returns, Returns-bind, Returns-mono, Ends-Returns, Ends}
use make_down_file.Domain.World.{SysCall, Kernel, World, M}
use make_down_file.Domain.Server.{Next, go_on, stop, handle_event, handle_events}

-- No descriptor of the list is the listening one.
abbrev pub NoneIs : ℕ → List ℕ → Type 0
NoneIs fd [] = Unit
NoneIs fd (ready ∷ rest) = ((ready == fd) ≡ false) × NoneIs fd rest

unfoldable pub erase_all : List ℕ → List ℕ → List ℕ
erase_all [] fds = fds
erase_all (fd ∷ rest) fds = erase_all rest (erase fd fds)

-- The descriptors received from, and the descriptors closed, newest first.
unfoldable pub received : List SysCall → List ℕ
received [] = []
received (SysCall.recv fd n ∷ calls) = fd ∷ received calls
received (_ ∷ calls) = received calls

unfoldable pub closed : List SysCall → List ℕ
closed [] = []
closed (SysCall.close_fd fd ∷ calls) = fd ∷ closed calls
closed (_ ∷ calls) = closed calls

-- What a client sends in one piece holds a terminator.
abbrev pub SendsText : Kernel → Type 0
SendsText kernel =
    (t : List SysCall) (fd : ℕ) (bytes : List ℕ)
    → kernel.recv t fd 1024 ≡ some bytes
    → has 0 bytes ≡ true

module _ (kernel : Kernel) where
  -- Each was received from once and closed, in the order of the list.
  abbrev pub Served : List ℕ → World → Next → World → Type 0
  Served readies w next w' =
      (next ≡ go_on)
      × (w'.open_fds ≡ erase_all readies w.open_fds)
      × (received w'.calls ≡ reverse readies ++ received w.calls)
      × (closed w'.calls ≡ reverse readies ++ closed w.calls)

  abbrev One : ℕ → World → Next → World → Type 0
  One ready w next w' =
      (next ≡ go_on)
      × (w'.open_fds ≡ erase ready w.open_fds)
      × (received w'.calls ≡ ready ∷ received w.calls)
      × (closed w'.calls ≡ ready ∷ closed w.calls)

  handle_event-One :
      (epfd fd ready : ℕ) (w : World)
      → SendsText kernel
      → (ready == fd) ≡ false
      → Ends (One ready w) (handle_event kernel epfd fd ready w)
  unfolding handle_event received closed
  handle_event-One epfd fd ready w texts n = elim (Option-cases (kernel.recv w.calls ready 1024)) [
    | inl r ↦ ground arith
    | inr (bytes, r) ↦ let terminated = texts w.calls ready bytes r in ground arith
  ]

  reverse_onto : (x : ℕ) (xs d : List ℕ) → reverse xs ++ (x ∷ d) ≡ reverse (x ∷ xs) ++ d
  reverse_onto x xs d = rw (reverse-append (x ∷ []) xs) (sym (append_assoc (reverse xs) (x ∷ []) d))

  serve_rest :
      (epfd fd ready : ℕ) (rest : List ℕ) (w w1 : World) (next : Next)
      → One ready w next w1
      → Returns (Served rest w1) (handle_events kernel epfd fd rest w1)
      → Returns (Served (ready ∷ rest) w) (
          (elim next as (λ _. M Next) [
            | stop ↦ pure stop
            | go_on ↦ handle_events kernel epfd fd rest
          ])
            w1)
  unfolding erase_all
  serve_rest epfd fd ready rest w w1 go_on one ih = Returns-mono ih (λ next w' s. (
    s.0,
    s.1 ∙ ap (erase_all rest) one.1,
    s.2 ∙ ap (λ d. reverse rest ++ d) one.2 ∙ reverse_onto ready rest (received w.calls),
    s.3 ∙ ap (λ d. reverse rest ++ d) one.3 ∙ reverse_onto ready rest (closed w.calls),
  ))
  serve_rest epfd fd ready rest w w1 stop one ih = let h : ⊥ = ground (arith, one.0) in elim h [ ]

  -- Handling ready descriptors of which none is the listening one, where clients send
  -- texts with a terminator, ends without a fault and goes on, whatever else the kernel answers. Each was received from once and closed once, in the order of the
  -- list, and the open descriptors are those from before without them.
  pub handle_events-Served :
      (epfd fd : ℕ) (readies : List ℕ) (w : World)
      → SendsText kernel
      → NoneIs fd readies
      → Returns (Served readies w) (handle_events kernel epfd fd readies w)
  unfolding handle_events erase_all
  handle_events-Served epfd fd [] w texts n = returns (refl, refl, refl, refl)
  handle_events-Served epfd fd (ready ∷ rest) w texts n =
      Returns-bind (Ends-Returns _ (handle_event-One epfd fd ready w texts n.0)) (λ next w1 one.
        serve_rest epfd fd ready rest w w1 next one
          (handle_events-Served epfd fd rest w1 texts n.1))

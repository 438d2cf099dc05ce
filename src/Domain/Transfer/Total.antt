-- ===== src/Domain/Transfer/Total.antt =====
-- send_data and recv_data end, and what they have moved when they do.
use mathlib.Core.List.{append-nil, append_assoc}
use make_down_file.Prelude.{
  ℕ, zero, suc, ◌+◌, ◌-◌, ◌≤◌, ◌<◌, ◌≡◌, ◌⊎◌, ◌∙◌, inl, inr, refl, ap, Bool-cases, Option-cases,
  true, Option, none, some, List, [], ◌∷◌, ◌++◌, arith, length, take, drop, length-drop, drop-drop,
  drop-length, length-append, take-append-drop, ltb,
}
use make_down_file.Run.{out_of_fuel, Returns, returns, Returns-mono}
use make_down_file.Domain.World.{SysCall, Kernel, World, call}
use make_down_file.Domain.Transfer.{send_loop, send_data, recv_loop, recv_data}

-- The part of a request that the kernel took.
abbrev pub part : Option ℕ → List ℕ → List ℕ
part none bytes = []
part (some n) bytes = take n bytes

-- The bytes that the kernel has taken by `send`, in order.
unfoldable pub accepted : Kernel → List SysCall → List ℕ
accepted kernel [] = []
accepted kernel (SysCall.send fd bytes ∷ t) =
    accepted kernel t ++ part (kernel.send t fd bytes) bytes
accepted kernel (_ ∷ t) = accepted kernel t

-- A blocking `send` of some bytes fails, or takes at least one and at most all of them.
abbrev pub SendsSome : Kernel → Type 0
SendsSome kernel =
    (t : List SysCall) (fd n : ℕ) (bytes : List ℕ)
    → 0 < length bytes
    → kernel.send t fd bytes ≡ some n
    → (0 < n) × (n ≤ length bytes)

-- The last call was a `send` that the kernel refused.
abbrev pub Refused : Kernel → ℕ → World → Type 0
Refused kernel fd w =
    (t : List SysCall) × (bytes : List ℕ) × (w.calls ≡ SysCall.send fd bytes ∷ t)
    × (kernel.send t fd bytes ≡ none)

module _ (kernel : Kernel) (fd : ℕ) (buf : List ℕ) (sends : SendsSome kernel) where
  -- What a finished transfer from offset `s` has done.
  abbrev Sent : List SysCall → ℕ → Option ℕ → World → Type 0
  Sent t s r w' =
      ((r ≡ none) × Refused kernel fd w')
      ⊎ ((r ≡ some (length buf)) × (accepted kernel w'.calls ≡ accepted kernel t ++ drop s buf))

  at_end :
      (s : ℕ) (w : World)
      → s ≡ length buf
      → (some s ≡ some (length buf))
        × (accepted kernel w.calls ≡ accepted kernel w.calls ++ drop s buf)
  at_end s w e = (ap some e, rw (e, drop-length buf, append-nil))

  -- One `send` from offset `s` keeps within the buffer and comes closer to its end.
  fits :
      (s n : ℕ) (w : World)
      → s ≤ length buf
      → s < length buf
      → kernel.send w.calls fd (drop s buf) ≡ some n
      → s + n ≤ length buf
  fits s n w h lt e = omega (
    arith,
    length-drop s buf,
    sends w.calls fd n (drop s buf) (rw (length-drop s buf) (omega arith)) e,
  )

  closer :
      (s n fuel : ℕ) (w : World)
      → s < length buf
      → length buf - s < suc fuel
      → kernel.send w.calls fd (drop s buf) ≡ some n
      → length buf - (s + n) < fuel
  closer s n fuel w lt k e =
      omega (arith, sends w.calls fd n (drop s buf) (rw (length-drop s buf) (omega arith)) e)

  Sent-step :
      (s n : ℕ) (w : World)
      → kernel.send w.calls fd (drop s buf) ≡ some n
      → (r : Option ℕ) (w' : World) → Sent (SysCall.send fd (drop s buf) ∷ w.calls) (s + n) r w'
      → Sent w.calls s r w'
  unfolding accepted
  Sent-step s n w e r w' (inl failed) = inl failed
  Sent-step s n w e r w' (inr (done, q)) =
      inr (done, q ∙ rw (e, append_assoc, ← drop-drop s n buf, take-append-drop n (drop s buf)))

  send_loop-Sent :
      (fuel s : ℕ) (w : World)
      → s ≤ length buf
      → length buf - s < fuel
      → Returns (Sent w.calls s) (send_loop kernel fuel fd buf s w)
  unfolding send_loop call accepted
  send_loop-Sent zero s w h k = absurd (omega arith)
  send_loop-Sent (suc fuel) s w h k = elim (Bool-cases (ltb s (length buf))) [
    | inr done ↦ rw (done, send_loop) (returns (inr (at_end s w (ground arith))))
    | inl more ↦
        rw (more, send_loop)
          (elim (Option-cases (kernel.send w.calls fd (drop s buf))) [
            | inl failed ↦
                rw (failed, send_loop) (returns (inl (refl, (w.calls, drop s buf, refl, failed))))
            | inr (n, went) ↦
                rw (went, send_loop)
                  (Returns-mono
                    (send_loop-Sent fuel (s + n)
                      (record w { calls = SysCall.send fd (drop s buf) ∷ w.calls })
                      (fits s n w h (ground arith) went) (closer s n fuel w (ground arith) k went))
                    (Sent-step s n w went))
          ])
  ]

-- Sending a buffer with fuel above its length ends without a fault. Either the result is -1 and the
-- last call was a `send` on the descriptor that the kernel refused, or the result is the buffer's length and the kernel has taken exactly
-- the bytes of the buffer, in order, behind those that it had taken before.
pub send_data-Returns :
    (kernel : Kernel) (fuel fd : ℕ) (buf : List ℕ) (w : World)
    → SendsSome kernel
    → length buf < fuel
    → Returns
        (λ r w'.
          ((r ≡ none) × Refused kernel fd w')
          ⊎ ((r ≡ some (length buf)) × (accepted kernel w'.calls ≡ accepted kernel w.calls ++ buf)))
        (send_data kernel fuel fd buf w)
unfolding send_data
send_data-Returns kernel fuel fd buf w sends h =
    send_loop-Sent kernel fd buf sends fuel 0 w (omega arith) (omega arith)

-- A blocking `recv` with room for some bytes fails, or gives at most that many; `EndsNever` says that
-- it gives at least one, as it does while the peer keeps its side open.
abbrev pub RecvsAtMost : Kernel → Type 0
RecvsAtMost kernel =
    (t : List SysCall) (fd room : ℕ) (bytes : List ℕ)
    → kernel.recv t fd room ≡ some bytes
    → length bytes ≤ room

abbrev pub EndsNever : Kernel → Type 0
EndsNever kernel =
    (t : List SysCall) (fd room : ℕ) (bytes : List ℕ)
    → 0 < room
    → kernel.recv t fd room ≡ some bytes
    → 0 < length bytes

-- The bytes that the kernel has given by `recv`, in order.
unfoldable pub arrived : Kernel → List SysCall → List ℕ
arrived kernel [] = []
arrived kernel (SysCall.recv fd room ∷ t) =
    arrived kernel t ++ elim (kernel.recv t fd room) [ none ↦ [] | some bytes ↦ bytes ]
arrived kernel (_ ∷ t) = arrived kernel t

module _ (kernel : Kernel) (fd len : ℕ) (most : RecvsAtMost kernel) (never : EndsNever kernel) where
  abbrev Got : List SysCall → List ℕ → Option (List ℕ) → World → Type 0
  Got t got r w' =
      (r ≡ none)
      ⊎ ((all : List ℕ) × (r ≡ some (got ++ all))
          × (length (got ++ all) ≡ len)
          × (arrived kernel w'.calls ≡ arrived kernel t ++ all))

  Got-step :
      (got bytes : List ℕ) (w : World)
      → kernel.recv w.calls fd (len - length got) ≡ some bytes
      → (r : Option (List ℕ)) (w' : World)
      → Got (SysCall.recv fd (len - length got) ∷ w.calls) (got ++ bytes) r w'
      → Got w.calls got r w'
  unfolding arrived
  Got-step got bytes w e r w' (inl failed) = inl failed
  Got-step got bytes w e r w' (inr (all, p, l, q)) =
      inr (bytes ++ all, p ∙ rw append_assoc, (rw (← append_assoc) l), q ∙ rw (e, append_assoc))

  room_left :
      (got bytes : List ℕ) (w : World)
      → length got < len
      → kernel.recv w.calls fd (len - length got) ≡ some bytes
      → length (got ++ bytes) ≤ len
  room_left got bytes w lt came =
      omega (arith, length-append {0} got bytes, most w.calls fd (len - length got) bytes came)

  shrinks :
      (fuel : ℕ) (got bytes : List ℕ) (w : World)
      → length got < len
      → len - length got < suc fuel
      → kernel.recv w.calls fd (len - length got) ≡ some bytes
      → len - length (got ++ bytes) < fuel
  shrinks fuel got bytes w lt k came = omega (
    arith,
    length-append {0} got bytes,
    never w.calls fd (len - length got) bytes (omega arith) came,
  )

  recv_loop-Got :
      (fuel : ℕ) (got : List ℕ) (w : World)
      → length got ≤ len
      → len - length got < fuel
      → Returns (Got w.calls got) (recv_loop kernel fuel fd len got w)
  unfolding recv_loop call
  recv_loop-Got zero got w h k = absurd (omega arith)
  recv_loop-Got (suc fuel) got w h k = elim (Bool-cases (ltb (length got) len)) [
    | inr done ↦
        rw (done, recv_loop)
          (returns (inr ([], rw append-nil, rw append-nil (ground arith), rw append-nil)))
    | inl more ↦
        rw (more, recv_loop)
          (elim (Option-cases (kernel.recv w.calls fd (len - length got))) [
            | inl failed ↦ rw (failed, recv_loop) (returns (inl refl))
            | inr (bytes, came) ↦
                rw (came, recv_loop)
                  (Returns-mono
                    (recv_loop-Got fuel (got ++ bytes)
                      (record w { calls = SysCall.recv fd (len - length got) ∷ w.calls })
                      (room_left got bytes w (ground arith) came)
                      (shrinks fuel got bytes w (ground arith) k came))
                    (Got-step got bytes w came))
          ])
  ]

-- Receiving with fuel above the length asked for, from a peer that keeps its side open, ends
-- without a fault: with -1, or with exactly that many bytes, those that the kernel gave meanwhile.
pub recv_data-Returns :
    (kernel : Kernel) (fuel fd len : ℕ) (w : World)
    → RecvsAtMost kernel
    → EndsNever kernel
    → len < fuel
    → Returns
        (λ r w'.
          (r ≡ none)
          ⊎ ((bytes : List ℕ) × (r ≡ some bytes)
              × (length bytes ≡ len)
              × (arrived kernel w'.calls ≡ arrived kernel w.calls ++ bytes)))
        (recv_data kernel fuel fd len w)
unfolding recv_data
recv_data-Returns kernel fuel fd len w most never h =
    recv_loop-Got kernel fd len most never fuel [] w (omega arith) (omega arith)

recv_loop-closed :
    (kernel : Kernel) (fd len : ℕ)
    → ((t : List SysCall) (room : ℕ) → kernel.recv t fd room ≡ some [])
    → (fuel : ℕ) (w : World) → recv_loop kernel fuel fd (suc len) [] w ≡ out_of_fuel
unfolding recv_loop call
recv_loop-closed kernel fd len closed zero w = refl
recv_loop-closed kernel fd len closed (suc fuel) w =
    rw (wants, recv_loop)
      (rw (closed w.calls (suc len - 0), recv_loop) (recv_loop-closed kernel fd len closed fuel _))
  where
    wants : ltb 0 (suc len) ≡ true
    wants = ground arith

-- If the peer has closed its side, so that every `recv` gives no bytes and no error, waiting for at
-- least one byte never ends: no fuel is enough.
pub recv_data-closed :
    (kernel : Kernel) (fuel fd len : ℕ) (w : World)
    → ((t : List SysCall) (room : ℕ) → kernel.recv t fd room ≡ some [])
    → recv_data kernel fuel fd (suc len) w ≡ out_of_fuel
unfolding recv_data
recv_data-closed kernel fuel fd len w closed = recv_loop-closed kernel fd len closed fuel w

-- ===== src/Domain/Transfer.antt =====
-- send_data, recv_data and the client's loop.
pub mod Total
use make_down_file.Prelude.{
  ℕ, zero, suc, ◌+◌, ◌-◌, Bool, true, false, Option, none, some, List, [], ◌∷◌, ◌++◌, length, drop,
  ltb, if◌then◌else◌,
}
use make_down_file.Run.{out_of_fuel, pure, ◌>>=◌, ◌>>◌}
use make_down_file.Domain.World.{SysCall, Kernel, World, M, call, close}

module _ (kernel : Kernel) where
  -- One round for each call of `send`; the count so far is `send_len`.
  unfoldable pub send_loop : ℕ → ℕ → List ℕ → ℕ → M (Option ℕ)
  unfolding call
  send_loop zero fd buf send_len w = out_of_fuel
  send_loop (suc fuel) fd buf send_len w = elim (ltb send_len (length buf)) [
    | false ↦ pure (some send_len) w
    | true ↦
        (do
          ret ←
              call (SysCall.send fd (drop send_len buf)) (λ t. kernel.send t fd (drop send_len buf))
          elim ret [ none ↦ pure none | some n ↦ send_loop fuel fd buf (send_len + n) ])
          w
  ]

  -- `buf` holds the bytes to send, `len` of them.
  unfoldable pub send_data : ℕ → ℕ → List ℕ → M (Option ℕ)
  unfolding send_loop
  send_data fuel fd buf = send_loop fuel fd buf 0

  -- `got` is what the buffer holds so far, so its length is `recv_len`.
  unfoldable pub recv_loop : ℕ → ℕ → ℕ → List ℕ → M (Option (List ℕ))
  unfolding call
  recv_loop zero fd len got w = out_of_fuel
  recv_loop (suc fuel) fd len got w = elim (ltb (length got) len) [
    | false ↦ pure (some got) w
    | true ↦
        (do
          ret ← call (SysCall.recv fd (len - length got)) (λ t. kernel.recv t fd (len - length got))
          elim ret [ none ↦ pure none | some bytes ↦ recv_loop fuel fd len (got ++ bytes) ])
          w
  ]

  -- The bytes received, whose number the source returns; `none` is -1.
  unfoldable pub recv_data : ℕ → ℕ → ℕ → M (Option (List ℕ))
  unfolding recv_loop
  recv_data fuel fd len = recv_loop fuel fd len []

  -- The client's loop over the words that it reads: each is sent, and a full buffer is awaited.
  unfoldable pub client_loop : ℕ → ℕ → List (List ℕ) → M (Unit {0})
  unfolding send_data recv_data
  client_loop fuel fd [] = pure tt
  client_loop fuel fd (word ∷ words) = do
    sent ← send_data fuel fd word
    elim sent [
      | none ↦ pure tt
      | some _ ↦ (do
        reply ← recv_data fuel fd 1024
        elim reply [ none ↦ pure tt | some _ ↦ client_loop fuel fd words ])
    ]

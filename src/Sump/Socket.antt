-- ===== src/Sump/Socket.antt =====
-- The loops of sump_server.c that send and receive a given number of bytes. The n-th call of send or recv is
-- given by its result: `none` for one that is not positive.
use plat.Base.{
  length-drop, take-append-drop, ℕ, zero, suc, ◌-◌, ◌≤◌, ◌≡◌, refl, ap, ◌∙◌, Bool, true, false,
  Option, none, some, List, [], ◌∷◌, ◌++◌, take, drop, length, arith, Option-cases, inl, inr, ◌⊎◌,
}

-- `edt_send_all` on fuel, from the n-th call on, with `bytes` still to send: whether it returns 0, and the bytes
-- that the socket has taken. `send n len` is how many of `len` bytes the call takes.
unfoldable pub send_from : ℕ → (ℕ → ℕ → Option ℕ) → ℕ → List ℕ → Option (Bool × List ℕ)
send_from zero send n [] = some (true, [])
send_from zero send n (b ∷ bytes) = none
send_from (suc fuel) send n [] = some (true, [])
send_from (suc fuel) send n (b ∷ bytes) = elim (send n (length (b ∷ bytes))) [
  | none ↦ some (false, [])
  | some count ↦ elim (send_from fuel send (suc n) (drop count (b ∷ bytes))) [
    | none ↦ none
    | some (ok, taken) ↦ some (ok, take count (b ∷ bytes) ++ taken)
  ]
]

-- Each call takes a byte, so that there are enough rounds.
unfoldable pub send_all : (ℕ → ℕ → Option ℕ) → List ℕ → Option (Bool × List ℕ)
send_all send bytes = send_from (length bytes) send 0 bytes

-- `edt_recv_exact` on fuel, from the n-th call on, with `len` bytes missing: whether it returns 0, and the bytes
-- that stand in the buffer. `recv n len` is what the call receives.
unfoldable pub recv_from : ℕ → (ℕ → ℕ → Option (List ℕ)) → ℕ → ℕ → Option (Bool × List ℕ)
recv_from fuel recv n zero = some (true, [])
recv_from zero recv n (suc len) = none
recv_from (suc fuel) recv n (suc len) = elim (recv n (suc len)) [
  | none ↦ some (false, [])
  | some bytes ↦ elim (recv_from fuel recv (suc n) (suc len - length bytes)) [
    | none ↦ none
    | some (ok, more) ↦ some (ok, bytes ++ more)
  ]
]

unfoldable pub recv_exact : (ℕ → ℕ → Option (List ℕ)) → ℕ → Option (Bool × List ℕ)
recv_exact recv len = recv_from len recv 0 len

-- A call of send takes one byte at least, and no more than it is given, or fails.
abbrev pub Sends : (ℕ → ℕ → Option ℕ) → Type 0
Sends send = (n len count : ℕ) → send n len ≡ some count → (1 ≤ count) × (count ≤ len)

-- A result, with all bytes taken if it is a success.
abbrev pub IsSent : List ℕ → Option (Bool × List ℕ) → Type 0
IsSent bytes r =
    (ok : Bool) × (taken : List ℕ) × (r ≡ some (ok, taken)) × ((ok ≡ false) ⊎ (taken ≡ bytes))

send_from-IsSent :
    (fuel : ℕ) (send : ℕ → ℕ → Option ℕ) (n : ℕ) (bytes : List ℕ)
    → Sends send
    → length bytes ≤ fuel
    → IsSent bytes (send_from fuel send n bytes)
unfolding send_from
send_from-IsSent zero send n [] sends enough = (true, [], refl, inr refl)
send_from-IsSent zero send n (b ∷ bytes) sends enough = absurd (omega arith)
send_from-IsSent (suc fuel) send n [] sends enough = (true, [], refl, inr refl)
send_from-IsSent (suc fuel) send n (b ∷ bytes) sends enough =
    elim (Option-cases (send n (length (b ∷ bytes)))) [
      | inl e ↦ (false, [], rw (send_from, e) refl, inl refl)
      | inr (count, e) ↦
          let (some_byte, fits) = sends n (length (b ∷ bytes)) count e in
          let (ok, taken, r, same) =
            send_from-IsSent fuel send (suc n) (drop count (b ∷ bytes)) sends
              (omega (arith, length-drop count (b ∷ bytes))) in
          (
            ok,
            take count (b ∷ bytes) ++ taken,
            rw (send_from, e, r) refl,
            elim same [
              | inl failed ↦ inl failed
              | inr all ↦ inr (
                  ap (λ more. take count (b ∷ bytes) ++ more) all
                  ∙ take-append-drop count (b ∷ bytes))
            ],
          )
    ]

-- While each call of send takes a byte or more, and no more than it is given, or fails, `edt_send_all`
-- returns, and if it returns 0 the socket has taken all bytes, in order.
pub send_all-IsSent :
    (send : ℕ → ℕ → Option ℕ) (bytes : List ℕ) → Sends send → IsSent bytes (send_all send bytes)
unfolding send_all
send_all-IsSent send bytes sends = send_from-IsSent (length bytes) send 0 bytes sends (omega arith)

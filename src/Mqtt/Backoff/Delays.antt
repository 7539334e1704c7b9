-- ===== src/Mqtt/Backoff/Delays.antt =====
-- How the delays of mqtt_service.c follow each other.
use plat.Base.{ℕ, zero, suc, ◌*◌, ◌≤◌, ◌≡◌, refl, ap, ◌∙◌, ltb, ◌⊎◌, inl, inr, arith, Bool-cases}
use plat.Base.Int.{ℤ, pos, negsuc}
use plat.Mqtt.{retry_delay, next_backoff}

-- From one delay to the next.
abbrev pub delay_after : ℕ → ℕ
delay_after d = retry_delay (next_backoff d)

abbrev pub InRange : ℕ → Type 0
InRange d = (1 ≤ d) × (d ≤ 60)

pub retry_delay-range : (v : ℤ) → InRange (retry_delay v)
unfolding retry_delay
retry_delay-range (pos n) = ground arith
retry_delay-range (negsuc n) = ground arith

-- `e` is the first delay, doubled.
abbrev pub OneOf : ℕ → ℕ → Type 0
OneOf e d = (d ≡ 32) ⊎ (d ≡ 60) ⊎ (d ≡ e)

delay_after-cases :
    (d : ℕ)
    → InRange d
    → ((32 ≤ d) × (delay_after d ≡ 32))
      ⊎ ((d ≡ 31) × (delay_after d ≡ 60))
      ⊎ ((d ≤ 30) × (delay_after d ≡ d * 2))
unfolding retry_delay next_backoff
delay_after-cases d (low, high) = elim (Bool-cases (ltb d 32)) [
  | inl e ↦ elim (Bool-cases (ltb 60 (d * 2))) [
    | inl f ↦ inr (inl (ground (arith, e, f), ground (arith, e, f)))
    | inr f ↦ inr (inr (ground (arith, e, f), ground (arith, e, f)))
  ]
  | inr e ↦ inl (ground (arith, e), ground (arith, e))
]

next-OneOf : (e d : ℕ) → InRange d → OneOf e d → OneOf (e * 2) (delay_after d)
next-OneOf e d range h = elim (delay_after-cases d range) [
  | inl (big, r) ↦ inl r
  | inr (inl (odd, r)) ↦ inr (inl r)
  | inr (inr (small, r)) ↦ elim h [
    | inl g ↦ absurd (omega arith)
    | inr (inl g) ↦ absurd (omega arith)
    | inr (inr g) ↦ inr (inr (r ∙ ap (λ x. x * 2) g))
  ]
]

-- What the delay is after `k` failures that began with the delay `e`.
abbrev pub Stage : ℕ → ℕ → ℕ → Type 0
Stage zero e d = OneOf e d
Stage (suc zero) e d = OneOf (e * 2) d
Stage (suc (suc zero)) e d = OneOf (e * 2 * 2) d
Stage (suc (suc (suc zero))) e d = OneOf (e * 2 * 2 * 2) d
Stage (suc (suc (suc (suc zero)))) e d = OneOf (e * 2 * 2 * 2 * 2) d
Stage (suc (suc (suc (suc (suc k))))) e d = d ≡ 32

-- A delay that four doublings may have led to.
fifth : (e d : ℕ) → 1 ≤ e → InRange d → OneOf (e * 2 * 2 * 2 * 2) d → delay_after d ≡ 32
fifth e d some_delay range h = elim (delay_after-cases d range) [
  | inl (big, r) ↦ r
  | inr (inl (odd, r)) ↦ elim h [
    | inl g ↦ absurd (omega arith)
    | inr (inl g) ↦ absurd (omega arith)
    | inr (inr g) ↦ absurd (omega arith)
  ]
  | inr (inr (small, r)) ↦ elim h [
    | inl g ↦ absurd (omega arith)
    | inr (inl g) ↦ absurd (omega arith)
    | inr (inr g) ↦ omega arith
  ]
]

stays : delay_after 32 ≡ 32
unfolding retry_delay next_backoff
stays = refl

pub next-Stage : (k e d : ℕ) → 1 ≤ e → InRange d → Stage k e d → Stage (suc k) e (delay_after d)
next-Stage zero e d one range h = next-OneOf e d range h
next-Stage (suc zero) e d one range h = next-OneOf (e * 2) d range h
next-Stage (suc (suc zero)) e d one range h = next-OneOf (e * 2 * 2) d range h
next-Stage (suc (suc (suc zero))) e d one range h = next-OneOf (e * 2 * 2 * 2) d range h
next-Stage (suc (suc (suc (suc zero)))) e d one range h = fifth e d one range h
next-Stage (suc (suc (suc (suc (suc k))))) e d one range h = ap delay_after h ∙ stays

pub Stage-end : (k e d : ℕ) → Stage k e d → (k ≤ 4) ⊎ (d ≡ 32)
Stage-end zero e d h = inl (omega arith)
Stage-end (suc zero) e d h = inl (omega arith)
Stage-end (suc (suc zero)) e d h = inl (omega arith)
Stage-end (suc (suc (suc zero))) e d h = inl (omega arith)
Stage-end (suc (suc (suc (suc zero)))) e d h = inl (omega arith)
Stage-end (suc (suc (suc (suc (suc k))))) e d h = inr h

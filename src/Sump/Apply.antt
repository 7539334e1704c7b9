-- ===== src/Sump/Apply.antt =====
-- What a client's settings in sump_server.c make of the logic analyser.
use mathlib.Core.Path.{subst}
use plat.Base.{
  ℕ, zero, suc, ◌+◌, ◌-◌, ◌/◌, ◌^◌, ◌≤◌, ◌<◌, ◌≡◌, ◌≢◌, ◌⊎◌, ◌↔◌, inl, inr, refl, sym, ap, ◌∙◌,
  Bool, true, false, not, ◌&&◌, Option, none, some, leb, ◌==◌, if◌then◌else◌, arith, Bool-cases,
}
use plat.Base.Words.{to_u32}
use plat.LogicAnalyzer.{
  Analyzer, TriggerMode, TriggerConfig, trigger_none, edge_rising, edge_falling, level_high,
  level_low,
}
use plat.LogicAnalyzer.Control.{needs_arming, set_sample_rate, set_trigger, arm}
use plat.LogicAnalyzer.Rate.{IsRated, rate_set, trigger_set, rearmed, Step-IsRated}
use plat.Sump.Session.{
  Session, bit_of, channel_from, trigger_channel, map_trigger_mode, session_rate, session_trigger,
  apply_session,
}

-- The channel of the lowest bit that is set.
abbrev pub IsLowest : ℕ → ℕ → Type 0
IsLowest mask channel =
    (channel < 8) × (bit_of mask channel ≡ 1) × ((j : ℕ) → j < channel → bit_of mask j ≡ 0)

bit_clear : (mask c : ℕ) → (bit_of mask c == 1) ≡ false → bit_of mask c ≡ 0
unfolding bit_of
bit_clear mask c e = ground arith

before_or_at : (j c : ℕ) → j < c + 1 → (j < c) ⊎ (j ≡ c)
before_or_at j c h = omega arith

clear_next :
    (mask c : ℕ)
    → ((j : ℕ) → j < c → bit_of mask j ≡ 0)
    → (bit_of mask c == 1) ≡ false
    → (j : ℕ) → j < c + 1
    → bit_of mask j ≡ 0
clear_next mask c below e j h = elim (before_or_at j c h) [
  | inl before ↦ below j before
  | inr at ↦ ap (bit_of mask) at ∙ bit_clear mask c e
]

channel_from-IsLowest :
    (mask rounds c : ℕ)
    → c + rounds ≡ 8
    → ((j : ℕ) → j < c → bit_of mask j ≡ 0)
    → IsLowest mask (channel_from mask rounds c) ⊎ ((j : ℕ) → j < 8 → bit_of mask j ≡ 0)
unfolding channel_from
channel_from-IsLowest mask zero c e below = inr (λ j h. below j (omega arith))
channel_from-IsLowest mask (suc rounds) c e below = elim (Bool-cases (bit_of mask c == 1)) [
  | inl found ↦ rw found (inl (omega arith, ground arith, below))
  | inr other ↦
      rw other
        (channel_from-IsLowest mask rounds (c + 1) (omega arith) (clear_next mask c below other))
]

no_bits : (mask : ℕ) → mask < 256 → ((j : ℕ) → j < 8 → bit_of mask j ≡ 0) → mask ≡ 0
unfolding bit_of
no_bits mask h z = omega (
  arith,
  z 0 (omega arith),
  z 1 (omega arith),
  z 2 (omega arith),
  z 3 (omega arith),
  z 4 (omega arith),
  z 5 (omega arith),
  z 6 (omega arith),
  z 7 (omega arith),
)

trigger_channel-IsLowest : (mask : ℕ) → mask < 256 → mask ≢ 0 → IsLowest mask (trigger_channel mask)
unfolding trigger_channel
trigger_channel-IsLowest mask h nz =
    elim (channel_from-IsLowest mask 8 0 refl (λ j k. absurd (omega arith))) [
      | inl low ↦
          let first : (mask == 0) ≡ false = ground arith in
          let second : leb 8 (channel_from mask 8 0) ≡ false = ground (arith, low.0) in
          rw (first, second) low
      | inr clear ↦ absurd (nz (no_bits mask h clear))
    ]

trigger_channel-bound : (mask : ℕ) → trigger_channel mask < 8
unfolding trigger_channel
trigger_channel-bound mask = ground arith

-- What a client's settings have made of the analyser.
pub record IsApplied (la : Analyzer) (s : Session) (r : Option Analyzer) : Type 0 where
  pub after : Analyzer
  pub returns : r ≡ some after
  pub rated : IsRated after
  pub trigger : after.trigger ≡ session_trigger s
  pub lowest : s.trigger_mask ≢ 0 → IsLowest s.trigger_mask after.trigger.channel
  pub waits : after.armed ≡ needs_arming after.trigger.mode
  pub masked_waits : s.trigger_mask ≢ 0 → after.armed ≡ true

at_least_one : (r : ℕ) → 1 ≤ (if r == 0 then 1 else r)
at_least_one r = ground arith

session_rate-some :
    (max_rate : ℕ) (s : Session)
    → s.divider < 2 ^ 32 - 1
    → (rate : ℕ) × (session_rate max_rate s ≡ some rate) × (1 ≤ rate)
unfolding session_rate
session_rate-some max_rate s h = elim (Bool-cases (s.divider == 0)) [
  | inl e ↦ (_, rw e refl, at_least_one max_rate)
  | inr e ↦
      let small : (to_u32 (s.divider + 1) == 0) ≡ false = ground arith in
      (_, rw (e, small) refl, at_least_one (max_rate / to_u32 (s.divider + 1)))
]

set_trigger-ok :
    (la : Analyzer) (s : Session)
    → let after = (set_trigger la (session_trigger s)).1 in
      (after.trigger ≡ session_trigger s) × (after.armed ≡ needs_arming (session_trigger s).mode)
unfolding set_trigger session_trigger
set_trigger-ok la s = ground (arith, trigger_channel-bound s.trigger_mask)

arm-ok :
    (la : Analyzer)
    → la.armed ≡ needs_arming la.trigger.mode
    → ((arm la).1.trigger ≡ la.trigger) × ((arm la).1.armed ≡ needs_arming la.trigger.mode)
unfolding arm
arm-ok la h = elim (Bool-cases (needs_arming la.trigger.mode)) [
  | inl e ↦ rw e (refl, refl)
  | inr e ↦ rw e (refl, h ∙ e)
]

replaced_mode :
    (m other : TriggerMode) (masked : Bool)
    → needs_arming other ≡ true
    → masked ≡ true
    → needs_arming (if not (needs_arming m) && masked then other else m) ≡ true
unfolding needs_arming
replaced_mode trigger_none other masked h e = rw e h
replaced_mode edge_rising other masked h e = refl
replaced_mode edge_falling other masked h e = refl
replaced_mode level_high other masked h e = refl
replaced_mode level_low other masked h e = refl

level_arms : (b : Bool) → needs_arming (if b then level_high else level_low) ≡ true
unfolding needs_arming
level_arms true = refl
level_arms false = refl

masked_mode : (s : Session) → s.trigger_mask ≢ 0 → needs_arming (session_trigger s).mode ≡ true
unfolding session_trigger
masked_mode s nz =
    replaced_mode (map_trigger_mode s.trigger_mode) _ (not (s.trigger_mask == 0))
      (level_arms (bit_of s.trigger_value (trigger_channel s.trigger_mask) == 1)) (ground arith)

session_channel : (s : Session) → (session_trigger s).channel ≡ trigger_channel s.trigger_mask
unfolding session_trigger
session_channel s = refl

-- Unless the divider is 2 ^ 32 - 1, a client's settings leave an analyser that is in range, has the
-- client's trigger, on the lowest channel of its mask if that is not 0, and waits for it just if the
-- trigger has a mode: always, if the mask is not 0.
pub apply_session-IsApplied :
    (la : Analyzer) (s : Session)
    → IsRated la
    → s.divider < 2 ^ 32 - 1
    → s.trigger_mask < 256
    → IsApplied la s (apply_session la s)
unfolding apply_session
apply_session-IsApplied la s rated small byte =
    let (rate, e, one) = session_rate-some la.config.max_sample_rate_hz s small in
    let set = (set_sample_rate la rate).1 in
    let (trigger, armed) = set_trigger-ok set s in
    let triggered = (set_trigger set (session_trigger s)).1 in
    let (trigger', armed') =
      arm-ok triggered (armed ∙ ap (λ (t : TriggerConfig). needs_arming t.mode) (sym trigger)) in
    let same = trigger' ∙ trigger in
    record {
      after = (arm triggered).1;
      returns = rw (apply_session, e) refl;
      rated =
          Step-IsRated rearmed
            (Step-IsRated (trigger_set (session_trigger s)) (Step-IsRated (rate_set rate) rated));
      trigger = same;
      lowest = λ nz.
          subst (IsLowest s.trigger_mask)
            (sym (ap (λ (t : TriggerConfig). t.channel) same ∙ session_channel s))
            (trigger_channel-IsLowest s.trigger_mask byte nz);
      waits = armed' ∙ ap (λ (t : TriggerConfig). needs_arming t.mode) (sym trigger');
      masked_waits =
          λ nz. armed' ∙ ap (λ (t : TriggerConfig). needs_arming t.mode) trigger ∙ masked_mode s nz;
    }

-- A client that sets the divider to 2 ^ 32 - 1 and arms makes the server divide by zero; no other
-- divider does.
pub apply_session-crashes_iff :
    (la : Analyzer) (s : Session)
    → s.divider < 2 ^ 32
    → (apply_session la s ≡ none) ↔ (s.divider ≡ 2 ^ 32 - 1)
unfolding apply_session session_rate
apply_session-crashes_iff la s h = ground arith

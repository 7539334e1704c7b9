-- ===== src/Sump/Session.antt =====
-- A client's settings in sump_server.c, and how they reach the logic analyser.
use plat.Base.{
  ℕ, zero, suc, ◌+◌, ◌-◌, ◌*◌, ◌/◌, ◌%◌, ◌^◌, not, ◌&&◌, Option, none, some, List, [], ◌∷◌, ◌++◌,
  ltb, leb, ◌==◌, if◌then◌else◌,
}
use plat.Base.Words.{to_u32}
use plat.LogicAnalyzer.{
  Analyzer, TriggerMode, TriggerConfig, trigger_none, edge_rising, edge_falling, level_high,
  level_low,
}
use plat.LogicAnalyzer.Control.{needs_arming, set_sample_rate, set_trigger, arm}

-- `edt_sump_session_t`.
pub record Session : Type 0 where
  pub divider : ℕ
  pub read_count : ℕ
  pub trigger_mask : ℕ
  pub trigger_value : ℕ
  pub trigger_mode : ℕ

-- The settings of a new client, and after a reset.
unfoldable pub first_session : ℕ → Session
first_session capture_samples = record {
  divider = 0;
  read_count = to_u32 (if ltb 0 capture_samples then capture_samples - 1 else 4095);
  trigger_mask = 0;
  trigger_value = 0;
  trigger_mode = 0;
}

unfoldable pub map_trigger_mode : ℕ → TriggerMode
map_trigger_mode mode =
    if mode == 1
    then edge_rising
    else if mode == 2
    then edge_falling
    else if mode == 3
    then level_high
    else if mode == 4
    then level_low
    else trigger_none

unfoldable pub bit_of : ℕ → ℕ → ℕ
bit_of value channel = value / 2 ^ channel % 2

-- The loop over the channels, `rounds` of which are left.
unfoldable pub channel_from : ℕ → ℕ → ℕ → ℕ
channel_from mask zero channel = channel
channel_from mask (suc rounds) channel =
    let rest = channel_from mask rounds (channel + 1) in
    if bit_of mask channel == 1 then channel else rest

unfoldable pub trigger_channel : ℕ → ℕ
trigger_channel mask =
    let channel = if mask == 0 then 0 else channel_from mask 8 0 in
    if leb 8 channel then 0 else channel

-- The rate of a session. `divider + 1` is a uint32_t: `none` is a division by zero.
unfoldable pub session_rate : ℕ → Session → Option ℕ
session_rate max_rate s =
    let quotient = max_rate / to_u32 (s.divider + 1) in
    if s.divider == 0
    then some (if max_rate == 0 then 1 else max_rate)
    else if to_u32 (s.divider + 1) == 0
    then none
    else some (if quotient == 0 then 1 else quotient)

unfoldable pub session_trigger : Session → TriggerConfig
session_trigger s =
    let channel = trigger_channel s.trigger_mask in
    let level = if bit_of s.trigger_value channel == 1 then level_high else level_low in
    let mode = map_trigger_mode s.trigger_mode in
    record {
      mode = if not (needs_arming mode) && not (s.trigger_mask == 0) then level else mode;
      channel = channel;
    }

-- `edt_sump_apply_session`: `none` is a division by zero.
unfoldable pub apply_session : Analyzer → Session → Option Analyzer
apply_session la s = elim (session_rate la.config.max_sample_rate_hz s) [
  | none ↦ none
  | some rate ↦ some (arm (set_trigger (set_sample_rate la rate).1 (session_trigger s)).1).1
]

-- How many samples `edt_sump_stream_capture` asks for.
unfoldable pub capture_target : ℕ → Session → ℕ
capture_target capture_samples s =
    let asked = if s.read_count == 0 then capture_samples else to_u32 (s.read_count + 1) in
    let target = if asked == 0 then 4096 else asked in
    if ltb (2 ^ 20) target then 2 ^ 20 else target

-- A uint32_t as its four bytes, the lowest first, and back.
unfoldable pub le_bytes : ℕ → List ℕ
le_bytes v = v % 256 ∷ v / 2 ^ 8 % 256 ∷ v / 2 ^ 16 % 256 ∷ v / 2 ^ 24 % 256 ∷ []

unfoldable pub le_value : ℕ → ℕ → ℕ → ℕ → ℕ
le_value b0 b1 b2 b3 = b0 + b1 * 2 ^ 8 + b2 * 2 ^ 16 + b3 * 2 ^ 24

-- "Embedded Debug Toolkit" with the byte that ends it.
abbrev pub toolkit_name : List ℕ
toolkit_name =
    69 ∷ 109 ∷ 98 ∷ 101 ∷ 100 ∷ 100 ∷ 101 ∷ 100 ∷ 32 ∷ 68 ∷ 101 ∷ 98 ∷ 117 ∷ 103 ∷ 32 ∷ 84 ∷ 111
    ∷ 111 ∷ 108 ∷ 107 ∷ 105 ∷ 116 ∷ 0 ∷ []

-- `edt_send_metadata`: what it sends.
unfoldable pub metadata : Analyzer → List ℕ
metadata la =
    (1 ∷ toolkit_name)
    ++ (33 ∷ le_bytes (to_u32 la.config.ring_capacity_samples))
    ++ (35 ∷ le_bytes la.config.max_sample_rate_hz)
    ++ (64 ∷ 2 ∷ 0 ∷ [])

-- ===== src/Sump/Client.antt =====
-- The command loop of a client's thread in sump_server.c.
use plat.Base.{
  ℕ, zero, suc, ◌+◌, Bool, Option, none, some, List, [], ◌∷◌, ◌++◌, length, leb, ◌==◌,
  if◌then◌else◌,
}
use plat.Base.Words.{to_u8}
use plat.LogicAnalyzer.{Analyzer}
use plat.Sump.Session.{Session, first_session, apply_session, capture_target, le_value, metadata}

-- A connection: the bytes that the client will still send before it closes, and those that it has got.
pub record Connection : Type 0 where
  pub analyzer : Analyzer
  pub session : Session
  pub input : List ℕ
  pub output : List ℕ

-- A round of the loop: another follows, the connection ends, or the process stops at a division by
-- zero.
pub data Outcome : Type 0 where
  goes_on : Connection → Outcome
  ends : Connection → Outcome
  crashes : Outcome

-- The effect of a command with a parameter.
unfoldable pub set_parameter : ℕ → ℕ → Session → Session
set_parameter cmd param s =
    if cmd == 128
    then record s { divider = param }
    else if cmd == 129
    then record s { read_count = param }
    else if cmd == 192
    then record s { trigger_mask = to_u8 param }
    else if cmd == 193
    then record s { trigger_value = to_u8 param }
    else if cmd == 194
    then record s { trigger_mode = to_u8 param }
    else s

-- What follows the four bytes of a parameter.
unfoldable pub take_parameter : ℕ → Connection → ℕ → List ℕ → Outcome
take_parameter cmd c param rest =
    goes_on (record c { session = set_parameter cmd param c.session; input = rest })

-- A connection that ends within a parameter: `edt_recv_exact` returns -errno, and recv does not set errno at the
-- end of a connection. `stale i` is what the stack holds at byte `i` of the parameter.
module _ (errno_at_end : ℕ) (stale : ℕ → ℕ) where
  unfoldable pub cut_parameter : ℕ → Connection → ℕ → Outcome
  cut_parameter cmd c param =
      if errno_at_end == 0 then take_parameter cmd c param [] else ends (record c { input = [] })

  unfoldable pub receive_parameter : ℕ → Connection → List ℕ → Outcome
  receive_parameter cmd c (b0 ∷ b1 ∷ b2 ∷ b3 ∷ rest) =
      take_parameter cmd c (le_value b0 b1 b2 b3) rest
  receive_parameter cmd c (b0 ∷ b1 ∷ b2 ∷ []) = cut_parameter cmd c (le_value b0 b1 b2 (stale 3))
  receive_parameter cmd c (b0 ∷ b1 ∷ []) = cut_parameter cmd c (le_value b0 b1 (stale 2) (stale 3))
  receive_parameter cmd c (b0 ∷ []) =
      cut_parameter cmd c (le_value b0 (stale 1) (stale 2) (stale 3))
  receive_parameter cmd c [] =
      cut_parameter cmd c (le_value (stale 0) (stale 1) (stale 2) (stale 3))

unfoldable pub reply : Connection → List ℕ → Connection
reply c bytes = record c { output = c.output ++ bytes }

-- `capture la n` is what `edt_logic_analyzer_capture_blocking` gives when asked for `n` samples: their
-- channels, and the analyser then. `allocates n` is whether calloc gives both arrays for `n` samples, and `sends
-- bytes` whether the socket takes the bytes.
module _ (errno_at_end : ℕ) (stale : ℕ → ℕ) (capture_samples : ℕ)
    (capture : Analyzer → ℕ → List ℕ × Analyzer) (allocates : ℕ → Bool)
    (sends : List ℕ → Bool) where
  -- What follows the allocations of a stream.
  unfoldable pub stream_allocated : Connection → Outcome
  stream_allocated c = elim (apply_session c.analyzer c.session) [
    | none ↦ crashes
    | some la ↦
        let (raw, after) = capture la (capture_target capture_samples c.session) in
        let captured = record c { analyzer = after } in
        if sends raw then goes_on (reply captured raw) else ends captured
  ]

  -- `edt_sump_stream_capture`, and the end of the connection if it fails.
  unfoldable pub stream_capture : Connection → Outcome
  stream_capture c =
      if allocates (capture_target capture_samples c.session) then stream_allocated c else ends c

  -- A round, with the command that has been received taken from the input.
  unfoldable pub on_command : ℕ → Connection → Outcome
  on_command cmd c =
      if cmd == 0
      then goes_on (record c { session = first_session capture_samples })
      else if cmd == 2
      then goes_on (if sends (49 ∷ 65 ∷ 76 ∷ 83 ∷ []) then reply c (49 ∷ 65 ∷ 76 ∷ 83 ∷ []) else c)
      else if cmd == 4
      then goes_on (if sends (metadata c.analyzer) then reply c (metadata c.analyzer) else c)
      else if cmd == 1
      then stream_capture c
      else if leb 128 cmd
      then receive_parameter errno_at_end stale cmd c c.input
      else ends c

  -- The loop on fuel; `none` is a loop that has not ended.
  unfoldable pub serve : ℕ → Connection → Option Outcome
  serve zero c = none
  serve (suc fuel) c = elim c.input [
    | [] ↦ some (ends c)
    | cmd ∷ rest ↦ elim (on_command cmd (record c { input = rest })) [
      | goes_on c' ↦ serve fuel c'
      | ends c' ↦ some (ends c')
      | crashes ↦ some crashes
    ]
  ]

  unfoldable pub client_thread : Analyzer → List ℕ → Option Outcome
  client_thread la input = serve (length input + 1) (record {
    analyzer = la;
    session = first_session capture_samples;
    input = input;
    output = [];
  })

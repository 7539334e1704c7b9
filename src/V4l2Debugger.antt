-- ===== src/V4l2Debugger.antt =====
-- embedded_debug_toolkit/src/tools/v4l2_debugger.c on Linux: the system's calls are given by their results, and a
-- null argument is not modelled.
pub mod Listing
mod Tests
use plat.Base.{
  ℕ, zero, suc, ◌+◌, ◌-◌, ◌/◌, ◌%◌, Bool, true, false, List, [], ◌∷◌, ◌++◌, ltb, leb, ◌==◌,
  if◌then◌else◌, take, length,
}
use plat.Base.Text.{Text, codes, print_nat}

-- A result of the system: errno, or a value.
pub data Outcome (A : Type 0) : Type 0 where
  failed : ℕ → Outcome A
  gives : A → Outcome A

-- The fields of `struct v4l2_capability` that are read.
pub record Capability : Type 0 where
  pub capabilities : ℕ
  pub driver : Text
  pub card : Text

-- `edt_v4l2_probe_result_t`; a char array is its text.
pub record ProbeResult : Type 0 where
  pub device : Text
  pub available : Bool
  pub driver : Text
  pub card : Text
  pub capabilities : ℕ
  pub timestamp_ns : ℕ

-- The sizes of the char arrays.
abbrev pub device_size : ℕ
device_size = 64

abbrev pub name_size : ℕ
name_size = 64

-- What VIDIOC_QUERYCAP comes to on an open device.
unfoldable pub query : ProbeResult → Outcome Capability → ℕ × ProbeResult
query r (failed errno) = (errno, r)
query r (gives cap) = (
  0,
  record r {
    available = true;
    capabilities = cap.capabilities;
    driver = take (name_size - 1) cap.driver;
    card = take (name_size - 1) cap.card;
  },
)

-- `edt_v4l2_probe` at the time `now`: n for the result -n.
unfoldable pub probe : ℕ → Text → Outcome (Outcome Capability) → ℕ × ProbeResult
probe now device opened =
    let r : ProbeResult = record {
      device = take (device_size - 1) device;
      available = false;
      driver = [];
      card = [];
      capabilities = 0;
      timestamp_ns = now;
    } in
    elim opened [ failed errno ↦ (errno, r) | gives queried ↦ query r queried ]

-- The fields of `struct v4l2_fmtdesc` that are read.
pub record Format : Type 0 where
  pub pixelformat : ℕ
  pub description : Text

-- A digit of %X.
unfoldable pub hex_digit : ℕ → ℕ
hex_digit n = if ltb n 10 then 48 + n else 55 + n

-- The lowest `n` digits of %X, in front of `out`.
unfoldable pub hex_digits : ℕ → ℕ → Text → Text
hex_digits zero v out = out
hex_digits (suc n) v out = hex_digits n (v / 16) (hex_digit (v % 16) ∷ out)

-- The line of a format.
unfoldable pub format_line : ℕ → Format → Text
format_line index f =
    codes "#"
    ++ (print_nat index
        ++ (codes " fourcc=0x"
            ++ (hex_digits 8 f.pixelformat []
                ++ (codes " desc=" ++ (f.description ++ codes "\n")))))

-- The loop of `edt_v4l2_dump_formats` with the formats that VIDIOC_ENUM_FMT still gives: `text` is what the
-- buffer of `size` bytes holds, and `pos` the variable; the text in the buffer, and `pos`, at the end.
unfoldable pub dump_loop : ℕ → ℕ → List Format → Text → ℕ → Text × ℕ
dump_loop size index [] text pos = (text, pos)
dump_loop size index (f ∷ formats) text pos =
    let line = format_line index f in
    let rest = dump_loop size (index + 1) formats (text ++ line) (pos + length line) in
    if leb (size - pos) (length line) then (text ++ take (size - pos - 1) line, size - 1) else rest

unfoldable pub no_formats : Text → Text
no_formats device = codes "No capture formats found on " ++ device

-- What an open device comes to.
unfoldable pub dump_open : Text → ℕ → List Format → Text
dump_open device size formats =
    let (text, pos) = dump_loop size 0 formats [] 0 in
    if pos == 0 then take (size - 1) (no_formats device) else text

-- `edt_v4l2_dump_formats` for a buffer of `size` bytes; `explain` is strerror. The error n for -n, and the text in
-- the buffer.
unfoldable pub dump_formats : (ℕ → Text) → Text → ℕ → Outcome (List Format) → ℕ × Text
dump_formats explain device size (failed errno) =
    (errno, take (size - 1) (codes "open(" ++ (device ++ (codes ") failed: " ++ explain errno))))
dump_formats explain device size (gives formats) = (0, dump_open device size formats)

-- ===== src/Trace.antt =====
-- fwmodel/model/trace.py: what happens at the boundary of the device, cycle by cycle, and the log of a
-- run. The texts of a trace are read already: a bit is named by its frame and its number.
pub mod Length
pub mod Log
pub mod Silence
pub mod Same
use Prim.Native.Nat.{bit_and, bit_or}
use dingo_cli.Prelude.{
  ℕ, suc, ◌+◌, ◌-◌, ◌/◌, ◌%◌, max, Bool, false, not, ◌||◌, Option, none, some, List, [], ◌∷◌, ◌++◌,
  length, replicate, ◌==◌, if◌then◌else◌,
}
use dingo_cli.Prelude.Results.{Result, ok, ◌>>=◌}
use dingo_cli.Enums.{cycle_ms}
use dingo_cli.Bits.{◌<<<◌}
use dingo_cli.Double.{Double}
use dingo_cli.Vars.{read, write}
use dingo_cli.CanInput.{RxFrame}
use dingo_cli.Config.{DeviceConfig}
use dingo_cli.Sim.{Sim, step}
use dingo_cli.Observe.{Signal, observe}
use dingo_cli.Equiv.{Row}

-- A step of a trace. A part that it leaves out is empty, but for the two durations.
pub record Step : Type 0 where
  pub pins : List (ℕ × ℕ)
  pub bits : List (ℕ × (ℕ × ℕ))
  pub bytes : List (ℕ × List ℕ)
  pub quiet : List ℕ
  pub loud : List ℕ
  pub cycles : Option ℕ
  pub ms : Option ℕ

-- pins, payloads and silent
pub record Wires : Type 0 where
  pub pins : List (ℕ × ℕ)
  pub payloads : List (ℕ × List ℕ)
  pub silent : List ℕ

abbrev pub no_wires : Wires
no_wires = record { pins = []; payloads = []; silent = [] }

-- What `cycles` yields.
pub record Cycle : Type 0 where
  pub pins : List (ℕ × ℕ)
  pub frames : List RxFrame

module _ {A : Type 0} where
  -- d.get(key)
  unfoldable pub find : (key : ℕ) → List (ℕ × A) → Option A
  find key [] = none
  find key ((k, a) ∷ rest) = if k == key then some a else find key rest

  -- d[key] = a, which keeps the place of a key that is there.
  unfoldable pub store : (key : ℕ) → A → List (ℕ × A) → List (ℕ × A)
  store key a [] = (key, a) ∷ []
  store key a ((k, b) ∷ rest) = if k == key then (k, a) ∷ rest else (k, b) ∷ store key a rest

unfoldable pub is_silent : ℕ → List ℕ → Bool
is_silent id [] = false
is_silent id (x ∷ xs) = x == id || is_silent id xs

unfoldable pub discard : ℕ → List ℕ → List ℕ
discard id [] = []
discard id (x ∷ xs) = let rest = discard id xs in if x == id then rest else x ∷ rest

unfoldable pub set_pins : List (ℕ × ℕ) → List (ℕ × ℕ) → List (ℕ × ℕ)
unfolding store
set_pins [] pins = pins
set_pins ((k, v) ∷ rest) pins = set_pins rest (store k v pins)

-- One bit of the buffer of a frame: buf[b // 8] |= 1 << (b % 8), or &= ~(1 << (b % 8)) & 0xFF.
unfoldable pub set_bit : (bit value : ℕ) → List ℕ → Result (List ℕ)
unfolding read write
set_bit bit value buf = do
  byte ← read buf (bit / 8)
  write buf (bit / 8) (
      if value == 0 then bit_and byte (0xFF - (1 <<< (bit % 8))) else bit_or byte (1 <<< (bit % 8)))

unfoldable pub buffer : ℕ → List (ℕ × List ℕ) → List ℕ
unfolding find
buffer id payloads = elim (find id payloads) [ none ↦ replicate 8 0 | some buf ↦ buf ]

unfoldable pub set_bits : List (ℕ × (ℕ × ℕ)) → List (ℕ × List ℕ) → Result (List (ℕ × List ℕ))
unfolding set_bit buffer store
set_bits [] payloads = ok payloads
set_bits ((id, (bit, value)) ∷ rest) payloads = do
  buf ← set_bit bit value (buffer id payloads)
  set_bits rest (store id buf payloads)

-- list(v) + [0] * (8 - len(v))
unfoldable pub set_bytes : List (ℕ × List ℕ) → List (ℕ × List ℕ) → List (ℕ × List ℕ)
unfolding store
set_bytes [] payloads = payloads
set_bytes ((id, v) ∷ rest) payloads =
    set_bytes rest (store id (v ++ replicate (8 - length v) 0) payloads)

unfoldable pub hush : List ℕ → List ℕ → List ℕ
unfolding is_silent
hush [] silent = silent
hush (id ∷ rest) silent = hush rest (if is_silent id silent then silent else id ∷ silent)

unfoldable pub unhush : List ℕ → List ℕ → List ℕ
unfolding discard
unhush [] silent = silent
unhush (id ∷ rest) silent = unhush rest (discard id silent)

-- What the parts of a step do to the wires, in the order of the code.
unfoldable pub apply_step : Step → Wires → Result Wires
unfolding set_pins set_bits set_bytes hush unhush
apply_step s w = do
  payloads ← set_bits s.bits w.payloads
  ok (record {
    pins = set_pins s.pins w.pins;
    payloads = set_bytes s.bytes payloads;
    silent = unhush s.loud (hush s.quiet w.silent);
  })

-- n
unfoldable pub duration : Step → ℕ
duration s = elim s.cycles [
  | some n ↦ n
  | none ↦ elim s.ms [ none ↦ 1 | some ms ↦ max 1 ((ms + cycle_ms - 1) / cycle_ms) ]
]

-- The frames of the ids that are not silent.
unfoldable pub sounding : List (ℕ × List ℕ) → List ℕ → List RxFrame
unfolding is_silent
sounding [] silent = []
sounding ((id, buf) ∷ rest) silent =
    let more = sounding rest silent in if is_silent id silent then more else (id, buf) ∷ more

-- Trace.cycles
unfoldable pub trace_cycles : List Step → Wires → Result (List Cycle)
unfolding apply_step duration sounding
trace_cycles [] w = ok []
trace_cycles (s ∷ ss) w = do
  w' ← apply_step s w
  more ← trace_cycles ss w'
  ok (
      replicate (duration s) (record { pins = w'.pins; frames = sounding w'.payloads w'.silent })
      ++ more)

-- bool(pins.get(i + 1, 0))
unfoldable pub pin_level : List (ℕ × ℕ) → (i : ℕ) → Bool
unfolding find
pin_level pins i = elim (find (suc i) pins) [ none ↦ false | some v ↦ not (v == 0) ]

module _ {W : Type 0} (d : Double W) (c : DeviceConfig W) where
  -- run, from cycle number `i` on.
  unfoldable pub run_cycles :
      (observe_every i : ℕ) → List Cycle → Sim W → Result (List (Row Signal W))
  unfolding step observe pin_level
  run_cycles observe_every i [] s = ok []
  run_cycles observe_every i (t ∷ ts) s = do
    s' ← step d c (pin_level t.pins) t.frames 0 s
    (if i % observe_every == 0
        then (do
          o ← observe c s'
          log ← run_cycles observe_every (suc i) ts s'
          ok (record { signals = o; cycle = i; ms = s'.time_ms } ∷ log))
        else run_cycles observe_every (suc i) ts s')

  -- run, where `observe_every` is not 0. The cycles are computed first: nothing in a run changes them.
  unfoldable pub run_trace : (observe_every : ℕ) → List Step → Sim W → Result (List (Row Signal W))
  unfolding trace_cycles run_cycles
  run_trace observe_every steps s = do
    ts ← trace_cycles steps no_wires
    run_cycles observe_every 0 ts s

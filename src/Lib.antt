-- ===== src/Lib.antt =====
-- The simulator of dingoPDM devices: fwmodel/model of the repository, the Python model of the firmware's
-- logic that the tools compare configs with.
--
-- The parts, with the files and the functions that they model:
--   Enums          the constants of fwmodel/model/dingosim.py
--   Double         Python's float, as an interface (see below)
--   Vars           the var map that all blocks share, and the loop over the slots of a category
--   Bits           shifts, masks and `&` on integers
--   Dbc            decode_int, decode_float, encode_float: the fields of CAN frames
--   Latch          InputLatch.check, the momentary and latching inputs
--   DigitalInput   Sim._digin, with the debouncing of pins
--   CanInput       steps 1 and 6 of Sim.step: received frames and timeouts
--   CanOutput      Sim._init_can_frames and Sim._can_outputs: samples and transmitted frames
--   VirtualInput   Sim._virtin
--   Condition      Sim._cmp and Sim._condition
--   Counter        Sim._edge and Sim._counter
--   Flasher        Sim._flasher
--   Output         Sim._profet
--   Board          fwmodel/model/varmap.py: the layout of the var map, and the registered boards
--   Config         DeviceConfig and Sim._validate_refs
--   Json           the JSON values of the documents, and how Python reads them
--   Load           load_device, end to end: the device and its board, the groups of slots under the
--                  firmware's, the GUI's and the adversarial defaults, and the typed config
--   Sim            Sim.__init__ and Sim.step, the cycle of 2 ms
--   Observe        Sim.observe
--   Trace          fwmodel/model/trace.py: Trace.cycles and run
--   Equiv          fwmodel/model/equiv.py: _load, compare, and the report of main on one trace
--   Corpus         fwmodel/tools/mkreference.py and mkadversarial.py: the documents of the corpus
--   Crosscheck     fwhost/crosscheck.py: the runs on the simulator and on the firmware, compared
--   Fuzz           fwhost/fuzz.py: the random configs and traces, and the verdict of run_case
--   Examples       sample slots, devices and logs, with the theorems applied to them
--
-- A cycle takes the config and a state, and runs the categories in the order of Sim.step: received
-- frames, outputs, digital inputs, timeouts, CAN outputs, virtual inputs, flashers, counters and
-- conditions. Each category is a run over its slots (Vars.run_slots); a slot has an entry of the
-- category's state and its own entries of the var map, and reads any variable. Parallel arrays such as
-- _ct_last_inc and _ct_last_dec are one list of records. What raises in Python is a `Result`; only
-- main of equiv.py and run_case of fuzz.py catch an exception, and drop what raised it, so the state in
-- which it was raised is left out.
-- The fault not_finite is what int() raises on an infinity or a NaN.
--
-- Python's floats are the interface `Double` of an abstract type. Its laws are those of IEEE doubles
-- on whole numbers that a double holds, up to 2 ^ 53, and that a division by 1 changes nothing; the
-- instance `exact` on the integers meets them, and the examples run on it. Integers of a config are
-- natural numbers, so that the test `0 <= ref` of the code holds. Differences of times are written as
-- sums, now - t > d as t + d < now. Names are lists of character codes. The names, the order of the
-- names and the equality of values in Equiv are parameters. The steps of a trace are parsed already.
--
-- Loops over slots, bits and cycles are structural recursion. The one loop on fuel writes the decimal
-- digits of a number n, with fuel n + 1, which is more than its digits.
--
-- A loaded document is untyped, as in Python; `Load.Typed.config_of` reads its slots as those of a
-- DeviceConfig, and is `none` where a value is not of the type that the simulator computes with. The
-- outputs of the firmware build, and which of its names are those of CAN signals, are parameters of
-- Crosscheck and Fuzz, as is the random source, of which it is asked that a number below n > 0 is. A
-- document or a trace that is written to a file and read again is taken to be the same.
--
-- Not modelled: the reading of JSON text, the command lines and what they print, the files that the
-- tools write, the scripts runcases.py and selftest.py, the C++ host build of the firmware, and the Go
-- program. Analogue values, wipers, keypads and the starter are refused or pinned by the simulator
-- itself.
mod Prelude
pub mod Double
pub mod Vars
pub mod Enums
pub mod Latch
pub mod Counter
pub mod Flasher
pub mod DigitalInput
pub mod Bits
pub mod Dbc
pub mod VirtualInput
pub mod Output
pub mod Condition
pub mod CanInput
pub mod Board
pub mod CanOutput
pub mod Config
pub mod Sim
pub mod Equiv
pub mod Observe
pub mod Trace
pub mod Json
pub mod Load
pub mod Corpus
pub mod Crosscheck
pub mod Fuzz
mod Examples

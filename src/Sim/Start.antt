-- ===== src/Sim/Start.antt =====
-- The device as `Sim.__init__` sets it up.
use dingo_cli.Prelude.{
  ℕ, ◌≤◌, ◌<◌, ◌≡◌, refl, ◌∙◌, true, List, [], arith, length, set, length-set, length-replicate,
  replicate, some,
}
use dingo_cli.Prelude.Results.{ok, Outcome, ◌>>=◌}
use dingo_cli.Double.{Double, of_ℕ}
use dingo_cli.Vars.Frame.{write-eq}
use dingo_cli.Dbc.Total.{EndsInFrame}
use dingo_cli.CanOutput.{is_sent}
use dingo_cli.CanOutput.Frames.{
  init_can_frames-length, init_can_frames-Paired, init_can_frames-AreFrames,
}
use dingo_cli.Board.{Board, size, index, layout}
use dingo_cli.Board.Known.{Registered, v7, max_v1, dpdm4_1, canboard}
use dingo_cli.Board.Names.{Name, codes}
use dingo_cli.Config.{DeviceConfig, validate_refs}
use dingo_cli.Config.Accepted.{Slots, validate_refs-ReadsInRange}
use dingo_cli.Sim.{init, init_vars, put_named, start}
use dingo_cli.Sim.Safety.{Stimulus, run, run-IsShaped}
use dingo_cli.Sim.Shape.{IsFull, IsSound, IsShaped, Converts}

-- The constants of the var map have their names.
record HasConstants (b : Board) : Type 0 where
  always_false : index b (codes "AlwaysFalse") ≡ some 0
  always_true : index b (codes "AlwaysTrue") ≡ some 1
  state : index b (codes "State") ≡ some 2
  enough : 3 ≤ size b

Registered-HasConstants : (b : Board) → Registered b → HasConstants b
unfolding layout
Registered-HasConstants b v7 = record {
  always_false = refl;
  always_true = refl;
  state = refl;
  enough = omega arith;
}
Registered-HasConstants b max_v1 = record {
  always_false = refl;
  always_true = refl;
  state = refl;
  enough = omega arith;
}
Registered-HasConstants b dpdm4_1 = record {
  always_false = refl;
  always_true = refl;
  state = refl;
  enough = omega arith;
}
Registered-HasConstants b canboard = record {
  always_false = refl;
  always_true = refl;
  state = refl;
  enough = omega arith;
}

module _ {W : Type 0} (d : Double W) where
  put_named-eq :
      (b : Board) (name : Name) (x : W) (vars : List W) (i : ℕ)
      → index b name ≡ some i
      → i < length vars
      → put_named d b name x vars ≡ ok (set vars i x)
  unfolding put_named
  put_named-eq b name x vars i h k = rw h (write-eq vars i x k)

  -- The var map at the start: all 0 but for AlwaysTrue.
  abbrev pub first_vars : Board → List W
  first_vars b =
      set (set (set (replicate (size b) (of_ℕ d 0)) 0 (of_ℕ d 0)) 1 (of_ℕ d 1)) 2 (of_ℕ d 0)

  pub length-first_vars : (b : Board) → length (first_vars b) ≡ size b
  length-first_vars b =
      length-set _ 2 _ ∙ length-set _ 1 _ ∙ length-set _ 0 _ ∙ length-replicate (size b) (of_ℕ d 0)

  init_vars-eq : (b : Board) → HasConstants b → init_vars d b ≡ ok (first_vars b)
  unfolding init_vars
  init_vars-eq b h =
      let l0 = length-replicate (size b) (of_ℕ d 0) in
      let l1 = length-set (replicate (size b) (of_ℕ d 0)) 0 (of_ℕ d 0) in
      let l2 = length-set (set (replicate (size b) (of_ℕ d 0)) 0 (of_ℕ d 0)) 1 (of_ℕ d 1) in
      let enough = h.enough in
      rw
        (
          put_named-eq b _ (of_ℕ d 0) (replicate (size b) (of_ℕ d 0)) 0 h.always_false
              (omega arith),
          put_named-eq b _ (of_ℕ d 1) (set (replicate (size b) (of_ℕ d 0)) 0 (of_ℕ d 0)) 1
              h.always_true (omega arith),
        )
        (put_named-eq b _ (of_ℕ d 0) _ 2 h.state (omega arith))

  -- A device that is switched on is of the right shape.
  pub start-IsShaped :
      (c : DeviceConfig W) (vars : List W)
      → IsFull c
      → length vars ≡ size c.board
      → IsShaped c (start d c vars)
  unfolding start
  start-IsShaped c vars full h = record {
    vars = h;
    inputs = length-replicate _ _;
    can_inputs = length-replicate _ _;
    latches = length-replicate _ _;
    outputs = length-replicate _ _;
    flashers = length-replicate _ _;
    counters = length-replicate _ _;
    samples = length-replicate _ _;
    assigned = init_can_frames-length c.can_outputs [] ∙ full.can_outputs;
    paired = init_can_frames-Paired c.can_outputs [];
    frames = init_can_frames-AreFrames c.can_outputs [] (λ j fr k. cc);
  }

  -- On a registered board, the set-up succeeds just when the references are accepted.
  pub init-eq :
      (c : DeviceConfig W)
      → Registered c.board
      → init d c ≡ (validate_refs c >>= λ t. ok (start d c (first_vars c.board)))
  unfolding init
  init-eq c r = rw (init_vars-eq c.board (Registered-HasConstants c.board r)) refl

  -- On a registered board, a full config that passes the validation, and whose sent big-endian fields
  -- end inside their frames, can be set up and run for any cycles: the result is a state of the right
  -- shape, or a conversion to an integer failed, and then the config has such a conversion. No index is
  -- ever out of range, and no name is missing.
  pub init-run :
      (c : DeviceConfig W)
      → Registered c.board
      → IsFull c
      → Slots
          (λ s. is_sent s ≡ true → EndsInFrame s.start_bit s.bit_length s.byte_order)
          c.can_outputs
      → validate_refs c ≡ ok tt
      → (ts : List Stimulus) → Outcome (Converts d c) (IsShaped c) (init d c >>= run d c ts)
  init-run c r full ends accepted ts =
      let sound : IsSound c = record {
        full = full;
        reads = validate_refs-ReadsInRange c accepted;
        ends = ends;
      } in
      rw (init-eq c r, accepted)
        (run-IsShaped d c sound ts (start d c (first_vars c.board))
          (start-IsShaped c _ full (length-first_vars c.board)))

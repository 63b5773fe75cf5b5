-- ===== src/Load/Ready.antt =====
-- From a document to a running device: a loaded config is full, so the theorems on runs apply.
use dingo_cli.Prelude.{◌≡◌, refl, ◌∙◌, true, Option, some, List, length}
use dingo_cli.Prelude.Int.{ℤ}
use dingo_cli.Prelude.Results.{ok, Outcome, ◌>>=◌}
use dingo_cli.Prelude.Options.{IfSome-some, IfSome-bind, each, length-each}
use dingo_cli.Double.{Double}
use dingo_cli.Board.Names.{Name}
use dingo_cli.Board.Known.{Registered}
use dingo_cli.Dbc.Total.{EndsInFrame}
use dingo_cli.CanOutput.{is_sent}
use dingo_cli.Config.{DeviceConfig, validate_refs}
use dingo_cli.Config.Accepted.{Slots}
use dingo_cli.Sim.{init}
use dingo_cli.Sim.Shape.{IsFull, Converts}
use dingo_cli.Trace.{Step, run_trace}
use dingo_cli.Trace.Length.{AreInFrame, total}
use dingo_cli.Trace.Log.{Numbered, init-run_trace}
use dingo_cli.Json.{Json}
use dingo_cli.Load.{
  Group, outputs, inputs, can_inputs, can_outputs, virtual_inputs, conditions, counters, flashers,
  Policy, limit,
}
use dingo_cli.Load.Device.{Loaded, slots_in, load_device}
use dingo_cli.Load.Groups.{load_device-full}
use dingo_cli.Load.Typed.{
  output_config, input_config, can_input_config, can_output_config, virtual_input_config,
  condition_config, counter_config, flasher_config, config_of,
}

module _ {W : Type 0} (d : Double W) where
  -- The config of a loaded document is full.
  config_of-IsFull :
      (l : Loaded W) (c : DeviceConfig W)
      → ((g : Group) → length (slots_in l.groups g) ≡ limit g l.board)
      → config_of d l ≡ some c
      → IsFull c × (c.board ≡ l.board)
  unfolding config_of limit
  config_of-IsFull l c full =
      let g = l.groups in
      let P : DeviceConfig W → Type 0 = λ c. IsFull c × (c.board ≡ l.board) in
      IfSome-bind P (each (output_config d) g.outputs) _
        (λ c1 e1. IfSome-bind P (each (input_config d) g.inputs) _ (λ c2 e2.
          IfSome-bind P (each (can_input_config d) g.can_inputs) _ (λ c3 e3.
            IfSome-bind P (each (can_output_config d) g.can_outputs) _ (λ c4 e4.
              IfSome-bind P (each (virtual_input_config d) g.virtual_inputs) _ (λ c5 e5.
                IfSome-bind P (each (condition_config d) g.conditions) _ (λ c6 e6.
                  IfSome-bind P (each (counter_config d) g.counters) _ (λ c7 e7.
                    IfSome-bind P (each (flasher_config d) g.flashers) _ (λ c8 e8. IfSome-some P _ (
                      record {
                        outputs = length-each _ g.outputs c1 e1 ∙ full outputs;
                        inputs = length-each _ g.inputs c2 e2 ∙ full inputs;
                        can_inputs = length-each _ g.can_inputs c3 e3 ∙ full can_inputs;
                        can_outputs = length-each _ g.can_outputs c4 e4 ∙ full can_outputs;
                        virtual_inputs = length-each _ g.virtual_inputs c5 e5 ∙ full virtual_inputs;
                        conditions = length-each _ g.conditions c6 e6 ∙ full conditions;
                        counters = length-each _ g.counters c7 e7 ∙ full counters;
                        flashers = length-each _ g.flashers c8 e8 ∙ full flashers;
                      },
                      refl,
                    )))))))))
        c

  pub load_device-run_trace :
      (p : Policy) (doc : Json W) (name : Option Name) (base_id : Option ℤ) (l : Loaded W)
      (c : DeviceConfig W)
      → load_device d p doc name base_id ≡ ok l
      → config_of d l ≡ some c
      → Slots
          (λ s. is_sent s ≡ true → EndsInFrame s.start_bit s.bit_length s.byte_order)
          c.can_outputs
      → validate_refs c ≡ ok tt
      → (steps : List Step) → AreInFrame steps
      → Outcome
          (Converts d c)
          (λ log. (length log ≡ total steps) × Numbered 0 log)
          (init d c >>= run_trace d c 1 steps)
  load_device-run_trace p doc name base_id l c e f ends accepted steps inside =
      let (known, full) = load_device-full d p doc name base_id l e in
      let (all, same) = config_of-IsFull l c full f in
      let known' : Registered c.board = rw same known in
      init-run_trace d c known' all ends accepted steps inside

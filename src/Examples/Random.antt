-- ===== src/Examples/Random.antt =====
-- The theorems on random cases, on a random source that counts.
use dingo_cli.Prelude.{
  replicate, ℕ, suc, ◌%◌, ◌≡◌, Bool, false, not, Option, none, some, List, [], ltb, arith,
}
use dingo_cli.Prelude.Int.{ℤ, eqb_ℤ}
use dingo_cli.Prelude.Results.{ok}
use dingo_cli.Double.Exact.{exact}
use dingo_cli.Board.Names.{codes}
use dingo_cli.Config.{DeviceConfig}
use dingo_cli.Observe.{Signal}
use dingo_cli.Json.{Json}
use dingo_cli.Trace.{Step}
use dingo_cli.Trace.Length.{total}
use dingo_cli.Load.{adversarial}
use dingo_cli.Load.Device.{Loaded, load_device}
use dingo_cli.Load.Typed.{config_of}
use dingo_cli.Fuzz.Random.{Source}
use dingo_cli.Fuzz.Generate.{gen_slots}
use dingo_cli.Fuzz.Steps.{gen_trace}
use dingo_cli.Fuzz.Document.{gen_config, slots_document}
use dingo_cli.Fuzz.Loads.{slots_document-loads}
use dingo_cli.Fuzz.Accepted.{gen_slots-IsFull, gen_slots-board}
use dingo_cli.Fuzz.Case.{Observations}

-- A number n as the next draw, and n + 1 after it.
abbrev below : ℕ → ℕ → ℕ × ℕ
below n r = (r % n, suc r)

abbrev chance : ℕ → ℕ → Bool × ℕ
chance percent r = (ltb (r % 100) percent, suc r)

abbrev counting : Source ℕ
counting = record { below = below; chance = chance; below-lt = λ n r h. omega arith }

abbrev never : Signal → Signal → Bool
never x y = false

abbrev never_can : Signal → Bool
never_can x = false

abbrev far : ℤ → ℤ → Bool
far x y = not (eqb_ℤ x y)

abbrev drawn : DeviceConfig ℤ
drawn = (gen_slots exact counting 7).0

abbrev drawn_document : Json ℤ
drawn_document = (gen_config exact counting (codes "fuzz7") 7).0

abbrev drawn_trace : List Step
drawn_trace = (gen_trace counting 60 (gen_config exact counting (codes "fuzz7") 7).1).0

-- A firmware that posts nothing in any cycle.
abbrev silent : Json ℤ → List Step → Option (Observations ℤ)
silent doc steps = some (replicate (total steps) [])

slots_document-loads_example :
    (l : Loaded ℤ) × (load_device exact adversarial
        (slots_document exact (codes "fuzz7") drawn)
        none
        none
      ≡ ok l)
    × (config_of exact l ≡ some drawn)
slots_document-loads_example =
    slots_document-loads exact adversarial (codes "fuzz7") drawn (gen_slots-IsFull exact counting 7)
      (gen_slots-board exact counting 7)

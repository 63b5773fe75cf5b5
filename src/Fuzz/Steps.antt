-- ===== src/Fuzz/Steps.antt =====
-- gen_trace of fwhost/fuzz.py: the steps of a random trace, drawn in the order of the code.
use dingo_cli.Prelude.{ℕ, not, none, some, List, [], ◌∷◌}
use dingo_cli.Trace.{Step, store}
use dingo_cli.Fuzz.Random.{Source, Gen, done, ◌>>=◌, when, times, randrange, choice}
use dingo_cli.Fuzz.Pools.{any_id}

-- Some bits of one frame, as the dict that they make: a bit that is drawn twice has its last value.
unfoldable pub as_dict : (id : ℕ) → List (ℕ × ℕ) → List (ℕ × ℕ) → List (ℕ × (ℕ × ℕ))
unfolding store
as_dict id [] [] = []
as_dict id [] ((bit, value) ∷ made) = (id, (bit, value)) ∷ as_dict id [] made
as_dict id ((bit, value) ∷ drawn) made = as_dict id drawn (store bit value made)

module _ {R : Type 0} (src : Source R) where
  unfoldable pub gen_bit : Gen R (ℕ × ℕ)
  unfolding randrange
  gen_bit = do bit ← randrange src 0 56; value ← randrange src 0 2; done (bit, value)

  unfoldable pub gen_bits : (id : ℕ) → Gen R (List (ℕ × (ℕ × ℕ)))
  unfolding randrange times gen_bit as_dict
  gen_bits id = do
    count ← randrange src 1 4
    drawn ← times count 0 (λ i. gen_bit)
    done (as_dict id drawn [])

  unfoldable pub gen_bytes : (id : ℕ) → Gen R (List (ℕ × List ℕ))
  unfolding randrange times
  gen_bytes id = do bytes ← times 8 0 (λ i. randrange src 0 256); done ((id, bytes) ∷ [])

  unfoldable pub gen_pins : Gen R (List (ℕ × ℕ))
  unfolding randrange choice
  gen_pins = do pin ← choice src 1 (2 ∷ []); level ← randrange src 0 2; done ((pin, level) ∷ [])

  unfoldable pub gen_ids : Gen R (List ℕ)
  unfolding choice
  gen_ids = do id ← any_id src; done (id ∷ [])

  -- The payload of a step: the whole of a frame, or some bits of it.
  unfoldable pub gen_payload : Gen R (List (ℕ × List ℕ) × List (ℕ × (ℕ × ℕ)))
  unfolding choice when gen_bytes gen_bits
  gen_payload = do
    id ← any_id src
    whole ← src.chance 40
    bytes ← when whole [] (gen_bytes id)
    bits ← when (not whole) [] (gen_bits id)
    done (bytes, bits)

  unfoldable pub gen_step : Gen R Step
  unfolding choice when gen_pins gen_payload gen_ids
  gen_step = do
    ms ← choice src 2 (4 ∷ 10 ∷ 20 ∷ 60 ∷ 200 ∷ [])
    has_pins ← src.chance 70
    pins ← when has_pins [] gen_pins
    has_payload ← src.chance 90
    payload ← when has_payload ([], []) gen_payload
    is_quiet ← src.chance 8
    quiet ← when is_quiet [] gen_ids
    is_loud ← src.chance 8
    loud ← when is_loud [] gen_ids
    done (record {
      pins = pins;
      bits = payload.1;
      bytes = payload.0;
      quiet = quiet;
      loud = loud;
      cycles = none;
      ms = some ms;
    })

  unfoldable pub gen_trace : (nsteps : ℕ) → Gen R (List Step)
  unfolding times gen_step
  gen_trace nsteps = times nsteps 0 (λ i. gen_step)

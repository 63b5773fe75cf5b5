-- ===== src/Vars.antt =====
-- The var map `self.var` of fwmodel/model/dingosim.py: a list that every block reads and writes by
-- index. An index out of range is Python's IndexError.
pub mod Frame
pub mod Slot
use dingo_cli.Prelude.{
  ℕ, zero, suc, ◌≡◌, refl, List, [], ◌∷◌, ltb, length, get_elem?, set, if◌then◌else◌,
}
use dingo_cli.Prelude.Results.{Result, ok, raise, index_error, or_raise, ◌>>=◌}

module _ {A : Type 0} where
  -- xs[i]
  unfoldable pub read : List A → ℕ → Result A
  read xs i = or_raise index_error (get_elem? xs i)

  -- xs[i] = x
  unfoldable pub write : List A → ℕ → A → Result (List A)
  write xs i x = if ltb i (length xs) then ok (set xs i x) else raise index_error

-- for i, s in enumerate(slots, base): the slots of one category, in slot order. Each has its own
-- entry `t` of the category's state, and all share the var map.
module _ {S T V : Type 0} (update : ℕ → S → T → V → Result (T × V)) where
  unfoldable pub run_slots : ℕ → List S → List T → V → Result (List T × V)
  run_slots i [] ts vars = ok (ts, vars)
  run_slots i (s ∷ ss) [] vars = raise index_error
  run_slots i (s ∷ ss) (t ∷ ts) vars = do
    (t', vars') ← update i s t vars
    (ts', vars'') ← run_slots (suc i) ss ts vars'
    ok (t' ∷ ts', vars'')

-- ===== src/VirtualInput.antt =====
-- `Sim._virtin` of fwmodel/model/dingosim.py (virtual_input.cpp VirtualInput::Update).
pub mod Logic
use dingo_cli.Prelude.{ℕ, ◌+◌, Bool, true, false, not, ◌&&◌, ◌||◌, List, ◌==◌, if◌then◌else◌}
use dingo_cli.Prelude.Results.{Result, ok, ◌>>=◌}
use dingo_cli.Enums.{bool_and, bool_or}
use dingo_cli.Double.{Double, of_ℕ, of_bool, truth}
use dingo_cli.Latch.{InputLatch, check}
use dingo_cli.Vars.{read, write}

pub record VirtualInputConfig : Type 0 where
  pub enabled : Bool
  pub not0 : Bool
  pub var0 : ℕ
  pub cond0 : ℕ
  pub not1 : Bool
  pub var1 : ℕ
  pub cond1 : ℕ
  pub not2 : Bool
  pub var2 : ℕ
  pub mode : ℕ

-- The third operator, and any number above it, is NAND.
unfoldable pub combine : (cond : ℕ) → Bool → Bool → Bool
combine cond a b =
    if cond == bool_and then a && b else if cond == bool_or then a || b else not a || not b

unfoldable pub negate : Bool → Bool → Bool
negate inverted r = if inverted then not r else r

-- The result of the first two terms.
unfoldable pub section0 : VirtualInputConfig → (v0 v1 : Bool) → Bool
unfolding combine negate
section0 c v0 v1 = combine c.cond0 (negate c.not0 v0) (negate c.not1 v1)

unfoldable pub section1 : VirtualInputConfig → (v0 v1 v2 : Bool) → Bool
unfolding combine negate section0
section1 c v0 v1 v2 = combine c.cond1 (section0 c v0 v1) (negate c.not2 v2)

module _ {W : Type 0} (d : Double W) where
  unfoldable pub put_latched :
      (idx mode : ℕ) → Bool → InputLatch → List W → Result (InputLatch × List W)
  unfolding check write
  put_latched idx mode result latch vars = do
    let latch' = check mode false result latch
    vars' ← write vars idx (of_bool d latch'.b_out)
    ok (latch', vars')

  -- Sim._virtin. With var2 == 0 there are two terms, and cond1 and not2 are not looked at.
  unfoldable pub virtin :
      (base i : ℕ) → VirtualInputConfig → InputLatch → List W → Result (InputLatch × List W)
  unfolding put_latched read section0 section1
  virtin base i c latch vars =
      if c.enabled
      then (do
        v0 ← read vars c.var0
        v1 ← read vars c.var1
        (if c.var2 == 0
            then put_latched (base + i) c.mode (section0 c (truth d v0) (truth d v1)) latch vars
            else (do
              v2 ← read vars c.var2
              put_latched (base + i) c.mode (section1 c (truth d v0) (truth d v1) (truth d v2))
                  latch vars)))
      else (do vars' ← write vars (base + i) (of_ℕ d 0); ok (latch, vars'))

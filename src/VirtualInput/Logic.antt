-- ===== src/VirtualInput/Logic.antt =====
-- The logic of one virtual input, and the lowerings of fwmodel/tools/mkadversarial.py.
use dingo_cli.Prelude.{
  ℕ, ◌+◌, ◌≡◌, ◌≢◌, Bool, true, false, not, ◌&&◌, List, some, get_elem?, length, set, ◌<◌, arith,
  ◌==◌, if◌then◌else◌, ltb, xor, ap, ◌⊎◌, inl, inr, ◌∙◌,
}
use dingo_cli.Prelude.Results.{ok}
use dingo_cli.Enums.{mode_momentary, mode_latching, bool_and, bool_or, bool_nor}
use dingo_cli.Double.{Double, of_ℕ, of_bool, truth}
use dingo_cli.Latch.{InputLatch, check}
use dingo_cli.Vars.Frame.{read-eq, write-eq}
use dingo_cli.VirtualInput.{
  VirtualInputConfig, combine, negate, section0, section1, put_latched, virtin,
}

-- The level that the terms of a virtual input combine to.
abbrev pub level : VirtualInputConfig → (v0 v1 v2 : Bool) → Bool
level c v0 v1 v2 = if c.var2 == 0 then section0 c v0 v1 else section1 c v0 v1 v2

virtin-check :
    {W : Type 0} (d : Double W) (base i : ℕ) (c : VirtualInputConfig) (latch : InputLatch)
    (vars : List W) {v0 v1 v2 : W}
    → c.enabled ≡ true
    → get_elem? vars c.var0 ≡ some v0
    → get_elem? vars c.var1 ≡ some v1
    → get_elem? vars c.var2 ≡ some v2
    → base + i < length vars
    → let latch' = check c.mode false (level c (truth d v0) (truth d v1) (truth d v2)) latch in
      virtin d base i c latch vars ≡ ok (latch', set vars (base + i) (of_bool d latch'.b_out))
unfolding virtin put_latched check
virtin-check d base i c latch vars {v0} {v1} {v2} on r0 r1 r2 room = ground (
  arith,
  read-eq vars c.var0 v0 r0,
  read-eq vars c.var1 v1 r1,
  read-eq vars c.var2 v2 r2,
  write-eq vars (base + i) (of_ℕ d 0) room,
  write-eq vars (base + i) (of_ℕ d 1) room,
)

-- The latch is in latching mode, or in momentary mode with its output at the last level.
abbrev pub IsSteady : (mode : ℕ) → InputLatch → Type 0
IsSteady mode latch =
    (mode ≡ mode_latching) ⊎ ((mode ≡ mode_momentary) × (latch.b_out ≡ latch.b_last))

-- The output that follows: flipped on a rising edge of the level, or the level.
abbrev pub follows : (mode : ℕ) (on : Bool) → InputLatch → Bool
follows mode on latch =
    if mode == mode_latching then xor latch.b_out (on && not latch.b_last) else on

check-follows :
    (mode : ℕ) (on : Bool) (latch : InputLatch)
    → IsSteady mode latch
    → check mode false on latch ≡ record { b_out = follows mode on latch; b_last = on }
unfolding check
check-follows mode on latch (inl m) = ground arith
check-follows mode on latch (inr (m, steady)) = ground arith

-- A virtual input by the number of its terms that hold: a term is a variable or its opposite,
-- counted as 1 or 0, and 0 asks for both terms, 1 for one of them, and any other operator for at most
-- one.
abbrev pub term : (inverted value : Bool) → ℕ
term false true = 1
term true false = 1
term _ _ = 0

abbrev pub passes : (operator sum : ℕ) → Bool
passes operator sum =
    if operator == 0 then sum == 2 else if operator == 1 then ltb 0 sum else ltb sum 2

abbrev pub demand : VirtualInputConfig → (v0 v1 v2 : Bool) → Bool
demand c v0 v1 v2 =
    let two = passes c.cond0 (term c.not0 v0 + term c.not1 v1) in
    if c.var2 == 0 then two else passes c.cond1 (term false two + term c.not2 v2)

combine-passes :
    (cond : ℕ) (n m a b : Bool)
    → combine cond (negate n a) (negate m b) ≡ passes cond (term n a + term m b)
unfolding combine negate
combine-passes cond n m a b = ground arith

section0-passes :
    (c : VirtualInputConfig) (v0 v1 : Bool)
    → section0 c v0 v1 ≡ passes c.cond0 (term c.not0 v0 + term c.not1 v1)
unfolding section0
section0-passes c v0 v1 = combine-passes c.cond0 c.not0 c.not1 v0 v1

section1-passes :
    (c : VirtualInputConfig) (v0 v1 v2 : Bool)
    → section1 c v0 v1 v2 ≡ passes c.cond1 (term false (section0 c v0 v1) + term c.not2 v2)
unfolding section1
section1-passes c v0 v1 v2 = combine-passes c.cond1 false c.not2 (section0 c v0 v1) v2

level-demand : (c : VirtualInputConfig) (v0 v1 v2 : Bool) → level c v0 v1 v2 ≡ demand c v0 v1 v2
level-demand c v0 v1 v2 =
    ap (λ b. if c.var2 == 0 then section0 c v0 v1 else b) (section1-passes c v0 v1 v2)
    ∙ ap (λ b. if c.var2 == 0 then b else passes c.cond1 (term false b + term c.not2 v2))
        (section0-passes c v0 v1)

-- An enabled virtual input whose three variables and own entry are in the var map writes its own
-- entry, and nothing else, and remembers the level that its terms demand. In latching mode it writes
-- its output, flipped if the level is on and the last one was not. In momentary mode it writes the
-- level, if its output was the last level before.
pub virtin-eq :
    {W : Type 0} (d : Double W) (base i : ℕ) (c : VirtualInputConfig) (latch : InputLatch)
    (vars : List W) {v0 v1 v2 : W}
    → c.enabled ≡ true
    → get_elem? vars c.var0 ≡ some v0
    → get_elem? vars c.var1 ≡ some v1
    → get_elem? vars c.var2 ≡ some v2
    → base + i < length vars
    → IsSteady c.mode latch
    → let on = demand c (truth d v0) (truth d v1) (truth d v2) in
      let out = follows c.mode on latch in
      virtin d base i c latch vars
      ≡ ok (record { b_out = out; b_last = on }, set vars (base + i) (of_bool d out))
virtin-eq d base i c latch vars {v0} {v1} {v2} on r0 r1 r2 room steady =
    let run = virtin-check d base i c latch vars on r0 r1 r2 room in
    let e = level-demand c (truth d v0) (truth d v1) (truth d v2) in
    let run' = rw e at run in
    run'
    ∙ ap (λ (l : InputLatch). ok (l, set vars (base + i) (of_bool d l.b_out)))
        (check-follows c.mode _ latch steady)

-- The operator called Nor is the complement of And, and Or on the complements.
pub combine_nor :
    (a b : Bool)
    → (combine bool_nor a b ≡ not (combine bool_and a b))
      × (combine bool_nor a b ≡ combine bool_or (not a) (not b))
unfolding combine
combine_nor a b = ground arith

-- NOT (A AND B) AND C fits one virtual input: with NAND on the first level, AND on the second, no
-- inversion and a third variable other than 0, its level is that.
pub nand_and_fits :
    (c : VirtualInputConfig) (a b v : Bool)
    → c.cond0 ≡ bool_nor
    → c.cond1 ≡ bool_and
    → c.not0 ≡ false
    → c.not1 ≡ false
    → c.not2 ≡ false
    → c.var2 ≢ 0
    → level c a b v ≡ (not (a && b) && v)
unfolding section0 section1 combine negate
nand_and_fits c a b v n0 n1 f0 f1 f2 third = ground arith

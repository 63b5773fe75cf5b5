-- ===== src/Fuzz.antt =====
-- fwhost/fuzz.py: random configs and traces on the simulator and on the firmware that is built for the
-- host.
pub mod Agrees
pub mod Random
pub mod Pools
pub mod Generate
pub mod Steps
pub mod Computed
pub mod Accepted
pub mod Document
pub mod Inside
pub mod Reads
pub mod Loads
pub mod Case
pub mod Runs
use dingo_cli.Prelude.{
  ℕ, zero, suc, Bool, true, false, not, ◌&&◌, List, [], ◌∷◌, ◌==◌, if◌then◌else◌,
}
use dingo_cli.Crosscheck.{is_wrong, all_keys}

-- What run_case returns of two runs: "ok", or "cycle0" or "diff" with the first difference.
pub data Verdict (K : Type 0) : Type 0 where
  agree : Verdict K
  cycle0 diff : (cycle : ℕ) → K → Verdict K

module _ {K V : Type 0} (same before : K → K → Bool) (is_can : K → Bool) (far : V → V → Bool) where
  -- The tag of a difference.
  unfoldable pub tagged : (i : ℕ) → K → Verdict K
  tagged i k = if i == 0 && not (is_can k) then cycle0 i k else diff i k

  -- The names of one cycle, and the cycles after it.
  unfoldable pub first_wrong :
      (i : ℕ) → (python fwhost : List (K × V)) → List K → (later : Verdict K) → Verdict K
  unfolding is_wrong tagged
  first_wrong i p c [] later = later
  first_wrong i p c (k ∷ ks) later =
      let rest = first_wrong i p c ks later in
      if is_wrong same before is_can far true i p c k then tagged i k else rest

  -- The loops of run_case over the observations, from cycle `i` on.
  unfoldable pub verdict_from : (i : ℕ) → (python fwhost : List (List (K × V))) → Verdict K
  unfolding first_wrong all_keys
  verdict_from i (p ∷ ps) (c ∷ cs) =
      let later = verdict_from (suc i) ps cs in
      first_wrong i p c (all_keys same before is_can far true p c) later
  verdict_from i _ _ = agree

  abbrev pub case_verdict : (python fwhost : List (List (K × V))) → Verdict K
  case_verdict = verdict_from 0

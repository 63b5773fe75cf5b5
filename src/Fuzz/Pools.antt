-- ===== src/Fuzz/Pools.antt =====
-- What gen_config of fwhost/fuzz.py draws references and ids from.
use dingo_cli.Prelude.{ℕ, zero, suc, ◌+◌, List, [], ◌∷◌, ◌++◌, ◌==◌, if◌then◌else◌}
use dingo_cli.Fuzz.Random.{Source, Gen, ◌>>=◌, when, choice}

-- [first + gap * i for i in range(count)]
unfoldable pub spread : (first gap count : ℕ) → List ℕ
spread first gap zero = []
spread first gap (suc count) = first ∷ spread (first + gap) gap count

-- The variables that a Boolean input may read: 0, and then these.
unfoldable pub boolish : List ℕ
unfolding spread
boolish =
    1
    ∷ 5
    ∷ 6
    ∷ (spread 7 2 8
        ++ (spread 71 1 8
            ++ (spread 87 4 8 ++ (spread 119 1 4 ++ (spread 123 1 8 ++ spread 155 1 4)))))

-- The variables that hold numbers: 8, and then these.
unfoldable pub numeric : List ℕ
unfolding spread
numeric = spread 10 2 7 ++ (spread 155 1 4 ++ spread 123 1 8)

-- [v for v in xs if v != own]
unfoldable pub without : (own : ℕ) → List ℕ → List ℕ
without own [] = []
without own (x ∷ xs) = let rest = without own xs in if x == own then rest else x ∷ rest

module _ {R : Type 0} (src : Source R) where
  -- rnd.choice(BOOLISH), rnd.choice(IDS)
  abbrev pub any_boolish : Gen R ℕ
  any_boolish = choice src 0 boolish

  abbrev pub any_id : Gen R ℕ
  any_id = choice src 0x100 (0x101 ∷ 0x200 ∷ [])

  -- rnd.choice(BOOLISH) if rnd.random() < 0.5 else 0
  unfoldable pub maybe_boolish : Gen R ℕ
  unfolding choice when
  maybe_boolish = do drawn ← src.chance 50; when drawn 0 any_boolish

-- ===== src/Board/Names.antt =====
-- The names of var map entries: text as the codes of its characters.
use Prim.Native.Char.{code}
use Prim.Native.String.{String}
use dingo_cli.Prelude.{
  ℕ, zero, suc, ◌+◌, ◌/◌, ◌%◌, Bool, true, false, ◌&&◌, ◌||◌, List, [], ◌∷◌, ◌++◌, ltb, leb, ◌==◌,
  if◌then◌else◌,
}

abbrev pub Name : Type 0
Name = List ℕ

abbrev pub codes : String → Name
codes String.[] = []
codes (String.◌∷◌ c s) = code c ∷ codes s

-- The decimal digits of a number, in front of `rest`; the fuel is at least the number of digits.
unfoldable pub digits : (fuel n : ℕ) → Name → Name
digits zero n rest = rest
digits (suc fuel) n rest =
    let more = digits fuel (n / 10) ((b'0' + n % 10) ∷ rest) in
    if ltb n 10 then (b'0' + n) ∷ rest else more

-- str(n): a number has at most as many digits as its successor counts.
unfoldable pub decimal : ℕ → Name
decimal n = digits (suc n) n []

unfoldable pub same_name : Name → Name → Bool
same_name [] [] = true
same_name (x ∷ xs) (y ∷ ys) = elim (x == y) [ true ↦ same_name xs ys | false ↦ false ]
same_name _ _ = false

unfoldable pub lower_code : ℕ → ℕ
lower_code c = if leb b'A' c && leb c b'Z' then c + 32 else c

-- s.lower()
unfoldable pub lower : Name → Name
lower [] = []
lower (c ∷ cs) = lower_code c ∷ lower cs

-- Space, and the codes from tab to carriage return.
unfoldable pub is_space : ℕ → Bool
is_space c = c == 32 || leb 9 c && leb c 13

unfoldable pub strip_left : Name → Name
strip_left [] = []
strip_left (c ∷ cs) = let rest = strip_left cs in if is_space c then rest else c ∷ cs

unfoldable pub strip_right : Name → Name
strip_right [] = []
strip_right (c ∷ cs) = elim (strip_right cs) [
  | [] ↦ if is_space c then [] else c ∷ []
  | d ∷ ds ↦ c ∷ d ∷ ds
]

-- s.strip()
unfoldable pub strip : Name → Name
strip s = strip_right (strip_left s)

-- The names of the numbers from `i` on, `count` of them.
unfoldable pub per_number : (ℕ → List Name) → (i count : ℕ) → List Name
per_number f i zero = []
per_number f i (suc count) = f i ++ per_number f (suc i) count

-- [f"{prefix}{i}" for i in range(1, count + 1)]
unfoldable pub numbered : Name → (count : ℕ) → List Name
numbered prefix count = per_number (λ i. (prefix ++ decimal i) ∷ []) 1 count

-- For runs.
unfoldable pub texts : Unit {0}
unfolding digits decimal same_name lower_code lower is_space strip_left strip_right strip per_number
    numbered
texts = tt

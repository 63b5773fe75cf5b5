-- ===== src/Fuzz/Inside.antt =====
-- The traces of gen_trace set bits of frames only.
use dingo_cli.Prelude.{ℕ, ◌<◌, not, inl, inr, Bool-cases, List, [], ◌∷◌, arith, ◌==◌}
use dingo_cli.Trace.{Step, store}
use dingo_cli.Trace.Length.{InFrame, AreInFrame}
use dingo_cli.Fuzz.Random.{
  Source, Always, All, All-nil, when-All, times-All, randrange, randrange-lt,
}
use dingo_cli.Fuzz.Steps.{as_dict, gen_bit, gen_bits, gen_payload, gen_step, gen_trace}

store-All :
    (k v : ℕ) (xs : List (ℕ × ℕ))
    → k < 64
    → All (λ b. b.0 < 64) xs
    → All (λ b. b.0 < 64) (store k v xs)
unfolding store All
store-All k v [] h hs = (h, tt)
store-All k v ((l, w) ∷ xs) h (hl, hs) = elim (Bool-cases (l == k)) [
  | inl e ↦ rw e (hl, hs)
  | inr e ↦ rw e (hl, store-All k v xs h hs)
]

as_dict-InFrame :
    (id : ℕ) (drawn made : List (ℕ × ℕ))
    → All (λ b. b.0 < 64) drawn
    → All (λ b. b.0 < 64) made
    → InFrame (as_dict id drawn made)
unfolding as_dict All
as_dict-InFrame id [] [] hs ks = tt
as_dict-InFrame id [] ((bit, value) ∷ made) hs (k, ks) = (k, as_dict-InFrame id [] made tt ks)
as_dict-InFrame id ((bit, value) ∷ drawn) made (h, hs) ks =
    as_dict-InFrame id drawn (store bit value made) hs (store-All bit value made h ks)

All-AreInFrame : (ss : List Step) → All (λ s. InFrame s.bits) ss → AreInFrame ss
unfolding All
All-AreInFrame [] h = tt
All-AreInFrame (s ∷ ss) (h, hs) = (h, All-AreInFrame ss hs)

module _ {R : Type 0} (src : Source R) where
  gen_bit_lem : Always (λ b. b.0 < 64) (gen_bit src)
  unfolding gen_bit
  gen_bit_lem r = let z = (randrange-lt src 0 56 (omega arith) r).1 in omega arith

  gen_bits-InFrame : (id : ℕ) → Always InFrame (gen_bits src id)
  unfolding gen_bits
  gen_bits-InFrame id r =
      let (count, r') = randrange src 1 4 r in
      as_dict-InFrame id _ []
        (times-All (λ b. b.0 < 64) count 0 (λ i. gen_bit src) (λ i. gen_bit_lem) r').1 (All-nil _)

  gen_payload-InFrame : Always (λ p. InFrame p.1) (gen_payload src)
  unfolding gen_payload
  gen_payload-InFrame r = when-All InFrame (not _) [] _ tt (gen_bits-InFrame _) _

  gen_step-InFrame : Always (λ s. InFrame s.bits) (gen_step src)
  unfolding gen_step
  gen_step-InFrame r =
      when-All (λ p. InFrame p.1) _ ([], []) (gen_payload src) tt gen_payload-InFrame _

  pub gen_trace-AreInFrame : (nsteps : ℕ) → Always AreInFrame (gen_trace src nsteps)
  unfolding gen_trace
  gen_trace-AreInFrame nsteps r =
      All-AreInFrame _
        (times-All (λ s. InFrame s.bits) nsteps 0 (λ i. gen_step src) (λ i. gen_step-InFrame) r).1

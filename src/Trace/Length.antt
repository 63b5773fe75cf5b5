-- ===== src/Trace/Length.antt =====
-- What the cycles of a trace are: `Trace.cycles` returns, how many cycles it yields, and their frames.
use dingo_cli.Prelude.{
  ℕ, zero, suc, ◌+◌, ◌-◌, ◌/◌, ◌≤◌, ◌<◌, ◌≡◌, refl, ◌∙◌, inl, inr, Bool-cases, List, [], ◌∷◌, ◌++◌,
  arith, length, replicate, length-set, length-append, length-replicate, ◌==◌,
}
use dingo_cli.Prelude.Results.{Returns, returns, Returns-bind, Returns-weaken}
use dingo_cli.Vars.Frame.{read-Returns, write-Returns}
use dingo_cli.Trace.{
  Step, Wires, Cycle, find, store, is_silent, set_bit, buffer, set_bits, set_bytes, apply_step,
  duration, sounding, trace_cycles,
}

-- Each buffer has the eight bytes of a frame, at least.
abbrev pub Wide : List (ℕ × List ℕ) → Type 0
Wide [] = Unit {0}
Wide ((id, buf) ∷ rest) = (8 ≤ length buf) × Wide rest

-- The bits that a step sets are bits of a frame.
abbrev pub InFrame : List (ℕ × (ℕ × ℕ)) → Type 0
InFrame [] = Unit {0}
InFrame ((id, (bit, value)) ∷ rest) = (bit < 64) × InFrame rest

abbrev pub AreInFrame : List Step → Type 0
AreInFrame [] = Unit {0}
AreInFrame (s ∷ ss) = InFrame s.bits × AreInFrame ss

abbrev pub AreWide : List Cycle → Type 0
AreWide [] = Unit {0}
AreWide (t ∷ ts) = Wide t.frames × AreWide ts

-- The cycles of all the steps.
abbrev pub total : List Step → ℕ
total [] = 0
total (s ∷ ss) = duration s + total ss

store-Wide :
    (id : ℕ) (buf : List ℕ) (ps : List (ℕ × List ℕ))
    → 8 ≤ length buf
    → Wide ps
    → Wide (store id buf ps)
unfolding store
store-Wide id buf [] h w = (h, tt)
store-Wide id buf ((k, b) ∷ ps) h w = elim (Bool-cases (k == id)) [
  | inl f ↦ rw f (h, w.1)
  | inr f ↦ rw f (w.0, store-Wide id buf ps h w.1)
]

length-buffer : (id : ℕ) (ps : List (ℕ × List ℕ)) → Wide ps → 8 ≤ length (buffer id ps)
unfolding buffer find
length-buffer id [] w = omega arith
length-buffer id ((k, b) ∷ ps) w = elim (Bool-cases (k == id)) [
  | inl f ↦ rw (f, length) w.0
  | inr f ↦ rw (f, length) (length-buffer id ps w.1)
]

set_bit-Returns :
    (bit value : ℕ) (buf : List ℕ)
    → bit < 64
    → 8 ≤ length buf
    → Returns (λ after. 8 ≤ length after) (set_bit bit value buf)
unfolding set_bit
set_bit-Returns bit value buf h wide =
    let inside : bit / 8 < length buf = omega arith in
    Returns-bind (read-Returns buf (bit / 8) inside) (λ byte e.
      Returns-weaken (λ after same. rw same (rw (length-set buf (bit / 8) _) wide))
        (write-Returns buf (bit / 8) _ inside))

set_bits-Returns :
    (bits : List (ℕ × (ℕ × ℕ))) (ps : List (ℕ × List ℕ))
    → InFrame bits
    → Wide ps
    → Returns Wide (set_bits bits ps)
unfolding set_bits
set_bits-Returns [] ps h w = returns ps w
set_bits-Returns ((id, (bit, value)) ∷ bits) ps h w =
    Returns-bind (set_bit-Returns bit value (buffer id ps) h.0 (length-buffer id ps w))
      (λ buf wide. set_bits-Returns bits (store id buf ps) h.1 (store-Wide id buf ps wide w))

set_bytes-Wide :
    (bytes : List (ℕ × List ℕ)) (ps : List (ℕ × List ℕ)) → Wide ps → Wide (set_bytes bytes ps)
unfolding set_bytes
set_bytes-Wide [] ps w = w
set_bytes-Wide ((id, v) ∷ bytes) ps w =
    let padded : 8 ≤ length (v ++ replicate (8 - length v) 0) = omega (
      arith,
      length-append v (replicate (8 - length v) 0),
      length-replicate {A = ℕ} (8 - length v) 0,
    ) in
    set_bytes-Wide bytes _ (store-Wide id _ ps padded w)

sounding-Wide : (ps : List (ℕ × List ℕ)) (silent : List ℕ) → Wide ps → Wide (sounding ps silent)
unfolding sounding
sounding-Wide [] silent w = tt
sounding-Wide ((id, b) ∷ ps) silent w = elim (Bool-cases (is_silent id silent)) [
  | inl f ↦ rw f (sounding-Wide ps silent w.1)
  | inr f ↦ rw f (w.0, sounding-Wide ps silent w.1)
]

apply_step-Returns :
    (s : Step) (w : Wires)
    → Wide w.payloads
    → InFrame s.bits
    → Returns (λ w'. Wide w'.payloads) (apply_step s w)
unfolding apply_step
apply_step-Returns s w wide h =
    Returns-bind (set_bits-Returns s.bits w.payloads h wide)
      (λ ps wide'. returns _ (set_bytes-Wide s.bytes ps wide'))

replicate-AreWide :
    (n : ℕ) (t : Cycle) (ts : List Cycle)
    → Wide t.frames
    → AreWide ts
    → AreWide (replicate n t ++ ts)
replicate-AreWide zero t ts w ws = ws
replicate-AreWide (suc n) t ts w ws = (w, replicate-AreWide n t ts w ws)

-- From wires whose buffers have eight bytes, and with steps that set bits 0 to 63 only, a trace
-- returns its cycles. They are as many as the durations of its steps together, and each frame of each
-- cycle has eight bytes at least.
pub trace_cycles-Returns :
    (steps : List Step) (w : Wires)
    → Wide w.payloads
    → AreInFrame steps
    → Returns (λ ts. (length ts ≡ total steps) × AreWide ts) (trace_cycles steps w)
unfolding trace_cycles
trace_cycles-Returns [] w wide h = returns [] (refl, tt)
trace_cycles-Returns (s ∷ ss) w wide h = Returns-bind (apply_step-Returns s w wide h.0) (λ w' wide'.
    Returns-bind (trace_cycles-Returns ss w' wide' h.1) (λ more held.
      let t : Cycle = record { pins = w'.pins; frames = sounding w'.payloads w'.silent } in
      returns _ (
        length-append (replicate (duration s) t) more
            ∙ omega (arith, length-replicate (duration s) t, held.0),
        replicate-AreWide (duration s) t more (sounding-Wide w'.payloads w'.silent wide') held.1,
      )))

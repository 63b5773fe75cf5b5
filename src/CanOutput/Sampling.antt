-- ===== src/CanOutput/Sampling.antt =====
-- What `Sim._can_outputs` does in one cycle: the samples that it takes, and the frames that it sends.
use dingo_cli.Prelude.{
  ℕ, zero, suc, ◌≤◌, ◌<◌, ◌≡◌, refl, ap, true, false, Option, none, some, List, [], ◌∷◌, arith,
  length, get_elem?, ltb, if◌then◌else◌, sym,
}
use dingo_cli.Prelude.Results.{
  Returns, returns, Returns-bind, Returns-if, Outcome, returns_as, Outcome-Returns, Outcome-bind,
  Outcome-if,
}
use dingo_cli.Double.{Double, of_ℕ}
use dingo_cli.Vars.Frame.{read-Returns}
use dingo_cli.Dbc.Total.{IsFrame, EndsInFrame, encode_float-Outcome}
use dingo_cli.CanOutput.{
  CanOutputConfig, TxFrame, is_sent, is_assigned, sample, pack, transmit, can_outputs,
}

-- What an enabled slot is to have in range, and a sent one.
pub record Packs {W : Type 0} (d : Double W) (E : Type 0) (n : ℕ) (c : CanOutputConfig W)
    : Type 0 where
  pub reads : c.enabled ≡ true → c.input < n
  pub ends : is_sent c ≡ true → EndsInFrame c.start_bit c.bit_length c.byte_order
  pub converts : is_sent c ≡ true → c.bit_length ≤ 32 → d.eq c.factor (of_ℕ d 0) ≡ false → E

-- Only sent slots are assigned to a frame.
abbrev pub Paired : {W : Type 0} → List (CanOutputConfig W) → List (Option ℕ) → Type 0
Paired cs places =
    (i : ℕ) (c : _) (j : ℕ)
    → get_elem? cs i ≡ some c
    → get_elem? places i ≡ some (some j)
    → is_sent c ≡ true

abbrev pub AreFrames : List TxFrame → Type 0
AreFrames frs = (j : ℕ) (fr : TxFrame) → get_elem? frs j ≡ some fr → IsFrame fr.payload

pub AreFrames-cons :
    (fr : TxFrame) (frs : List TxFrame) → IsFrame fr.payload → AreFrames frs → AreFrames (fr ∷ frs)
AreFrames-cons fr frs h k zero a e = let same : fr ≡ a = ground arith in rw (sym same) h
AreFrames-cons fr frs h k (suc j) a e = k j a e

-- The samples after a cycle: the map's value for an enabled slot, the old sample for another.
abbrev pub Sampled : {W : Type 0} → List (CanOutputConfig W) → (vars old new : List W) → Type 0
Sampled cs vars old new =
    (i : ℕ) (c : _)
    → get_elem? cs i ≡ some c
    → get_elem? new i ≡ (if c.enabled then get_elem? vars c.input else get_elem? old i)

Sampled-cons :
    {W : Type 0} (c : CanOutputConfig W) (cs : List (CanOutputConfig W)) (vars : List W) (x y : W)
    (xs ys : List W)
    → some y ≡ (if c.enabled then get_elem? vars c.input else some x)
    → Sampled cs vars xs ys
    → Sampled (c ∷ cs) vars (x ∷ xs) (y ∷ ys)
Sampled-cons c cs vars x y xs ys h k zero a e = let same : c ≡ a = ground arith in rw (sym same) h
Sampled-cons c cs vars x y xs ys h k (suc i) a e = k i a e

module _ {W : Type 0} (d : Double W) where
  -- If there is a sample per slot and the enabled slots read within the map, the sampling returns,
  -- with a sample per slot: for an enabled slot the value that the map has now, for another the old
  -- sample.
  pub sample-Returns :
      (cs : List (CanOutputConfig W)) (vars samples : List W)
      → ((i : ℕ) (c : CanOutputConfig W)
          → get_elem? cs i ≡ some c
          → c.enabled ≡ true
          → c.input < length vars)
      → length samples ≡ length cs
      → Returns
          (λ ys. (length ys ≡ length cs) × Sampled cs vars samples ys)
          (sample d cs vars samples)
  unfolding sample
  sample-Returns [] vars samples good e = returns samples (e, λ i c h. cc)
  sample-Returns (c ∷ cs) vars [] good e = absurd (omega arith)
  sample-Returns (c ∷ cs) vars (x ∷ xs) good e =
      let rest = sample-Returns cs vars xs (λ i. good (suc i)) (omega arith) in
      Returns-if c.enabled
        (λ enabled. Returns-bind (read-Returns vars c.input (good 0 c refl enabled)) λ y f.
          Returns-bind rest λ ys g.
            returns _ (ap suc g.0, Sampled-cons c cs vars x y xs ys (rw (enabled, f) refl) g.1))
        (λ disabled.
          Returns-bind rest
            λ ys g. returns _ (ap suc g.0, Sampled-cons c cs vars x x xs ys (rw disabled refl) g.1))

  is_sent-enabled : (c : CanOutputConfig W) → is_sent c ≡ true → c.enabled ≡ true
  unfolding is_sent
  is_sent-enabled c h = ground arith

  pack-Outcome :
      (E : Type 0) (n j : ℕ) (cs : List (CanOutputConfig W)) (places : List (Option ℕ))
      (vars : List W) (payload : List ℕ)
      → ((i : ℕ) (c : CanOutputConfig W) → get_elem? cs i ≡ some c → Packs d E n c)
      → length vars ≡ n
      → length places ≡ length cs
      → Paired cs places
      → IsFrame payload
      → Outcome E IsFrame (pack d j cs places vars payload)
  unfolding pack is_assigned
  pack-Outcome E n j [] places vars payload good v e p h = returns_as payload h
  pack-Outcome E n j (c ∷ cs) [] vars payload good v e p h = absurd (omega arith)
  pack-Outcome E n j (c ∷ cs) (a ∷ places) vars payload good v e p h =
      let next = λ (bytes : List ℕ) (k : IsFrame bytes).
        pack-Outcome E n j cs places vars bytes (λ i. good (suc i)) v (omega arith) (λ i. p (suc i))
          k in
      let g = good 0 c refl in
      Outcome-if (is_assigned d a j)
        (λ mine.
          let sent : is_sent c ≡ true = assigned a mine p in
          Outcome-bind
            (Outcome-Returns
              (read-Returns vars c.input (omega (arith, g.reads (is_sent-enabled c sent)))))
            λ x f.
              Outcome-bind
                (encode_float-Outcome d E payload x c.start_bit c.bit_length c.factor c.offset
                  c.byte_order h (g.ends sent) (λ pos short. g.converts sent short))
                next)
        (λ other. next payload h)
    where
      assigned :
          (a : Option ℕ)
          → is_assigned d a j ≡ true
          → Paired (c ∷ cs) (a ∷ places)
          → is_sent c ≡ true
      assigned none k p = cc
      assigned (some l) k p = p 0 c l refl refl

  transmit-Outcome :
      (E : Type 0) (n now j : ℕ) (cs : List (CanOutputConfig W)) (places : List (Option ℕ))
      (vars : List W) (frs : List TxFrame)
      → ((i : ℕ) (c : CanOutputConfig W) → get_elem? cs i ≡ some c → Packs d E n c)
      → length vars ≡ n
      → length places ≡ length cs
      → Paired cs places
      → AreFrames frs
      → Outcome E (λ r. AreFrames r.0) (transmit d now j cs places vars frs)
  unfolding transmit
  transmit-Outcome E n now j cs places vars [] good v e p h = returns_as ([], []) h
  transmit-Outcome E n now j cs places vars (fr ∷ frs) good v e p h =
      let rest = transmit-Outcome E n now (suc j) cs places vars frs good v e p (λ k. h (suc k)) in
      Outcome-if (ltb now fr.next_tx)
        (λ waits. Outcome-bind rest λ r f. returns_as _ (AreFrames-cons fr r.0 (h 0 fr refl) f))
        (λ due.
          Outcome-bind (pack-Outcome E n j cs places vars fr.payload good v e p (h 0 fr refl))
            λ bytes k. Outcome-bind rest λ r f. returns_as _ (AreFrames-cons _ r.0 k f))

  -- One cycle's CAN outputs keep the shape of the frames, and take the samples.
  pub can_outputs-Outcome :
      (E : Type 0) (n now : ℕ) (cs : List (CanOutputConfig W)) (places : List (Option ℕ))
      (vars samples : List W) (frs : List TxFrame)
      → ((i : ℕ) (c : CanOutputConfig W) → get_elem? cs i ≡ some c → Packs d E n c)
      → length vars ≡ n
      → length places ≡ length cs
      → Paired cs places
      → AreFrames frs
      → length samples ≡ length cs
      → Outcome E
          (λ r. (length r.0 ≡ length cs) × Sampled cs vars samples r.0 × AreFrames r.1.0)
          (can_outputs d now cs places vars samples frs)
  unfolding can_outputs
  can_outputs-Outcome E n now cs places vars samples frs good v e p h l =
      Outcome-bind
        (Outcome-Returns
          (sample-Returns cs vars samples (λ i c f k. omega (arith, (good i c f).reads k)) l))
        λ ys f.
          Outcome-bind (transmit-Outcome E n now 0 cs places vars frs good v e p h)
            λ r g. returns_as _ (f.0, f.1, g)

-- ===== src/CanOutput/Frames.antt =====
-- What `Sim._init_can_frames` makes of the CAN outputs of a config.
use dingo_cli.Prelude.{
  ℕ, zero, suc, ◌+◌, ◌*◌, ◌≤◌, ◌≡◌, refl, true, none, some, List, [], ◌∷◌, arith, length, get_elem?,
  Bool-cases, ap, ◌∙◌, inl, inr, sym,
}
use dingo_cli.CanOutput.Sampling.{Paired, AreFrames, AreFrames-cons}
use dingo_cli.CanOutput.{
  CanOutputConfig, TxFrame, effective_interval, needed_dlc, is_sent, new_frame, same_id, widen,
  place, init_can_frames,
}

-- What a frame keeps while slots join it.
pub record Widens (old new : TxFrame) : Type 0 where
  pub same_ide : new.ide ≡ old.ide
  pub same_id : new.id ≡ old.id
  pub longer : old.dlc ≤ new.dlc
  pub sooner : new.interval ≤ old.interval

Widens-refl : (fr : TxFrame) → Widens fr fr
Widens-refl fr = record {
  same_ide = refl;
  same_id = refl;
  longer = omega arith;
  sooner = omega arith;
}

Widens-trans : {a b c : TxFrame} → Widens a b → Widens b c → Widens a c
Widens-trans f g = record {
  same_ide = g.same_ide ∙ f.same_ide;
  same_id = g.same_id ∙ f.same_id;
  longer = omega (arith, f.longer, g.longer);
  sooner = omega (arith, f.sooner, g.sooner);
}

-- The list has grown at its end, and its frames have at most widened.
Grows : List TxFrame → List TxFrame → Type 0
Grows xs ys =
    (j : ℕ) (a : TxFrame)
    → get_elem? xs j ≡ some a
    → (b : TxFrame) × (get_elem? ys j ≡ some b) × Widens a b

Grows-refl : (xs : List TxFrame) → Grows xs xs
unfolding Grows
Grows-refl xs j a h = (a, h, Widens-refl a)

Grows-trans : (xs ys zs : List TxFrame) → Grows xs ys → Grows ys zs → Grows xs zs
unfolding Grows
Grows-trans xs ys zs f g j a h =
    let (b, k, w) = f j a h in let (c, l, v) = g j b k in (c, l, Widens-trans w v)

module _ {W : Type 0} where
  -- The frame carries the slot's field: under its identifier, far enough for a little-endian field, and
  -- often enough.
  pub record Carries (c : CanOutputConfig W) (fr : TxFrame) : Type 0 where
    pub same_ide : fr.ide ≡ c.ide
    pub same_id : fr.id ≡ c.id
    pub reaches : c.start_bit + c.bit_length ≤ 8 * fr.dlc
    pub sooner : fr.interval ≤ effective_interval c

  Carries-Widens : {c : CanOutputConfig W} {a b : TxFrame} → Carries c a → Widens a b → Carries c b
  Carries-Widens h w = record {
    same_ide = w.same_ide ∙ h.same_ide;
    same_id = w.same_id ∙ h.same_id;
    reaches = omega (arith, h.reaches, w.longer);
    sooner = omega (arith, h.sooner, w.sooner);
  }

  new_frame-Carries : (c : CanOutputConfig W) → Carries c (new_frame c)
  unfolding new_frame needed_dlc
  new_frame-Carries c = record {
    same_ide = refl;
    same_id = refl;
    reaches = omega arith;
    sooner = omega arith;
  }

  widen-Carries :
      (c : CanOutputConfig W) (fr : TxFrame) → same_id c fr ≡ true → Carries c (widen c fr)
  unfolding widen needed_dlc same_id
  widen-Carries c fr h = record {
    same_ide = ground arith;
    same_id = ground arith;
    reaches = omega arith;
    sooner = omega arith;
  }

  widen-Widens : (c : CanOutputConfig W) (fr : TxFrame) → Widens fr (widen c fr)
  unfolding widen
  widen-Widens c fr = record {
    same_ide = refl;
    same_id = refl;
    longer = omega arith;
    sooner = omega arith;
  }

  place-Carries :
      (c : CanOutputConfig W) (j : ℕ) (frs : List TxFrame)
      → (k : ℕ) × ((place c j frs).0 ≡ j + k)
        × (fr : TxFrame) × (get_elem? (place c j frs).1 k ≡ some fr)
        × Carries c fr
  unfolding place
  place-Carries c j [] = (0, omega arith, new_frame c, refl, new_frame-Carries c)
  place-Carries c j (fr ∷ frs) = elim (Bool-cases (same_id c fr)) [
    | inl e ↦ (0, rw e (omega arith), widen c fr, rw e refl, widen-Carries c fr e)
    | inr e ↦
        (let (k, f, g, l, h) = place-Carries c (suc j) frs in
          (suc k, rw e (omega (arith, f)), g, rw e l, h))
  ]

  place-Grows : (c : CanOutputConfig W) (j : ℕ) (frs : List TxFrame) → Grows frs (place c j frs).1
  unfolding place Grows
  place-Grows c j [] i a h = cc
  place-Grows c j (fr ∷ frs) zero a h =
      let same : fr ≡ a = ground arith in
      elim (Bool-cases (same_id c fr)) [
        | inl e ↦ (widen c fr, rw e refl, rw (sym same) (widen-Widens c fr))
        | inr e ↦ (fr, rw e refl, rw (sym same) (Widens-refl fr))
      ]
  place-Grows c j (fr ∷ frs) (suc i) a h = elim (Bool-cases (same_id c fr)) [
    | inl e ↦ (a, rw e h, Widens-refl a)
    | inr e ↦ rw e (place-Grows c (suc j) frs i a h)
  ]

  init-Grows :
      (cs : List (CanOutputConfig W)) (frs : List TxFrame) → Grows frs (init_can_frames cs frs).1
  unfolding init_can_frames
  init-Grows [] frs = Grows-refl frs
  init-Grows (c ∷ cs) frs = elim (Bool-cases (is_sent c)) [
    | inl e ↦ rw e (
        Grows-trans frs (place c 0 frs).1 _ (place-Grows c 0 frs) (init-Grows cs (place c 0 frs).1))
    | inr e ↦ rw e (init-Grows cs frs)
  ]

  -- Every slot that is sent, which is enabled and has 1 to 64 bits, is assigned to a frame with its
  -- identifier, which has at least start bit + length bits, and so reaches the end of a little-endian
  -- field, and whose interval is at most the slot's (100 ms in place of 0), whichever slots join the
  -- frame before and after it. A big-endian field may end in a later byte.
  pub init_can_frames-Carries :
      (cs : List (CanOutputConfig W)) (frs : List TxFrame) (i : ℕ) (c : CanOutputConfig W)
      → get_elem? cs i ≡ some c
      → is_sent c ≡ true
      → (j : ℕ) × (get_elem? (init_can_frames cs frs).0 i ≡ some (some j))
        × (fr : TxFrame) × (get_elem? (init_can_frames cs frs).1 j ≡ some fr)
        × Carries c fr
  unfolding init_can_frames Grows
  init_can_frames-Carries [] frs i c h k = cc
  init_can_frames-Carries (c' ∷ cs) frs zero c h k =
      let same : c' ≡ c = ground arith in
      let (j, f, fr, l, holds) = place-Carries c 0 frs in
      let (fr', l', w) = init-Grows cs (place c 0 frs).1 j fr l in
      let z : (place c 0 frs).0 ≡ j = omega (arith, f) in
      rw (same, k) (j, rw z refl, fr', l', Carries-Widens holds w)
  init_can_frames-Carries (c' ∷ cs) frs (suc i) c h k = elim (Bool-cases (is_sent c')) [
    | inl e ↦ rw e (init_can_frames-Carries cs (place c' 0 frs).1 i c h k)
    | inr e ↦ rw e (init_can_frames-Carries cs frs i c h k)
  ]

  pub init_can_frames-length :
      (cs : List (CanOutputConfig W)) (frs : List TxFrame)
      → length (init_can_frames cs frs).0 ≡ length cs
  unfolding init_can_frames
  init_can_frames-length [] frs = refl
  init_can_frames-length (c ∷ cs) frs = elim (Bool-cases (is_sent c)) [
    | inl e ↦ rw e (ap suc (init_can_frames-length cs (place c 0 frs).1))
    | inr e ↦ rw e (ap suc (init_can_frames-length cs frs))
  ]

  -- A slot that is not sent is not assigned.
  pub init_can_frames-Paired :
      (cs : List (CanOutputConfig W)) (frs : List TxFrame) → Paired cs (init_can_frames cs frs).0
  unfolding init_can_frames
  init_can_frames-Paired [] frs i c j h k = cc
  init_can_frames-Paired (c' ∷ cs) frs zero c j h k =
      let same : c' ≡ c = ground arith in
      rw (sym same) (elim (Bool-cases (is_sent c')) [
        | inl e ↦ e
        | inr e ↦ absurd (let f : none ≡ some j = ground arith in cc)
      ])
  init_can_frames-Paired (c' ∷ cs) frs (suc i) c j h k = elim (Bool-cases (is_sent c')) [
    | inl e ↦ init_can_frames-Paired cs (place c' 0 frs).1 i c j h (ground arith)
    | inr e ↦ init_can_frames-Paired cs frs i c j h (ground arith)
  ]

  place-AreFrames :
      (c : CanOutputConfig W) (j : ℕ) (frs : List TxFrame)
      → AreFrames frs
      → AreFrames (place c j frs).1
  unfolding place widen new_frame
  place-AreFrames c j [] h = AreFrames-cons (new_frame c) [] refl h
  place-AreFrames c j (fr ∷ frs) h = elim (Bool-cases (same_id c fr)) [
    | inl e ↦ rw e (AreFrames-cons (widen c fr) frs (h 0 fr refl) (λ k. h (suc k)))
    | inr e ↦
        rw e (AreFrames-cons fr _ (h 0 fr refl) (place-AreFrames c (suc j) frs (λ k. h (suc k))))
  ]

  pub init_can_frames-AreFrames :
      (cs : List (CanOutputConfig W)) (frs : List TxFrame)
      → AreFrames frs
      → AreFrames (init_can_frames cs frs).1
  unfolding init_can_frames
  init_can_frames-AreFrames [] frs h = h
  init_can_frames-AreFrames (c ∷ cs) frs h = elim (Bool-cases (is_sent c)) [
    | inl e ↦ rw e (init_can_frames-AreFrames cs (place c 0 frs).1 (place-AreFrames c 0 frs h))
    | inr e ↦ rw e (init_can_frames-AreFrames cs frs h)
  ]

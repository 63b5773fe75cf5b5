-- ===== src/CanOutput.antt =====
-- The CAN outputs of fwmodel/model/dingosim.py (can_outputs.cpp InitAllFrames, Update): how
-- `Sim._init_can_frames` gathers the slots into frames, and step 7 of `Sim.step`, `_can_outputs`.
pub mod Frames
pub mod Sampling
use dingo_cli.Prelude.{
  ℕ, zero, suc, ◌+◌, ◌-◌, ◌/◌, min, max, Bool, true, false, not, ◌&&◌, ◌||◌, Option, none, some,
  List, [], ◌∷◌, ltb, ◌==◌, replicate, if◌then◌else◌,
}
use dingo_cli.Prelude.Results.{Result, ok, raise, index_error, ◌>>=◌}
use dingo_cli.Double.{Double}
use dingo_cli.Dbc.{encode_float}
use dingo_cli.Vars.{read}

pub record CanOutputConfig (W : Type 0) : Type 0 where
  pub enabled : Bool
  pub input : ℕ
  pub ide : ℕ
  pub id : ℕ
  pub start_bit : ℕ
  pub bit_length : ℕ
  pub factor : W
  pub offset : W
  pub byte_order : ℕ
  pub interval : ℕ

-- An entry of `_frames`.
pub record TxFrame : Type 0 where
  pub ide : ℕ
  pub id : ℕ
  pub dlc : ℕ
  pub interval : ℕ
  pub payload : List ℕ
  pub next_tx : ℕ

-- An entry of `tx`: id, dlc and data.
pub record Sent : Type 0 where
  pub id : ℕ
  pub dlc : ℕ
  pub payload : List ℕ

module _ {W : Type 0} where
  -- iv
  unfoldable pub effective_interval : CanOutputConfig W → ℕ
  effective_interval c = if c.interval == 0 then 100 else c.interval

  -- dlc, which counts the bytes up to the field's last
  unfoldable pub needed_dlc : CanOutputConfig W → ℕ
  needed_dlc c = (c.start_bit + c.bit_length - 1) / 8 + 1

  unfoldable pub is_sent : CanOutputConfig W → Bool
  is_sent c = c.enabled && not (c.bit_length == 0 || ltb 64 c.bit_length)

  unfoldable pub new_frame : CanOutputConfig W → TxFrame
  new_frame c = record {
    ide = c.ide;
    id = c.id;
    dlc = needed_dlc c;
    interval = effective_interval c;
    payload = replicate 8 0;
    next_tx = 0;
  }

  unfoldable pub same_id : CanOutputConfig W → TxFrame → Bool
  same_id c fr = fr.ide == c.ide && fr.id == c.id

  unfoldable pub widen : CanOutputConfig W → TxFrame → TxFrame
  widen c fr = record fr {
    dlc = max fr.dlc (needed_dlc c);
    interval = min fr.interval (effective_interval c);
  }

  -- The first frame with the slot's identifier is widened; without one, a new frame is appended.
  -- The result has the frame's number, counted from `j`.
  unfoldable pub place : CanOutputConfig W → (j : ℕ) → List TxFrame → ℕ × List TxFrame
  place c j [] = (j, new_frame c ∷ [])
  place c j (fr ∷ frs) =
      let (k, rest) = place c (suc j) frs in
      if same_id c fr then (j, widen c fr ∷ frs) else (k, fr ∷ rest)

  -- Sim._init_can_frames: `_assigned`, in which `none` stands for -1, and `_frames`.
  unfoldable pub init_can_frames :
      List (CanOutputConfig W) → List TxFrame → List (Option ℕ) × List TxFrame
  init_can_frames [] frs = ([], frs)
  init_can_frames (c ∷ cs) frs =
      if is_sent c
      then (let (j, frs1) = place c 0 frs in
          let (rest, frs2) = init_can_frames cs frs1 in (some j ∷ rest, frs2))
      else (let (rest, frs2) = init_can_frames cs frs in (none ∷ rest, frs2))

module _ {W : Type 0} (d : Double W) where
  -- _canout_sample, after the enabled slots have been sampled
  unfoldable pub sample : List (CanOutputConfig W) → (vars samples : List W) → Result (List W)
  unfolding read
  sample [] vars samples = ok samples
  sample (c ∷ cs) vars [] = raise index_error
  sample (c ∷ cs) vars (x ∷ xs) =
      let rest = sample cs vars xs in
      if c.enabled
      then (do y ← read vars c.input; ys ← rest; ok (y ∷ ys))
      else (do ys ← rest; ok (x ∷ ys))

  unfoldable pub is_assigned : Option ℕ → ℕ → Bool
  is_assigned none j = false
  is_assigned (some k) j = k == j

  -- The slots of frame `j` put their fields into its data.
  unfoldable pub pack :
      (j : ℕ)
      → List (CanOutputConfig W)
      → List (Option ℕ)
      → (vars : List W) → List ℕ
      → Result (List ℕ)
  unfolding read is_assigned
  pack j [] places vars payload = ok payload
  pack j (c ∷ cs) [] vars payload = raise index_error
  pack j (c ∷ cs) (a ∷ places) vars payload =
      if is_assigned a j
      then (do
        x ← read vars c.input
        payload' ← encode_float d payload x c.start_bit c.bit_length c.factor c.offset c.byte_order
        pack j cs places vars payload')
      else pack j cs places vars payload

  -- The frames from number `j` on: those that are due are packed and sent.
  unfoldable pub transmit :
      (now j : ℕ)
      → List (CanOutputConfig W)
      → List (Option ℕ)
      → (vars : List W) → List TxFrame
      → Result (List TxFrame × List Sent)
  unfolding pack
  transmit now j cs places vars [] = ok ([], [])
  transmit now j cs places vars (fr ∷ frs) =
      if ltb now fr.next_tx
      then (do (frs', sent) ← transmit now (suc j) cs places vars frs; ok (fr ∷ frs', sent))
      else (do
        payload ← pack j cs places vars fr.payload
        (frs', sent) ← transmit now (suc j) cs places vars frs
        ok (
          record fr { payload = payload; next_tx = now + fr.interval } ∷ frs',
          record { id = fr.id; dlc = fr.dlc; payload = payload } ∷ sent,
        ))

  -- Sim._can_outputs: the samples, the frames and `tx`.
  unfoldable pub can_outputs :
      (now : ℕ)
      → List (CanOutputConfig W)
      → List (Option ℕ)
      → (vars samples : List W) → List TxFrame
      → Result (List W × (List TxFrame × List Sent))
  unfolding sample transmit
  can_outputs now cs places vars samples frs = do
    samples' ← sample cs vars samples
    sent ← transmit now 0 cs places vars frs
    ok (samples', sent)

-- ===== src/Motion/Blend/Sample.antt =====
-- motion/sync_blend.hpp: `sample`, the state of an axis of a plan at a time.
use robonode.Prelude.{if◌then◌else◌, List, [], ◌∷◌}
use robonode.Core.Double.{Double, nought, clamp}
use robonode.Motion.Limits.{State}
use robonode.Motion.Blend.{Piece}

module _ {ℓ} {W : Type ℓ} ⦃d : Double W⦄ where
  -- The polynomial of a piece, at the time `tau` into it.
  unfoldable pub at : Piece W → W → State W
  at pc tau = record {
    position =
        d.add (d.add pc.p0 (d.mul pc.v0 tau)) (d.mul (d.mul (d.mul (d.decimal 5 1) pc.a) tau) tau);
    velocity = d.add pc.v0 (d.mul pc.a tau);
    acceleration = pc.a;
  }

  unfoldable pub sample_piece : Piece W → W → State W
  unfolding at clamp
  sample_piece pc t = at pc (clamp (d.sub t pc.t0) nought pc.dt)

  -- The loop of `sample`, at the piece `pc`.
  unfoldable pub sample_from : Piece W → List (Piece W) → W → State W
  unfolding sample_piece
  sample_from pc [] t = sample_piece pc t
  sample_from pc (next ∷ rest) t =
      let later = sample_from next rest t in
      if d.lt t (d.add pc.t0 pc.dt) then sample_piece pc t else later

  -- `sample` of an axis; the axis is in range and has a piece.
  unfoldable pub sample_pieces : List (Piece W) → W → State W
  unfolding sample_from
  sample_pieces [] t = record { position = nought; velocity = nought; acceleration = nought }
  sample_pieces (pc ∷ rest) t =
      if d.le t nought
      then record { position = pc.p0; velocity = nought; acceleration = nought }
      else sample_from pc rest t

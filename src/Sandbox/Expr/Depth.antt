-- ===== src/Sandbox/Expr/Depth.antt =====
-- The stack that an expression needs is no more than the length of its code.
use robonode.Prelude.{◌≤◌, [], ◌∷◌, ◌++◌, length, length-append, arith}
use robonode.Core.Double.{Double}
use robonode.Sandbox.Program.{Op}
use robonode.Sandbox.Expr.{
  Expr, literal, variable, apply₁, apply₂, clamp, depth, plain, code_of, op₁, op₂,
}

depth-pos {ℓ} : {W : Type ℓ} (e : Expr W) → 1 ≤ depth e
unfolding depth
depth-pos (literal w) = omega arith
depth-pos (variable k) = omega arith
depth-pos (apply₁ o a) = depth-pos a
depth-pos (apply₂ o a b) = omega arith
depth-pos (clamp x lo hi) = omega arith

-- An instruction pushes one value at most.
pub depth-le-length {ℓ} : {W : Type ℓ} ⦃d : Double W⦄ (e : Expr W) → depth e ≤ length (code_of e)
unfolding depth code_of
depth-le-length (literal w) = omega arith
depth-le-length (variable k) = omega arith
depth-le-length (apply₁ o a) =
    omega (arith, depth-le-length a, length-append (code_of a) (plain (op₁ o) ∷ []))
depth-le-length (apply₂ o a b) = omega (
  arith,
  depth-le-length a,
  depth-le-length b,
  length-append (code_of a) (code_of b),
  length-append (code_of a ++ code_of b) (plain (op₂ o) ∷ []),
)
depth-le-length (clamp x lo hi) = omega (
  arith,
  depth-pos x,
  depth-le-length x,
  depth-le-length lo,
  depth-le-length hi,
  length-append (code_of x) (code_of lo),
  length-append (code_of x ++ code_of lo) (code_of hi),
  length-append (code_of x ++ code_of lo ++ code_of hi) (plain Op.clamp ∷ []),
)

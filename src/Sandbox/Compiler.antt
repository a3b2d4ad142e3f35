-- ===== src/Sandbox/Compiler.antt =====
-- sandbox/compiler.hpp: `split` and `compile`. The parser is in the child `Grammar`.
pub mod Grammar
pub mod Lexing
pub mod Emits
pub mod Sound
pub mod Correct
use robonode.Prelude.{
  ℕ, ◌+◌, ◌*◌, ◌||◌, List, [], ◌∷◌, ◌++◌, Option, length, ◌==◌, Bool, true, false, not, ◌&&◌,
  if◌then◌else◌, Text, is_empty,
}
use robonode.Core.Result.{Result, ok, err, ◌>>=◌, ◌>>◌, guard}
use robonode.Core.Double.{Double}
use robonode.Sandbox.Chars.{isspace}
use robonode.Sandbox.Program.{ByteCode, Program}
use Grammar.{Parser, CompileError, wrong_channel_count, trailing_tokens, skip_ws, expr}

unfoldable pub blank : Text → Bool
unfolding isspace
blank [] = true
blank (ch ∷ t) = isspace ch && blank t

-- `if (!blank(cur)) segs.push_back(cur);`
unfoldable pub keep : Text → List Text → List Text
unfolding blank
keep cur segs = if blank cur then segs else segs ++ cur ∷ []

-- `ch == ';' || ch == '\n'`
abbrev pub is_separator : ℕ → Bool
is_separator ch = ch == b';' || ch == 10

-- The loop of `split` over the characters that are left, and the line behind it.
unfoldable pub split_loop : Text → Text → List Text → List Text
unfolding keep
split_loop [] cur segs = keep cur segs
split_loop (ch ∷ source) cur segs =
    split_loop source (if is_separator ch then [] else cur ++ ch ∷ [])
      (if is_separator ch then keep cur segs else segs)

unfoldable pub split : Text → List Text
unfolding split_loop
split source = split_loop source [] []

-- Enough for every text of this length: see `Sound`.
abbrev pub fuel_for : Text → ℕ
fuel_for seg = 9 * length seg + 7

module _ {ℓ} {W : Type ℓ} ⦃d : Double W⦄ (stod : Text → Option W) (names : List Text) where
  unfoldable pub parse_channel : Text → Result CompileError (ByteCode W)
  unfolding expr skip_ws
  parse_channel seg = do
    p ← expr stod names (fuel_for seg) (record { rest = seg; code = [] })
    guard (is_empty (skip_ws p).rest) trailing_tokens
    ok p.code

  -- The loop of `compile` over the segments.
  unfoldable pub parse_channels : List Text → Result CompileError (List (ByteCode W))
  unfolding parse_channel
  parse_channels [] = ok []
  parse_channels (seg ∷ segs) = do
    code ← parse_channel seg
    codes ← parse_channels segs
    ok (code ∷ codes)

  unfoldable pub compile : Text → ℕ → Result CompileError (Program W)
  unfolding parse_channels split
  compile source expected_channels = do
    channels ← parse_channels (split source)
    guard (length channels == expected_channels)
        (wrong_channel_count expected_channels (length channels))
    ok (record { channels = channels; input_count = length names })

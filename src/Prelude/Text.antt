-- ===== src/Prelude/Text.antt =====
-- `String.prototype.trim`.
use Prim.Native.Nat.{ℕ}
use Prim.Native.Char.{Char, code}
use Prim.Native.String.{String}
use mathlib.Core.Bool.{Bool, ◌&&◌, ◌||◌}
use nti_backend.Prelude.Tests.{leb, nat_beq, if◌then◌else◌}

-- WhiteSpace and LineTerminator of ECMAScript.
pub is_space : ℕ → Bool
is_space c =
    leb 9 c && leb c 13
    || nat_beq c 32
    || nat_beq c 160
    || nat_beq c 0x1680
    || leb 0x2000 c && leb c 0x200a
    || nat_beq c 0x2028
    || nat_beq c 0x2029
    || nat_beq c 0x202f
    || nat_beq c 0x205f
    || nat_beq c 0x3000
    || nat_beq c 0xfeff

trim_start : String → String
unfolding is_space
trim_start String.[] = String.[]
trim_start (String.◌∷◌ c s) = if is_space (code c) then trim_start s else String.◌∷◌ c s

-- A character in front of what the end has become: a space before nothing goes too.
keep_unless_space : Char → String → String
unfolding is_space
keep_unless_space c String.[] = if is_space (code c) then String.[] else String.◌∷◌ c String.[]
keep_unless_space c (String.◌∷◌ d s) = String.◌∷◌ c (String.◌∷◌ d s)

trim_end : String → String
unfolding keep_unless_space
trim_end String.[] = String.[]
trim_end (String.◌∷◌ c s) = keep_unless_space c (trim_end s)

unfoldable pub trim : String → String
unfolding trim_start trim_end
trim s = trim_end (trim_start s)

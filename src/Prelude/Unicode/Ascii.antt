-- ===== src/Prelude/Unicode/Ascii.antt =====
-- Tables that treat only ASCII specially: they meet what is asked of `Unicode`.
use Prim.Native.Nat.{ℕ}
use mathlib.Core.Path.{◌≡◌, refl}
use native.Mathlib.Omega.{arith}
use suprclaw_engine.Prelude.Unicode.{Unicode, ascii_lower, ascii_space}

pub ascii_lower_idem : (c : ℕ) → ascii_lower (ascii_lower c) ≡ ascii_lower c
ascii_lower_idem c = ground arith

pub ascii_space-lower : (c : ℕ) → ascii_space (ascii_lower c) ≡ ascii_space c
ascii_space-lower c = ground arith

instance abbrev pub ascii : Unicode
ascii = record {
  lower = ascii_lower;
  space = ascii_space;
  lower_ascii = λ c h. refl;
  space_ascii = λ c h. refl;
  lower_idem = ascii_lower_idem;
  space-lower = ascii_space-lower;
  fold = ascii_lower;
  fold_ascii = λ c h. refl;
}

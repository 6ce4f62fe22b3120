-- ===== src/Prelude/Text.antt =====
-- What the modules use of Go's `fmt` and `path` on texts.
use Prim.Native.Nat.{ℕ, zero, suc, ◌/◌, ◌%◌, ◌<◌}
use mathlib.Core.Path.{◌≡◌, refl}
use mathlib.Core.Logic.{inl, inr}
use native.Mathlib.Omega.{arith}
use Prim.Native.Char.{code}
use Prim.Native.String.{String, ◌++◌, slice, [] as empty, ◌∷◌ as chars}
use mathlib.Core.List.{List, [], ◌∷◌}
use mathlib.Core.Bool.{Bool, true, false}
use mathlib.Core.Option.{Option, none, some}
use opi_evpn_bridge.Prelude.Tests.{nat_beq, ltb, Bool-cases, if◌then◌else◌}

-- The arguments of a `fmt.Sprintf`, one after the other.
abbrev pub sprint : List String → String
sprint [] = ""
sprint (s ∷ ss) = s ++ sprint ss

abbrev digit : ℕ → String
digit n = slice "0123456789" n (suc n)

-- The decimal digits of a number, on as much fuel as the number and one.
digits : ℕ → ℕ → String
digits zero n = ""
digits (suc fuel) n =
    let rest = digits fuel (n / 10) in if ltb n 10 then digit n else rest ++ digit (n % 10)

-- Any fuel above the number gives the same digits.
digits_enough : (f g n : ℕ) → n < f → n < g → digits f n ≡ digits g n
unfolding digits
digits_enough zero g n h k = absurd (omega (arith, h))
digits_enough (suc f) zero n h k = absurd (omega (arith, k))
digits_enough (suc f) (suc g) n h k = elim (Bool-cases (ltb n 10)) [
  | inl e ↦ ground arith
  | inr e ↦ let rest = digits_enough f g (n / 10) (ground arith) (ground arith) in rw (e, rest) refl
]

-- `%d`, and `%+v` of an unsigned number.
unfoldable pub decimal : ℕ → String
unfolding digits
decimal n = digits (suc n) n

-- The text before the first slash, and the last part that is not empty after it.
parts : String → String × Option String
parts empty = ("", none)
parts (chars c s) =
    let (before, last) = parts s in
    if nat_beq (code c) b'/'
    then (
      "",
      elim last [
        | some part ↦ some part
        | none ↦ elim before [ empty ↦ none | chars d t ↦ some (chars d t) ]
      ],
    )
    else (chars c before, last)

base_of : String → Option String → String
base_of before (some part) = part
base_of empty none = "/"
base_of (chars c s) none = chars c s

-- path.Base
unfoldable pub path_base : String → String
unfolding parts base_of
path_base empty = "."
path_base (chars c s) = let (before, last) = parts (chars c s) in base_of before last

-- What is left of a text after a prefix.
strip : String → String → Option String
strip empty s = some s
strip (chars c p) empty = none
strip (chars c p) (chars d s) =
    let rest = strip p s in if nat_beq (code c) (code d) then rest else none

-- The text before the first occurrence of a separator that is not empty, and, if there is one, the
-- text after it.
unfoldable pub cut : String → String → String × Option String
unfolding strip
cut sep empty = ("", none)
cut sep (chars c s) =
    let (before, after) = cut sep s in
    elim (strip sep (chars c s)) [ some rest ↦ ("", some rest) | none ↦ (chars c before, after) ]

-- strings.Contains, for a text that is not empty.
unfoldable pub contains : String → String → Bool
unfolding cut
contains s sep = elim (cut sep s).1 [ some rest ↦ true | none ↦ false ]

-- `strings.Split(s, sep)[0]`, where `none` is the panic of an index out of range. An empty separator
-- splits a text into its characters.
unfoldable pub split_0 : String → String → Option String
unfolding cut
split_0 empty empty = none
split_0 (chars c s) empty = some (chars c "")
split_0 s (chars c sep) = some (cut (chars c sep) s).0

-- `strings.Split(s, sep)[1]`, for a separator that is not empty.
unfoldable pub split_1 : String → String → Option String
unfolding cut
split_1 s sep = elim (cut sep s).1 [ some rest ↦ some (cut sep rest).0 | none ↦ none ]

-- ===== src/Prelude/Text.antt =====
-- Python's `str` methods that the program calls, over the native texts. `upper` and `lower` change
-- ASCII letters and leave other characters alone; `strip` takes every blank of `str.isspace` away.
use Prim.Native.Char.{Char, char, code, nul, IsScalar}
use Prim.Native.Nat.{ℕ, zero, suc, ◌+◌, ◌-◌, ◌<◌, compare, Ordering}
use Prim.Native.String.{String, [], ◌∷◌}
use mathlib.Core.Path.{◌≡◌, refl, ap, ◌∙◌}
use mathlib.Core.List.{List}
use mathlib.Core.Bool.{Bool, true, false, ◌&&◌, ◌||◌}
use mathlib.Core.Logic.{dite, dif_pos, inl, inr}
use native.Mathlib.Omega.{arith}
use native.Mathlib.Bridge.{le_prop}
use native.Mathlib.Decide.{dec_lt}
use text.Mathlib.Text.{◌==◌}
use trade_receiver.Prelude.Tests.{leb, eqb, if◌then◌else◌, Bool-cases}
use trade_receiver.Prelude.Pieces.{no_pieces, add_piece, add_text}

pub compare_small : (n : ℕ) → n < 128 → compare n 55296 ≡ Ordering.lt
compare_small n h = ground arith

pub IsScalar-small : (n : ℕ) → n < 128 → IsScalar n
IsScalar-small n h = rw (compare_small n h) tt

-- The character of an ASCII code.
ascii : ℕ → Char
unfolding dec_lt
ascii n = dite (dec_lt n 128) (λ h. char n (IsScalar-small n h)) (λ _. nul)

code-ascii : (n : ℕ) → n < 128 → code (ascii n) ≡ n
unfolding ascii
code-ascii n h = rw (dif_pos _ le_prop h)

is_lower : Char → Bool
is_lower c = leb b'a' (code c) && leb (code c) b'z'

is_upper : Char → Bool
is_upper c = leb b'A' (code c) && leb (code c) b'Z'

to_upper : Char → Char
unfolding is_lower
to_upper c = if is_lower c then ascii (code c - 32) else c

to_lower : Char → Char
unfolding is_upper
to_lower c = if is_upper c then ascii (code c + 32) else c

unfoldable pub upper : String → String
unfolding to_upper ascii
upper [] = []
upper (c ∷ s) = to_upper c ∷ upper s

unfoldable pub lower : String → String
unfolding to_lower ascii
lower [] = []
lower (c ∷ s) = to_lower c ∷ lower s

-- the codes of `str.isspace`
is_blank : ℕ → Bool
is_blank n =
    (leb 9 n && leb n 13)
    || ((leb 28 n && leb n 32)
        || (eqb n 133
            || (eqb n 160
                || (eqb n 5760
                    || ((leb 8192 n && leb n 8202)
                        || (eqb n 8232
                            || (eqb n 8233 || (eqb n 8239 || (eqb n 8287 || eqb n 12288)))))))))

is_space : Char → Bool
unfolding is_blank
is_space c = is_blank (code c)

unfoldable pub lstrip : String → String
unfolding is_space
lstrip [] = []
lstrip (c ∷ s) = let rest = lstrip s in if is_space c then rest else c ∷ s

unfoldable pub rstrip : String → String
unfolding is_space
rstrip [] = []
rstrip (c ∷ s) = let rest = rstrip s in if is_space c && rest == "" then "" else c ∷ rest

unfoldable pub strip : String → String
unfolding lstrip rstrip
strip s = rstrip (lstrip s)

-- `s.startswith(t)`
unfoldable pub starts_with : String → String → Bool
starts_with s [] = true
starts_with [] (d ∷ t) = false
starts_with (c ∷ s) (d ∷ t) = eqb (code c) (code d) && starts_with s t

-- `t in s`
unfoldable pub contains : String → String → Bool
unfolding starts_with
contains [] t = starts_with [] t
contains (c ∷ s) t = starts_with (c ∷ s) t || contains s t

-- `s[:n]`
unfoldable pub take : ℕ → String → String
take zero s = []
take (suc n) [] = []
take (suc n) (c ∷ s) = c ∷ take n s

-- `s.split(",")`
unfoldable pub split_commas : String → List String
split_commas [] = no_pieces
split_commas (c ∷ s) =
    let rest = split_commas s in if eqb (code c) 44 then add_piece rest else add_text (c ∷ "") rest

-- `s or d`
abbrev pub or_text : String → String → String
or_text s d = if s == "" then d else s

not-is_lower-to_upper : (c : Char) → is_lower (to_upper c) ≡ false
unfolding to_upper
not-is_lower-to_upper c = ground (arith, code-ascii (code c - 32))

to_upper_idem : (c : Char) → to_upper (to_upper c) ≡ to_upper c
unfolding to_upper
to_upper_idem c = rw (not-is_lower-to_upper c)

pub upper_idem : (s : String) → upper (upper s) ≡ upper s
unfolding upper
upper_idem [] = refl
upper_idem (c ∷ s) = cc (to_upper_idem c, upper_idem s)

upper_test : upper "bto Spy 580c" ≡ "BTO SPY 580C"
unfolding upper
upper_test = refl

strip_test : strip "  es \n" ≡ "es"
unfolding strip
strip_test = refl

contains_test : contains "{sell_to_close}" "sell_to_close" ≡ true
unfolding contains
contains_test = refl

rstrip-rstrip : (s : String) → rstrip (rstrip s) ≡ rstrip s
unfolding rstrip
rstrip-rstrip [] = refl
rstrip-rstrip (c ∷ s) = elim (Bool-cases (is_space c && rstrip s == "")) [
  | inl e ↦ rw e refl
  | inr e ↦ rw (e, rstrip, rstrip-rstrip s, e) refl
]

-- what begins with no blank keeps its beginning
lstrip-rstrip : (s : String) → lstrip (rstrip (lstrip s)) ≡ rstrip (lstrip s)
unfolding lstrip rstrip
lstrip-rstrip [] = refl
lstrip-rstrip (c ∷ s) = elim (Bool-cases (is_space c)) [
  | inl e ↦ rw e (lstrip-rstrip s)
  | inr e ↦ rw (e, e) (rw e refl)
]

pub strip_idem : (s : String) → strip (strip s) ≡ strip s
unfolding strip
strip_idem s = ap rstrip (lstrip-rstrip s) ∙ rstrip-rstrip (lstrip s)

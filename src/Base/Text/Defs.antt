-- ===== src/Base/Text/Defs.antt =====
-- The text operations themselves.
use Prim.Native.Nat.{ℕ, zero, suc, ◌+◌, ◌/◌, ◌%◌}
use Prim.Native.Char.{code}
use Prim.Native.String.{String}
use mathlib.Core.Bool.{Bool, true, false, ◌||◌, ◌&&◌}
use mathlib.Core.List.{List, [], ◌∷◌, ◌++◌, reverse}
use mathlib.Core.Option.{Option, none, some}
use dmarc_service.Base.Tests.{ltb, leb, ◌==◌, if◌then◌else◌}

abbrev pub Text : Type 0
Text = List ℕ

abbrev pub Bytes : Type 0
Bytes = List ℕ

-- the text of a literal
abbrev pub codes : String → Text
codes String.[] = []
codes (String.◌∷◌ c s) = code c ∷ codes s

abbrev pub is_empty : Text → Bool
is_empty [] = true
is_empty (_ ∷ _) = false

-- s == t
unfoldable pub text_eq : Text → Text → Bool
text_eq [] [] = true
text_eq (a ∷ s) (b ∷ t) = (a == b) && text_eq s t
text_eq _ _ = false

-- a or b, on texts
abbrev pub text_or : Text → Text → Text
text_or [] t = t
text_or (a ∷ s) t = a ∷ s

unfoldable pub lower_char : ℕ → ℕ
lower_char c = if leb b'A' c && leb c b'Z' then c + 32 else c

-- s.lower()
unfoldable pub lower : Text → Text
unfolding lower_char
lower [] = []
lower (c ∷ s) = lower_char c ∷ lower s

-- white space of ASCII: \t \n \v \f \r and the space (for `str` also 28 to 31)
unfoldable pub is_space : ℕ → Bool
is_space c = (leb 9 c && leb c 13) || c == 32

-- s.lstrip(), and s.lstrip(chars) by a test on a character
unfoldable pub lstrip_by : (ℕ → Bool) → Text → Text
lstrip_by p [] = []
lstrip_by p (c ∷ s) = let rest = lstrip_by p s in if p c then rest else c ∷ s

-- s.rstrip(): the characters that the test accepts at the end are dropped
unfoldable pub rstrip_by : (ℕ → Bool) → Text → Text
rstrip_by p [] = []
rstrip_by p (c ∷ s) = let rest = rstrip_by p s in if p c && is_empty rest then [] else c ∷ rest

unfoldable pub strip_by : (ℕ → Bool) → Text → Text
unfolding lstrip_by rstrip_by
strip_by p s = rstrip_by p (lstrip_by p s)

unfoldable pub strip : Text → Text
unfolding strip_by is_space
strip s = strip_by is_space s

unfoldable pub lstrip : Text → Text
unfolding lstrip_by is_space
lstrip s = lstrip_by is_space s

-- s.startswith(p)
unfoldable pub starts_with : Text → Text → Bool
starts_with s [] = true
starts_with [] (_ ∷ _) = false
starts_with (a ∷ s) (b ∷ p) = (a == b) && starts_with s p

-- s.endswith(p)
unfoldable pub ends_with : Text → Text → Bool
unfolding text_eq
ends_with [] p = is_empty p
ends_with (a ∷ s) p = text_eq (a ∷ s) p || ends_with s p

-- p in s
unfoldable pub occurs : Text → Text → Bool
unfolding starts_with
occurs p [] = is_empty p
occurs p (a ∷ s) = starts_with (a ∷ s) p || occurs p s

-- s.removeprefix(p)
unfoldable pub remove_prefix : Text → Text → Text
unfolding starts_with
remove_prefix s [] = s
remove_prefix [] (_ ∷ _) = []
remove_prefix (a ∷ s) (b ∷ p) = if starts_with (a ∷ s) (b ∷ p) then remove_prefix s p else a ∷ s

-- s.split(c, 1)[0]
unfoldable pub before : ℕ → Text → Text
before c [] = []
before c (a ∷ s) = let rest = before c s in if a == c then [] else a ∷ rest

-- s.split(c, 1)[1], if there is one
unfoldable pub after : ℕ → Text → Option Text
after c [] = none
after c (a ∷ s) = let rest = after c s in if a == c then some s else rest

-- s.split(c, 1)[-1]
unfoldable pub after_or_all : ℕ → Text → Text
unfolding after
after_or_all c s = elim (after c s) [ none ↦ s | some t ↦ t ]

-- s.split(c)[-1]
unfoldable pub last_part : ℕ → Text → Text
unfolding after
last_part c [] = []
last_part c (a ∷ s) =
    let rest = last_part c s in
    if a == c then rest else elim (after c s) [ none ↦ a ∷ s | some _ ↦ rest ]

-- `s.split()`: the word that is being read, and the words after it
unfoldable pub words_from : Text → Text → List Text
unfolding is_space
words_from w [] = if is_empty w then [] else reverse w ∷ []
words_from w (c ∷ s) =
    let next = words_from [] s in
    let same = words_from (c ∷ w) s in
    if is_space c then (if is_empty w then next else reverse w ∷ next) else same

unfoldable pub words : Text → List Text
unfolding words_from
words s = words_from [] s

-- s.replace(c, d) on characters
unfoldable pub replace : ℕ → ℕ → Text → Text
replace c d [] = []
replace c d (a ∷ s) = (if a == c then d else a) ∷ replace c d s

-- sep.join(parts)
unfoldable pub join : Text → List Text → Text
join sep [] = []
join sep (s ∷ []) = s
join sep (s ∷ t ∷ parts) = s ++ (sep ++ join sep (t ∷ parts))

-- str(n)
digits : ℕ → ℕ → Text
digits zero n = []
digits (suc fuel) n = elim (ltb n 10) [
  | true ↦ (b'0' + n) ∷ []
  | false ↦ digits fuel (n / 10) ++ (b'0' + n % 10) ∷ []
]

unfoldable pub decimal : ℕ → Text
unfolding digits
decimal n = digits (suc n) n

-- ===== src/Prelude/Text.antt =====
-- `str.strip`, and the searches for literal texts that the modelled code makes with `re`.
use Prim.Native.Nat.{ℕ, ◌+◌}
use Prim.Native.Char.{code}
use Prim.Native.String.{String}
use mathlib.Core.Path.{◌≡◌, refl}
use mathlib.Core.Bool.{Bool, true, false, not, ◌&&◌, ◌||◌}
use mathlib.Core.List.{List, [], ◌∷◌, reverse}
use trip_graph_agent_runtime.Prelude.Tests.{◌==◌, leb, if◌then◌else◌}

abbrev pub codes : String → List ℕ
codes String.[] = []
codes (String.◌∷◌ c s) = code c ∷ codes s

-- The code points for which `str.isspace` holds, which `strip()` removes.
unfoldable pub is_space : ℕ → Bool
is_space c =
    leb 9 c && leb c 13
    || leb 28 c && leb c 32
    || c == 0x85
    || c == 0xa0
    || c == 0x1680
    || leb 0x2000 c && leb c 0x200a
    || c == 0x2028
    || c == 0x2029
    || c == 0x202f
    || c == 0x205f
    || c == 0x3000

unfoldable pub strip_left : List ℕ → List ℕ
unfolding is_space
strip_left [] = []
strip_left (c ∷ cs) = let rest = strip_left cs in if is_space c then rest else c ∷ cs

-- s.strip(), as code points.
unfoldable pub strip : String → List ℕ
unfolding strip_left
strip s = reverse (strip_left (reverse (strip_left (codes s))))

-- not s or not s.strip()
unfoldable pub is_blank : String → Bool
unfolding strip
is_blank s = elim (strip s) [ [] ↦ true | c ∷ cs ↦ false ]

-- One code point under re.IGNORECASE: ASCII case, and the letters that fold to `i` and to `s`.
fold_case : ℕ → ℕ
fold_case c =
    if leb b'A' c && leb c b'Z'
    then c + 32
    else if c == 0x130 || c == 0x131
    then b'i'
    else if c == 0x17f
    then b's'
    else c

starts_with : List ℕ → List ℕ → Bool
unfolding fold_case
starts_with [] text = true
starts_with (p ∷ ps) [] = false
starts_with (p ∷ ps) (c ∷ cs) = fold_case p == fold_case c && starts_with ps cs

-- re.search of a literal text, ignoring case.
contains : List ℕ → List ℕ → Bool
unfolding starts_with
contains literal [] = starts_with literal []
contains literal (c ∷ cs) = starts_with literal (c ∷ cs) || contains literal cs

-- re.search of an alternation of literal texts, ignoring case.
unfoldable pub search_any : List String → String → Bool
unfolding contains
search_any [] text = false
search_any (literal ∷ rest) text = contains (codes literal) (codes text) || search_any rest text

-- What a text goes on with after a literal of this length.
after_literal : List ℕ → List ℕ → List ℕ
after_literal [] cs = cs
after_literal (p ∷ ps) [] = []
after_literal (p ∷ ps) (c ∷ cs) = after_literal ps cs

opens_word : (ℕ → Bool) → List ℕ → Bool
opens_word is_word [] = false
opens_word is_word (c ∷ cs) = is_word c

-- re.search of a literal word between word boundaries, ignoring case; the flag says whether the
-- character before is part of a word.
unfoldable pub search_word : (ℕ → Bool) → Bool → List ℕ → List ℕ → Bool
unfolding starts_with opens_word after_literal
search_word is_word before literal [] = false
search_word is_word before literal (c ∷ cs) =
    not before
      && starts_with literal (c ∷ cs)
      && not (opens_word is_word (after_literal literal (c ∷ cs)))
    || search_word is_word (is_word c) literal cs

search_any_samples :
    (search_any ("总结" ∷ "finalize" ∷ []) "FINALIZE the trip" ≡ true)
    × (search_any ("总结" ∷ "finalize" ∷ []) "weather" ≡ false)
unfolding search_any
search_any_samples = (refl, refl)

is_blank_samples : (is_blank " \t" ≡ true) × (is_blank " a " ≡ false)
unfolding is_blank
is_blank_samples = (refl, refl)

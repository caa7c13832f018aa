-- ===== src/Prelude/Texts.antt =====
-- Python's `str`: equality, concatenation, tests on characters, `split`, `join`, `lower`.
-- `lower` and `upper` change the letters of ASCII only, which is all that a MAC address or a
-- UUID holds.
use Prim.Native.Nat.{ℕ, ◌+◌}
use Prim.Native.Char.{Char, code}
use Prim.Native.String.compare
use Prim.Native.String.{String, ◌++◌}
use mathlib.Core.Path.{◌≡◌, refl, ap, ◌∙◌}
use mathlib.Core.Bool.{Bool, true, false, ◌||◌}
use mathlib.Core.List.{List, [], ◌∷◌}
use native.Mathlib.Omega.{arith}
use text.Mathlib.Text.{◌==◌ as text_eq, starts_with, is_eq}
use mathlib.Core.Logic.{◌≢◌}
use text.Mathlib.TextEquality.{eq_iff}
use text.Mathlib.TextLemmas.{nil-append, cons-append}
use tiedie.Prelude.Tests.{if◌then◌else◌, ◌==ℕ◌}
use tiedie.Prelude.Lists.{All}

infix 50 ◌==◌
abbrev pub ◌==◌ : String → String → Bool
s == t = text_eq s t

infixr 66 ◌+++◌
abbrev pub ◌+++◌ : String → String → String
s +++ t = s ++ t

-- `ch in s`, for one character
unfoldable pub has_char : ℕ → String → Bool
has_char c String.[] = false
has_char c (String.◌∷◌ d s) = (code d ==ℕ c) || has_char c s

-- `t in s`, for a text
unfoldable pub has_text : String → String → Bool
has_text t String.[] = t == ""
has_text t (String.◌∷◌ d s) = starts_with (String.◌∷◌ d s) t || has_text t s

-- `s.count(ch)`
unfoldable pub count_char : ℕ → String → ℕ
count_char c String.[] = 0
count_char c (String.◌∷◌ d s) = (if code d ==ℕ c then 1 else 0) + count_char c s

-- `s.split(ch, 1)` of a text that has the character: what is before it and what is after it.
unfoldable pub split_once : ℕ → String → String × String
split_once c String.[] = ("", "")
split_once c (String.◌∷◌ d s) =
    let rest = split_once c s in if code d ==ℕ c then ("", s) else (String.◌∷◌ d rest.0, rest.1)

abbrev cons_head : Char → List String → List String
cons_head d [] = (String.◌∷◌ d "") ∷ []
cons_head d (w ∷ ws) = (String.◌∷◌ d w) ∷ ws

-- `s.split(ch)`
unfoldable pub split : ℕ → String → List String
split c String.[] = "" ∷ []
split c (String.◌∷◌ d s) = let ws = split c s in if code d ==ℕ c then "" ∷ ws else cons_head d ws

-- `ch.join(words)`
unfoldable pub join : Char → List String → String
join c [] = ""
join c (w ∷ []) = w
join c (w ∷ v ∷ ws) = w +++ String.◌∷◌ c (join c (v ∷ ws))

lower_table : List (Char × Char)
lower_table =
    ("A", "a")
    ∷ ("B", "b")
    ∷ ("C", "c")
    ∷ ("D", "d")
    ∷ ("E", "e")
    ∷ ("F", "f")
    ∷ ("G", "g")
    ∷ ("H", "h")
    ∷ ("I", "i")
    ∷ ("J", "j")
    ∷ ("K", "k")
    ∷ ("L", "l")
    ∷ ("M", "m")
    ∷ ("N", "n")
    ∷ ("O", "o")
    ∷ ("P", "p")
    ∷ ("Q", "q")
    ∷ ("R", "r")
    ∷ ("S", "s")
    ∷ ("T", "t")
    ∷ ("U", "u")
    ∷ ("V", "v")
    ∷ ("W", "w")
    ∷ ("X", "x")
    ∷ ("Y", "y")
    ∷ ("Z", "z")
    ∷ []

swap_left : List (Char × Char) → Char → Char
swap_left [] c = c
swap_left ((a, b) ∷ t) c = if code a ==ℕ code c then b else swap_left t c

swap_right : List (Char × Char) → Char → Char
swap_right [] c = c
swap_right ((a, b) ∷ t) c = if code b ==ℕ code c then a else swap_right t c

-- `s.lower()`
unfoldable pub lower : String → String
unfolding lower_table swap_left
lower String.[] = ""
lower (String.◌∷◌ c s) = String.◌∷◌ (swap_left lower_table c) (lower s)

-- `s.upper()`
unfoldable pub upper : String → String
unfolding lower_table swap_right
upper String.[] = ""
upper (String.◌∷◌ c s) = String.◌∷◌ (swap_right lower_table c) (upper s)

lower_mac : lower "AA:0F:z9" ≡ "aa:0f:z9"
unfolding lower
lower_mac = refl

split_path : split b'/' "a//bc" ≡ "a" ∷ "" ∷ "bc" ∷ []
unfolding split
split_path = refl

module _ (c : Char) where
  -- A text without the character, then the character, then anything, splits there.
  pub split_once-append :
      (s t : String)
      → has_char (code c) s ≡ false
      → split_once (code c) (s +++ String.◌∷◌ c t) ≡ (s, t)
  unfolding has_char split_once
  split_once-append String.[] t h = rw nil-append (ground arith)
  split_once-append (String.◌∷◌ d s) t h =
      rw cons-append (ground (arith, split_once-append s t (ground arith)))

  pub has_char-append : (s t : String) → has_char (code c) (s +++ String.◌∷◌ c t) ≡ true
  unfolding has_char
  has_char-append String.[] t = rw nil-append (ground arith)
  has_char-append (String.◌∷◌ d s) t = rw cons-append (ground (arith, has_char-append s t))

  -- What has no separator is one word; a word before a separator is split off.
  split_word : (w : String) → has_char (code c) w ≡ false → split (code c) w ≡ w ∷ []
  unfolding has_char split
  split_word String.[] h = refl
  split_word (String.◌∷◌ d s) h = ground (arith, split_word s (ground arith))

  split-append :
      (w s : String)
      → has_char (code c) w ≡ false
      → split (code c) (w +++ String.◌∷◌ c s) ≡ w ∷ split (code c) s
  unfolding has_char split
  split-append String.[] s h = rw nil-append (ground arith)
  split-append (String.◌∷◌ d w) s h =
      rw cons-append (ground (arith, split-append w s (ground arith)))

  -- `c.join(words).split(c)` gives back words that do not hold the separator.
  pub split-join :
      (w : String) (ws : List String)
      → All (λ v. has_char (code c) v ≡ false) (w ∷ ws)
      → split (code c) (join c (w ∷ ws)) ≡ w ∷ ws
  unfolding join
  split-join w [] h = split_word w h.0
  split-join w (v ∷ ws) h =
      split-append w (join c (v ∷ ws)) h.0 ∙ ap (λ t. w ∷ t) (split-join v ws h.1)

pub cons-ne_nil : (c : Char) (s : String) → (String.◌∷◌ c s == "") ≡ false
cons-ne_nil c s = λ i. is_eq (compare.cons-nil c s i)

pub eq_false : (s t : String) → s ≢ t → (s == t) ≡ false
eq_false s t h = ground (arith, (eq_iff s t).0)

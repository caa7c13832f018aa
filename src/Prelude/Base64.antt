-- ===== src/Prelude/Base64.antt =====
-- `base64.b64encode(value).decode("utf-8")` and `base64.b64decode(s)`, of bytes and texts.
use Prim.Native.Nat.{ℕ, zero, suc, ◌+◌, ◌-◌, ◌*◌, ◌/◌, ◌%◌, ◌<◌}
use Prim.Native.Char.{Char, code}
use Prim.Native.String.{String}
use mathlib.Core.Path.{◌≡◌, refl, ap, ap₂, ◌∙◌}
use mathlib.Core.Bool.{Bool, true, false, ◌&&◌, ◌||◌}
use mathlib.Core.List.{List, [], ◌∷◌}
use mathlib.Core.Option.{Option, none, some}
use mathlib.Core.Option
use native.Mathlib.Omega.{arith}
use tiedie.Prelude.Tests.{if◌then◌else◌, ◌==ℕ◌, ==ℕ_iff, leb}
use tiedie.Prelude.Lists.{All}
use native.Mathlib.Decide.{ℕ_discrete}

alphabet : String
alphabet = "ABCDEFGHIJKLMNOPQRSTUVWXYZabcdefghijklmnopqrstuvwxyz0123456789+/"

char_at_or_a : ℕ → String → Char
char_at_or_a n String.[] = "A"
char_at_or_a zero (String.◌∷◌ c s) = c
char_at_or_a (suc n) (String.◌∷◌ c s) = char_at_or_a n s

-- the character of six bits
sextet : ℕ → Char
unfolding alphabet char_at_or_a
sextet n = char_at_or_a n alphabet

unfoldable pub b64encode : List ℕ → String
unfolding sextet
b64encode [] = ""
b64encode (a ∷ []) = String.◌∷◌ (sextet (a / 4)) (String.◌∷◌ (sextet (a % 4 * 16)) "==")
b64encode (a ∷ b ∷ []) =
    String.◌∷◌ (sextet (a / 4))
      (String.◌∷◌ (sextet (a % 4 * 16 + b / 16)) (String.◌∷◌ (sextet (b % 16 * 4)) "="))
b64encode (a ∷ b ∷ c ∷ rest) = String.◌∷◌ (sextet (a / 4)) (
    String.◌∷◌ (sextet (a % 4 * 16 + b / 16))
      (String.◌∷◌ (sextet (b % 16 * 4 + c / 64)) (String.◌∷◌ (sextet (c % 64)) (b64encode rest))))

pub data Letter : Type 0 where
  pad other : Letter
  digit : ℕ → Letter

classify : ℕ → Letter
classify c =
    if c ==ℕ b'='
    then pad
    else if leb b'A' c && leb c b'Z'
    then digit (c - b'A')
    else if leb b'a' c && leb c b'z'
    then digit (c - b'a' + 26)
    else if leb b'0' c && leb c b'9'
    then digit (c - b'0' + 52)
    else if c ==ℕ b'+'
    then digit 62
    else if c ==ℕ b'/'
    then digit 63
    else other

-- the place in a group of four characters, and the bits that wait for the next one
pub data Quad : Type 0 where
  q0 : Quad
  q1 q2 q3 : ℕ → Quad

next : Quad → ℕ → Quad
next q0 v = q1 v
next (q1 left) v = q2 (v % 16)
next (q2 left) v = q3 (v % 4)
next (q3 left) v = q0

emit : Quad → ℕ → Option (List ℕ) → Option (List ℕ)
emit q0 v rest = rest
emit (q1 left) v rest = Option.map (λ bs. (left * 4 + v / 16) ∷ bs) rest
emit (q2 left) v rest = Option.map (λ bs. (left * 16 + v / 4) ∷ bs) rest
emit (q3 left) v rest = Option.map (λ bs. (left * 64 + v) ∷ bs) rest

-- the number of pads after one more; `none` when they end the text
padded : Quad → ℕ → Option ℕ
padded q0 pads = some pads
padded (q1 left) pads = some pads
padded (q2 left) pads = if leb 4 (2 + (pads + 1)) then none else some (pads + 1)
padded (q3 left) pads = none

at_end : Quad → Option (List ℕ)
at_end q0 = some []
at_end _ = none

decode : Quad → ℕ → String → Option (List ℕ)
unfolding classify next emit padded at_end
decode q pads String.[] = at_end q
decode q pads (String.◌∷◌ c s) = elim (classify (code c)) [
  | pad ↦ elim (padded q pads) [ none ↦ some [] | some pads' ↦ decode q pads' s ]
  | other ↦ decode q pads s
  | digit v ↦ emit q v (decode (next q v) 0 s)
]

has_non_ascii : String → Bool
has_non_ascii String.[] = false
has_non_ascii (String.◌∷◌ c s) = leb 128 (code c) || has_non_ascii s

-- `none` is an error: a character that is not ASCII, or wrong padding. Other characters outside the
-- alphabet are skipped, and what comes after the padding is not read.
unfoldable pub b64decode : String → Option (List ℕ)
unfolding decode has_non_ascii
b64decode s = if has_non_ascii s then none else decode q0 0 s

encoded_and_back :
    (b64encode (77 ∷ 97 ∷ 110 ∷ 77 ∷ []) ≡ "TWFuTQ==")
    × (b64decode "TWFu TQ=" ≡ none)
    × (b64decode "TWFu TQ==x" ≡ some (77 ∷ 97 ∷ 110 ∷ 77 ∷ []))
unfolding b64encode b64decode
encoded_and_back = (refl, refl, refl)

-- does `f` hold of every number below `k`?
abbrev pub holds_to : ℕ → (ℕ → Bool) → Bool
holds_to zero f = true
holds_to (suc k) f = f k && holds_to k f

pub holds_at : (k : ℕ) (f : ℕ → Bool) (n : ℕ) → holds_to k f ≡ true → n < k → f n ≡ true
holds_at zero f n h lt = elim lt [ ]
holds_at (suc k) f n h lt = elim (ℕ_discrete k n) [
  | yes e ↦ rw (← e) (and_left (f k) (holds_to k f) h)
  | no ne ↦ holds_at k f n (and_right (f k) (holds_to k f) h) (omega arith)
]
  where
    and_left : (a b : Bool) → (a && b) ≡ true → a ≡ true
    and_left a b e = ground arith

    and_right : (a b : Bool) → (a && b) ≡ true → b ≡ true
    and_right a b e = ground arith

abbrev is_digit_of : Letter → ℕ → Bool
is_digit_of (digit v) n = v ==ℕ n
is_digit_of l n = false

is_digit_of_sound : (l : Letter) (n : ℕ) → is_digit_of l n ≡ true → l ≡ digit n
is_digit_of_sound pad n h = cc
is_digit_of_sound other n h = cc
is_digit_of_sound (digit v) n h = ap digit ((==ℕ_iff v n).0 h)

letters : holds_to 64 (λ n. is_digit_of (classify (code (sextet n))) n) ≡ true
unfolding classify sextet
letters = refl

letter : (n : ℕ) → n < 64 → classify (code (sextet n)) ≡ digit n
letter n h =
    is_digit_of_sound (classify (code (sextet n))) n
      (holds_at 64 (λ k. is_digit_of (classify (code (sextet k))) k) n letters h)

asciis : holds_to 64 (λ n. leb (code (sextet n)) 127) ≡ true
unfolding sextet
asciis = refl

ascii : (n : ℕ) → n < 64 → leb 128 (code (sextet n)) ≡ false
ascii n h = ground (arith, holds_at 64 (λ k. leb (code (sextet k)) 127) n asciis h)

decode-sextet :
    (q : Quad) (pads n : ℕ) (s : String)
    → n < 64
    → decode q pads (String.◌∷◌ (sextet n) s) ≡ emit q n (decode (next q n) 0 s)
unfolding decode
decode-sextet q pads n s h = rw (letter n h, decode) refl

-- The encoding is ASCII.
ascii-b64encode : (bs : List ℕ) → All (λ b. b < 256) bs → has_non_ascii (b64encode bs) ≡ false
unfolding has_non_ascii b64encode
ascii-b64encode [] h = refl
ascii-b64encode (a ∷ []) h =
    ground (arith, ascii (a / 4) (omega arith), ascii (a % 4 * 16) (omega arith))
ascii-b64encode (a ∷ b ∷ []) h = ground (
  arith,
  ascii (a / 4) (omega arith),
  ascii (a % 4 * 16 + b / 16) (omega arith),
  ascii (b % 16 * 4) (omega arith),
)
ascii-b64encode (a ∷ b ∷ c ∷ rest) h = ground (
  arith,
  ascii (a / 4) (omega arith),
  ascii (a % 4 * 16 + b / 16) (omega arith),
  ascii (b % 16 * 4 + c / 64) (omega arith),
  ascii (c % 64) (omega arith),
  ascii-b64encode rest h.1.1.1,
)

-- One, two and three bytes from their bits.
byte_alone : (a : ℕ) → a / 4 * 4 + a % 4 * 16 / 16 ≡ a
byte_alone a = omega arith

byte_at_1 : (a b : ℕ) → b < 256 → a / 4 * 4 + (a % 4 * 16 + b / 16) / 16 ≡ a
byte_at_1 a b h = omega arith

byte_at_2 :
    (a b c : ℕ)
    → b < 256
    → c < 256
    → (a % 4 * 16 + b / 16) % 16 * 16 + (b % 16 * 4 + c / 64) / 4 ≡ b
byte_at_2 a b c h h' = omega arith

byte_last_2 : (a b : ℕ) → b < 256 → (a % 4 * 16 + b / 16) % 16 * 16 + b % 16 * 4 / 4 ≡ b
byte_last_2 a b h = omega arith

byte_at_3 : (b c : ℕ) → c < 256 → (b % 16 * 4 + c / 64) % 4 * 64 + c % 64 ≡ c
byte_at_3 b c h = omega arith

decode-b64encode :
    (bs : List ℕ) → All (λ b. b < 256) bs → (pads : ℕ) → decode q0 pads (b64encode bs) ≡ some bs
unfolding b64encode decode next emit padded at_end classify
decode-b64encode [] h pads = refl
decode-b64encode (a ∷ []) h pads =
    decode-sextet q0 pads (a / 4) (String.◌∷◌ (sextet (a % 4 * 16)) "==") (omega arith)
    ∙ decode-sextet (q1 (a / 4)) 0 (a % 4 * 16) "==" (omega arith)
    ∙ ap (λ x. some (x ∷ [])) (byte_alone a)
decode-b64encode (a ∷ b ∷ []) h pads =
    let s3 = String.◌∷◌ (sextet (b % 16 * 4)) "=" in
    let s2 = String.◌∷◌ (sextet (a % 4 * 16 + b / 16)) s3 in
    decode-sextet q0 pads (a / 4) s2 (omega arith)
    ∙ decode-sextet (q1 (a / 4)) 0 (a % 4 * 16 + b / 16) s3 (omega arith)
    ∙ ap (emit (q1 (a / 4)) (a % 4 * 16 + b / 16))
        (decode-sextet (q2 ((a % 4 * 16 + b / 16) % 16)) 0 (b % 16 * 4) "=" (omega arith))
    ∙ ap₂ (λ x y. some (x ∷ y ∷ [])) (byte_at_1 a b h.1.0) (byte_last_2 a b h.1.0)
decode-b64encode (a ∷ b ∷ c ∷ rest) h pads =
    let s4 = String.◌∷◌ (sextet (c % 64)) (b64encode rest) in
    let s3 = String.◌∷◌ (sextet (b % 16 * 4 + c / 64)) s4 in
    let s2 = String.◌∷◌ (sextet (a % 4 * 16 + b / 16)) s3 in
    decode-sextet q0 pads (a / 4) s2 (omega arith)
    ∙ decode-sextet (q1 (a / 4)) 0 (a % 4 * 16 + b / 16) s3 (omega arith)
    ∙ ap (emit (q1 (a / 4)) (a % 4 * 16 + b / 16)) (
        decode-sextet (q2 ((a % 4 * 16 + b / 16) % 16)) 0 (b % 16 * 4 + c / 64) s4 (omega arith)
        ∙ ap (emit (q2 ((a % 4 * 16 + b / 16) % 16)) (b % 16 * 4 + c / 64)) (
            decode-sextet (q3 ((b % 16 * 4 + c / 64) % 4)) 0 (c % 64) (b64encode rest) (omega arith)
            ∙ ap (emit (q3 ((b % 16 * 4 + c / 64) % 4)) (c % 64))
                (decode-b64encode rest h.1.1.1 0)))
    ∙ ap₂ (λ x l. some (x ∷ l)) (byte_at_1 a b h.1.0)
        (ap₂ (λ y z. y ∷ z ∷ rest) (byte_at_2 a b c h.1.0 h.1.1.0) (byte_at_3 b c h.1.1.0))

-- Bytes survive the trip through Base64.
pub b64decode-b64encode : (bs : List ℕ) → All (λ b. b < 256) bs → b64decode (b64encode bs) ≡ some bs
unfolding b64decode
b64decode-b64encode bs h = rw (ascii-b64encode bs h) (decode-b64encode bs h 0)

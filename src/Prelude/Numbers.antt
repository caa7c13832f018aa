-- ===== src/Prelude/Numbers.antt =====
-- Integers, `int(s)` of a text, `s.strip()`, and hexadecimal. Digits are those of ASCII.
use Prim.Native.Nat.{ℕ, zero, suc, ◌+◌, ◌-◌, ◌*◌, ◌/◌, ◌%◌, ◌<◌}
use Prim.Native.Char.{Char, code}
use Prim.Native.String.{String}
use mathlib.Core.Path.{◌≡◌, refl, ap, subst}
use mathlib.Core.Logic.{◌≢◌}
use mathlib.Core.Bool.{Bool, true, false, ◌||◌, ◌&&◌}
use mathlib.Core.List.{List, [], ◌∷◌}
use mathlib.Core.Option.{Option, none, some}
use mathlib.Core.Option
use native.Mathlib.Decide.{ℕ_discrete}
use native.Mathlib.Omega.{arith}
use tiedie.Prelude.Tests.{if◌then◌else◌, ◌==ℕ◌, leb}
use tiedie.Prelude.Texts.{◌==◌}
use tiedie.Prelude.Lists.{All}
use tiedie.Prelude.Dicts.{Eq}

-- `negsuc n` is -(n + 1).
pub data ℤ : Type 0 where
  pos : ℕ → ℤ
  negsuc : ℕ → ℤ

abbrev pub int_beq : ℤ → ℤ → Bool
int_beq (pos a) (pos b) = a ==ℕ b
int_beq (negsuc a) (negsuc b) = a ==ℕ b
int_beq (pos a) (negsuc b) = false
int_beq (negsuc a) (pos b) = false

pub int_beq_sound : (a b : ℤ) → int_beq a b ≡ true → a ≡ b
int_beq_sound a b h = ground arith

pub int_beq_refl : (a b : ℤ) → a ≡ b → int_beq a b ≡ true
int_beq_refl a b h = ground arith

instance abbrev pub int_eq : Eq ℤ
int_eq = record { beq = int_beq; beq_iff = λ a b. (int_beq_sound a b, int_beq_refl a b) }

pub int_beq-ne : (a b : ℤ) → a ≢ b → int_beq a b ≡ false
int_beq-ne a b h = ground (arith, int_beq_sound a b)

pub int_beq_self : (a : ℤ) → int_beq a a ≡ true
int_beq_self a = int_beq_refl a a refl

is_digit : ℕ → Bool
is_digit c = leb b'0' c && leb c b'9'

-- The digits of a number; an underscore may stand between two of them.
digits : ℕ → Bool → String → Option ℕ
unfolding is_digit
digits n after_digit String.[] = if after_digit then some n else none
digits n after_digit (String.◌∷◌ ch s) =
    let c = code ch in
    let next = digits (n * 10 + (c - b'0')) true s in
    let skip = digits n false s in
    if is_digit c then next else if (c ==ℕ b'_') && after_digit then skip else none

abbrev negate : ℕ → ℤ
negate zero = pos 0
negate (suc n) = negsuc n

-- `int(s)`; `none` is a `ValueError`
unfoldable pub int_of_text : String → Option ℤ
unfolding digits
int_of_text String.[] = none
int_of_text (String.◌∷◌ ch s) =
    if code ch ==ℕ b'-'
    then Option.map negate (digits 0 false s)
    else if code ch ==ℕ b'+'
    then Option.map pos (digits 0 false s)
    else Option.map pos (digits 0 false (String.◌∷◌ ch s))

is_space : ℕ → Bool
is_space c = (leb 9 c && leb c 13) || (leb 28 c && leb c 32) || (c ==ℕ 133) || (c ==ℕ 160)

lstrip : String → String
lstrip String.[] = ""
lstrip (String.◌∷◌ ch s) =
    let rest = lstrip s in if is_space (code ch) then rest else String.◌∷◌ ch s

rstrip : String → String
rstrip String.[] = ""
rstrip (String.◌∷◌ ch s) =
    let rest = rstrip s in if (rest == "") && is_space (code ch) then "" else String.◌∷◌ ch rest

-- `s.strip()`
unfoldable pub strip : String → String
unfolding lstrip rstrip is_space
strip s = rstrip (lstrip s)

-- the character of a hexadecimal digit
digit_char : ℕ → Char
digit_char n =
    if n ==ℕ 0
    then "0"
    else if n ==ℕ 1
    then "1"
    else if n ==ℕ 2
    then "2"
    else if n ==ℕ 3
    then "3"
    else if n ==ℕ 4
    then "4"
    else if n ==ℕ 5
    then "5"
    else if n ==ℕ 6
    then "6"
    else if n ==ℕ 7
    then "7"
    else if n ==ℕ 8
    then "8"
    else if n ==ℕ 9
    then "9"
    else if n ==ℕ 10
    then "a"
    else if n ==ℕ 11
    then "b"
    else if n ==ℕ 12
    then "c"
    else if n ==ℕ 13
    then "d"
    else if n ==ℕ 14
    then "e"
    else "f"

-- `binascii.hexlify(value).decode("ascii")`, of bytes
unfoldable pub hexlify : List ℕ → String
unfolding digit_char
hexlify [] = ""
hexlify (b ∷ bs) = String.◌∷◌ (digit_char (b / 16)) (String.◌∷◌ (digit_char (b % 16)) (hexlify bs))

unfoldable pub hex_value : ℕ → Option ℕ
unfolding is_digit
hex_value c =
    if is_digit c
    then some (c - b'0')
    else if leb b'a' c && leb c b'f'
    then some (c - b'a' + 10)
    else if leb b'A' c && leb c b'F'
    then some (c - b'A' + 10)
    else none

hex_byte : Option ℕ → Option ℕ → Option (List ℕ) → Option (List ℕ)
hex_byte (some h) (some l) (some bs) = some ((h * 16 + l) ∷ bs)
hex_byte _ _ _ = none

-- `binascii.unhexlify(s)`; `none` is an error: an odd length, or a character that is no digit
unfoldable pub unhexlify : String → Option (List ℕ)
unfolding hex_value hex_byte
unhexlify String.[] = some []
unhexlify (String.◌∷◌ a String.[]) = none
unhexlify (String.◌∷◌ a (String.◌∷◌ b s)) =
    hex_byte (hex_value (code a)) (hex_value (code b)) (unhexlify s)

-- `P` at every number below the first argument.
abbrev Below : ℕ → (ℕ → Type 0) → Type 0
Below zero P = Unit
Below (suc k) P = P k × Below k P

Below-at : (k : ℕ) (P : ℕ → Type 0) (n : ℕ) → Below k P → n < k → P n
Below-at zero P n table h = elim h [ ]
Below-at (suc k) P n table h = elim (ℕ_discrete k n) [
  | yes e ↦ subst P e table.0
  | no ne ↦ Below-at k P n table.1 (omega arith)
]

hex_digits : Below 16 (λ n. hex_value (code (digit_char n)) ≡ some n)
unfolding hex_value digit_char
hex_digits = (
  refl,
  (
    refl,
    (
      refl,
      (
        refl,
        (
          refl,
          (
            refl,
            (refl, (refl, (refl, (refl, (refl, (refl, (refl, (refl, (refl, (refl, tt)))))))))),
          ),
        ),
      ),
    ),
  ),
)

hex_digit : (n : ℕ) → n < 16 → hex_value (code (digit_char n)) ≡ some n
hex_digit n h = Below-at 16 (λ k. hex_value (code (digit_char k)) ≡ some k) n hex_digits h

-- Bytes survive the trip through hexadecimal.
pub unhexlify-hexlify : (bs : List ℕ) → All (λ b. b < 256) bs → unhexlify (hexlify bs) ≡ some bs
unfolding hexlify unhexlify
unhexlify-hexlify [] h = refl
unhexlify-hexlify (b ∷ bs) h =
    byte_back (hex_digit (b / 16) (omega arith)) (hex_digit (b % 16) (omega arith))
      (unhexlify-hexlify bs h.1)
  where
    byte_back :
        {x y : Option ℕ} {z : Option (List ℕ)}
        → x ≡ some (b / 16)
        → y ≡ some (b % 16)
        → z ≡ some bs
        → hex_byte x y z ≡ some (b ∷ bs)
    byte_back p q r = rw p (rw q (rw r (ap (λ n. some (n ∷ bs)) (omega arith))))

-- the last `fuel` digits of `n`, before `s`
decimal_digits : ℕ → ℕ → String → String
unfolding digit_char
decimal_digits zero n s = s
decimal_digits (suc fuel) n s =
    let more = decimal_digits fuel (n / 10) (String.◌∷◌ (digit_char (n % 10)) s) in
    if n / 10 ==ℕ 0 then String.◌∷◌ (digit_char (n % 10)) s else more

-- `str(n)`: `n` has at most `n + 1` digits
unfoldable pub decimal : ℕ → String
unfolding decimal_digits
decimal n = decimal_digits (n + 1) n ""

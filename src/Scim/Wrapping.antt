-- ===== src/Scim/Wrapping.antt =====
-- A voucher in lines is the voucher.
use tiedie.Prelude.{
  ◌≡◌, refl, ap, sym, ◌∙◌, ℕ, zero, suc, ◌-◌, ◌<◌, ◌≤◌, Option, some, List, [], ◌∷◌, String, ◌+++◌,
  ltb, All, arith, Bool-cases, inl, inr,
}
use text.Mathlib.TextLemmas.{append_assoc, nil-append, cons-append}
use tiedie.Scim.Vouchers.{len, prefix, suffix, begin_line, end_line, wrap, to_pem}

-- lines, each after a newline, and the text that they make up
unfoldable pub in_lines : List String → String → String
in_lines [] last = "\n" +++ last
in_lines (l ∷ ls) last = "\n" +++ l +++ in_lines ls last

unfoldable pub together : List String → String → String
together [] last = last
together (l ∷ ls) last = l +++ together ls last

prefix-suffix : (n : ℕ) (s : String) → prefix n s +++ suffix n s ≡ s
unfolding prefix suffix
prefix-suffix zero s = nil-append s
prefix-suffix (suc n) String.[] = nil-append ""
prefix-suffix (suc n) (String.◌∷◌ c s) =
    cons-append c (prefix n s) (suffix n s) ∙ ap (λ t. String.◌∷◌ c t) (prefix-suffix n s)

len-prefix : (n : ℕ) (s : String) → n ≤ len s → len (prefix n s) ≡ n
unfolding prefix len
len-prefix zero s h = refl
len-prefix (suc n) String.[] h = omega arith
len-prefix (suc n) (String.◌∷◌ c s) h = omega (arith, len-prefix n s (omega arith))

len-suffix : (n : ℕ) (s : String) → len (suffix n s) ≡ len s - n
unfolding suffix len
len-suffix zero s = omega arith
len-suffix (suc n) String.[] = omega arith
len-suffix (suc n) (String.◌∷◌ c s) = omega (arith, len-suffix n s)

abbrev Wrapped : Option String → String → String → Type 0
Wrapped r pem vraw =
    (ls : List String) × (last : String) × (r ≡ some (pem +++ in_lines ls last +++ end_line))
    × (together ls last ≡ vraw)
    × All (λ l. len l ≡ 64) ls
    × (len last ≤ 65)

next_line :
    (r : Option String) (pem vraw : String)
    → 65 < len vraw
    → Wrapped r (pem +++ "\n" +++ prefix 64 vraw) (suffix 64 vraw)
    → Wrapped r pem vraw
unfolding in_lines together
next_line r pem vraw long (ls, last, same, whole, full, short) = (
  prefix 64 vraw ∷ ls,
  last,
  same
      ∙ ap some (
          append_assoc pem ("\n" +++ prefix 64 vraw) (in_lines ls last +++ end_line)
          ∙ ap (λ t. pem +++ t)
              (sym (append_assoc ("\n" +++ prefix 64 vraw) (in_lines ls last) end_line)
                ∙ ap (λ u. u +++ end_line)
                    (append_assoc "\n" (prefix 64 vraw) (in_lines ls last)))),
  ap (λ t. prefix 64 vraw +++ t) whole ∙ prefix-suffix 64 vraw,
  (len-prefix 64 vraw (omega arith), full),
  short,
)

wrap-Wrapped :
    (fuel : ℕ) (pem vraw : String) → len vraw < fuel → Wrapped (wrap fuel pem vraw) pem vraw
unfolding wrap in_lines together
wrap-Wrapped zero pem vraw h = elim h [ ]
wrap-Wrapped (suc fuel) pem vraw h = elim (Bool-cases (ltb 65 (len vraw))) [
  | inl long ↦ rw long (
      next_line _ pem vraw (ground arith) (
        wrap-Wrapped fuel (pem +++ "\n" +++ prefix 64 vraw) (suffix 64 vraw)
          (ground (arith, len-suffix 64 vraw))))
  | inr short ↦ rw short (
    [],
    vraw,
    ap (λ t. some (pem +++ t)) (sym (append_assoc "\n" vraw end_line)),
    refl,
    tt,
    ground arith,
  )
]

-- The text of any voucher is made: it is lines of 64 characters and a last one of at most 65
-- between the line that begins and the line that ends a voucher. The lines together are the
-- voucher.
pub to_pem_lines :
    (vraw : String)
    → (ls : List String) × (last : String) × (to_pem vraw
        ≡ some (begin_line +++ in_lines ls last +++ end_line))
      × (together ls last ≡ vraw)
      × All (λ l. len l ≡ 64) ls
      × (len last ≤ 65)
unfolding to_pem
to_pem_lines vraw = wrap-Wrapped (suc (len vraw)) begin_line vraw (omega arith)

-- ===== src/Sdf/References.antt =====
-- Printing and parsing of SDF references.
use text.Mathlib.TextLemmas.{cons-append}
use tiedie.Prelude.{
  ◌≡◌, refl, ◌≢◌, ap, false, List, [], ◌∷◌, String, ◌==◌, ◌+++◌, All, has_char, join,
  split_once-append, has_char-append, split-join, cons-ne_nil,
}
use tiedie.Python.{ok, ◌>>=◌}
use tiedie.Json.{str}
use tiedie.Sdf.{parse_pointer, parse_sdf_reference}

-- "namespace#/a/b"
abbrev pub print_reference : String → String → List String → String
print_reference namespace w ws = namespace +++ String.◌∷◌ "#" (String.◌∷◌ "/" (join "/" (w ∷ ws)))

join-ne_nil : (w : String) (ws : List String) → w ≢ "" → (join "/" (w ∷ ws) == "") ≡ false
unfolding join
join-ne_nil String.[] ws h = absurd (h refl)
join-ne_nil (String.◌∷◌ c w) [] h = cons-ne_nil c w
join-ne_nil (String.◌∷◌ c w) (v ∷ ws) h = rw cons-append (cons-ne_nil c _)

pointer-join :
    (w : String) (ws : List String)
    → w ≢ ""
    → All (λ v. has_char b'/' v ≡ false) (w ∷ ws)
    → parse_pointer (String.◌∷◌ "/" (join "/" (w ∷ ws))) ≡ ok (w ∷ ws)
unfolding parse_pointer
pointer-join w ws h slashless = rw (join-ne_nil w ws h) (ap ok (split-join "/" w ws slashless))

-- A reference that is printed from a namespace without '#' and from components without '/', the
-- first of them not empty, parses back to these.
pub parse-print_reference :
    (namespace w : String) (ws : List String)
    → has_char b'#' namespace ≡ false
    → w ≢ ""
    → All (λ v. has_char b'/' v ≡ false) (w ∷ ws)
    → parse_sdf_reference (str (print_reference namespace w ws)) ≡ ok (namespace, w ∷ ws)
unfolding parse_sdf_reference
parse-print_reference namespace w ws hashless h slashless =
    rw (has_char-append "#" namespace (String.◌∷◌ "/" (join "/" (w ∷ ws)))) (
      rw (split_once-append "#" namespace (String.◌∷◌ "/" (join "/" (w ∷ ws))) hashless)
        (ap (λ m. m >>= λ path. ok (namespace, path)) (pointer-join w ws h slashless)))

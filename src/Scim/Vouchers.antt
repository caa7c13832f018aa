-- ===== src/Scim/Vouchers.antt =====
-- `to_pem` of gateway/scim_fdo.py: the text of a voucher in lines.
use tiedie.Prelude.{ℕ, zero, suc, Option, none, some, String, ◌+++◌, if◌then◌else◌, ltb}

-- `len(s)`, `s[:n]` and `s[n:]`
unfoldable pub len : String → ℕ
len String.[] = 0
len (String.◌∷◌ c s) = suc (len s)

unfoldable pub prefix : ℕ → String → String
prefix zero s = ""
prefix (suc n) String.[] = ""
prefix (suc n) (String.◌∷◌ c s) = String.◌∷◌ c (prefix n s)

unfoldable pub suffix : ℕ → String → String
suffix zero s = s
suffix (suc n) String.[] = ""
suffix (suc n) (String.◌∷◌ c s) = suffix n s

abbrev pub begin_line : String
begin_line = "-----BEGIN OWNERSHIP VOUCHER-----"

abbrev pub end_line : String
end_line = "\n-----END OWNERSHIP VOUCHER-----\n"

-- `while len(vraw) > 65`, with the lines so far; `none` means that the fuel ran out
unfoldable pub wrap : ℕ → String → String → Option String
unfolding len prefix suffix
wrap zero pem vraw = none
wrap (suc fuel) pem vraw =
    let rest = wrap fuel (pem +++ "\n" +++ prefix 64 vraw) (suffix 64 vraw) in
    if ltb 65 (len vraw) then rest else some (pem +++ "\n" +++ vraw +++ end_line)

-- A round passes 64 characters, so the length of the voucher is fuel enough.
unfoldable pub to_pem : String → Option String
unfolding wrap
to_pem vraw = wrap (suc (len vraw)) begin_line vraw

-- ===== src/Auth/Security.antt =====
-- backend/app/services/security.py. The texts of the native library are lists of characters.
pub mod Codes
use Prim.Native.String.{String, [], ◌∷◌, ◌++◌}
use Prim.Native.Char.{Char, code}
use meals.Prelude.{
  ℕ, zero, suc, ◌+◌, ◌*◌, ◌≡◌, refl, ◌∙◌, ap, sym, Bool, true, false, Option, none, some, arith,
  nat_beq, if◌then◌else◌, concat,
}

-- What the program takes from bcrypt, hashlib and secrets, and from the tables of Unicode. A draw
-- of a random value is numbered.
pub record Secrets : Type 0 where
  pub hashpw : ℕ → String → String
  -- `none` is a `ValueError`
  pub checkpw : String → String → Option Bool
  pub sha256 : String → String
  pub token_urlsafe : ℕ → String
  pub choice : ℕ → String → Char
  pub upper : String → String
  pub isalnum : Char → Bool

unfoldable pub hash_password : Secrets → ℕ → String → String
hash_password s draw password = s.hashpw draw password

unfoldable pub verify_password : Secrets → String → String → Bool
verify_password s password password_hash = elim (s.checkpw password password_hash) [
  | none ↦ false
  | some right ↦ right
]

unfoldable pub hash_token : Secrets → String → String
hash_token s token = s.sha256 token

-- The plaintext and its hash.
unfoldable pub generate_token : Secrets → ℕ → String × String
unfolding hash_token
generate_token s draw =
    let plain = concat "meals_" (s.token_urlsafe draw) in (plain, hash_token s plain)

abbrev pub short_code_alphabet : String
short_code_alphabet = "0123456789ABCDEFGHJKMNPQRSTVWXYZ"

-- `SHORT_CODE_LOOKALIKES`
unfoldable pub lookalike : Char → Char
lookalike c =
    if nat_beq (code c) 73
    then "1"
    else if nat_beq (code c) 76
    then "1"
    else if nat_beq (code c) 79
    then "0"
    else if nat_beq (code c) 85
    then "V"
    else c

-- `"".join(ch for ch in text if ch.isalnum())`
unfoldable pub strip_separators : (Char → Bool) → String → String
strip_separators isalnum [] = []
strip_separators isalnum (c ∷ cs) =
    let rest = strip_separators isalnum cs in if isalnum c then c ∷ rest else rest

unfoldable pub translate : String → String
unfolding lookalike
translate [] = []
translate (c ∷ cs) = lookalike c ∷ translate cs

unfoldable pub normalise_short_code : Secrets → String → String
unfolding strip_separators translate
normalise_short_code s typed = translate (strip_separators s.isalnum (s.upper typed))

unfoldable pub hash_short_code : Secrets → String → String
unfolding normalise_short_code
hash_short_code s typed = s.sha256 (normalise_short_code s typed)

-- `n` characters of the alphabet
unfoldable pub draw_characters : Secrets → ℕ → ℕ → String
draw_characters s draw zero = []
draw_characters s draw (suc n) = s.choice (draw + n) short_code_alphabet ∷ draw_characters s draw n

-- `"-".join(raw[i : i + 4] for i in range(0, 12, 4))`: a hyphen before every fifth character.
unfoldable pub grouped : String → String
grouped (a ∷ b ∷ c ∷ d ∷ e ∷ rest) = a ∷ b ∷ c ∷ d ∷ concat "-" (grouped (e ∷ rest))
grouped raw = raw

-- The code as it is shown, and the hash that is stored.
unfoldable pub generate_short_code : Secrets → ℕ → String × String
unfolding draw_characters grouped hash_short_code
generate_short_code s draw =
    let raw = draw_characters s (12 * draw) 12 in (grouped raw, hash_short_code s raw)

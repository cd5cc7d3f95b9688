-- ===== src/Auth/Security/Codes.antt =====
-- The short codes of backend/app/services/security.py, as they are shown and typed.
use Prim.Native.String.{String, [], ◌∷◌, ◌++◌}
use Prim.Native.Char.{Char}
use text.Mathlib.TextLemmas.{nil-append, cons-append}
use meals.Prelude.{ℕ, ◌*◌, ◌≡◌, refl, ◌∙◌, ap, sym, Bool, false, arith, concat}
use meals.Auth.Security.{
  Secrets, strip_separators, translate, normalise_short_code, hash_short_code, draw_characters,
  grouped, generate_short_code,
}

strip-append :
    (isalnum : Char → Bool) (a b : String)
    → strip_separators isalnum (a ++ b) ≡ strip_separators isalnum a ++ strip_separators isalnum b
unfolding strip_separators
strip-append isalnum [] b = ground (arith, nil-append b, nil-append (strip_separators isalnum b))
strip-append isalnum (c ∷ cs) b = ground (
  arith,
  cons-append c cs b,
  strip-append isalnum cs b,
  cons-append c (strip_separators isalnum cs) (strip_separators isalnum b),
)

four-append : (a b c d : Char) (t : String) → (a ∷ b ∷ c ∷ d ∷ []) ++ t ≡ a ∷ b ∷ c ∷ d ∷ t
four-append a b c d t =
    cons-append a (b ∷ c ∷ d ∷ []) t
    ∙ ap (λ x. a ∷ x)
        (cons-append b (c ∷ d ∷ []) t
          ∙ ap (λ x. b ∷ x)
              (cons-append c (d ∷ []) t
                ∙ ap (λ x. c ∷ x) (cons-append d [] t ∙ ap (λ x. d ∷ x) (nil-append t))))

module _ (s : Secrets) (upper-append : (a b : String) → s.upper (a ++ b) ≡ s.upper a ++ s.upper b)
    (upper-hyphen : s.upper "-" ≡ "-") (separator : s.isalnum "-" ≡ false) where
  folded : String → String
  folded t = strip_separators s.isalnum (s.upper t)

  folded-append : (a b : String) → folded (a ++ b) ≡ folded a ++ folded b
  unfolding folded
  folded-append a b =
      ap (strip_separators s.isalnum) (upper-append a b)
      ∙ strip-append s.isalnum (s.upper a) (s.upper b)

  folded-hyphen : (t : String) → folded (concat "-" t) ≡ folded t
  unfolding folded strip_separators
  folded-hyphen t =
      let gone : strip_separators s.isalnum "-" ≡ [] = ground (arith, separator) in
      folded-append "-" t
      ∙ ap (λ x. strip_separators s.isalnum x ++ folded t) upper-hyphen
      ∙ ap (λ x. x ++ folded t) gone
      ∙ nil-append (folded t)

  folded-four :
      (a b c d : Char) (t : String)
      → folded (a ∷ b ∷ c ∷ d ∷ t) ≡ folded (a ∷ b ∷ c ∷ d ∷ []) ++ folded t
  folded-four a b c d t =
      ap folded (sym (four-append a b c d t)) ∙ folded-append (a ∷ b ∷ c ∷ d ∷ []) t

  folded-grouped : (raw : String) → folded (grouped raw) ≡ folded raw
  unfolding grouped
  folded-grouped [] = refl
  folded-grouped (a ∷ []) = refl
  folded-grouped (a ∷ b ∷ []) = refl
  folded-grouped (a ∷ b ∷ c ∷ []) = refl
  folded-grouped (a ∷ b ∷ c ∷ d ∷ []) = refl
  folded-grouped (a ∷ b ∷ c ∷ d ∷ e ∷ rest) =
      folded-four a b c d (concat "-" (grouped (e ∷ rest)))
      ∙ ap (λ x. folded (a ∷ b ∷ c ∷ d ∷ []) ++ x)
          (folded-hyphen (grouped (e ∷ rest)) ∙ folded-grouped (e ∷ rest))
      ∙ sym (folded-four a b c d (e ∷ rest))

  -- When upper-casing works character by character and keeps the hyphen, which is no letter or
  -- digit, a short code that is typed as it is shown, in any case, has the hash that is stored.
  pub hash_short_code-generate_short_code :
      (draw : ℕ) (typed : String)
      → s.upper typed ≡ s.upper (generate_short_code s draw).0
      → hash_short_code s typed ≡ (generate_short_code s draw).1
  unfolding generate_short_code hash_short_code normalise_short_code folded
  hash_short_code-generate_short_code draw typed same =
      ap (λ x. s.sha256 (translate (strip_separators s.isalnum x))) same
      ∙ ap (λ x. s.sha256 (translate x)) (folded-grouped (draw_characters s (12 * draw) 12))

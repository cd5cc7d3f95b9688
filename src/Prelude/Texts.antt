-- ===== src/Prelude/Texts.antt =====
-- Python's text operations that the program uses, on the native texts.
use Prim.Native.String.{String, [], ◌∷◌, ◌++◌}
use Prim.Native.Char.{Char, code}
use mathlib.Core.Bool.{Bool, true, false, ◌&&◌}
use mathlib.Core.List.{List, [] as no_texts, ◌∷◌ as ◌:>◌}
use meals.Prelude.Tests.{if◌then◌else◌, nat_beq, ltb}

-- `f"{a}{b}"`
abbrev pub concat : String → String → String
concat a b = a ++ b

abbrev pub same_char : Char → Char → Bool
same_char a b = nat_beq (code a) (code b)

-- `text.isascii()`
unfoldable pub is_ascii : String → Bool
is_ascii [] = true
is_ascii (c ∷ cs) = ltb (code c) 128 && is_ascii cs

-- `sep in text`
unfoldable pub has_char : Char → String → Bool
has_char sep [] = false
has_char sep (c ∷ cs) = let rest = has_char sep cs in if same_char c sep then true else rest

-- `text.partition(sep)`, without the separator.
unfoldable pub partition : Char → String → String × String
partition sep [] = ([], [])
partition sep (c ∷ cs) =
    let (before, after) = partition sep cs in
    if same_char c sep then ([], cs) else (c ∷ before, after)

-- A character in front of the first of some parts.
abbrev pub onto_first : Char → List String → List String
onto_first c no_texts = (c ∷ []) :> no_texts
onto_first c (part :> parts) = (c ∷ part) :> parts

-- `text.split(sep)`
unfoldable pub split : Char → String → List String
split sep [] = [] :> no_texts
split sep (c ∷ cs) =
    let rest = split sep cs in if same_char c sep then [] :> rest else onto_first c rest

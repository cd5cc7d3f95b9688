-- ===== src/Billing/Payload.antt =====
-- backend/app/services/billing.py, "parsing": the values of a processor's payload.
pub mod Parse
use meals.Prelude.{
  ℕ, ◌+◌, ◌*◌, String, Bool, true, false, ◌&&◌, ◌||◌, not, ltb, leb, ℤ, pos, negsuc, ltb_ℤ, Option,
  none, some, List, [], ◌∷◌, ◌++◌, map, ◌==◌, nat_eq, string_eq, if◌then◌else◌, Result, ok, err,
  ◌>>=◌, ◌>>◌, raise_if,
}

-- A value of Python's json: an integer is an `int`, any other number a `float`.
mutual
  pub data Json : Type 0 where
    null : Json
    boolean : Bool → Json
    integer : ℤ → Json
    float : String → Json
    text : String → Json
    array : Items → Json
    dict : Members → Json

  pub data Items : Type 0 where
    no_items : Items
    item : Json → Items → Items

  pub data Members : Type 0 where
    no_members : Members
    member : String → Json → Members → Members

-- `unreadable` is the outcome of a `BillingError`; `python_error` is an exception that the code does
-- not catch, of a value that is not of the shape it is taken for or a date that is out of range.
pub data ParseError : Type 0 where
  unreadable python_error : ParseError

-- What the program takes from Python: `str`, `int`, `uuid.UUID`, `datetime.fromisoformat` behind the
-- replacement of `Z`, `datetime.fromtimestamp`, and operations on texts. `none` is an exception.
pub record Python : Type 0 where
  pub str : Json → String
  pub int : String → Option ℤ
  pub uuid : String → Option ℕ
  pub fromisoformat : String → Option ℕ
  pub fromtimestamp : ℤ → Option ℕ
  pub sha256 : String → String
  pub upper : String → String
  pub strip : String → String
  pub len : String → ℕ
  pub first_255 : String → String

-- `bool(value)`
unfoldable pub is_true : Json → Bool
is_true null = false
is_true (boolean b) = b
is_true (integer (pos n)) = not (n == 0)
is_true (integer (negsuc _)) = true
is_true (float digits) = not (digits == "0.0" || digits == "-0.0")
is_true (text s) = not (s == "")
is_true (array no_items) = false
is_true (array (item _ _)) = true
is_true (dict no_members) = false
is_true (dict (member _ _ _)) = true

-- `a or b`
abbrev pub or_json : Json → Json → Json
or_json a b = if is_true a then a else b

abbrev pub empty : Json
empty = dict no_members

unfoldable pub is_dict : Json → Bool
is_dict (dict _) = true
is_dict _ = false

-- The last member with the name, as `json.loads` keeps it.
unfoldable pub lookup : String → Members → Option Json
lookup key no_members = none
lookup key (member name value rest) =
    let later = lookup key rest in
    elim later [ some found ↦ some found | none ↦ if name == key then some value else none ]

abbrev pub or_default : Option Json → Json → Json
or_default none default = default
or_default (some value) _ = value

-- `value.get(key, default)`
unfoldable pub get : String → Json → Json → Result ParseError Json
unfolding lookup
get key default (dict members) = ok (or_default (lookup key members) default)
get key default _ = err python_error

-- `value.get(key) or {}`
unfoldable pub get_dict : String → Json → Result ParseError Json
unfolding get is_true
get_dict key value = do found ← get key null value; ok (or_json found empty)

-- `value[0]` of a list; of a text it is a text.
unfoldable pub first_of : Json → Result ParseError Json
first_of (array (item first _)) = ok first
first_of _ = err python_error

-- `str(value or "")`
unfoldable pub text_of : Python → Json → String
unfolding is_true
text_of py value = if is_true value then py.str value else ""

-- `_household_id`
unfoldable pub household_id_of : Python → Json → Option ℕ
unfolding lookup
household_id_of py (dict members) =
    py.uuid (py.str (or_default (lookup "household_id" members) null))
household_id_of py _ = none

-- `_timestamp`
unfoldable pub timestamp_of : Python → Json → Option ℕ
timestamp_of py (text s) = if s == "" then none else py.fromisoformat s
timestamp_of py _ = none

-- `_identifier`
unfoldable pub identifier : Python → Json → Option String
identifier py null = none
identifier py (boolean _) = none
identifier py (array _) = none
identifier py (dict _) = none
identifier py value =
    let short = py.first_255 (py.strip (py.str value)) in if short == "" then none else some short

-- `code if code and len(code) == 3 else None`
unfoldable pub currency_code : Python → Json → Option String
unfolding is_true
currency_code py currency =
    if is_true currency
    then (let code = py.upper (py.str currency) in if py.len code == 3 then some code else none)
    else none

-- `_money`
unfoldable pub money : Python → Json → Json → Option ℕ × Option String
unfolding currency_code
money py amount currency = elim (py.int (py.str amount)) [
  | none ↦ (none, none)
  | some pence ↦ elim pence [
    | pos n ↦ if n == 0 then (none, none) else (some n, currency_code py currency)
    | negsuc _ ↦ (none, none)
  ]
]

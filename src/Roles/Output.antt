-- ===== src/Roles/Output.antt =====
-- The output of a worker as `json.loads` gives it, and Python's reading of its values:
-- ar724/role_loader.py. The entries of an array are counted only.
use ztrade_ares_7x.Base.{
  List, [], ◌∷◌, ltb, if◌then◌else◌, is_some, ℕ, zero, String, Bool, true, false, not, Option, none,
  some, str_eq,
}
use ztrade_ares_7x.Base.Int.{ℤ, pos}
use ztrade_ares_7x.Base.Floats.{one}
use ztrade_ares_7x.Base.Result.{◌>>=◌, Result, value_error, type_error, overflow_error, err, ok}

-- a float: none is an infinity or no number
abbrev pub Float : Type 0
Float = Option ℤ

-- Python's float() of a text, none for its ValueError, and of an int, none for its OverflowError;
-- and what sum() makes of floats, with the rounding of its version.
pub record Floats : Type 0 where
  pub parse : String → Option Float
  pub of_int : ℤ → Option ℤ
  pub sum : List Float → Float

mutual
  pub data Value : Type 0 where
    null : Value
    boolean : Bool → Value
    integer : ℤ → Value
    float : Float → Value
    text : String → Value
    array : (length : ℕ) → Value
    object : Members → Value

  pub data Members : Type 0 where
    end : Members
    member : String → Value → Members → Members

-- `output.get(key)`; a key stands once in a dict
abbrev pub get : Members → String → Option Value
get end key = none
get (member k v rest) key = let later = get rest key in if str_eq k key then some v else later

abbrev pub has : Members → String → Bool
has output key = is_some (get output key)

-- `bool(output.get(key))`
abbrev nonzero : ℤ → Bool
nonzero (pos zero) = false
nonzero _ = true

abbrev truthy : Value → Bool
truthy null = false
truthy (boolean b) = b
truthy (integer n) = nonzero n
truthy (float none) = true
truthy (float (some x)) = nonzero x
truthy (text s) = not (str_eq s "")
truthy (array n) = ltb 0 n
truthy (object end) = false
truthy (object (member k v rest)) = true

abbrev pub is_truthy : Option Value → Bool
is_truthy none = false
is_truthy (some v) = truthy v

-- `float(v)`
abbrev parsed : Option Float → Result Float
parsed none = err value_error
parsed (some x) = ok x

abbrev converted : Option ℤ → Result Float
converted none = err overflow_error
converted (some x) = ok (some x)

abbrev pub to_float : Floats → Value → Result Float
to_float fs null = err type_error
to_float fs (boolean b) = ok (some (if b then pos one else pos 0))
to_float fs (integer n) = converted (fs.of_int n)
to_float fs (float x) = ok x
to_float fs (text s) = parsed (fs.parse s)
to_float fs (array n) = err type_error
to_float fs (object ms) = err type_error

-- `float(v) for v in weights.values()`
unfoldable pub float_values : Floats → Members → Result (List Float)
float_values fs end = ok []
float_values fs (member k v rest) = do
  first ← to_float fs v
  later ← float_values fs rest
  ok (first ∷ later)

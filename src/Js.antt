-- ===== src/Js.antt =====
-- The values of JavaScript that the console handles, with the truth of a value, properties of
-- objects, and `parseInt`. Numbers are the integers and NaN.
mod Tests
use Prim.Native.Char.{code}
use Prim.Native.String
use chat_bot_hub.Prelude.{
  ℕ, zero, suc, ◌+◌, ◌-◌, ◌*◌, ◌≡◌, refl, String, str_eq, eq_iff, Bool, true, false, ◌&&◌, ◌||◌,
  not, Option, none, some, List, [], ◌∷◌, leb, ◌==◌, if◌then◌else◌, arith,
}
use chat_bot_hub.Prelude.Int.{ℤ, pos, negsuc}

pub data Num : Type 0 where
  int : ℤ → Num
  nan : Num

mutual
  -- An object's own properties, in the order in which they were first written.
  pub data Fields : Type 0 where
    field : String → Value → Fields → Fields
    end : Fields

  pub data Value : Type 0 where
    undefined null : Value
    num : Num → Value
    str : String → Value
    bool : Bool → Value
    obj : Fields → Value
    arr : Items → Value

  pub data Items : Type 0 where
    item : Value → Items → Items
    no_items : Items

abbrev pub is_zero : Num → Bool
is_zero (int (pos zero)) = true
is_zero _ = false

abbrev pub is_nan : Num → Bool
is_nan nan = true
is_nan (int _) = false

-- `!!v`.
unfoldable pub truthy : Value → Bool
truthy undefined = false
truthy null = false
truthy (bool b) = b
truthy (num n) = not (is_zero n || is_nan n)
truthy (str s) = not (str_eq s "")
truthy (arr xs) = true
truthy (obj fs) = true

unfoldable pub get_field : Fields → String → Value
get_field end name = undefined
get_field (field key v fs) name = if str_eq key name then v else get_field fs name

unfoldable pub set_field : Fields → String → Value → Fields
set_field end name v = field name v end
set_field (field key w fs) name v =
    if str_eq key name then field key v fs else field key w (set_field fs name v)

pub get-set_field :
    (fs : Fields) (name key : String) (v : Value)
    → get_field (set_field fs name v) key ≡ (if str_eq name key then v else get_field fs key)
unfolding get_field set_field
get-set_field end name key v = refl
get-set_field (field k w fs) name key v =
    ground (arith, get-set_field fs name key v, eq_iff k name, eq_iff name key, eq_iff k key)

-- `v.name`, of what is no null value; only objects have properties of their own here.
unfoldable pub prop : Value → String → Value
prop (obj fs) name = get_field fs name
prop _ name = undefined

-- `v.name = w`.
unfoldable pub set_prop : Value → String → Value → Value
set_prop (obj fs) name w = obj (set_field fs name w)
set_prop v name w = v

-- The code points of a text.
abbrev pub codes : String → List ℕ
codes (String.◌∷◌ first rest) = code first ∷ codes rest
codes String.[] = []

abbrev pub is_digit : ℕ → Bool
is_digit c = leb b'0' c && leb c b'9'

abbrev is_space : ℕ → Bool
is_space c = c == 32 || (leb 9 c && leb c 13) || c == 160

skip_space : List ℕ → List ℕ
skip_space [] = []
skip_space (c ∷ cs) = if is_space c then skip_space cs else c ∷ cs

-- The digits at the front, read in base ten; `none` if there is none.
digits : Option ℕ → List ℕ → Option ℕ
digits acc [] = acc
digits acc (c ∷ cs) =
    let more : Option ℕ = digits (some (elim acc [ none ↦ 0 | some n ↦ n ] * 10 + (c - b'0'))) cs in
    if is_digit c then more else acc

negate : ℕ → ℤ
negate zero = pos 0
negate (suc n) = negsuc n

unsigned : List ℕ → Num
unsigned cs = elim (digits none cs) [ none ↦ nan | some n ↦ int (pos n) ]

signed : List ℕ → Num
signed [] = nan
signed (c ∷ cs) =
    if c == b'-'
    then (elim (digits none cs) [ none ↦ nan | some n ↦ int (negate n) ])
    else if c == b'+'
    then unsigned cs
    else unsigned (c ∷ cs)

-- `parseInt(s, 10)`.
unfoldable pub parse_int : String → Num
unfolding skip_space digits negate unsigned signed
parse_int s = signed (skip_space (codes s))

-- `parseInt(v, 10)` of a text or a number; of any other value it is taken as NaN.
unfoldable pub int_of : Value → Num
int_of (num n) = n
int_of (str s) = parse_int s
int_of _ = nan

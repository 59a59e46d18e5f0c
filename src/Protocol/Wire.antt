-- ===== src/Protocol/Wire.antt =====
-- What `json.loads` makes of a line, and the operations of Python and numpy on it that the decoders
-- use. The keys of an object are distinct.
use flexiv_control.Common.{
  ℕ, String, Bool, true, false, not, ◌||◌, Option, none, some, List, [], ◌∷◌, str_eq, ◌==◌,
  if◌then◌else◌,
}
use flexiv_control.Common.Result.{
  Result, ok, err, value_error, key_error, type_error, attribute_error, ◌>>=◌,
}
use flexiv_control.Number.{Number, zero_num, one_num}

mutual
  pub data Json (F : Type 0) : Type 0 where
    null : Json F
    boolean : Bool → Json F
    number : F → Json F
    integer : ℕ → Json F
    text : String → Json F
    array : Items F → Json F
    object : Members F → Json F

  pub data Items (F : Type 0) : Type 0 where
    nil : Items F
    item : Json F → Items F → Items F

  pub data Members (F : Type 0) : Type 0 where
    empty : Members F
    member : String → Json F → Members F → Members F

module _ {F : Type 0} where
  -- { key: value, ... }
  unfoldable pub members : List (String × Json F) → Members F
  members [] = empty
  members ((k, v) ∷ rest) = member k v (members rest)

  abbrev pub dict : List (String × Json F) → Json F
  dict kvs = object (members kvs)

  unfoldable pub find : String → Members F → Option (Json F)
  find k empty = none
  find k (member j v rest) = if str_eq j k then some v else find k rest

  abbrev or_missing : Option (Json F) → Result (Json F)
  or_missing none = err key_error
  or_missing (some v) = ok v

  -- d[k]
  unfoldable pub get_item : String → Json F → Result (Json F)
  get_item k (object m) = or_missing (find k m)
  get_item k _ = err type_error

  abbrev or_default : Json F → Option (Json F) → Json F
  or_default d none = d
  or_default d (some v) = v

  -- d.get(k, default), where `d.get(k)` has the default `None`
  unfoldable pub get : String → Json F → Json F → Result (Json F)
  get k default (object m) = ok (or_default default (find k m))
  get k default _ = err attribute_error

  unfoldable pub items : List (Json F) → Items F
  items [] = nil
  items (x ∷ xs) = item x (items xs)

  unfoldable pub elements : Items F → List (Json F)
  elements nil = []
  elements (item x xs) = x ∷ elements xs

  -- for w in d
  unfoldable pub each : Json F → Result (List (Json F))
  each (array xs) = ok (elements xs)
  each _ = err type_error

  -- A text: `Enum(value)` refuses any other value. A name that is no text is an error here, where the
  -- code passes it on.
  unfoldable pub as_text : Json F → Result String
  as_text (text t) = ok t
  as_text _ = err value_error

  -- An optional count. The code passes on what it gets; what is no count is an error here.
  unfoldable pub as_count : Json F → Result (Option ℕ)
  as_count null = ok none
  as_count (integer k) = ok (some k)
  as_count _ = err type_error

  unfoldable pub count : Option ℕ → Json F
  count none = null
  count (some k) = integer k

-- [decode(x) for x in xs]
unfoldable pub decode_all : {A C : Type 0} → (A → Result C) → List A → Result (List C)
decode_all decode [] = ok []
decode_all decode (x ∷ xs) = do y ← decode x; ys ← decode_all decode xs; ok (y ∷ ys)

-- Python's `float` of a text, and its `int` of a text and of a float.
pub record Builtins (F : Type 0) : Type 0 where
  pub float_of_text : String → Result F
  pub int_of_text : String → Result ℕ
  pub int_of_float : F → Result ℕ

module _ {F : Type 0} ⦃n : Number F⦄ (py : Builtins F) where
  -- float(x)
  unfoldable pub as_float : Json F → Result F
  as_float (number x) = ok x
  as_float (integer k) = ok (n.of_nat k)
  as_float (boolean b) = ok (if b then one_num else zero_num)
  as_float (text t) = py.float_of_text t
  as_float _ = err type_error

  -- int(x)
  unfoldable pub as_int : Json F → Result ℕ
  as_int (integer k) = ok k
  as_int (number x) = py.int_of_float x
  as_int (boolean b) = ok (if b then 1 else 0)
  as_int (text t) = py.int_of_text t
  as_int _ = err type_error

  -- np.asarray(x, float)
  unfoldable pub as_floats : Json F → Result (List F)
  as_floats x = each x >>= λ xs. decode_all as_float xs

  -- An optional number, which the code takes as it is.
  unfoldable pub as_optional : Json F → Result (Option F)
  as_optional null = ok none
  as_optional x = as_float x >>= λ v. ok (some v)

module _ {F : Type 0} ⦃n : Number F⦄ where
  -- bool(x)
  unfoldable pub as_bool : Json F → Bool
  as_bool null = false
  as_bool (boolean b) = b
  as_bool (number x) = n.lt x zero_num || n.lt zero_num x
  as_bool (integer k) = not (k == 0)
  as_bool (text t) = not (str_eq t "")
  as_bool (array nil) = false
  as_bool (array (item x xs)) = true
  as_bool (object empty) = false
  as_bool (object (member k v rest)) = true

-- ===== src/Json.antt =====
-- The parse tree that the classifier reads: a JSON value, and the accessors of it that
-- crates/ownpg-core/src/classify.rs uses, each with its documented meaning.
-- An object's entries stand in the order in which the source iterates over them. A number is an
-- `i64` or a number that is none, kept as its literal.
use ownpg.Base.{
  ℕ, String, Bool, true, false, Option, none, some, List, [], ◌∷◌, ◌==◌, if◌then◌else◌,
}

-- `negsuc n` is -(n + 1).
pub data ℤ : Type 0 where
  pos : ℕ → ℤ
  negsuc : ℕ → ℤ

mutual
  pub data Value : Type 0 where
    null : Value
    bool : Bool → Value
    int : ℤ → Value
    real : String → Value
    text : String → Value
    arr : Items → Value
    obj : Fields → Value

  pub data Fields : Type 0 where
    end : Fields
    field : (key : String) (child : Value) → Fields → Fields

  pub data Items : Type 0 where
    cons : (item : Value) → Items → Items
    nil : Items

abbrev pub items : Items → List Value
items nil = []
items (cons v vs) = v ∷ items vs

unfoldable pub get_field : String → Fields → Option Value
get_field k end = none
get_field k (field j v fs) = if j == k then some v else get_field k fs

-- `value.get(key)`
unfoldable pub get : String → Value → Option Value
unfolding get_field
get k (obj fs) = get_field k fs
get k _ = none

-- One token of a pointer. The only array index that the source writes is 0.
abbrev pub step : String → Value → Option Value
step k (obj fs) = get_field k fs
step k (arr nil) = none
step k (arr (cons v vs)) = if k == "0" then some v else none
step k _ = none

-- `value.pointer("/a/b")`, with the tokens as a list
unfoldable pub pointer : List String → Value → Option Value
unfolding get_field
pointer [] v = some v
pointer (k ∷ ks) v = elim (step k v) [ none ↦ none | some w ↦ pointer ks w ]

unfoldable pub as_str : Value → Option String
as_str (text s) = some s
as_str _ = none

unfoldable pub as_i64 : Value → Option ℤ
as_i64 (int n) = some n
as_i64 _ = none

unfoldable pub as_bool : Value → Option Bool
as_bool (bool b) = some b
as_bool _ = none

unfoldable pub as_array : Value → Option (List Value)
as_array (arr xs) = some (items xs)
as_array _ = none

unfoldable pub is_object : Value → Bool
is_object (obj fs) = true
is_object _ = false

unfoldable pub is_null : Value → Bool
is_null null = true
is_null _ = false

-- `option.and_then(f)`
infixl 5 ◌>>=◌
abbrev pub ◌>>=◌ {ℓ κ} : {A : Type ℓ} {B : Type κ} → Option A → (A → Option B) → Option B
none >>= f = none
some a >>= f = f a

-- `option.unwrap_or(default)`
abbrev pub unwrap_or {ℓ} : {A : Type ℓ} → A → Option A → A
unwrap_or d none = d
unwrap_or d (some a) = a

-- `list.iter().filter_map(f)`
abbrev pub filter_map {ℓ κ} : {A : Type ℓ} {B : Type κ} → (A → Option B) → List A → List B
filter_map f [] = []
filter_map f (x ∷ xs) = elim (f x) [ none ↦ filter_map f xs | some y ↦ y ∷ filter_map f xs ]

abbrev pub is_i64 : ℕ → Option ℤ → Bool
is_i64 n (some (pos m)) = elim (Prim.Native.Nat.compare m n) [
  | Prim.Native.Nat.Ordering.eq ↦ true
  | _ ↦ false
]
is_i64 n _ = false

-- `option == Some("…")`
abbrev pub is_text : String → Option String → Bool
is_text t (some s) = s == t
is_text t none = false

-- `option == Some(true)`
abbrev pub is_true : Option Bool → Bool
is_true (some b) = b
is_true none = false

-- `value.get(key).and_then(Value::as_str)` and its like
abbrev pub str_at : String → Value → Option String
str_at k v = get k v >>= as_str

abbrev pub i64_at : String → Value → Option ℤ
i64_at k v = get k v >>= as_i64

abbrev pub bool_at : String → Value → Option Bool
bool_at k v = get k v >>= as_bool

abbrev pub array_at : String → Value → List Value
array_at k v = unwrap_or [] (get k v >>= as_array)

-- ===== src/Classify/Rows/Fuel.antt =====
-- The depth of a node is enough fuel: the modelled tests satisfy the equations of the source.
use ownpg.Base.{
  ℕ, zero, suc, ◌≤◌, ◌<◌, String, ◌≡◌, refl, ap, Bool, true, Option, none, some, List, [], ◌∷◌,
  ◌==◌, ◌&&◌, ◌||◌, arith, any, all, Bool-cases, Option-cases, In, inl, inr, if◌then◌else◌,
}
use ownpg.Json.{
  ℤ, Value, Items, Fields, arr, obj, nil, cons, end, field, items, get_field, step, get, pointer,
  as_array, array_at, i64_at, unwrap_or, ◌>>=◌,
}
use ownpg.Classify.Rows.{
  some_and, none_or, all_of, is_some, bool_op, constant_parts, every_row_parts, depth, depth_items,
  depth_fields, constant_step, constant_on, is_constant_expression, every_row_step, every_row_on,
  matches_every_row,
}

some-injective {ℓ} : {A : Type ℓ} (v w : A) → some v ≡ some w → v ≡ w
some-injective v w h = cc

none-ne-some : (w : Value) → none ≡ some w → ⊥
none-ne-some w h = cc

get_field-depth :
    (k : String) (fs : Fields) (w : Value) → get_field k fs ≡ some w → depth w ≤ depth_fields fs
unfolding get_field depth
get_field-depth k end w h = cc
get_field-depth k (field j v fs) w h = elim (Bool-cases (j == k)) [
  | inl e ↦ (let same : v ≡ w = some-injective v w (rw e at h) in rw (← same) (omega arith))
  | inr n ↦ (let rest = get_field-depth k fs w (rw n at h) in omega arith)
]

get-depth : (k : String) (v w : Value) → get k v ≡ some w → depth w < depth v
unfolding get depth
get-depth k (obj fs) w h = (let fits = get_field-depth k fs w h in omega arith)
get-depth k v w h = cc

items-depth : (xs : Items) (w : Value) → In w (items xs) → depth w ≤ depth_items xs
unfolding depth
items-depth nil w h = absurd h
items-depth (cons v vs) w (inl e) = rw e (omega arith)
items-depth (cons v vs) w (inr h) = (let rest = items-depth vs w h in omega arith)

array-depth : (v w : Value) (vs : List Value) → as_array v ≡ some vs → In w vs → depth w < depth v
unfolding as_array depth
array-depth (arr xs) w vs e h =
    let same : items xs ≡ vs = some-injective (items xs) vs e in
    let fits = items-depth xs w (rw same h) in omega arith
array-depth v w vs e h = cc

step-depth : (k : String) (v w : Value) → step k v ≡ some w → depth w < depth v
unfolding get_field depth
step-depth k (obj fs) w h = (let fits = get_field-depth k fs w h in omega arith)
step-depth k (arr nil) w h = cc
step-depth k (arr (cons v vs)) w h = elim (Bool-cases (k == "0")) [
  | inl e ↦ (let same : v ≡ w = some-injective v w (rw e at h) in rw (← same) (omega arith))
  | inr n ↦ absurd (none-ne-some w (rw n at h))
]
step-depth k v w h = cc

pointer-depth : (ks : List String) (v w : Value) → pointer ks v ≡ some w → depth w ≤ depth v
unfolding pointer
pointer-depth [] v w h = (let same : v ≡ w = some-injective v w h in rw same (omega arith))
pointer-depth (k ∷ ks) v w h = elim (Option-cases (step k v)) [
  | inl e ↦ absurd (none-ne-some w (rw (e, pointer) at h))
  | inr (u, e) ↦
      let near = step-depth k v u e in
      let far = pointer-depth ks u w (rw (e, pointer) at h) in omega arith
]

abbrev part : String → Value → Option Value
part k v = pointer ("node" ∷ k ∷ []) v

part-depth : (k : String) (v w : Value) → part k v ≡ some w → depth w ≤ depth v
part-depth k v w h = pointer-depth ("node" ∷ k ∷ []) v w h

module _ (p q : Value → Bool) where
  some_and-agrees :
      (o : Option Value) → ((w : Value) → o ≡ some w → p w ≡ q w) → some_and p o ≡ some_and q o
  some_and-agrees none h = refl
  some_and-agrees (some w) h = h w refl

  none_or-agrees :
      (o : Option Value) → ((w : Value) → o ≡ some w → p w ≡ q w) → none_or p o ≡ none_or q o
  none_or-agrees none h = refl
  none_or-agrees (some w) h = h w refl

  all-agrees : (vs : List Value) → ((w : Value) → In w vs → p w ≡ q w) → all p vs ≡ all q vs
  all-agrees [] h = refl
  all-agrees (v ∷ vs) h =
      rw (h v (inl refl)) (ap (λ (b : Bool). q v && b) (all-agrees vs (λ w i. h w (inr i))))

  any-agrees : (vs : List Value) → ((w : Value) → In w vs → p w ≡ q w) → any p vs ≡ any q vs
  any-agrees [] h = refl
  any-agrees (v ∷ vs) h =
      rw (h v (inl refl)) (ap (λ (b : Bool). q v || b) (any-agrees vs (λ w i. h w (inr i))))

  all_of-agrees :
      (o : Option (List Value))
      → ((vs : List Value) (w : Value) → o ≡ some vs → In w vs → p w ≡ q w)
      → all_of p o ≡ all_of q o
  all_of-agrees none h = refl
  all_of-agrees (some vs) h = all-agrees vs (λ w i. h vs w refl i)

  module _ (d : ℕ) (same : (w : Value) → depth w < d → p w ≡ q w) where
    arg-agrees : (k : String) (v w : Value) → depth v ≤ d → get k v ≡ some w → p w ≡ q w
    arg-agrees k v w fits e = (let near = get-depth k v w e in same w (omega arith))

    args-agrees :
        (k : String) (v w : Value) (o : Option Value) (vs : List Value)
        → depth v ≤ d
        → get k v ≡ o
        → (o >>= as_array) ≡ some vs
        → In w vs
        → p w ≡ q w
    args-agrees k v w none vs fits e a i = absurd (no-list vs a)
      where
        no-list : (vs : List Value) → none ≡ some vs → ⊥
        no-list vs h = cc
    args-agrees k v w (some u) vs fits e a i =
        let near = get-depth k v u e in let far = array-depth u w vs a i in same w (omega arith)

    constant_parts-agrees :
        (cast expr junction : Option Value)
        → ((e : Value) → cast ≡ some e → depth e ≤ d)
        → ((e : Value) → expr ≡ some e → depth e ≤ d)
        → ((e : Value) → junction ≡ some e → depth e ≤ d)
        → constant_parts p cast expr junction ≡ constant_parts q cast expr junction
    constant_parts-agrees (some e) expr junction h1 h2 h3 =
        some_and-agrees (get "arg" e) (λ w g. arg-agrees "arg" e w (h1 e refl) g)
    constant_parts-agrees none (some e) junction h1 h2 h3 =
        rw (none_or-agrees (get "lexpr" e) (λ w g. arg-agrees "lexpr" e w (h2 e refl) g)) (
          ap (λ (b : Bool). none_or q (get "lexpr" e) && b)
            (none_or-agrees (get "rexpr" e) (λ w g. arg-agrees "rexpr" e w (h2 e refl) g)))
    constant_parts-agrees none none (some e) h1 h2 h3 =
        all_of-agrees (get "args" e >>= as_array)
          (λ vs w a i. args-agrees "args" e w (get "args" e) vs (h3 e refl) refl a i)
    constant_parts-agrees none none none h1 h2 h3 = refl

    bool_op-agrees :
        (op : Option ℤ) (vs : List Value)
        → ((w : Value) → In w vs → p w ≡ q w)
        → bool_op p op vs ≡ bool_op q op vs
    bool_op-agrees op vs h = rw (any-agrees vs h) (rw (all-agrees vs h) refl)

    array_at-agrees : (k : String) (v w : Value) → depth v ≤ d → In w (array_at k v) → p w ≡ q w
    array_at-agrees k v w fits i = go (get k v >>= as_array) refl i
      where
        go :
            (o : Option (List Value))
            → (get k v >>= as_array) ≡ o
            → In w (unwrap_or [] o)
            → p w ≡ q w
        go none e i = absurd i
        go (some vs) e i = args-agrees k v w (get k v) vs fits refl e i

    every_row_parts-agrees :
        (junction expr : Option Value)
        → ((e : Value) → junction ≡ some e → depth e ≤ d)
        → every_row_parts p junction expr ≡ every_row_parts q junction expr
    every_row_parts-agrees (some e) expr h =
        bool_op-agrees (i64_at "boolop" e) (array_at "args" e)
          (λ w i. array_at-agrees "args" e w (h e refl) i)
    every_row_parts-agrees none (some e) h = refl
    every_row_parts-agrees none none h = refl

  -- The parts of a node that a step recurs on are less deep than the node.
  constant_step-agrees :
      (v : Value)
      → ((w : Value) → depth w < depth v → p w ≡ q w)
      → constant_step p v ≡ constant_step q v
  unfolding constant_step
  constant_step-agrees v h =
      ap (λ (b : Bool). if is_some (pointer ("node" ∷ "AConst" ∷ []) v) then true else b)
        (constant_parts-agrees (depth v) h (part "TypeCast" v) (part "AExpr" v) (part "BoolExpr" v)
          (part-depth "TypeCast" v) (part-depth "AExpr" v) (part-depth "BoolExpr" v))

  every_row_step-agrees :
      (v : Value)
      → ((w : Value) → depth w < depth v → p w ≡ q w)
      → every_row_step p v ≡ every_row_step q v
  unfolding every_row_step
  every_row_step-agrees v h =
      ap (λ (b : Bool). if is_constant_expression v then true else b)
        (every_row_parts-agrees (depth v) h (part "BoolExpr" v) (part "AExpr" v)
          (part-depth "BoolExpr" v))

constant_on-stable :
    (m n : ℕ) (v : Value) → depth v < m → depth v < n → constant_on m v ≡ constant_on n v
unfolding constant_on
constant_on-stable zero n v h k = absurd (omega arith)
constant_on-stable (suc m) zero v h k = absurd (omega arith)
constant_on-stable (suc m) (suc n) v h k =
    constant_step-agrees (constant_on m) (constant_on n) v
      (λ w less. constant_on-stable m n w (omega arith) (omega arith))

every_row_on-stable :
    (m n : ℕ) (v : Value) → depth v < m → depth v < n → every_row_on m v ≡ every_row_on n v
unfolding every_row_on
every_row_on-stable zero n v h k = absurd (omega arith)
every_row_on-stable (suc m) zero v h k = absurd (omega arith)
every_row_on-stable (suc m) (suc n) v h k =
    every_row_step-agrees (every_row_on m) (every_row_on n) v
      (λ w less. every_row_on-stable m n w (omega arith) (omega arith))

-- The fuel never runs out: each test is one step over itself on the parts of the node, which is
-- the recursion of the source.
pub matches_every_row-step :
    (v : Value)
    → (is_constant_expression v ≡ constant_step is_constant_expression v)
      × (matches_every_row v ≡ every_row_step matches_every_row v)
unfolding is_constant_expression matches_every_row
matches_every_row-step v = (
  constant_step-agrees (constant_on (depth v)) (λ w. constant_on (suc (depth w)) w) v
      (λ w less. constant_on-stable (depth v) (suc (depth w)) w less (omega arith)),
  every_row_step-agrees (every_row_on (depth v)) (λ w. every_row_on (suc (depth w)) w) v
      (λ w less. every_row_on-stable (depth v) (suc (depth w)) w less (omega arith)),
)

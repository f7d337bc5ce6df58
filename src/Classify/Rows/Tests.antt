-- ===== src/Classify/Rows/Tests.antt =====
-- Tests of the conditions that keep every row.
use ownpg.Base.{String, ◌≡◌, refl, true}
use ownpg.Json.{
  Value, int, pos, obj, arr, end, field, cons, nil, get, get_field, pointer, as_array, as_i64,
}
use ownpg.Classify.Rows.{
  depth, constant_step, constant_on, is_constant_expression, every_row_step, every_row_on,
  matches_every_row,
}

abbrev node_of : String → Value → Value
node_of kind body = obj (field "node" (obj (field kind body end)) end)

-- WHERE a < b OR true
abbrev condition : Value
condition = node_of "BoolExpr" (
    obj (
      field "boolop" (int (pos 2)) (
        field "args"
          (arr (cons (node_of "AExpr" (obj end)) (cons (node_of "AConst" (obj end)) nil))) end)))

keeps_every_row : matches_every_row condition ≡ true
unfolding matches_every_row every_row_on every_row_step is_constant_expression constant_on
    constant_step depth get get_field pointer as_array as_i64
keeps_every_row = refl

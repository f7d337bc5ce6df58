-- ===== src/Classify/Names/Tests.antt =====
-- Tests of the names in the parse tree.
use ownpg.Base.{◌≡◌, refl, none, some, [], ◌∷◌}
use ownpg.Base.Text.{join, split, split_from}
use ownpg.Classify.Names.{split_qualified}
use ownpg.Classify.Names.Laws.{split_qualified-join}

split_qualified-join_example :
    (split_qualified (join "." ("orders" ∷ [])) ≡ some (record { schema = none; name = "orders" }))
    × (split_qualified (join "." ("app" ∷ "orders" ∷ []))
        ≡ some (record { schema = some "app"; name = "orders" }))
split_qualified-join_example =
    split_qualified-join "app" "orders" (refl, (refl, (refl, tt)))
      (refl, (refl, (refl, (refl, (refl, (refl, tt))))))

-- A quoted name that holds a dot: other."app.f" is taken for the function `f` of the schema `app`.
dot_in_name :
    split_qualified (join "." ("other" ∷ "app.f" ∷ []))
    ≡ some (record { schema = some "app"; name = "f" })
unfolding join split_qualified split_from split
dot_in_name = refl

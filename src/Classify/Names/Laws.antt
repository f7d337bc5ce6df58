-- ===== src/Classify/Names/Laws.antt =====
-- A name that was joined at dots is split into its parts again.
use Prim.Native.Char.{code}
use Prim.Native.String.{[], ◌∷◌, ◌++◌}
use text.Mathlib.TextLemmas.{nil-append, append-nil, append_assoc, cons-append}
use ownpg.Base.{String, ◌≡◌, refl, sym, ap, ◌∙◌, false, none, some, List, eqb}
use ownpg.Base.Text.{join, split_from, split}
use ownpg.Classify.Names.{bare_name, split_qualified}
use mathlib.Core.List.{reverse-append, ◌++◌ as ◌++ₗ◌}

-- No dot.
abbrev pub IsPlain : String → Type 0
IsPlain [] = Unit
IsPlain (c ∷ s) = (eqb (code c) b'.' ≡ false) × IsPlain s

split_from-append :
    (cur s rest : String)
    → IsPlain s
    → split_from b'.' cur (s ++ rest) ≡ split_from b'.' (cur ++ s) rest
unfolding split_from
split_from-append cur [] rest h = rw (nil-append, append-nil) refl
split_from-append cur (c ∷ s) rest (plain, h) = rw cons-append (
    rw plain (
      split_from-append (cur ++ (c ∷ [])) s rest h
      ∙ ap (λ (t : String). split_from b'.' t rest)
          (append_assoc cur (c ∷ []) s
            ∙ ap (λ (t : String). cur ++ t)
                (cons-append c [] s ∙ ap (λ (t : String). c ∷ t) (nil-append s)))))

abbrev pub ArePlain : List String → Type 0
ArePlain List.[] = Unit
ArePlain (List.◌∷◌ p ps) = IsPlain p × ArePlain ps

split_from-join :
    (cur p : String) (ps : List String)
    → ArePlain (List.◌∷◌ p ps)
    → split_from b'.' cur (join "." (List.◌∷◌ p ps)) ≡ List.◌∷◌ (cur ++ p) ps
unfolding split_from join
split_from-join cur p List.[] (plain, h) =
    ap (λ (t : String). split_from b'.' cur t) (sym (append-nil p))
    ∙ split_from-append cur p [] plain
split_from-join cur p (List.◌∷◌ q ps) (plain, h) =
    split_from-append cur p ("." ++ join "." (List.◌∷◌ q ps)) plain
    ∙ ap (λ (t : String). split_from b'.' (cur ++ p) t)
        (cons-append "." [] (join "." (List.◌∷◌ q ps))
          ∙ ap (λ (t : String). "." ∷ t) (nil-append (join "." (List.◌∷◌ q ps))))
    ∙ ap (λ (l : List String). List.◌∷◌ (cur ++ p) l)
        (split_from-join "" q ps h ∙ ap (λ (t : String). List.◌∷◌ t ps) (nil-append q))

split-join :
    (p : String) (ps : List String)
    → ArePlain (List.◌∷◌ p ps)
    → split b'.' (join "." (List.◌∷◌ p ps)) ≡ List.◌∷◌ p ps
unfolding split
split-join p ps h = split_from-join "" p ps h ∙ ap (λ (t : String). List.◌∷◌ t ps) (nil-append p)

ArePlain-snoc :
    (before : List String) (name : String)
    → ArePlain (before ++ₗ List.◌∷◌ name List.[])
    → split b'.' (join "." (before ++ₗ List.◌∷◌ name List.[])) ≡ before ++ₗ List.◌∷◌ name List.[]
ArePlain-snoc List.[] name h = split-join name List.[] h
ArePlain-snoc (List.◌∷◌ b bs) name h = split-join b (bs ++ₗ List.◌∷◌ name List.[]) h

-- The bare name of a dotted name is its last part, where no part holds a dot.
pub bare_name-join :
    (before : List String) (name : String)
    → ArePlain (before ++ₗ List.◌∷◌ name List.[])
    → bare_name (join "." (before ++ₗ List.◌∷◌ name List.[])) ≡ name
unfolding bare_name
bare_name-join before name h =
    rw (ArePlain-snoc before name h) (rw (reverse-append before (List.◌∷◌ name List.[])) refl)

-- The dotted name of a bare name, and that of a name with its schema, are split into what they were
-- joined from, where the schema and the name hold no dot.
pub split_qualified-join :
    (schema name : String)
    → IsPlain schema
    → IsPlain name
    → (split_qualified (join "." (List.◌∷◌ name List.[]))
        ≡ some (record { schema = none; name = name }))
      × (split_qualified (join "." (List.◌∷◌ schema (List.◌∷◌ name List.[])))
          ≡ some (record { schema = some schema; name = name }))
unfolding split_qualified
split_qualified-join schema name h k = (
  rw (split-join name List.[] (k, tt)) refl,
  rw (split-join schema (List.◌∷◌ name List.[]) (h, (k, tt))) refl,
)

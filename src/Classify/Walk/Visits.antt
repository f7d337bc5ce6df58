-- ===== src/Classify/Walk/Visits.antt =====
-- Which entries of the tree the walk visits, and that what a visit establishes is in the result.
use ownpg.Base.{
  refl, arith, String, Option, none, ap, Bool-cases, ◌==◌, eq_iff, ◌≡◌, ◌≢◌, false, some, ◌⊎◌, inl,
  inr,
}
use ownpg.Json.{
  Value, Items, Fields, null, bool, int, real, text, arr, obj, nil, cons, end, field, str_at,
  is_text,
}
use ownpg.Classify.Walk.{Findings, note_relation, visit, is_skipped, walk, walk_items, walk_fields}
use ownpg.Classify.Walk.Grows.{Grows, Grows-items, Grows-rest}

-- An entry that is not an option (`DefElem`) named `set` or `reset`.
abbrev pub IsLive : String → Value → Type 0
IsLive j v =
    (j ≢ "DefElem") ⊎ ((str_at "defname" v ≢ some "set") × (str_at "defname" v ≢ some "reset"))

pub neq-test : (s t : String) → s ≢ t → (s == t) ≡ false
neq-test s t h = elim (Bool-cases (s == t)) [
  | inl same ↦ absurd (h ((eq_iff s t).0 same))
  | inr other ↦ other
]

is_text-other : (t : String) (o : Option String) → o ≢ some t → is_text t o ≡ false
is_text-other t none h = refl
is_text-other t (some s) h = neq-test s t (λ e. h (ap some e))

live-skipped : (j : String) (v : Value) → IsLive j v → is_skipped j v ≡ false
unfolding is_skipped
live-skipped j v (inl other) = rw (neq-test j "DefElem" other) (ground arith)
live-skipped j v (inr (h, k)) =
    rw (is_text-other "set" (str_at "defname" v) h, is_text-other "reset" (str_at "defname" v) k)
      (ground arith)

-- An entry with key `k` and value `c` stands somewhere in the tree, outside the statement options
-- `set` and `reset`.
unfoldable mutual
  pub Visits : String → Value → Value → Type 0
  Visits k c (obj fs) = VisitsField k c fs
  Visits k c (arr vs) = VisitsItem k c vs
  Visits k c _ = ⊥

  pub VisitsItem : String → Value → Items → Type 0
  VisitsItem k c nil = ⊥
  VisitsItem k c (cons v vs) = Visits k c v ⊎ VisitsItem k c vs

  pub VisitsField : String → Value → Fields → Type 0
  VisitsField k c end = ⊥
  VisitsField k c (field j v fs) =
      (IsLive j v × (((k ≡ j) × (c ≡ v)) ⊎ Visits k c v)) ⊎ VisitsField k c fs

module _ (P : Findings → Type 0) (stable : (f g : Findings) → Grows f g → P f → P g) (k : String)
    (c : Value) (establish : (f : Findings) → P (walk c (visit k c f))) where
  mutual
    unfolding Visits walk

    reach_value : (v : Value) (f : Findings) → Visits k c v → P (walk v f)
    reach_value (obj fs) f h = reach_fields fs (note_relation fs f) h
    reach_value (arr vs) f h = reach_items vs f h
    reach_value null f h = absurd h
    reach_value (bool b) f h = absurd h
    reach_value (int n) f h = absurd h
    reach_value (real s) f h = absurd h
    reach_value (text s) f h = absurd h

    reach_items : (vs : Items) (f : Findings) → VisitsItem k c vs → P (walk_items vs f)
    reach_items nil f h = absurd h
    reach_items (cons v vs) f (inl h) = stable _ _ (Grows-items vs (walk v f)) (reach_value v f h)
    reach_items (cons v vs) f (inr h) = reach_items vs (walk v f) h

    reach_fields : (fs : Fields) (f : Findings) → VisitsField k c fs → P (walk_fields fs f)
    reach_fields end f h = absurd h
    reach_fields (field j v fs) f (inl (live, inl (same_key, same_value))) =
        rw (live-skipped j v live) (
          stable _ _ (Grows-rest fs (walk v (visit j v f)))
            (rw (← same_key) (rw (← same_value) (establish f))))
    reach_fields (field j v fs) f (inl (live, inr below)) =
        rw (live-skipped j v live)
          (stable _ _ (Grows-rest fs (walk v (visit j v f))) (reach_value v (visit j v f) below))
    reach_fields (field j v fs) f (inr h) = reach_fields fs _ h

  pub walk-visited : (v : Value) (f : Findings) → Visits k c v → P (walk v f)
  walk-visited v f h = reach_value v f h

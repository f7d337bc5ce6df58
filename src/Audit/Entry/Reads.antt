-- ===== src/Audit/Entry/Reads.antt =====
-- What the check of the chain reads of the lines that are written.
use ownpg.Base.{
  ℕ, String, ◌≡◌, refl, ◌∙◌, ap, ◌⊎◌, inl, inr, Bool, true, false, Option, none, some, List, [],
  ◌∷◌, ◌==◌, ◌&&◌, ◌||◌, arith,
}
use ownpg.Json.{
  Value, Fields, Items, nil, cons, field, text, get, get_field, as_str, as_bool, is_true, ◌>>=◌,
}
use ownpg.Audit.Chain.{chain_start, is_some, check_version, starts_file, marker_of}
use ownpg.Audit.Chain.Extends.{Continues, Opens}
use ownpg.Audit.Entry.{
  Entry, Marker, text_if, number_if, list_if, true_if, caller_fields, statement_fields,
  outcome_fields, line_value, marker_value, pruned_items,
}

module _ (k key : String) (rest : Fields) (other : (key == k) ≡ false) where
  get-text_if : (o : Option String) → get_field k (text_if key o rest) ≡ get_field k rest
  unfolding get_field text_if
  get-text_if none = refl
  get-text_if (some s) = rw other refl

  get-number_if : (o : Option ℕ) → get_field k (number_if key o rest) ≡ get_field k rest
  unfolding get_field number_if
  get-number_if none = refl
  get-number_if (some n) = rw other refl

  get-list_if : (o : Items) → get_field k (list_if key o rest) ≡ get_field k rest
  unfolding get_field list_if
  get-list_if nil = refl
  get-list_if (cons v vs) = rw other refl

  get-true_if : (b : Bool) → get_field k (true_if key b rest) ≡ get_field k rest
  unfolding get_field true_if
  get-true_if false = refl
  get-true_if true = rw other refl

  get-field : (v : Value) → get_field k (field key v rest) ≡ get_field k rest
  unfolding get_field
  get-field v = rw other refl

-- The key is none of `keys`.
abbrev pub IsOther : String → List String → Type 0
IsOther k [] = Unit
IsOther k (key ∷ keys) = ((key == k) ≡ false) × IsOther k keys

abbrev caller_keys : List String
caller_keys =
    "request_id" ∷ "call_id" ∷ "tool" ∷ "operation" ∷ "mode" ∷ "transport" ∷ "principal"
    ∷ "principal_kind" ∷ "database" ∷ "schema" ∷ []

get-caller_fields :
    (k : String) (e : Entry) (rest : Fields)
    → IsOther k caller_keys
    → get_field k (caller_fields e rest) ≡ get_field k rest
unfolding caller_fields
get-caller_fields k e rest (h0, (h1, (h2, (h3, (h4, (h5, (h6, (h7, (h8, (h9, u)))))))))) =
    get-field k "request_id" _ h0 _
    ∙ get-number_if k "call_id" _ h1 _
    ∙ get-field k "tool" _ h2 _
    ∙ get-text_if k "operation" _ h3 _
    ∙ get-field k "mode" _ h4 _
    ∙ get-field k "transport" _ h5 _
    ∙ get-field k "principal" _ h6 _
    ∙ get-field k "principal_kind" _ h7 _
    ∙ get-field k "database" _ h8 _
    ∙ get-field k "schema" _ h9 _

abbrev statement_keys : List String
statement_keys =
    "statement_class" ∷ "statement_hash" ∷ "statement" ∷ "relations" ∷ "decision" ∷ "rule"
    ∷ "handle_id" ∷ "cursor_id" ∷ []

get-statement_fields :
    (k : String) (e : Entry) (rest : Fields)
    → IsOther k statement_keys
    → get_field k (statement_fields e rest) ≡ get_field k rest
unfolding statement_fields
get-statement_fields k e rest (h0, (h1, (h2, (h3, (h4, (h5, (h6, (h7, u)))))))) =
    get-text_if k "statement_class" _ h0 _
    ∙ get-text_if k "statement_hash" _ h1 _
    ∙ get-text_if k "statement" _ h2 _
    ∙ get-list_if k "relations" _ h3 _
    ∙ get-field k "decision" _ h4 _
    ∙ get-text_if k "rule" _ h5 _
    ∙ get-text_if k "handle_id" _ h6 _
    ∙ get-text_if k "cursor_id" _ h7 _

abbrev outcome_keys : List String
outcome_keys =
    "duration_ms" ∷ "row_count" ∷ "rows_affected" ∷ "truncated" ∷ "outcome" ∷ "superuser" ∷ []

get-outcome_fields :
    (k : String) (e : Entry) (rest : Fields)
    → IsOther k outcome_keys
    → get_field k (outcome_fields e rest) ≡ get_field k rest
unfolding outcome_fields
get-outcome_fields k e rest (h0, (h1, (h2, (h3, (h4, (h5, u)))))) =
    get-field k "duration_ms" _ h0 _
    ∙ get-number_if k "row_count" _ h1 _
    ∙ get-number_if k "rows_affected" _ h2 _
    ∙ get-field k "truncated" _ h3 _
    ∙ get-text_if k "outcome" _ h4 _
    ∙ get-field k "superuser" _ h5 _

get-entry_fields :
    (k : String) (e : Entry) (rest : Fields)
    → IsOther k caller_keys
    → IsOther k statement_keys
    → IsOther k outcome_keys
    → get_field k (caller_fields e (statement_fields e (outcome_fields e rest))) ≡ get_field k rest
get-entry_fields k e rest c s o =
    get-caller_fields k e _ c ∙ get-statement_fields k e _ s ∙ get-outcome_fields k e rest o

module _ (timestamp : String) (e : Entry) (prev : String) where
  line-prev : get "prev" (line_value timestamp e prev) ≡ some (text prev)
  unfolding line_value get get_field
  line-prev =
      get-entry_fields "prev" e _
        (refl, (refl, (refl, (refl, (refl, (refl, (refl, (refl, (refl, (refl, tt))))))))))
        (refl, (refl, (refl, (refl, (refl, (refl, (refl, (refl, tt))))))))
        (refl, (refl, (refl, (refl, (refl, (refl, tt))))))

  line-marker : get "marker" (line_value timestamp e prev) ≡ none
  unfolding line_value get get_field
  line-marker =
      get-entry_fields "marker" e _
        (refl, (refl, (refl, (refl, (refl, (refl, (refl, (refl, (refl, (refl, tt))))))))))
        (refl, (refl, (refl, (refl, (refl, (refl, (refl, (refl, tt))))))))
        (refl, (refl, (refl, (refl, (refl, (refl, tt))))))

  -- The line of an entry goes on with the chain, whatever the entry holds.
  pub line_value-Continues : Continues prev (line_value timestamp e prev)
  unfolding as_str
  line_value-Continues = record {
    version = 1;
    has_version = (unfold line_value get get_field in refl);
    known = (unfold check_version in refl);
    has_prev = ap (λ (o : Option Value). o >>= as_str) line-prev;
    stays = (unfold starts_file marker_of in rw line-marker refl);
  }

  -- It counts as an entry, since it is no marker.
  pub marker_of-line_value : marker_of (line_value timestamp e prev) ≡ none
  unfolding marker_of
  marker_of-line_value = ap (λ (o : Option Value). o >>= as_str) line-marker

is_some-text_if :
    (key : String) (o : Option String) (rest : Fields)
    → (key == key) ≡ true
    → get_field key rest ≡ none
    → is_some (get_field key (text_if key o rest)) ≡ is_some o
unfolding get_field text_if
is_some-text_if key none rest same h = rw h refl
is_some-text_if key (some s) rest same h = rw same refl

is_true-true_if :
    (key : String) (b : Bool) (rest : Fields)
    → (key == key) ≡ true
    → get_field key rest ≡ none
    → is_true (get_field key (true_if key b rest) >>= as_bool) ≡ b
unfolding get_field true_if as_bool
is_true-true_if key false rest same h = rw h refl
is_true-true_if key true rest same h = rw same refl

module _ (m : Marker) where
  marker-prev : get "prev" (marker_value m) ≡ some (text m.prev)
  unfolding marker_value get get_field
  marker-prev =
      get-text_if "prev" "on_failure" _ refl m.on_failure
      ∙ get-text_if "prev" "rotated_from" _ refl m.rotated_from
      ∙ get-true_if "prev" "resumed" _ refl m.resumed
      ∙ get-number_if "prev" "dropped" _ refl m.dropped
      ∙ get-list_if "prev" "pruned" _ refl (pruned_items m.pruned)

  pub marker_of-marker_value : marker_of (marker_value m) ≡ some m.marker
  unfolding marker_of marker_value get get_field as_str
  marker_of-marker_value = refl

  marker-rotated_from : is_some (get "rotated_from" (marker_value m)) ≡ is_some m.rotated_from
  unfolding marker_value get get_field
  marker-rotated_from =
      ap is_some (get-text_if "rotated_from" "on_failure" _ refl m.on_failure)
      ∙ is_some-text_if "rotated_from" m.rotated_from _ refl (
          get-true_if "rotated_from" "resumed" _ refl m.resumed
          ∙ get-number_if "rotated_from" "dropped" _ refl m.dropped
          ∙ get-list_if "rotated_from" "pruned" _ refl (pruned_items m.pruned))

  marker-resumed : is_true (get "resumed" (marker_value m) >>= as_bool) ≡ m.resumed
  unfolding marker_value get get_field
  marker-resumed =
      ap (λ (o : Option Value). is_true (o >>= as_bool))
        (get-text_if "resumed" "on_failure" _ refl m.on_failure
          ∙ get-text_if "resumed" "rotated_from" _ refl m.rotated_from)
      ∙ is_true-true_if "resumed" m.resumed _ refl (
          get-number_if "resumed" "dropped" _ refl m.dropped
          ∙ get-list_if "resumed" "pruned" _ refl (pruned_items m.pruned))

  pub starts_file-marker_value :
      starts_file (marker_value m)
      ≡ ((m.marker == chain_start) && (is_some m.rotated_from || m.resumed))
  unfolding starts_file
  starts_file-marker_value =
      rw marker_of-marker_value (rw (marker-rotated_from, marker-resumed) refl)

  -- A marker that opens no file goes on with the chain.
  pub marker_value-Continues :
      (m.marker == chain_start) ≡ false ⊎ ((m.rotated_from ≡ none) × (m.resumed ≡ false))
      → Continues m.prev (marker_value m)
  unfolding as_str
  marker_value-Continues h = record {
    version = 1;
    has_version = (unfold marker_value get get_field in refl);
    known = (unfold check_version in refl);
    has_prev = ap (λ (o : Option Value). o >>= as_str) marker-prev;
    stays = rw starts_file-marker_value (ground arith);
  }

  -- A chain-start marker opens a file, if it follows nothing or says what it follows.
  pub marker_value-Opens :
      m.marker ≡ chain_start
      → (m.prev ≡ "") ⊎ ((is_some m.rotated_from || m.resumed) ≡ true)
      → Opens (marker_value m)
  unfolding as_str
  marker_value-Opens is_start follows = record {
    version = 1;
    recorded = m.prev;
    has_version = (unfold marker_value get get_field in refl);
    known = (unfold check_version in refl);
    has_prev = ap (λ (o : Option Value). o >>= as_str) marker-prev;
    is_marker = marker_of-marker_value ∙ ap some is_start;
    links = elim follows [
      | inl blank ↦ inl blank
      | inr says ↦ inr (rw (starts_file-marker_value, is_start, says) refl)
    ];
  }

-- ===== src/Shape/Tests.antt =====
-- The shaping laws at concrete texts and rows. Here each character is a grapheme.
use Prim.Native.String.{len, ◌++◌ as str_append}
use ownpg.Base.{
  ◌≤◌, ◌<◌, ◌+◌, String, ◌≡◌, refl, ◌≢◌, ◌↔◌, ◌⊎◌, inl, true, false, none, some, List, [], ◌∷◌,
  ◌++◌, map, length, arith,
}
use ownpg.Shape.Cells.{sanitize, escape_cell, cut_cell}
use ownpg.Shape.Cells.Laws.{
  concat, len-cut_cell, cut_cell-prefix, unescape, unescape-escape_cell, IsOneField,
  escape_cell-IsOneField, IsVisible, sanitize-sanitize,
}
use ownpg.Shape.Collector.{Truncation, Caps, Row, Collector, clean_row, offer, offer_all, finish}
use ownpg.Shape.Collector.Bounds.{
  row_bytes, IsBounded, offer_all-IsBounded, offer_cases, offer_all-prefix, finish-truncated,
}

singles : String → List String
singles String.[] = []
singles (String.◌∷◌ c s) = (String.◌∷◌ c String.[]) ∷ singles s

cut_six : cut_cell singles "abcdef" 5 ≡ "ab..."
unfolding cut_cell singles
cut_six = refl

len-cut_cell_example : len (cut_cell singles "abcdef" 5) ≤ 5
len-cut_cell_example = len-cut_cell singles "abcdef" 5 (omega arith)

cut_cell-prefix_example :
    (start rest : String) × (cut_cell singles "abcdef" 5 ≡ str_append start "...")
    × ("abcdef" ≡ str_append start rest)
unfolding concat singles
cut_cell-prefix_example = cut_cell-prefix singles "abcdef" 5 refl (omega arith)

unescape-escape_cell_example : unescape false (escape_cell "a\tb\\") ≡ "a\tb\\"
unescape-escape_cell_example = unescape-escape_cell "a\tb\\"

escape_cell-IsOneField_example : IsOneField (escape_cell "a\nb")
escape_cell-IsOneField_example = escape_cell-IsOneField "a\nb"

sanitize-sanitize_example :
    IsVisible (sanitize "a\rb")
    × (IsVisible "a\rb" ↔ (sanitize "a\rb" ≡ "a\rb"))
    × (sanitize (sanitize "a\rb") ≡ sanitize "a\rb")
sanitize-sanitize_example = sanitize-sanitize "a\rb"

abbrev caps : Caps
caps = record { row_cap = 2; byte_cap = 100; cell_cap = 10 }

abbrev three : List Row
three = (some "a" ∷ []) ∷ (none ∷ []) ∷ (some "c" ∷ []) ∷ []

abbrev fresh : Collector
fresh = record { columns = []; rows = []; bytes = 0; truncated_by = none; cells_cut = 0 }

offer_all-IsBounded_example : IsBounded caps (offer_all singles fresh caps three)
offer_all-IsBounded_example =
    offer_all-IsBounded singles fresh caps three
      (record { rows = omega arith; bytes = inl (omega arith); counted = refl })

offer_cases_example :
    let cleaned = clean_row singles 10 (none ∷ []) in
    let res = offer singles fresh caps (none ∷ []) in
    ((fresh.truncated_by ≡ none)
      × (length fresh.rows < caps.row_cap)
      × ((fresh.bytes + row_bytes cleaned ≤ caps.byte_cap) ⊎ (fresh.rows ≡ []))
      × (res.1 ≡ none)
      × (res.0.rows ≡ fresh.rows ++ cleaned ∷ [])
      × (res.0.truncated_by ≡ none))
    ⊎ ((res.1 ≡ some (none ∷ []))
        × (res.0.rows ≡ fresh.rows)
        × (((t : Truncation) × (fresh.truncated_by ≡ some t) × (res.0.truncated_by ≡ some t))
            ⊎ ((fresh.truncated_by ≡ none)
                × (caps.row_cap ≤ length fresh.rows)
                × (res.0.truncated_by ≡ some Truncation.rows))
            ⊎ ((fresh.truncated_by ≡ none)
                × (length fresh.rows < caps.row_cap)
                × (caps.byte_cap < fresh.bytes + row_bytes cleaned)
                × (fresh.rows ≢ [])
                × (res.0.truncated_by ≡ some Truncation.bytes))))
offer_cases_example = offer_cases singles fresh caps (none ∷ [])

offer_all-prefix_example :
    (kept rest : List Row) × (three ≡ kept ++ rest)
    × ((offer_all singles fresh caps three).rows ≡ fresh.rows ++ map (clean_row singles 10) kept)
    × ((rest ≡ []) ⊎ ((offer_all singles fresh caps three).truncated_by ≢ none))
offer_all-prefix_example = offer_all-prefix singles fresh caps three

abbrev keep_text : String → String → String
keep_text type_name s = s

finish-truncated_example :
    ((finish keep_text fresh (some "c1") none).truncated ≡ true)
    ↔ ((finish keep_text fresh (some "c1") none).truncated_by ≢ none)
finish-truncated_example = finish-truncated keep_text fresh (some "c1") none

abbrev two : List Row
two = (some "a" ∷ []) ∷ (none ∷ []) ∷ []

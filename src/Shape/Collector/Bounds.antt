-- ===== src/Shape/Collector/Bounds.antt =====
-- The bounds of a collection, and which rows it holds.
use Prim.Native.String.{len}
use ownpg.Base.{
  ℕ, ◌+◌, ◌<◌, ◌≤◌, String, ◌≡◌, refl, ◌≢◌, ◌⊎◌, inl, inr, ◌↔◌, true, Option, none, some, List, [],
  ◌∷◌, ◌++◌, map, length, arith, length-append, sym, ap, ◌∙◌,
}
use mathlib.Core.List.{append_assoc, append-nil}
use mathlib.Core.Path.{subst}
use ownpg.Json.{ℤ}
use ownpg.Shape.Collector.{
  Truncation, Caps, Row, Collector, row_size, clean_row, offer, offer_all, finish,
}

-- The bytes of a row: each cell with two more, and four for a NULL.
abbrev pub row_bytes : Row → ℕ
row_bytes [] = 0
row_bytes (none ∷ vs) = 6 + row_bytes vs
row_bytes (some text ∷ vs) = len text + 2 + row_bytes vs

-- The bytes of the rows held.
abbrev pub held_bytes : List Row → ℕ
held_bytes [] = 0
held_bytes (r ∷ rs) = row_bytes r + held_bytes rs

-- The rows held fit the caps, but for a single row that is larger than the byte cap, and the
-- collector's count of their bytes is right.
pub record IsBounded (caps : Caps) (c : Collector) : Type 0 where
  pub rows : length c.rows ≤ caps.row_cap
  pub bytes : (held_bytes c.rows ≤ caps.byte_cap) ⊎ (length c.rows ≡ 1)
  pub counted : c.bytes ≡ held_bytes c.rows

row_size-row_bytes : (r : Row) → row_size r ≡ row_bytes r
unfolding row_size
row_size-row_bytes [] = refl
row_size-row_bytes (none ∷ vs) = ap (λ n. 6 + n) (row_size-row_bytes vs)
row_size-row_bytes (some text ∷ vs) = ap (λ n. len text + 2 + n) (row_size-row_bytes vs)

held_bytes-snoc :
    (rs : List Row) (r : Row) → held_bytes (rs ++ r ∷ []) ≡ held_bytes rs + row_bytes r
held_bytes-snoc [] r = omega arith
held_bytes-snoc (q ∷ rs) r = omega (arith, held_bytes-snoc rs r)

module _ (graphemes : String → List String) where
  offer-IsBounded :
      (c : Collector) (caps : Caps) (row : Row)
      → IsBounded caps c
      → IsBounded caps (offer graphemes c caps row).0
  unfolding offer
  offer-IsBounded c caps row h =
      let cleaned = clean_row graphemes caps.cell_cap row in
      ground (
        arith,
        length-append c.rows (cleaned ∷ []),
        held_bytes-snoc c.rows cleaned,
        row_size-row_bytes cleaned,
      )

  -- Whatever rows are offered to a collector that is within its bounds, it stays so: at most
  -- `row_cap` rows are held, and the bytes of the rows held are at most `byte_cap` unless a single
  -- row is held.
  pub offer_all-IsBounded :
      (c : Collector) (caps : Caps) (rows : List Row)
      → IsBounded caps c
      → IsBounded caps (offer_all graphemes c caps rows)
  unfolding offer_all
  offer_all-IsBounded c caps [] h = h
  offer_all-IsBounded c caps (row ∷ rows) h =
      offer_all-IsBounded (offer graphemes c caps row).0 caps rows (offer-IsBounded c caps row h)

  -- An offer keeps the row, cleaned and last, exactly where the collector is not truncated, holds
  -- fewer rows than the cap and the row fits in the bytes left or is the first. Otherwise it gives
  -- the row back unchanged, keeps what it held, and gives the reason: the one it had, or `rows`
  -- where the cap on rows is reached, or else `bytes`.
  pub offer_cases :
      (c : Collector) (caps : Caps) (row : Row)
      → let cleaned = clean_row graphemes caps.cell_cap row in
        let res = offer graphemes c caps row in
        ((c.truncated_by ≡ none)
          × (length c.rows < caps.row_cap)
          × ((c.bytes + row_bytes cleaned ≤ caps.byte_cap) ⊎ (c.rows ≡ []))
          × (res.1 ≡ none)
          × (res.0.rows ≡ c.rows ++ cleaned ∷ [])
          × (res.0.truncated_by ≡ none))
        ⊎ ((res.1 ≡ some row)
            × (res.0.rows ≡ c.rows)
            × (((t : Truncation) × (c.truncated_by ≡ some t) × (res.0.truncated_by ≡ some t))
                ⊎ ((c.truncated_by ≡ none)
                    × (caps.row_cap ≤ length c.rows)
                    × (res.0.truncated_by ≡ some Truncation.rows))
                ⊎ ((c.truncated_by ≡ none)
                    × (length c.rows < caps.row_cap)
                    × (caps.byte_cap < c.bytes + row_bytes cleaned)
                    × (c.rows ≢ [])
                    × (res.0.truncated_by ≡ some Truncation.bytes))))
  unfolding offer
  offer_cases c caps row =
      rw (← row_size-row_bytes (clean_row graphemes caps.cell_cap row)) (ground arith)

  kept_or_refused :
      (c : Collector) (caps : Caps) (row : Row)
      → (((offer graphemes c caps row).1 ≡ none)
          × ((offer graphemes c caps row).0.rows
              ≡ c.rows ++ clean_row graphemes caps.cell_cap row ∷ [])
          × ((offer graphemes c caps row).0.truncated_by ≡ none))
        ⊎ (((offer graphemes c caps row).1 ≡ some row)
            × ((offer graphemes c caps row).0.rows ≡ c.rows)
            × ((offer graphemes c caps row).0.truncated_by ≢ none))
  unfolding offer
  kept_or_refused c caps row = ground arith

  -- Once a row is refused all later rows are.
  stays_truncated :
      (c : Collector) (caps : Caps) (rows : List Row)
      → c.truncated_by ≢ none
      → ((offer_all graphemes c caps rows).rows ≡ c.rows)
        × ((offer_all graphemes c caps rows).truncated_by ≢ none)
  unfolding offer_all
  stays_truncated c caps [] h = (refl, h)
  stays_truncated c caps (row ∷ rows) h =
      let same : (offer graphemes c caps row).0 ≡ c = refuses c caps row h in
      subst
        (λ (d : Collector).
          ((offer_all graphemes d caps rows).rows ≡ c.rows)
          × ((offer_all graphemes d caps rows).truncated_by ≢ none))
        (sym same) (stays_truncated c caps rows h)
    where
      refuses :
          (c : Collector) (caps : Caps) (row : Row)
          → c.truncated_by ≢ none
          → (offer graphemes c caps row).0 ≡ c
      refuses c caps row h = unfold offer in ground arith

  -- The collection holds the first rows, cleaned and in order; where it does not hold them all it
  -- says that it was truncated.
  pub offer_all-prefix :
      (c : Collector) (caps : Caps) (rows : List Row)
      → (kept rest : List Row) × (rows ≡ kept ++ rest)
        × ((offer_all graphemes c caps rows).rows
            ≡ c.rows ++ map (clean_row graphemes caps.cell_cap) kept)
        × ((rest ≡ []) ⊎ ((offer_all graphemes c caps rows).truncated_by ≢ none))
  unfolding offer_all
  offer_all-prefix c caps [] = ([], [], refl, sym (append-nil c.rows), inl refl)
  offer_all-prefix c caps (row ∷ rows) =
      let c' = (offer graphemes c caps row).0 in
      elim (kept_or_refused c caps row) [
        | inl (_, held, _) ↦
            let (kept, rest, split, e, complete) = offer_all-prefix c' caps rows in
            (
              row ∷ kept,
              rest,
              ap (λ (l : List Row). row ∷ l) split,
              e
                  ∙ ap (λ (l : List Row). l ++ map (clean_row graphemes caps.cell_cap) kept) held
                  ∙ append_assoc c.rows (clean_row graphemes caps.cell_cap row ∷ []) _,
              complete,
            )
        | inr (_, held, cause) ↦
            let (same, why) = stays_truncated c' caps rows cause in
            ([], row ∷ rows, refl, same ∙ held ∙ sym (append-nil c.rows), inr why)
      ]

module _ {Cell : Type 0} (coerce_cell : String → String → Cell) where
  -- A result says that it is truncated exactly if it gives a reason.
  pub finish-truncated :
      (c : Collector) (cursor : Option String) (estimate : Option ℤ)
      → ((finish coerce_cell c cursor estimate).truncated ≡ true)
        ↔ ((finish coerce_cell c cursor estimate).truncated_by ≢ none)
  unfolding finish
  finish-truncated c cursor estimate = ground arith

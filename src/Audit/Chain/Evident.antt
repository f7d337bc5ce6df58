-- ===== src/Audit/Chain/Evident.antt =====
-- A verified file is evidence: its last line determines all lines before it.
use ownpg.Base.{
  ℕ, suc, String, ◌≡◌, refl, sym, ap, ◌∙◌, ◌≢◌, ◌⊎◌, inl, inr, Bool, true, false, Option, none,
  some, List, [], ◌∷◌, ◌++◌, ◌==◌, length, last?, arith, eq_iff, Bool-cases, not, if◌then◌else◌,
}
use mathlib.Core.List.{append-nil}
use mathlib.Core.Path.{subst}
use ownpg.Json.{Value, get, str_at, is_text, ◌>>=◌ as and_then}
use ownpg.Classify.Statement.{Reply, given, failed}
use ownpg.Audit.Chain.{
  chain_start, Checked, ◌>>=◌, ◌>>◌, require, parsed, as_u64, is_some, broken, sound, marker_of,
  starts_file, check_version, check_link, check_value, verify_from, verify_chain, version_missing,
  prev_missing,
}

-- The first line of a file: a marker that starts a chain, or that goes on with another file's.
pub record IsHead (value : Value) : Type 0 where
  pub recorded : String
  pub has_prev : str_at "prev" value ≡ some recorded
  pub is_marker : is_text chain_start (marker_of value) ≡ true
  pub links : (recorded ≡ "") ⊎ (starts_file value ≡ true)

-- A later line, after one of the hash `prev`.
pub record IsNext (prev : String) (value : Value) : Type 0 where
  pub has_prev : str_at "prev" value ≡ some prev
  pub stays : starts_file value ≡ false

check_link-IsHead :
    (prev recorded : String) (value : Value)
    → str_at "prev" value ≡ some recorded
    → check_link 1 prev value recorded ≡ sound tt
    → IsHead value
unfolding check_link
check_link-IsHead prev recorded value e h = record {
  recorded = recorded;
  has_prev = e;
  is_marker = ground arith;
  links = ground (arith, eq_iff recorded "");
}

check_link-IsNext :
    (n : ℕ) (prev recorded : String) (value : Value)
    → str_at "prev" value ≡ some recorded
    → check_link (suc (suc n)) prev value recorded ≡ sound tt
    → IsNext prev value
unfolding check_link
check_link-IsNext n prev recorded value e h = record {
  has_prev = e ∙ ap some (ground (arith, eq_iff recorded prev));
  stays = ground arith;
}

bind-sound {ℓ κ} :
    {T : Type ℓ} {U : Type κ} (m : Checked T) (f : T → Checked U) (u : U)
    → (m >>= f) ≡ sound u
    → (t : T) × (m ≡ sound t) × (f t ≡ sound u)
bind-sound (broken line fault) f u h = cc
bind-sound (sound t) f u h = (t, refl, h)

parsed-sound :
    (number : ℕ) (r : Reply Value) (value : Value) → parsed number r ≡ sound value → r ≡ given value
parsed-sound number (failed reason) value h = cc
parsed-sound number (given v) value h = cc

sound-injective {ℓ} : {T : Type ℓ} (t u : T) → sound t ≡ sound u → t ≡ u
sound-injective t u h = cc

then-sound :
    (m : Checked (Unit {0})) (rest : Checked Bool) (b : Bool)
    → (m >> rest) ≡ sound b
    → (m ≡ sound tt) × (rest ≡ sound b)
then-sound (broken line fault) rest b h = cc
then-sound (sound tt) rest b h = (refl, h)

version-sound :
    (number : ℕ) (o : Option ℕ) (rest : Checked Bool) (b : Bool)
    → (require number version_missing o >>= λ version. check_version number version >> rest)
      ≡ sound b
    → rest ≡ sound b
version-sound number none rest b h = cc
version-sound number (some version) rest b h =
    (then-sound (check_version number version) rest b h).1

module _ (number : ℕ) (prev : String) (value : Value) (is_entry : Bool) where
  recorded-sound :
      (o : Option String)
      → (require number prev_missing o >>= λ recorded.
          check_link number prev value recorded >> sound (not (is_some (marker_of value))))
        ≡ sound is_entry
      → (recorded : String) × (o ≡ some recorded)
        × (check_link number prev value recorded ≡ sound tt)
        × (is_entry ≡ not (is_some (marker_of value)))
  recorded-sound none h = cc
  recorded-sound (some recorded) h =
      let (linked, e) = then-sound (check_link number prev value recorded) _ is_entry h in
      (recorded, refl, linked, sym (sound-injective _ _ e))

  -- What a line that passes its checks says.
  check_value-sound :
      check_value number prev value ≡ sound is_entry
      → (recorded : String) × (str_at "prev" value ≡ some recorded)
        × (check_link number prev value recorded ≡ sound tt)
        × (is_entry ≡ not (is_some (marker_of value)))
  unfolding check_value
  check_value-sound h =
      recorded-sound (str_at "prev" value)
        (version-sound number (and_then (get "v" value) as_u64) _ is_entry h)

-- The lines, turned round, before `later`.
abbrev onto : List String → List String → List String
onto [] later = later
onto (x ∷ xs) later = onto xs (x ∷ later)

onto-onto : (xs ys zs : List String) → onto (onto xs ys) zs ≡ onto ys (xs ++ zs)
onto-onto [] ys zs = refl
onto-onto (x ∷ xs) ys zs = onto-onto xs (x ∷ ys) zs

onto-injective : (xs ys : List String) → onto xs [] ≡ onto ys [] → xs ≡ ys
onto-injective xs ys h =
    sym (append-nil xs)
    ∙ sym (onto-onto xs [] [])
    ∙ ap (λ (l : List String). onto l []) h
    ∙ onto-onto ys [] []
    ∙ append-nil ys

some-injective : (a b : String) → some a ≡ some b → a ≡ b
some-injective a b e = cc

last-onto :
    (xs later : List String) (y : String)
    → last? xs ≡ some y
    → (zs : List String) × (onto xs later ≡ y ∷ zs)
last-onto [] later y h = cc
last-onto (x ∷ []) later y h = (later, ap (λ (z : String). z ∷ later) (some-injective x y h))
last-onto (x ∷ z ∷ xs) later y h = last-onto (z ∷ xs) (x ∷ later) y h

-- Two texts with one digest.
pub record Collision (sha256_hex : String → String) : Type 0 where
  pub left : String
  pub right : String
  pub differ : left ≢ right
  pub agree : sha256_hex left ≡ sha256_hex right

module _ (parse : String → Reply Value) (sha256_hex : String → String) where
  -- The lines of a file, the last one first, each of which records the digest of the one before.
  unfoldable pub Linked : List String → Type 0
  Linked [] = Unit
  Linked (x ∷ []) = (value : Value) × (parse x ≡ given value) × IsHead value
  Linked (x ∷ y ∷ zs) =
      (value : Value) × (parse x ≡ given value) × IsNext (sha256_hex y) value × Linked (y ∷ zs)

  digest : List String → String
  digest [] = ""
  digest (x ∷ xs) = sha256_hex x

  Linked-check_value :
      (before : List String) (line : String) (value : Value) (is_entry : Bool)
      → Linked before
      → parse line ≡ given value
      → check_value (suc (length before)) (digest before) value ≡ sound is_entry
      → Linked (line ∷ before)
  unfolding Linked digest
  Linked-check_value [] line value is_entry h e k =
      let (recorded, has_prev, linked, _) = check_value-sound 1 "" value is_entry k in
      (value, e, check_link-IsHead "" recorded value has_prev linked)
  Linked-check_value (y ∷ zs) line value is_entry h e k =
      let (recorded, has_prev, linked, _) =
        check_value-sound (suc (suc (length zs))) (sha256_hex y) value is_entry k in
      (value, e, check_link-IsNext (length zs) (sha256_hex y) recorded value has_prev linked, h)

  verify_from-Linked :
      (before lines : List String) (torn : String) (count n : ℕ)
      → Linked before
      → verify_from parse sha256_hex (length before) (digest before) count lines torn ≡ sound n
      → Linked (onto lines before)
  unfolding verify_from digest
  verify_from-Linked before [] torn count n h k = h
  verify_from-Linked before (line ∷ lines) torn count n h k =
      let (value, e, k1) = bind-sound (parsed (suc (length before)) (parse line)) _ n k in
      let (is_entry, checked, k2) =
        bind-sound (check_value (suc (length before)) (digest before) value) _ n k1 in
      verify_from-Linked (line ∷ before) lines torn (if is_entry then suc count else count) n
        (Linked-check_value before line value is_entry h (parsed-sound _ (parse line) value e)
          checked)
        k2

  verify_chain-Linked :
      (lines : List String) (torn : String) (n : ℕ)
      → verify_chain parse sha256_hex lines torn ≡ sound n
      → Linked (onto lines [])
  unfolding verify_chain digest Linked
  verify_chain-Linked lines torn n h = verify_from-Linked [] lines torn 0 n tt h

  -- A head is no later line: it records no digest, or it opens a file.
  head_no_next :
      (x y : String) (v w : Value)
      → ((z : String) → sha256_hex z ≢ "")
      → parse x ≡ given v
      → IsHead v
      → parse x ≡ given w
      → IsNext (sha256_hex y) w
      → ⊥
  head_no_next x y v w digests e head d next =
      let same : v ≡ w = cc in
      let recorded : head.recorded ≡ sha256_hex y = cc in
      elim head.links [
        | inl blank ↦ digests y (sym recorded ∙ blank)
        | inr opens ↦ (let closed = next.stays in cc)
      ]

  Linked-same :
      (x : String) (xs ys : List String)
      → ((z : String) → sha256_hex z ≢ "")
      → Linked (x ∷ xs)
      → Linked (x ∷ ys)
      → (xs ≡ ys) ⊎ Collision sha256_hex
  unfolding Linked
  Linked-same x [] [] digests h k = inl refl
  Linked-same x [] (y ∷ ys) digests (v, e, head) (w, d, next, _) =
      absurd (head_no_next x y v w digests e head d next)
  Linked-same x (y ∷ ys) [] digests (w, d, next, _) (v, e, head) =
      absurd (head_no_next x y v w digests e head d next)
  Linked-same x (y ∷ ys) (z ∷ zs) digests (v, e, next, h) (w, d, next', k) =
      let same : v ≡ w = cc in
      let agree : sha256_hex y ≡ sha256_hex z =
        some-injective _ _ (sym next.has_prev ∙ ap (str_at "prev") same ∙ next'.has_prev) in
      elim (Bool-cases (y == z)) [
        | inl e ↦
            let one : y ≡ z = (eq_iff y z).0 e in
            elim (Linked-same y ys zs digests h
              (subst (λ (t : String). Linked (t ∷ zs)) (sym one) k)) [
                | inl rest ↦ inl cc
                | inr collision ↦ inr collision
              ]
        | inr n ↦ inr record {
          left = y;
          right = z;
          differ = λ one. (let e = (eq_iff y z).1 one in cc);
          agree = agree;
        }
      ]

  -- Two files that verify and end with the same line are the same file, line by line, or they
  -- exhibit two texts with one digest. No text has an empty digest.
  pub verify_chain-evident :
      (lines lines' : List String) (torn torn' : String) (n n' : ℕ) (x : String)
      → ((z : String) → sha256_hex z ≢ "")
      → verify_chain parse sha256_hex lines torn ≡ sound n
      → verify_chain parse sha256_hex lines' torn' ≡ sound n'
      → last? lines ≡ some x
      → last? lines' ≡ some x
      → (lines ≡ lines') ⊎ Collision sha256_hex
  verify_chain-evident lines lines' torn torn' n n' x digests h h' e e' =
      let (xs, r) = last-onto lines [] x e in
      let (ys, r') = last-onto lines' [] x e' in
      let h1 : Linked (x ∷ xs) = subst Linked r (verify_chain-Linked lines torn n h) in
      let h2 : Linked (x ∷ ys) = subst Linked r' (verify_chain-Linked lines' torn' n' h') in
      elim (Linked-same x xs ys digests h1 h2) [
        | inl same ↦
            inl (onto-injective lines lines' (r ∙ ap (λ (l : List String). x ∷ l) same ∙ sym r'))
        | inr collision ↦ inr collision
      ]

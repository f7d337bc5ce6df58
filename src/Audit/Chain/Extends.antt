-- ===== src/Audit/Chain/Extends.antt =====
-- A verified file stays verified when a well-linked line is added to it.
use ownpg.Base.{
  ℕ, suc, ◌<◌, String, ◌≡◌, refl, ap, ◌∙◌, ◌⊎◌, Bool, true, false, not, some, List, [], ◌∷◌, ◌++◌,
  arith, eq_iff, if◌then◌else◌,
}
use ownpg.Json.{Value, get, str_at, ◌>>=◌ as and_then}
use ownpg.Classify.Statement.{Reply, given}
use ownpg.Audit.Chain.{
  chain_start, Checked, broken, sound, ◌>>=◌, parsed, as_u64, is_some, marker_of, starts_file,
  check_version, check_link, check_value, verify_from, verify_chain,
}

abbrev advance : ℕ → List String → ℕ
advance number [] = number
advance number (x ∷ xs) = advance (suc number) xs

advance-pos : (number : ℕ) (xs : List String) → 0 < number → 0 < advance number xs
advance-pos number [] h = h
advance-pos number (x ∷ xs) h = advance-pos (suc number) xs (omega arith)

-- A line that goes on with a chain whose last digest is `prev`, in the format that is read.
pub record Continues (prev : String) (value : Value) : Type 0 where
  pub version : ℕ
  pub has_version : and_then (get "v" value) as_u64 ≡ some version
  pub known : check_version 0 version ≡ sound tt
  pub has_prev : str_at "prev" value ≡ some prev
  pub stays : starts_file value ≡ false

known-anywhere :
    (number version : ℕ)
    → check_version 0 version ≡ sound tt
    → check_version number version ≡ sound tt
unfolding check_version
known-anywhere number version h = ground arith

linked_later :
    (number : ℕ) (prev : String) (value : Value)
    → 0 < number
    → starts_file value ≡ false
    → check_link (suc number) prev value prev ≡ sound tt
unfolding check_link
linked_later number prev value h stays = ground (arith, eq_iff prev prev)

check_value-Continues :
    (number : ℕ) (prev : String) (value : Value)
    → 0 < number
    → Continues prev value
    → check_value (suc number) prev value ≡ sound (not (is_some (marker_of value)))
unfolding check_value
check_value-Continues number prev value h c = rw c.has_version (
    rw (known-anywhere (suc number) c.version c.known)
      (rw c.has_prev (rw (linked_later number prev value h c.stays) refl)))

-- A line that can open a file: a chain-start marker that follows nothing, or says what it follows.
pub record Opens (value : Value) : Type 0 where
  pub version : ℕ
  pub recorded : String
  pub has_version : and_then (get "v" value) as_u64 ≡ some version
  pub known : check_version 0 version ≡ sound tt
  pub has_prev : str_at "prev" value ≡ some recorded
  pub is_marker : marker_of value ≡ some chain_start
  pub links : (recorded ≡ "") ⊎ (starts_file value ≡ true)

opened : (value : Value) (o : Opens value) → check_link 1 "" value o.recorded ≡ sound tt
unfolding check_link
opened value o = rw o.is_marker (ground (arith, eq_iff o.recorded "", o.links))

check_value-Opens : (value : Value) → Opens value → check_value 1 "" value ≡ sound false
unfolding check_value
check_value-Opens value o = rw o.has_version (
    rw (known-anywhere 1 o.version o.known)
      (rw o.has_prev (rw (opened value o) (rw o.is_marker refl))))

-- Two runs that agree on the checks of a line agree where their continuations do.
bind-extends {ℓ} :
    {T : Type ℓ} (m : Checked T) (f g : T → Checked ℕ) (n : ℕ) (z : Checked ℕ)
    → ((t : T) → f t ≡ sound n → g t ≡ z)
    → (m >>= f) ≡ sound n
    → (m >>= g) ≡ z
bind-extends (broken line fault) f g n z step h = cc
bind-extends (sound t) f g n z step h = step t h

-- The digest of the last line.
abbrev pub digest_after : (String → String) → String → List String → String
digest_after sha256_hex prev [] = prev
digest_after sha256_hex prev (x ∷ xs) = digest_after sha256_hex (sha256_hex x) xs

module _ (parse : String → Reply Value) (sha256_hex : String → String) where
  verify_from-append :
      (lines : List String) (number : ℕ) (prev : String) (count n : ℕ) (torn line : String)
      → verify_from parse sha256_hex number prev count lines torn ≡ sound n
      → verify_from parse sha256_hex number prev count (lines ++ line ∷ []) ""
        ≡ verify_from parse sha256_hex
            (advance number lines)
            (digest_after sha256_hex prev lines)
            n
            (line ∷ [])
            ""
  unfolding verify_from
  verify_from-append [] number prev count n torn line h =
      let same : count ≡ n = ground arith in
      ap (λ (m : ℕ). verify_from parse sha256_hex number prev m (line ∷ []) "") same
  verify_from-append (x ∷ xs) number prev count n torn line h =
      let rest : Bool → List String → String → Checked ℕ = λ b ls t.
        verify_from parse sha256_hex (suc number) (sha256_hex x) (if b then suc count else count) ls
          t in
      let z =
        verify_from parse sha256_hex (advance (suc number) xs)
          (digest_after sha256_hex (sha256_hex x) xs) n (line ∷ []) "" in
      bind-extends (parsed (suc number) (parse x))
        (λ value. check_value (suc number) prev value >>= λ b. rest b xs torn)
        (λ value. check_value (suc number) prev value >>= λ b. rest b (xs ++ line ∷ []) "") n z
        (λ value.
          bind-extends (check_value (suc number) prev value) (λ b. rest b xs torn)
            (λ b. rest b (xs ++ line ∷ []) "") n z
            (λ b.
              verify_from-append xs (suc number) (sha256_hex x) (if b then suc count else count) n
                torn line))
        h

  -- A line that is in the format, records the digest of the last line and opens no file can be
  -- added to a file that verifies and is not empty: the file still verifies, and counts one more
  -- entry unless the line is a marker.
  pub verify_chain-append :
      (first : String) (rest : List String) (torn line : String) (n : ℕ) (value : Value)
      → verify_chain parse sha256_hex (first ∷ rest) torn ≡ sound n
      → parse line ≡ given value
      → Continues (digest_after sha256_hex "" (first ∷ rest)) value
      → verify_chain parse sha256_hex ((first ∷ rest) ++ line ∷ []) ""
        ≡ sound (if not (is_some (marker_of value)) then suc n else n)
  unfolding verify_chain
  verify_chain-append first rest torn line n value h e c =
      verify_from-append (first ∷ rest) 0 "" 0 n torn line h
      ∙ (unfold verify_from in
          rw e (
            rw
              (check_value-Continues (advance 1 rest) (digest_after sha256_hex "" (first ∷ rest))
                value (advance-pos 1 rest (omega arith)) c)
              refl))

  -- A file of one opening line verifies, and counts no entry.
  pub verify_chain-Opens :
      (line : String) (value : Value)
      → parse line ≡ given value
      → Opens value
      → verify_chain parse sha256_hex (line ∷ []) "" ≡ sound 0
  unfolding verify_chain verify_from
  verify_chain-Opens line value e o = rw e (rw (check_value-Opens value o) refl)

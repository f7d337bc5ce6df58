-- ===== src/Audit/Sound/Lines.antt =====
-- A line that is written keeps the files sound.
use Prim.Native.String.{len, ◌++◌ as str_append}
use text.Mathlib.TextLemmas.{nil-append}
use mathlib.Core.Path.{subst}
use ownpg.Base.{
  ℕ, suc, String, ◌≡◌, ◌≢◌, refl, sym, ap, ◌∙◌, ◌⊎◌, inl, inr, Bool, true, not, Option, some, List,
  [], ◌∷◌, ◌++◌, any, leb, eqb, last?, last-append, arith, Bool-cases, if-keeps, if◌then◌else◌,
}
use ownpg.Json.{Value, as_str, ◌>>=◌}
use ownpg.Classify.Statement.{Reply, given}
use ownpg.Audit.Chain.{sound, is_some, marker_of, starts_file, as_u64, verify_chain}
use ownpg.Audit.Chain.Extends.{
  Continues, Opens, digest_after, verify_chain-append, verify_chain-Opens,
}
use ownpg.Audit.Disk.{Disk, File, put}
use ownpg.Audit.Log.{Env, tail_scan_bytes}
use ownpg.Audit.Sound.{IsRead, IsLine, Agrees, IsIdle, IsGood, Follows, DiskSound}

any-append_left :
    (p : String → Bool) (xs ys : List String) → any p xs ≡ true → any p (xs ++ ys) ≡ true
any-append_left p [] ys h = cc
any-append_left p (x ∷ xs) ys h = (let rest = any-append_left p xs ys in ground arith)

some-injective : (a b : String) → some a ≡ some b → a ≡ b
some-injective a b h = cc

any-last :
    (p : String → Bool) (xs : List String) (x : String)
    → last? xs ≡ some x
    → p x ≡ true
    → any p xs ≡ true
any-last p [] x e h = cc
any-last p (y ∷ []) x e h = (let same : y ≡ x = some-injective y x e in rw same (rw h refl))
any-last p (y ∷ z ∷ xs) x e h = (let rest = any-last p (z ∷ xs) x e h in ground arith)

digest_after-last :
    (sha : String → String) (prev : String) (xs : List String) (x : String)
    → last? xs ≡ some x
    → digest_after sha prev xs ≡ sha x
digest_after-last sha prev [] x h = cc
digest_after-last sha prev (y ∷ []) x h = ap sha (some-injective y x h)
digest_after-last sha prev (y ∷ z ∷ xs) x h = digest_after-last sha (sha y) (z ∷ xs) x h

eqb_self : (n : ℕ) → eqb n n ≡ true
eqb_self n = ground arith

eqb-eq : (m n : ℕ) → eqb m n ≡ true → m ≡ n
eqb-eq m n h = ground arith

-- What the check of the chain reads of a line is read of a line that agrees with it.
module _ (v w : Value) (h : Agrees v w) where
  Agrees-marker_of : marker_of w ≡ marker_of v
  unfolding marker_of
  Agrees-marker_of = ap (λ (o : Option Value). o >>= as_str) h.marker

  Agrees-starts_file : starts_file w ≡ starts_file v
  unfolding starts_file
  Agrees-starts_file = rw (Agrees-marker_of, h.rotated_from, h.resumed) refl

  Agrees-Continues : (prev : String) → Continues prev v → Continues prev w
  Agrees-Continues prev c = record {
    version = c.version;
    has_version = ap (λ (o : Option Value). o >>= as_u64) h.version ∙ c.has_version;
    known = c.known;
    has_prev = ap (λ (o : Option Value). o >>= as_str) h.prev ∙ c.has_prev;
    stays = Agrees-starts_file ∙ c.stays;
  }

  Agrees-Opens : Opens v → Opens w
  Agrees-Opens o = record {
    version = o.version;
    recorded = o.recorded;
    has_version = ap (λ (x : Option Value). x >>= as_u64) h.version ∙ o.has_version;
    known = o.known;
    has_prev = ap (λ (x : Option Value). x >>= as_str) h.prev ∙ o.has_prev;
    is_marker = Agrees-marker_of ∙ o.is_marker;
    links = elim o.links [ inl blank ↦ inl blank | inr starts ↦ inr (Agrees-starts_file ∙ starts) ];
  }

module _ (env : Env) (parse : String → Reply Value) (reads : IsRead env.to_string parse) where
  abbrev sha : String → String
  sha = env.sha256_hex

  -- A file with one more line.
  abbrev pub longer : File → String → File
  longer f text = record f {
    lines = f.lines ++ (str_append f.torn text) ∷ [];
    torn = "";
    modified = env.now;
  }

  -- The line may be written next: the file is empty and the line opens one, or it goes on.
  abbrev pub Admits : String → File → Value → Type 0
  Admits prev f value =
      IsLine value × ((IsIdle f × Opens value) ⊎ (Follows parse sha prev f × Continues prev value))

  -- A file that verifies is followed by its last line, if that is not too long.
  Follows-last :
      (g : File) (line : String) (n : ℕ)
      → last? g.lines ≡ some line
      → g.torn ≡ ""
      → verify_chain parse sha g.lines "" ≡ sound n
      → Follows parse sha (sha line) g
  Follows-last g line n e whole h = elim (Bool-cases (leb tail_scan_bytes (len line))) [
    | inl long ↦ inl (any-last (λ l. leb tail_scan_bytes (len l)) g.lines line e long, whole)
    | inr short ↦ inr (
      record {
        last = line;
        count = n;
        is_last = e;
        whole = whole;
        verifies = h;
        fits = ground arith;
      },
      refl,
    )
  ]

  verified-append :
      (lines : List String) (x line : String) (n : ℕ) (value : Value)
      → last? lines ≡ some x
      → verify_chain parse sha lines "" ≡ sound n
      → parse line ≡ given value
      → Continues (sha x) value
      → (m : ℕ) × (verify_chain parse sha (lines ++ line ∷ []) "" ≡ sound m)
  verified-append [] x line n value e h r c = cc
  verified-append (y ∷ ys) x line n value e h r c =
      let last = digest_after-last sha "" (y ∷ ys) x e in
      (
        if not (is_some (marker_of value)) then suc n else n,
        verify_chain-append parse sha y ys "" line n value h r
            (subst (λ (t : String). Continues t value) (sym last) c),
      )

  verified-first :
      (lines : List String) (line : String) (value : Value)
      → lines ≡ []
      → parse line ≡ given value
      → Opens value
      → verify_chain parse sha (lines ++ line ∷ []) "" ≡ sound 0
  verified-first [] line value e r o = verify_chain-Opens parse sha line value r o
  verified-first (x ∷ xs) line value e r o = cc

  pub untorn : (f : File) (text : String) → f.torn ≡ "" → str_append f.torn text ≡ text
  untorn f text h = ap (λ (t : String). str_append t text) h ∙ nil-append text

  pub longer-Follows :
      (prev : String) (f : File) (value : Value)
      → Admits prev f value
      → Follows parse sha (sha (env.to_string value)) (longer f (env.to_string value))
  longer-Follows prev f value (is_line, inl (idle, opens)) =
      let line = env.to_string value in
      let (found, read, agrees) = reads value is_line in
      let same = untorn f line idle.1 in
      subst (λ (t : String). Follows parse sha (sha t) (longer f line)) same
        (Follows-last (longer f line) (str_append f.torn line) 0
          (last-append f.lines (str_append f.torn line)) refl
          (verified-first f.lines (str_append f.torn line) found idle.0 (ap parse same ∙ read)
            (Agrees-Opens value found agrees opens)))
  longer-Follows prev f value (is_line, inr (inl long, continues)) =
      inl (any-append_left (λ l. leb tail_scan_bytes (len l)) f.lines _ long.0, refl)
  longer-Follows prev f value (is_line, inr (inr (v, e), continues)) =
      let line = env.to_string value in
      let (found, read, agrees) = reads value is_line in
      let same = untorn f line v.whole in
      let (m, verifies) =
        verified-append f.lines v.last (str_append f.torn line) v.count found v.is_last v.verifies
          (ap parse same ∙ read)
          (subst (λ (t : String). Continues t found) e
            (Agrees-Continues value found agrees prev continues)) in
      subst (λ (t : String). Follows parse sha (sha t) (longer f line)) same
        (Follows-last (longer f line) (str_append f.torn line) m
          (last-append f.lines (str_append f.torn line)) refl verifies)

  pub Follows-IsGood : (prev : String) (f : File) → Follows parse sha prev f → IsGood parse sha f
  Follows-IsGood prev f (inl long) = inr (inr long)
  Follows-IsGood prev f (inr (v, e)) = inr (inl v)

  pub Admits-IsGood :
      (prev : String) (f : File) (value : Value)
      → Admits prev f value
      → IsGood parse sha f × (f.torn ≡ "")
  Admits-IsGood prev f value (_, inl (idle, _)) = (inl idle, idle.1)
  Admits-IsGood prev f value (_, inr (inl long, _)) = (inr (inr long), long.1)
  Admits-IsGood prev f value (_, inr (inr (v, e), _)) = (inr (inl v), v.whole)

  pub put-DiskSound :
      (d : Disk) (id : ℕ) (f : File)
      → DiskSound parse sha d
      → IsGood parse sha f
      → DiskSound parse sha (put id f d)
  unfolding put
  put-DiskSound d id f h good = record {
    files = λ other. if-keeps (IsGood parse sha) (eqb other id) (λ _. good) (λ _. h.files other);
    quiet = h.quiet;
    known = h.known;
  }

  pub put-same : (d : Disk) (id : ℕ) (f : File) → (put id f d).file id ≡ f
  unfolding put
  put-same d id f = rw (eqb_self id) refl

  pub put-other :
      (d : Disk) (id other : ℕ) (f : File) → other ≢ id → (put id f d).file other ≡ d.file other
  unfolding put
  put-other d id other f h =
      if-keeps (λ (g : File). g ≡ d.file other) (eqb other id) (λ e. absurd (h (ground arith)))
        (λ _. refl)

  pub put-nothing :
      (d : Disk) (id other : ℕ) (f : File) → f ≡ d.file id → (put id f d).file other ≡ d.file other
  unfolding put
  put-nothing d id other f h =
      if-keeps (λ (g : File). g ≡ d.file other) (eqb other id)
        (λ e. h ∙ ap d.file (sym (eqb-eq other id e))) (λ _. refl)

-- ===== src/Audit/Sound/Tail.antt =====
-- The end of a file that is opened is read again: `recover_tail` of crates/ownpg-core/src/audit.rs.
use Prim.Native.String.{len}
use mathlib.Core.Path.{subst}
use ownpg.Base.{
  true≢false, eq_iff, not, ℕ, ◌+◌, ◌<◌, ◌≤◌, String, ◌≡◌, refl, sym, ap, ◌∙◌, ◌⊎◌, inl, inr, true,
  false, List, [], ◌∷◌, last?, leb, eqb, arith, if-keeps, if◌then◌else◌,
}
use ownpg.Json.{Value}
use ownpg.Errors.{Result, ok, err}
use ownpg.Classify.Statement.{Reply}
use ownpg.Audit.Disk.{Disk, File, call, file_size, size_of, fault-keeps}
use ownpg.Audit.Log.{
  Env, Io, after, tail_scan_bytes, ends_within, fallible, tail_digest, or_empty, holds_text,
  recover_lines, read_tail, recover_tail,
}
use ownpg.Audit.Sound.{IsRead, IsIdle, IsGood, Follows, DiskSound}
use ownpg.Audit.Sound.Writing.{SameFiles, call-DiskSound}

ends_within_self : (n : ℕ) (s : String) → len s ≤ n → ends_within n s ≡ s
unfolding ends_within
ends_within_self n String.[] h = refl
ends_within_self n (String.◌∷◌ c s) h =
    (let fits : leb (len (String.◌∷◌ c s)) n ≡ true = ground arith in rw fits refl)

size-none : (lines : List String) (torn : String) → size_of lines + len torn ≤ 0 → lines ≡ []
unfolding size_of
size-none [] torn h = refl
size-none (l ∷ ls) torn h = absurd (omega (arith, h))

pub SameFiles-trans : (a b c : Disk) → SameFiles a b → SameFiles b c → SameFiles a c
SameFiles-trans a b c (h, m) (k, n) = (λ id. k id ∙ h id, omega (arith, m, n))

module _ (env : Env) (parse : String → Reply Value) (reads : IsRead env.to_string parse) where
  abbrev sha : String → String
  sha = env.sha256_hex

  -- No file changes, and a result is one of these.
  abbrev pub Reads : {T : Type 0} → (T → Type 0) → Disk → Result T × Disk → Type 0
  Reads P d (ok value, d') = DiskSound parse sha d' × (SameFiles d d' × P value)
  Reads P d (err error, d') = DiskSound parse sha d' × SameFiles d d'

  pub fallible-Reads :
      (path : String) (d : Disk) → DiskSound parse sha d → Reads (λ _. Unit) d (fallible env path d)
  unfolding fallible call
  fallible-Reads path d h =
      let quiet = call-DiskSound env parse reads d h in
      let same : SameFiles d d = (λ id. refl, omega arith) in
      fault-keeps (λ (r : Result (Unit {0}) × Disk). Reads (λ _. Unit) d r) (call d).0
        (quiet, (same, tt)) (quiet, same)

  later-Reads :
      {U : Type 0} (Q : U → Type 0) (d d' : Disk) (r : Result U × Disk)
      → SameFiles d d'
      → Reads Q d' r
      → Reads Q d r
  later-Reads Q d d' (ok value, e) same (h, (same', p)) =
      (h, (SameFiles-trans d d' e same same', p))
  later-Reads Q d d' (err error, e) same (h, same') = (h, SameFiles-trans d d' e same same')

  pub after-Reads :
      {T U : Type 0} (P : T → Type 0) (Q : U → Type 0) (d : Disk) (r : Result T × Disk)
      (next : T → Io U)
      → Reads P d r
      → ((value : T) (d' : Disk)
          → DiskSound parse sha d'
          → SameFiles d d'
          → P value
          → Reads Q d' (next value d'))
      → Reads Q d (after r next)
  after-Reads P Q d (ok value, d') next (h, (same, p)) k =
      later-Reads Q d d' (next value d') same (k value d' h same p)
  after-Reads P Q d (err error, d') next h k = h

  -- What is known of a file whose end was read.
  abbrev pub Recovered : File → ℕ × String → Type 0
  Recovered f (written, tail) =
      ((eqb written 0 ≡ true) × IsIdle f) ⊎ ((eqb written 0 ≡ false) × Follows parse sha tail f)

  tail_digest-last :
      (line : String) → len line < tail_scan_bytes → tail_digest env 65535 line ≡ sha line
  tail_digest-last line h = ap sha (ends_within_self 65535 line (omega arith))

  tail-Recovered :
      (f : File)
      → IsGood parse sha f
      → leb (file_size f) 0 ≡ false
      → Recovered f (file_size f, tail_digest env 65535 (or_empty (last? f.lines)))
  unfolding file_size size_of
  tail-Recovered f (inl (idle, whole)) h =
      (let no_lines : size_of f.lines ≡ 0 = ap size_of idle in
        let no_text : len f.torn ≡ 0 = ap len whole in ground arith)
  tail-Recovered f (inr (inl v)) h =
      let same : or_empty (last? f.lines) ≡ v.last = ap or_empty v.is_last in
      inr (ground arith, inr (v, ap (tail_digest env 65535) same ∙ tail_digest-last v.last v.fits))
  tail-Recovered f (inr (inr long)) h = inr (ground arith, inl long)

  IsGood-whole : (f : File) → IsGood parse sha f → f.torn ≡ ""
  IsGood-whole f (inl (_, whole)) = whole
  IsGood-whole f (inr (inl v)) = v.whole
  IsGood-whole f (inr (inr (_, whole))) = whole

  recover_lines-Reads :
      (path : String) (id : ℕ) (d : Disk)
      → DiskSound parse sha d
      → leb (file_size (d.file id)) 0 ≡ false
      → Reads (Recovered (d.file id)) d (recover_lines env path id d)
  unfolding recover_lines
  recover_lines-Reads path id d h e =
      let f = d.file id in
      let same : SameFiles d d = (λ id. refl, omega arith) in
      let blank : holds_text f.torn ≡ false =
        ap not ((eq_iff f.torn "").1 (IsGood-whole f (h.files id))) in
      if-keeps (λ (r : Result (ℕ × String) × Disk). Reads (Recovered f) d r) (holds_text f.torn)
        (λ full. absurd (true≢false (sym full ∙ blank)))
        (λ _. (h, (same, tail-Recovered f (h.files id) e)))

  read_tail-Reads :
      (path : String) (id : ℕ) (d : Disk)
      → DiskSound parse sha d
      → leb (file_size (d.file id)) 0 ≡ false
      → Reads (Recovered (d.file id)) d (read_tail env path id d)
  unfolding read_tail
  read_tail-Reads path id d h e =
      after-Reads (λ _. Unit) (Recovered (d.file id)) d (fallible env path d)
        (λ _. recover_lines env path id) (fallible-Reads path d h)
        (λ _ d' h' same _.
          subst (λ (f : File). Reads (Recovered f) d' (recover_lines env path id d')) (same.0 id)
            (recover_lines-Reads path id d' h'
              (ap (λ (f : File). leb (file_size f) 0) (same.0 id) ∙ e)))

  recover_open-Reads :
      (path : String) (id : ℕ) (d : Disk)
      → DiskSound parse sha d
      → Reads
          (Recovered (d.file id))
          d
          (if leb (file_size (d.file id)) 0 then (ok (0, ""), d) else read_tail env path id d)
  unfolding file_size
  recover_open-Reads path id d h =
      if-keeps (λ (r : Result (ℕ × String) × Disk). Reads (Recovered (d.file id)) d r)
        (leb (file_size (d.file id)) 0)
        (λ e.
          (let f = d.file id in
            let idle : IsIdle f =
              (size-none f.lines f.torn (ground arith), IsGood-whole f (h.files id)) in
            (h, ((λ id. refl, omega arith), inl (refl, idle)))))
        (λ e. read_tail-Reads path id d h e)

  pub recover_tail-Reads :
      (path : String) (id : ℕ) (d : Disk)
      → DiskSound parse sha d
      → Reads (Recovered (d.file id)) d (recover_tail env path id d)
  unfolding recover_tail
  recover_tail-Reads path id d h =
      after-Reads (λ _. Unit) (Recovered (d.file id)) d (fallible env path d) _
        (fallible-Reads path d h)
        (λ _ d' h' same _.
          subst
            (λ (f : File). Reads (Recovered f) d' (
              if leb (file_size (d'.file id)) 0
              then (ok (0, ""), d')
              else read_tail env path id d'))
            (same.0 id) (recover_open-Reads path id d' h'))

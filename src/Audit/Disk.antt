-- ===== src/Audit/Disk.antt =====
-- The directory of the audit files, as crates/ownpg-core/src/audit.rs uses `std::fs`. A name leads to
-- a file; a file that has lost its name stays, since a handle can still write to it. A file is its
-- complete lines and what follows the last line feed. Every call of the file system takes its result
-- from `faults`; when the list is used up, calls succeed.
use Prim.Native.String.{len}
use ownpg.Base.{
  refl, ◌≤◌, ◌≡◌, ap, ◌∙◌, eq_iff, if-keeps, arith, length, ℕ, suc, ◌+◌, String, Bool, false,
  Option, none, some, List, [], ◌∷◌, ◌==◌, eqb, if◌then◌else◌,
}

-- A failed write leaves a part of its text where it cannot be cut back.
pub data Fault : Type 0 where
  works fails : Fault
  leaves : (part : String) → Fault

pub record File : Type 0 where
  pub lines : List String
  pub torn : String
  pub modified : ℕ
  -- some open handle holds its lock
  pub taken : Bool

pub record Disk : Type 0 where
  pub names : List (String × ℕ)
  pub file : ℕ → File
  pub next : ℕ
  pub faults : List Fault

abbrev pub new_file : File
new_file = record { lines = []; torn = ""; modified = 0; taken = false }

first_fault : List Fault → Fault
first_fault [] = works
first_fault (f ∷ fs) = f

later_faults : List Fault → List Fault
later_faults [] = []
later_faults (f ∷ fs) = fs

-- One call of the file system.
unfoldable pub call : Disk → Fault × Disk
unfolding first_fault later_faults
call d = (first_fault d.faults, record d { faults = later_faults d.faults })

unfoldable pub named : String → List (String × ℕ) → Option ℕ
named name [] = none
named name ((known, id) ∷ rest) = if known == name then some id else named name rest

unfoldable pub without : String → List (String × ℕ) → List (String × ℕ)
without name [] = []
without name ((known, id) ∷ rest) =
    let others = without name rest in if known == name then others else (known, id) ∷ others

abbrev pub update : (ℕ → File) → ℕ → File → ℕ → File
update file id f other = if eqb other id then f else file other

unfoldable pub put : ℕ → File → Disk → Disk
put id f d = record d { file = update d.file id f }

-- `OpenOptions` with `create`: the file of this name, or a new one.
unfoldable pub create : String → Disk → ℕ × Disk
unfolding named put
create name d = elim (named name d.names) [
  | some id ↦ (id, d)
  | none ↦ (
    d.next,
    put d.next new_file (record d { names = (name, d.next) ∷ d.names; next = suc d.next }),
  )
]

-- `fs::rename`, which replaces a file of the new name, and fails where the old name leads to none.
unfoldable pub rename : String → String → Disk → Option Disk
unfolding named without
rename old new d = elim (named old d.names) [
  | some id ↦ some (record d { names = (new, id) ∷ without new (without old d.names) })
  | none ↦ none
]

unfoldable pub remove : String → Disk → Disk
unfolding without
remove name d = record d { names = without name d.names }

-- `metadata().len()`
unfoldable pub size_of : List String → ℕ
size_of [] = 0
size_of (l ∷ ls) = suc (len l) + size_of ls

unfoldable pub file_size : File → ℕ
unfolding size_of
file_size f = size_of f.lines + len f.torn

-- What holds of both ends of a call holds of its end.
pub fault-keeps {ℓ κ} :
    {A : Type ℓ} (P : A → Type κ) (outcome : Fault) {x y : A}
    → P x
    → P y
    → P (elim outcome [ works ↦ x | _ ↦ y ])
fault-keeps P works p q = p
fault-keeps P fails p q = q
fault-keeps P (leaves part) p q = q

-- A name that is taken away leaves the others where they lead.
pub named-without :
    (name other : String) (names : List (String × ℕ))
    → (other == name) ≡ false
    → named name (without other names) ≡ named name names
unfolding named without
named-without name other [] h = refl
named-without name other ((known, id) ∷ rest) h =
    let ih = named-without name other rest h in
    if-keeps (λ (l : List (String × ℕ)). named name l ≡ named name ((known, id) ∷ rest))
      (known == other)
      (λ e.
        (let same : (known == name) ≡ false =
            ap (λ (k : String). k == name) ((eq_iff known other).0 e) ∙ h in
          rw same ih))
      (λ _. ap (λ (o : Option ℕ). if known == name then some id else o) ih)

pub length-without :
    (name : String) (names : List (String × ℕ)) → length (without name names) ≤ length names
unfolding without
length-without name [] = omega arith
length-without name ((known, id) ∷ rest) =
    let ih = length-without name rest in
    if-keeps (λ (l : List (String × ℕ)). length l ≤ suc (length rest)) (known == name)
      (λ _. omega (arith, ih)) (λ _. omega (arith, ih))

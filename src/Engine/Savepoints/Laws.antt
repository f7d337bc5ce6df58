-- ===== src/Engine/Savepoints/Laws.antt =====
-- Rolling back to a savepoint keeps it and what came before it.
use ownpg.Base.{
  ℕ, suc, String, ◌≡◌, refl, ap, ◌∙◌, true, false, Option, none, some, List, [], ◌∷◌, ◌++◌, any,
  arith, eq_iff, Bool-cases, Option-cases, sym, inl, inr,
}
use ownpg.Errors.{ok}
use ownpg.Engine.Savepoints.{
  is_named, position_before, check_savepoint, rposition, truncate, truncate_savepoints,
}

-- The savepoints up to the last one of the name, which the database keeps as well.
pub record IsSplit (name : String) (savepoints kept : List String) : Type 0 where
  pub before : List String
  pub later : List String
  pub whole : savepoints ≡ before ++ name ∷ later
  pub last : any (is_named name) later ≡ false
  pub cut : kept ≡ before ++ name ∷ []

rposition-none :
    (name : String) (xs : List String) → rposition name xs ≡ none → any (is_named name) xs ≡ false
unfolding rposition
rposition-none name [] h = refl
rposition-none name (x ∷ xs) h = go (rposition name xs) refl (rposition-none name xs) h
  where
    go :
        (o : Option ℕ)
        → rposition name xs ≡ o
        → (rposition name xs ≡ none → any (is_named name) xs ≡ false)
        → position_before (is_named name x) o ≡ none
        → any (is_named name) (x ∷ xs) ≡ false
    go (some n) e ih k = cc
    go none e ih k = (let rest = ih e in ground arith)

some-injective : (a b : ℕ) → some a ≡ some b → a ≡ b
some-injective a b h = cc

rposition-IsSplit :
    (name : String) (xs : List String) (n : ℕ)
    → rposition name xs ≡ some n
    → IsSplit name xs (truncate (suc n) xs)
unfolding rposition truncate
rposition-IsSplit name [] n h = cc
rposition-IsSplit name (x ∷ xs) n h = go (rposition name xs) refl (rposition-IsSplit name xs) h
  where
    go :
        (o : Option ℕ)
        → rposition name xs ≡ o
        → ((m : ℕ) → rposition name xs ≡ some m → IsSplit name xs (truncate (suc m) xs))
        → position_before (is_named name x) o ≡ some n
        → IsSplit name (x ∷ xs) (truncate (suc n) (x ∷ xs))
    go (some m) e ih k =
        let s = ih m e in
        rw (← some-injective (suc m) n k) record {
          before = x ∷ s.before;
          later = s.later;
          whole = ap (λ (l : List String). x ∷ l) s.whole;
          last = s.last;
          cut = ap (λ (l : List String). x ∷ l) s.cut;
        }
    go none e ih k = elim (Bool-cases (is_named name x)) [
      | inr n ↦ (let no : none ≡ some _ = rw n at k in cc)
      | inl y ↦ rw (← some-injective 0 n (rw y at k)) record {
        before = [];
        later = xs;
        whole = ap (λ (z : String). z ∷ xs) ((eq_iff x name).0 y);
        last = rposition-none name xs e;
        cut = ap (λ (z : String). z ∷ []) ((eq_iff x name).0 y);
      }
    ]

rposition-some :
    (name : String) (xs : List String)
    → any (is_named name) xs ≡ true
    → (n : ℕ) × (rposition name xs ≡ some n)
rposition-some name xs h = elim (Option-cases (rposition name xs)) [
  | inr found ↦ found
  | inl e ↦ (let lacks = rposition-none name xs e in absurd (true-ne-false (sym h ∙ lacks)))
]
  where
    true-ne-false : true ≡ false → ⊥
    true-ne-false e = cc

-- A rollback to a savepoint that the check accepts forgets exactly the savepoints after the last one
-- of this name: that one and all before it are kept.
pub truncate_savepoints-IsSplit :
    (savepoints : List String) (id name : String)
    → check_savepoint savepoints id name ≡ ok tt
    → IsSplit name savepoints (truncate_savepoints savepoints name)
unfolding check_savepoint truncate_savepoints
truncate_savepoints-IsSplit savepoints id name h =
    let (n, e) = rposition-some name savepoints (ground arith) in
    rw (e, truncate_savepoints) (rposition-IsSplit name savepoints n e)

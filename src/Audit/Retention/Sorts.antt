-- ===== src/Audit/Retention/Sorts.antt =====
-- The order of the closed files: the sort of `Sink::prune` in crates/ownpg-core/src/audit.rs.
use mathlib.Core.List.{Perm}
use mathlib.Core.List.Perm
use ownpg.Base.{ℕ, ◌≡◌, refl, true, false, List, [], ◌∷◌, All, arith, if-keeps}
use ownpg.Audit.Family.{rotation_order}
use ownpg.Audit.Retention.{Closed, list_leb, comes_first, insert_closed, sort_closed}

list_leb-total : (xs ys : List ℕ) → list_leb xs ys ≡ false → list_leb ys xs ≡ true
list_leb-total [] ys h = cc
list_leb-total (x ∷ xs) [] h = refl
list_leb-total (x ∷ xs) (y ∷ ys) h = (let rest = list_leb-total xs ys in ground arith)

list_leb_trans :
    (xs ys zs : List ℕ) → list_leb xs ys ≡ true → list_leb ys zs ≡ true → list_leb xs zs ≡ true
list_leb_trans [] ys zs h k = refl
list_leb_trans (x ∷ xs) [] zs h k = cc
list_leb_trans (x ∷ xs) (y ∷ ys) [] h k = cc
list_leb_trans (x ∷ xs) (y ∷ ys) (z ∷ zs) h k = (let rest = list_leb_trans xs ys zs in ground arith)

comes_first-total : (a b : Closed) → comes_first a b ≡ false → comes_first b a ≡ true
unfolding comes_first
comes_first-total a b h =
    (let order = list_leb-total (rotation_order a.name) (rotation_order b.name) in ground arith)

comes_first_trans :
    (a b c : Closed) → comes_first a b ≡ true → comes_first b c ≡ true → comes_first a c ≡ true
unfolding comes_first
comes_first_trans a b c h k =
    (let order =
        list_leb_trans (rotation_order a.name) (rotation_order b.name) (rotation_order c.name) in
      ground arith)

-- Each file comes first of all that stand after it.
abbrev pub IsOrdered : List Closed → Type 0
IsOrdered [] = Unit
IsOrdered (c ∷ cs) = All (λ d. comes_first c d ≡ true) cs × IsOrdered cs

insert_closed-All :
    (P : Closed → Type 0) (c : Closed) (cs : List Closed)
    → P c
    → All P cs
    → All P (insert_closed c cs)
unfolding insert_closed
insert_closed-All P c [] p h = (p, tt)
insert_closed-All P c (d ∷ ds) p (q, h) =
    if-keeps (All P) (comes_first c d) (λ _. (p, (q, h))) (λ _. (q, insert_closed-All P c ds p h))

All-comes_first :
    (c d : Closed) (ds : List Closed)
    → comes_first c d ≡ true
    → All (λ e. comes_first d e ≡ true) ds
    → All (λ e. comes_first c e ≡ true) ds
All-comes_first c d [] h k = tt
All-comes_first c d (e ∷ es) h (k, rest) =
    (comes_first_trans c d e h k, All-comes_first c d es h rest)

insert_closed-IsOrdered :
    (c : Closed) (cs : List Closed) → IsOrdered cs → IsOrdered (insert_closed c cs)
unfolding insert_closed
insert_closed-IsOrdered c [] h = (tt, tt)
insert_closed-IsOrdered c (d ∷ ds) (first, rest) =
    if-keeps IsOrdered (comes_first c d) (λ e. ((e, All-comes_first c d ds e first), (first, rest)))
      (λ e. (
        insert_closed-All (λ x. comes_first d x ≡ true) c ds (comes_first-total c d e) first,
        insert_closed-IsOrdered c ds rest,
      ))

insert_closed-Perm : (c : Closed) (cs : List Closed) → Perm (insert_closed c cs) (c ∷ cs)
unfolding insert_closed
insert_closed-Perm c [] = Perm.refl _
insert_closed-Perm c (d ∷ ds) =
    if-keeps (λ (l : List Closed). Perm l (c ∷ d ∷ ds)) (comes_first c d) (λ _. Perm.refl _)
      (λ _. Perm.trans (Perm.cons d (insert_closed-Perm c ds)) (Perm.swap c d ds))

-- The sort moves the files into the order of their time and then of their name, and no file comes or
-- goes.
pub sort_closed-IsOrdered :
    (cs : List Closed) → IsOrdered (sort_closed cs) × Perm (sort_closed cs) cs
unfolding sort_closed
sort_closed-IsOrdered [] = (tt, Perm.refl [])
sort_closed-IsOrdered (c ∷ cs) =
    let (ordered, same) = sort_closed-IsOrdered cs in
    (
      insert_closed-IsOrdered c (sort_closed cs) ordered,
      Perm.trans (insert_closed-Perm c (sort_closed cs)) (Perm.cons c same),
    )

pub sort_closed-All : (P : Closed → Type 0) (cs : List Closed) → All P cs → All P (sort_closed cs)
unfolding sort_closed
sort_closed-All P [] h = tt
sort_closed-All P (c ∷ cs) (p, h) =
    insert_closed-All P c (sort_closed cs) p (sort_closed-All P cs h)

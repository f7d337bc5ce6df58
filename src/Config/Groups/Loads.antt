-- ===== src/Config/Groups/Loads.antt =====
-- Which tool groups are loaded, and in which order.
use ownpg.Base.{
  ◌<◌, ◌≡◌, refl, ap, ◌↔◌, ◌⊎◌, inl, inr, true, false, not, List, [], ◌∷◌, ◌++◌, ◌&&◌, arith, In,
  In-append, In-append_left, In-append_right, Bool-cases, if◌then◌else◌, if-keeps,
}
use ownpg.Config.Mode.{Mode}
use ownpg.Config.Groups.{
  ToolGroup, all_groups, rank, loads_by_mode, allowed_in, same_group, has_group, by_mode, add_named,
  insert, sort, loaded_groups,
}

-- Each group ranks below the next.
abbrev pub IsRising : List ToolGroup → Type 0
IsRising [] = Unit
IsRising (g ∷ []) = Unit
IsRising (g ∷ h ∷ hs) = (rank g < rank h) × IsRising (h ∷ hs)

rank-injective : (g h : ToolGroup) → rank g ≡ rank h → g ≡ h
rank-injective g h e = ground arith

has_group-In : (g : ToolGroup) (gs : List ToolGroup) → has_group g gs ≡ true → In g gs
has_group-In g [] h = cc
has_group-In g (x ∷ gs) h = ground (arith, rank-injective g x, has_group-In g gs)

In-has_group : (g : ToolGroup) (gs : List ToolGroup) → In g gs → has_group g gs ≡ true
In-has_group g [] h = absurd h
In-has_group g (x ∷ gs) (inl e) = rw e (ground arith)
In-has_group g (x ∷ gs) (inr h) = (let rest = In-has_group g gs h in ground arith)

In-insert : (g x : ToolGroup) (gs : List ToolGroup) → In x (insert g gs) ↔ In x (g ∷ gs)
unfolding insert
In-insert g x [] = (λ h. h, λ h. h)
In-insert g x (y ∷ gs) = (let rest = In-insert g x gs in ground arith)

In-sort : (x : ToolGroup) (gs : List ToolGroup) → In x (sort gs) ↔ In x gs
unfolding sort
In-sort x [] = (λ h. h, λ h. h)
In-sort x (y ∷ gs) = let rest = In-sort x gs in let placed = In-insert y x (sort gs) in ground arith

In-by_mode :
    (mode : Mode) (x : ToolGroup) (gs : List ToolGroup)
    → In x (by_mode mode gs) ↔ (In x gs × (loads_by_mode x mode ≡ true))
unfolding by_mode
In-by_mode mode x [] = (λ h. absurd h, λ (h, _). h)
In-by_mode mode x (g ∷ gs) =
    let rest = In-by_mode mode x gs in
    let moved : x ≡ g → loads_by_mode x mode ≡ loads_by_mode g mode =
      λ e. ap (λ (y : ToolGroup). loads_by_mode y mode) e in
    ground arith

In-appended : (x g : ToolGroup) (gs : List ToolGroup) → In x (gs ++ g ∷ []) ↔ (In x gs ⊎ (x ≡ g))
In-appended x g gs = (
  λ h. elim (In-append x gs (g ∷ []) h) [
    | inl i ↦ inl i
    | inr (inl e) ↦ inr e
    | inr (inr n) ↦ absurd n
  ],
  λ h. elim h [
    | inl i ↦ In-append_left x gs (g ∷ []) i
    | inr e ↦ In-append_right x gs (g ∷ []) (inl e)
  ],
)

-- One turn of the loop.
In-next :
    (mode : Mode) (x g : ToolGroup) (groups : List ToolGroup)
    → In x (if allowed_in g mode && not (has_group g groups) then groups ++ g ∷ [] else groups)
      ↔ (In x groups ⊎ ((x ≡ g) × (allowed_in x mode ≡ true)))
In-next mode x g groups =
    let held : has_group g groups ≡ true → x ≡ g → In x groups =
      λ h e. rw e (has_group-In g groups h) in
    let moved : x ≡ g → allowed_in x mode ≡ allowed_in g mode =
      λ e. ap (λ (y : ToolGroup). allowed_in y mode) e in
    let longer = In-appended x g groups in
    elim (Bool-cases (allowed_in g mode)) [
      | inr bars ↦ rw bars (ground arith)
      | inl fits ↦ elim (Bool-cases (has_group g groups)) [
        | inl has ↦ rw (fits, has) (ground arith)
        | inr new ↦ rw (fits, new) (ground arith)
      ]
    ]

In-add_named :
    (mode : Mode) (x : ToolGroup) (gs groups : List ToolGroup)
    → In x (add_named mode gs groups) ↔ (In x groups ⊎ (In x gs × (allowed_in x mode ≡ true)))
unfolding add_named
In-add_named mode x [] groups = (λ h. inl h, ground arith)
In-add_named mode x (g ∷ gs) groups =
    let next = In-next mode x g groups in
    let rest =
      In-add_named mode x gs
        (if allowed_in g mode && not (has_group g groups) then groups ++ g ∷ [] else groups) in
    ground arith

In-all_groups : (x : ToolGroup) → In x all_groups
In-all_groups x = ground arith

-- A group is loaded exactly if the mode loads it, or the settings name it and the mode allows it.
pub loaded_groups_iff :
    (mode : Mode) (tools : List ToolGroup) (x : ToolGroup)
    → In x (loaded_groups mode tools)
      ↔ ((loads_by_mode x mode ≡ true) ⊎ (In x tools × (allowed_in x mode ≡ true)))
unfolding loaded_groups
loaded_groups_iff mode tools x =
    let sorted = In-sort x (add_named mode tools (by_mode mode all_groups)) in
    let named = In-add_named mode x tools (by_mode mode all_groups) in
    let moded = In-by_mode mode x all_groups in let every = In-all_groups x in ground arith

loads-allowed :
    (x : ToolGroup) (mode : Mode) → loads_by_mode x mode ≡ true → allowed_in x mode ≡ true
unfolding loads_by_mode allowed_in
loads-allowed x mode h = ground arith

-- No group is loaded that the mode does not allow.
pub loaded_groups-allowed :
    (mode : Mode) (tools : List ToolGroup) (x : ToolGroup)
    → In x (loaded_groups mode tools)
    → allowed_in x mode ≡ true
loaded_groups-allowed mode tools x h =
    let exactly = loaded_groups_iff mode tools x in let kept = loads-allowed x mode in ground arith

insert-IsRising :
    (g : ToolGroup) (gs : List ToolGroup)
    → IsRising gs
    → has_group g gs ≡ false
    → IsRising (insert g gs)
unfolding insert
insert-IsRising g [] h n = tt
insert-IsRising g (x ∷ []) h n = ground arith
insert-IsRising g (x ∷ y ∷ gs) h n = (let rest = insert-IsRising g (y ∷ gs) in ground arith)

-- No group twice.
abbrev IsDistinct : List ToolGroup → Type 0
IsDistinct [] = Unit
IsDistinct (g ∷ gs) = (has_group g gs ≡ false) × IsDistinct gs

sort-IsRising : (gs : List ToolGroup) → IsDistinct gs → IsRising (sort gs)
unfolding sort
sort-IsRising [] h = tt
sort-IsRising (g ∷ gs) (new, h) =
    insert-IsRising g (sort gs) (sort-IsRising gs h) (elim (Bool-cases (has_group g (sort gs))) [
      | inl has ↦
          (let found = In-has_group g gs ((In-sort g gs).0 (has_group-In g (sort gs) has)) in cc)
      | inr n ↦ n
    ])

has_group-append :
    (x g : ToolGroup) (gs : List ToolGroup)
    → has_group x gs ≡ false
    → same_group x g ≡ false
    → has_group x (gs ++ g ∷ []) ≡ false
has_group-append x g [] h n = ground arith
has_group-append x g (y ∷ gs) h n = (let rest = has_group-append x g gs in ground arith)

append-IsDistinct :
    (g : ToolGroup) (gs : List ToolGroup)
    → IsDistinct gs
    → has_group g gs ≡ false
    → IsDistinct (gs ++ g ∷ [])
append-IsDistinct g [] h n = (refl, tt)
append-IsDistinct g (x ∷ gs) (new, h) n =
    (has_group-append x g gs new (ground arith), append-IsDistinct g gs h (ground arith))

add_named-IsDistinct :
    (mode : Mode) (gs groups : List ToolGroup)
    → IsDistinct groups
    → IsDistinct (add_named mode gs groups)
unfolding add_named
add_named-IsDistinct mode [] groups h = h
add_named-IsDistinct mode (g ∷ gs) groups h = add_named-IsDistinct mode gs _ (
    if-keeps IsDistinct (allowed_in g mode && not (has_group g groups))
      (λ e. append-IsDistinct g groups h (ground arith)) (λ _. h))

by_mode-IsDistinct : (mode : Mode) → IsDistinct (by_mode mode all_groups)
unfolding by_mode loads_by_mode
by_mode-IsDistinct Mode.read_only = tt
by_mode-IsDistinct Mode.write_only = (refl, (refl, tt))
by_mode-IsDistinct Mode.read_write = (refl, (refl, tt))

-- The loaded groups are in the order of the declaration, each of them once.
pub loaded_groups-IsRising :
    (mode : Mode) (tools : List ToolGroup) → IsRising (loaded_groups mode tools)
unfolding loaded_groups
loaded_groups-IsRising mode tools =
    sort-IsRising (add_named mode tools (by_mode mode all_groups))
      (add_named-IsDistinct mode tools (by_mode mode all_groups) (by_mode-IsDistinct mode))

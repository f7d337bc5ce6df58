-- ===== src/Config/Groups.antt =====
-- The tool groups that a run loads: `ToolGroup` and `Settings::loaded_groups` of
-- crates/ownpg-core/src/config/mod.rs. The sort is the library's, by insertion here.
pub mod Loads
pub mod Tests
use ownpg.Base.{ℕ, Bool, true, false, not, List, [], ◌∷◌, ◌++◌, ◌&&◌, eqb, leb, any, if◌then◌else◌}
use ownpg.Config.Mode
use ownpg.Config.Mode.{Mode}

pub data ToolGroup : Type 0 where
  write transactions ddl roles maintenance monitoring host : ToolGroup

-- `ToolGroup::ALL`
abbrev pub all_groups : List ToolGroup
all_groups = write ∷ transactions ∷ ddl ∷ roles ∷ maintenance ∷ monitoring ∷ host ∷ []

-- The derived `Ord`: the order of the declaration.
abbrev pub rank : ToolGroup → ℕ
rank write = 0
rank transactions = 1
rank ddl = 2
rank roles = 3
rank maintenance = 4
rank monitoring = 5
rank host = 6

unfoldable pub loads_by_mode : ToolGroup → Mode → Bool
unfolding Mode.allows_writes
loads_by_mode write mode = Mode.allows_writes mode
loads_by_mode transactions mode = Mode.allows_writes mode
loads_by_mode _ mode = false

unfoldable pub allowed_in : ToolGroup → Mode → Bool
unfolding Mode.allows_reads Mode.allows_writes
allowed_in monitoring mode = Mode.allows_reads mode
allowed_in host mode = true
allowed_in _ mode = Mode.allows_writes mode

abbrev pub same_group : ToolGroup → ToolGroup → Bool
same_group g h = eqb (rank h) (rank g)

-- `groups.contains(group)`
abbrev pub has_group : ToolGroup → List ToolGroup → Bool
has_group g groups = any (same_group g) groups

unfoldable pub by_mode : Mode → List ToolGroup → List ToolGroup
unfolding loads_by_mode
by_mode mode [] = []
by_mode mode (g ∷ gs) =
    let rest = by_mode mode gs in if loads_by_mode g mode then g ∷ rest else rest

-- The loop over the groups that the settings name.
unfoldable pub add_named : Mode → List ToolGroup → List ToolGroup → List ToolGroup
unfolding allowed_in
add_named mode [] groups = groups
add_named mode (g ∷ gs) groups =
    add_named mode gs
      (if allowed_in g mode && not (has_group g groups) then groups ++ g ∷ [] else groups)

unfoldable pub insert : ToolGroup → List ToolGroup → List ToolGroup
insert g [] = g ∷ []
insert g (h ∷ hs) = let rest = insert g hs in if leb (rank g) (rank h) then g ∷ h ∷ hs else h ∷ rest

-- `groups.sort_unstable()`
unfoldable pub sort : List ToolGroup → List ToolGroup
unfolding insert
sort [] = []
sort (g ∷ gs) = insert g (sort gs)

-- `self.mode` and `self.tools` are the fields of the settings that are read.
unfoldable pub loaded_groups : Mode → List ToolGroup → List ToolGroup
unfolding by_mode add_named sort
loaded_groups mode tools = sort (add_named mode tools (by_mode mode all_groups))

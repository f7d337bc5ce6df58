-- ===== src/Config/Groups/Tests.antt =====
-- Tests of the tool groups.
use ownpg.Base.{◌≡◌, refl, ◌↔◌, ◌⊎◌, inl, inr, true, List, [], ◌∷◌, In}
use ownpg.Config.Mode
use ownpg.Config.Groups.{
  ToolGroup, write, transactions, ddl, monitoring, host, loads_by_mode, allowed_in, by_mode,
  add_named, insert, sort, loaded_groups,
}
use ownpg.Config.Groups.Loads.{
  IsRising, loaded_groups_iff, loaded_groups-allowed, loaded_groups-IsRising,
}

abbrev named : List ToolGroup
named = host ∷ monitoring ∷ ddl ∷ host ∷ []

write_only_groups : loaded_groups Mode.write_only named ≡ write ∷ transactions ∷ ddl ∷ host ∷ []
unfolding loaded_groups by_mode add_named insert sort loads_by_mode allowed_in Mode.allows_reads
    Mode.allows_writes
write_only_groups = refl

loaded_groups_iff_example : In ddl (loaded_groups Mode.write_only named) ↔ (
    (loads_by_mode ddl Mode.write_only ≡ true)
    ⊎ (In ddl named × (allowed_in ddl Mode.write_only ≡ true)))
loaded_groups_iff_example = loaded_groups_iff Mode.write_only named ddl

ddl_is_loaded : In ddl (loaded_groups Mode.write_only named)
unfolding allowed_in Mode.allows_writes
ddl_is_loaded = (loaded_groups_iff Mode.write_only named ddl).1 (inr (inr (inr (inl refl)), refl))

loaded_groups-allowed_example : allowed_in ddl Mode.write_only ≡ true
loaded_groups-allowed_example = loaded_groups-allowed Mode.write_only named ddl ddl_is_loaded

loaded_groups-IsRising_example : IsRising (loaded_groups Mode.read_write named)
loaded_groups-IsRising_example = loaded_groups-IsRising Mode.read_write named

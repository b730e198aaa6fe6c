-- ===== src/Boot/Mapping.antt =====
-- `kmain` from the new page table on: the devices, and the test of a mapping.
use j_oe_s.Base.{List}
use j_oe_s.Memory.Paging.{Paging}

-- ===== src/Elfmalloc/Arrays/Tests.antt =====
-- The theorem of arrays applied to a system with room for one mapping.
use allocators_rs.Base.{none, refl, Returns, arith}
use allocators_rs.Mmap.OneMapping.{one_mapping, room, take}
use allocators_rs.Mmap.System.{pages}
use allocators_rs.Elfmalloc.Arrays
use allocators_rs.Elfmalloc.Arrays.Restored.{Held, new-Held}

new-Held_example : Returns (Held one_mapping none 48 25) (Arrays.new one_mapping none 48 25)
unfolding pages take room
new-Held_example = new-Held one_mapping none 48 25 4096 (omega arith) (omega arith) refl

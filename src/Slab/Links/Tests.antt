-- ===== src/Slab/Links/Tests.antt =====
-- A list of three elements, and the theorem of its operations applied to it.
use allocators_rs.Base.{refl, [], ◌∷◌, ◌==◌, if◌then◌else◌}
use allocators_rs.Slab.Links.{Links, LinkedList}
use allocators_rs.Slab.Links.Run.{to_back, Refines, apply-Refines}

-- 16, 32 and 48, in this order.
abbrev links : Links
links = record {
  next = λ y. if y == 16 then 32 else if y == 32 then 48 else 0;
  prev = λ y. if y == 32 then 16 else if y == 48 then 32 else 0;
}

abbrev three : LinkedList
three = record { size = 3; head = 16; tail = 48 }

apply-Refines_example : Refines links three (to_back 32) (16 ∷ 32 ∷ 48 ∷ [])
apply-Refines_example =
    apply-Refines links three (to_back 32) (16 ∷ 32 ∷ 48 ∷ [])
      (refl, ((refl, refl, (refl, refl, (refl, refl, tt)))), (refl, (refl, (refl, tt)))) refl

-- ===== src/Tests/Structure.antt =====
-- Runs of structure/: the resources and the repository.
use kws_control.Common.{◌≡◌, ◌+◌, ◌≤◌, refl, some, arith}
use kws_control.Common.Lists.{All, get_elem?, modify}
use kws_control.Common.Word.{u32_mod}
use kws_control.Common.Text.{codes}
use kws_control.Common.Table.{lookup}
use kws_control.Structure.{Core}
use kws_control.Structure.ResourceManager.{
  select_core, select_loop, allocate_resources, deallocate_resources,
}
use kws_control.Structure.ResourceManager.Select.{Selected, select_core-Selected}
use kws_control.Structure.ResourceManager.Allocate.{
  IsWord, made_map, deallocate-allocate, allocate_twice_wraps,
}
use kws_control.Structure.MysqlVmRepository.{mysql_vm_repository}
use kws_control.Structure.MysqlVmRepository.Transactions.{info, location, mysql_vm_repository-Laws}
use kws_control.Structure.Control.{find_core_by_vm_uuid}
use kws_control.Structure.Control.Find.{Found, find_core-Found}
use kws_control.Tests.{core_with, resources, small, vm, control}

select_core-Selected_example : Selected small resources.cores (select_core small resources)
select_core-Selected_example = select_core-Selected small resources

chosen : (select_core small resources).core ≡ some 1
unfolding select_core select_loop
chosen = refl

words : All IsWord resources.cores
words = (
  record { memory = omega arith; cpu = omega arith; disk = omega arith },
  (record { memory = omega arith; cpu = omega arith; disk = omega arith }, tt),
)

deallocate-allocate_example :
    deallocate_resources 1 (codes "v") small (allocate_resources 1 (codes "v") vm small resources)
    ≡ record resources { cores = modify resources.cores 1 made_map }
unfolding lookup
deallocate-allocate_example =
    deallocate-allocate 1 (codes "v") vm small resources (core_with 60) refl (words.1.0)
      (record { memory = omega arith; cpu = omega arith; disk = omega arith }) refl

allocate_twice_wraps_example :
    (after : Core) × (get_elem?
        (allocate_resources 1
          (codes "w")
          vm
          small
          (allocate_resources 1 (codes "v") vm small resources)).cores
        1
      ≡ some after)
    × (60 ≤ after.free_memory)
    × (after.free_memory + 40 + 40 ≡ 60 + u32_mod)
allocate_twice_wraps_example =
    allocate_twice_wraps (codes "v") (codes "w") vm vm small resources 1 (core_with 60) chosen refl
      (words.1.0) (omega arith) (omega arith)

find_core-Found_example :
    Found mysql_vm_repository location
      (codes "v")
      control
      (find_core_by_vm_uuid mysql_vm_repository (codes "v") control)
unfolding lookup
find_core-Found_example =
    find_core-Found mysql_vm_repository (codes "v") control info location mysql_vm_repository-Laws
      (λ u k h. absurd (ground arith))

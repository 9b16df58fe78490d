-- ===== src/Startup/Sizes.antt =====
-- The sizes of the cores at startup (startup/init.go): a goroutine for each address asks a core and
-- writes through a pointer into the array that was behind `Cores` when the goroutine was started.
pub mod Lost
pub mod Words
use kws_control.Common.{
  ℕ, zero, suc, ◌+◌, ◌*◌, ◌%◌, ◌^◌, ◌≡◌, ◌<◌, refl, Bool, true, false, Option, none, some, List, [],
  ◌∷◌, ◌++◌, ◌==◌, ltb, arith, if◌then◌else◌,
}
use kws_control.Common.Lists.{length, modify, get_elem?}
use kws_control.Common.Text.{GoString}
use kws_control.Common.Word.{u32_mod}
use kws_control.Structure.{Core, CoreInfo}
use kws_control.Client.Model.{CoreMachineMemoryInfoResponse, CoreMachineDiskInfoResponse}
use kws_control.Client.Http.{Http}
use kws_control.Client.Core.{
  CoreJson, new_core_client, get_core_machine_memory_info, get_core_machine_disk_info,
}
use kws_control.Startup.{find_core, new_core, revive}

-- How a goroutine ends, with its core after it
pub data Measured : Type 0 where
  sized : Core → Measured
  refused : Core → Measured
  crashed : Measured

-- `uint32(gib * 1024)` of a `uint64`
abbrev pub to_mib : ℕ → ℕ
to_mib gib = gib * 1024 % 2 ^ 64 % u32_mod

-- The number of processors, or 9999 if it is not known
abbrev pub cpu_of : ℕ → ℕ
cpu_of zero = 9999
cpu_of (suc n) = suc n

-- The writes to a core that has answered both requests
abbrev pub with_sizes : CoreMachineMemoryInfoResponse → CoreMachineDiskInfoResponse → Core → Core
with_sizes mem disk core = record core {
  core_info_idx = record {
    memory = to_mib mem.total;
    cpu = cpu_of core.core_info_idx.cpu;
    disk = to_mib disk.total;
  };
  free_memory = to_mib mem.available;
  free_cpu = cpu_of core.core_info_idx.cpu;
  free_disk = to_mib disk.free;
}

abbrev pub mark_dead : Core → Core
mark_dead core = record core { is_alive = false }

-- After the answers; a response without information is a nil pointer that is read.
unfoldable pub after_disk :
    Option CoreMachineMemoryInfoResponse
    → Option (Option CoreMachineDiskInfoResponse)
    → Core
    → Measured
after_disk mem none core = refused (mark_dead core)
after_disk none (some disk) core = crashed
after_disk (some mem) (some none) core = crashed
after_disk (some mem) (some (some disk)) core = sized (with_sizes mem disk core)

unfoldable pub after_memory :
    Option (Option CoreMachineMemoryInfoResponse)
    → Option (Option CoreMachineDiskInfoResponse)
    → Core
    → Measured
unfolding after_disk
after_memory none disk core = refused (mark_dead core)
after_memory (some mem) disk core = after_disk mem disk core

-- The function that `g.Go` runs
unfoldable pub measure : Http → CoreJson → Core → Measured
unfolding after_memory
measure http json core =
    after_memory (get_core_machine_memory_info http json (new_core_client core))
      (get_core_machine_disk_info http json (new_core_client core)) core

-- `&infra.Resources.Cores[index]`: which array it points into, counted from the first one made
pub record Pointer : Type 0 where
  pub array : ℕ
  pub index : ℕ

-- The arrays behind `Cores`: those that `append` has copied from, and the one it is now
pub record Arrays : Type 0 where
  pub retired : List (List Core)
  pub cores : List Core
  pub capacity : ℕ

-- The pointer to a core of the slice as it is now
abbrev pub point : ℕ → Arrays → Pointer
point i a = record { array = length a.retired; index = i }

-- `append`; a full array is copied to a new one, whose capacity the runtime chooses.
unfoldable pub append_core : (ℕ → ℕ) → Core → Arrays → Arrays
append_core grow core a =
    if ltb (length a.cores) a.capacity then record a { cores = a.cores ++ core ∷ [] } else record {
      retired = a.retired ++ a.cores ∷ [];
      cores = a.cores ++ core ∷ [];
      capacity = grow a.capacity;
    }

-- The round of the loop for an address, and the pointer that its goroutine gets
unfoldable pub round : (ℕ → ℕ) → GoString × ℕ → Arrays → Pointer × Arrays
unfolding append_core
round grow (ip, port) a = elim (find_core a.cores ip port) [
  | none ↦ let a' = append_core grow (new_core ip port) a in (point (length a.cores) a', a')
  | some i ↦ (point i a, record a { cores = modify a.cores i revive })
]

-- The core behind a pointer
unfoldable pub read_core : Pointer → Arrays → Option Core
read_core p a =
    if p.array == length a.retired
    then get_elem? a.cores p.index
    else elim (get_elem? a.retired p.array) [ none ↦ none | some old ↦ get_elem? old p.index ]

-- A write through a pointer
unfoldable pub write_core : Pointer → Core → Arrays → Arrays
write_core p core a =
    if p.array == length a.retired
    then record a { cores = modify a.cores p.index (λ _. core) }
    else record a { retired = modify a.retired p.array (λ old. modify old p.index (λ _. core)) }

-- The end of a goroutine: the arrays, and whether it returns nil; `none` is a crash of the process.
unfoldable pub written : Pointer → Measured → Arrays → Option (Bool × Arrays)
unfolding write_core
written p (sized core) a = some (true, write_core p core a)
written p (refused core) a = some (false, write_core p core a)
written p crashed a = none

unfoldable pub finish : Http → CoreJson → Pointer → Arrays → Option (Bool × Arrays)
unfolding read_core written
finish http json p a = elim (read_core p a) [
  | none ↦ none
  | some core ↦ written p (measure http json core) a
]

-- The rounds for some addresses
unfoldable pub rounds : (ℕ → ℕ) → List (GoString × ℕ) → Arrays → Arrays
rounds grow [] a = a
rounds grow (address ∷ rest) a = rounds grow rest (round grow address a).1

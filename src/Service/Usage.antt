-- ===== src/Service/Usage.antt =====
-- service/vm.go: what a core says of the processors, the memory and the disk of a VM.
use kws_control.Common.{ℕ}
use kws_control.Common.Text.{GoString}
use kws_control.Client.Model.{
  CoreMachineCpuInfoResponse, CoreMachineMemoryInfoResponse, CoreMachineDiskInfoResponse,
}
use kws_control.Structure.Repository.{VmRepository}
use kws_control.Structure.Control.{core_vm_cpu, core_vm_memory, core_vm_disk}
use kws_control.Service.Action.{core_request, Services, Action, pure, send, ◌>>=◌, ◌>>◌, or_raise}
use kws_control.Service.Vm.{core_of}

-- `VMCpuStatus`, `VMMemoryStatus` and `VMDiskStatus` of service/dto.go
pub record VmCpuStatus : Type 0 where
  pub system : ℕ
  pub idle : ℕ
  pub usage : ℕ

pub record VmMemoryStatus : Type 0 where
  pub total : ℕ
  pub used : ℕ
  pub available : ℕ
  pub used_percent : ℕ

pub record VmDiskStatus : Type 0 where
  pub total : ℕ
  pub used : ℕ
  pub free : ℕ
  pub used_percent : ℕ

abbrev pub cpu_status : CoreMachineCpuInfoResponse → VmCpuStatus
cpu_status r = record { system = r.system; idle = r.idle; usage = r.usage }

abbrev pub memory_status : CoreMachineMemoryInfoResponse → VmMemoryStatus
memory_status r = record {
  total = r.total;
  used = r.used;
  available = r.available;
  used_percent = r.used_percent;
}

abbrev pub disk_status : CoreMachineDiskInfoResponse → VmDiskStatus
disk_status r = record {
  total = r.total;
  used = r.used;
  free = r.free;
  used_percent = r.used_percent;
}

module _ {R : Type 0} (repo : VmRepository R) (services : Services) where
  -- `GetVMCpuInfo`
  unfoldable pub get_vm_cpu_info : GoString → Action R VmCpuStatus
  get_vm_cpu_info uuid = do
    core ← core_of repo services uuid
    send (core_vm_cpu core uuid)
    info ← or_raise (services.core_vm_cpu_info core uuid) core_request
    pure (cpu_status info)

  -- `GetVMMemoryInfo`
  unfoldable pub get_vm_memory_info : GoString → Action R VmMemoryStatus
  get_vm_memory_info uuid = do
    core ← core_of repo services uuid
    send (core_vm_memory core uuid)
    info ← or_raise (services.core_vm_memory_info core uuid) core_request
    pure (memory_status info)

  -- `GetVMDiskInfo`
  unfoldable pub get_vm_disk_info : GoString → Action R VmDiskStatus
  get_vm_disk_info uuid = do
    core ← core_of repo services uuid
    send (core_vm_disk core uuid)
    info ← or_raise (services.core_vm_disk_info core uuid) core_request
    pure (disk_status info)

-- ===== src/Client/Model.antt =====
-- client/model/vm.go: what the cores are asked and what they answer. A `float64` is its 64 bits: this
-- code passes it on and never computes with it.
use kws_control.Common.{ℕ, Option}
use kws_control.Common.Text.{GoString}

-- `type DomainDeleteType uint`
pub data DomainDeleteType : Type 0 where
  hard_delete soft_delete : DomainDeleteType

-- `type StatusDataType uint`
pub data StatusDataType : Type 0 where
  cpu_info mem_info disk_info_hi system_info_hi : StatusDataType

pub record DeleteVmRequest : Type 0 where
  pub uuid : GoString
  pub delete_type : DomainDeleteType

pub record GetVmStatusRequest : Type 0 where
  pub uuid : GoString
  pub data_type : StatusDataType

pub record CoreMachineCpuInfoResponse : Type 0 where
  pub system : ℕ
  pub idle : ℕ
  pub usage : ℕ

pub record CoreMachineMemoryInfoResponse : Type 0 where
  pub total : ℕ
  pub used : ℕ
  pub available : ℕ
  pub used_percent : ℕ

pub record CoreMachineDiskInfoResponse : Type 0 where
  pub total : ℕ
  pub used : ℕ
  pub free : ℕ
  pub used_percent : ℕ

-- `type CoreResponse[T any] struct`; the message and the error are not read. A missing `information`
-- is a nil pointer.
pub record CoreResponse (A : Type 0) : Type 0 where
  pub information : Option A

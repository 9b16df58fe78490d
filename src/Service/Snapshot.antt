-- ===== src/Service/Snapshot.antt =====
-- service/external_snap.go: the snapshots of a VM, which lie in a bucket named by its UUID.
use kws_control.Common.{ℕ, ◌*◌, List}
use kws_control.Common.Text.{GoString, codes}
use kws_control.Structure.Repository.{VmRepository}
use kws_control.Client.Rustfs.{list_objects, delete_object, presign_put_object}
use kws_control.Service.Action.{
  rustfs_unavailable, rustfs_request, Services, Action, pure, ◌>>=◌, ◌>>◌, or_raise, raise_unless,
}
use kws_control.Service.Vm.{core_of}

-- `snapshotPresignTTL`, in nanoseconds
abbrev pub snapshot_presign_ttl : ℕ
snapshot_presign_ttl = 15 * 60 * 1000000000

module _ {R : Type 0} (services : Services) where
  -- `ListSnapshots`
  unfoldable pub list_snapshots : GoString → Action R (List GoString)
  list_snapshots uuid = do
    rustfs ← or_raise services.rustfs rustfs_unavailable
    or_raise (list_objects rustfs uuid (codes "")) rustfs_request

  -- `DeleteSnapshot`
  unfoldable pub delete_snapshot : GoString → GoString → Action R (Unit {0})
  delete_snapshot uuid snap_key = do
    rustfs ← or_raise services.rustfs rustfs_unavailable
    raise_unless (delete_object rustfs uuid snap_key) rustfs_request

  -- `TakeSnapshot`; the URL is not used, since the call of the core is not written yet.
  unfoldable pub take_snapshot : VmRepository R → GoString → GoString → Action R (Unit {0})
  take_snapshot repo uuid snap_name = do
    core_of repo services uuid
    rustfs ← or_raise services.rustfs rustfs_unavailable
    or_raise (presign_put_object rustfs uuid snap_name snapshot_presign_ttl) rustfs_request
    pure tt

-- ===== src/Tests/Network.antt =====
-- Runs of pkg/network, pkg/crypto and the allocation of subnets.
use kws_control.Common.{◌≡◌, ◌≢◌, refl, ◌-◌, ◌^◌, ◌++◌, some, none, [], ◌∷◌, arith}
use kws_control.Common.Text.{codes}
use kws_control.Common.Table.{lookup}
use kws_control.Sql.{exec}
use kws_control.Pkg.Network.{
  digits_loop, digits, itoa, scan, magnitude, atoi, until_dot, advance, print_subnet, components,
  err_text, find_subnet, get_subnet_from_ip,
}
use kws_control.Pkg.Network.Successor.{
  subnet_at, find_subnet_times, find_subnet-subnet_at, find_subnet-next, find_subnet_times-ne,
  find_subnet_exhausted,
}
use kws_control.Pkg.Network.Split.{get_subnet_from_ip-find_subnet}
use kws_control.Structure.Control.{cms_new}
use kws_control.Service.Action.{err, not_in_location, Services}
use kws_control.Service.Network.{
  reserve, answered, set_back, set_last_subnet, new_cms_subnet, allocate_cms_subnet,
}
use kws_control.Service.Network.Subnets.{
  InSync, new_cms_subnet-InSync, new_cms_subnet_granted, allocate_cms_subnet_add,
}
use kws_control.Tests.{services, control}

find_subnet-subnet_at_example :
    find_subnet (subnet_at 589823 ++ codes "7") ≡ some (subnet_at 589824)
find_subnet-subnet_at_example = find_subnet-subnet_at 589823 (codes "7") (omega arith)

find_subnet_times-ne_example :
    find_subnet_times 2 (subnet_at 589823) ≢ find_subnet_times 7 (subnet_at 589823)
find_subnet_times-ne_example = find_subnet_times-ne 589823 2 7 (omega arith) (omega arith)

find_subnet_exhausted_example :
    (find_subnet (subnet_at (2 ^ 24 - 1) ++ codes "7") ≡ some err_text)
    × (find_subnet err_text ≡ none)
find_subnet_exhausted_example = find_subnet_exhausted (codes "7")

get_subnet_from_ip-find_subnet_example :
    get_subnet_from_ip (subnet_at 589824 ++ codes "5") ≡ some (subnet_at 589824)
get_subnet_from_ip-find_subnet_example =
    get_subnet_from_ip-find_subnet 589823 (codes "5") (omega arith) ((λ e. omega (arith, e)), tt)
      (find_subnet-next 589823 (omega arith))

new_cms_subnet-InSync_example : InSync (new_cms_subnet services control).1
new_cms_subnet-InSync_example = new_cms_subnet-InSync services control refl

new_cms_subnet_granted_example :
    let c' = (new_cms_subnet services control).1 in
    (find_subnet (codes "9.0.0.") ≡ some c'.last_subnet)
    × (c'.subnet_db.tables ≡ c'.last_subnet)
    × (services.cms_new_instance c'.last_subnet
        ≡ some (record { ip = codes "9.0.1.5"; mac_addr = codes "m"; sdn_uuid = [] }))
    × (c'.calls ≡ cms_new c'.last_subnet ∷ control.calls)
unfolding new_cms_subnet reserve answered set_back set_last_subnet exec find_subnet components
    until_dot atoi scan magnitude advance print_subnet itoa digits digits_loop
new_cms_subnet_granted_example =
    new_cms_subnet_granted services control
      (record { ip = codes "9.0.1.5"; mac_addr = codes "m"; sdn_uuid = [] }) refl

-- A CMS that refuses.
abbrev busy : Services
busy = record services { cms_new_instance = λ _. none }

allocate_cms_subnet_add_example :
    allocate_cms_subnet services (codes "Add") (codes "v") control ≡ (err not_in_location, control)
unfolding lookup
allocate_cms_subnet_add_example = allocate_cms_subnet_add services control (codes "v") refl

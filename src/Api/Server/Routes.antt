-- ===== src/Api/Server/Routes.antt =====
-- The routes of api/handlers.go: what each handler of api/*.go answers, and the whole server.
use kws_control.Common.{◌≡◌, refl, sym, arith, true, false, ◌&&◌, []}
use kws_control.Common.Text.{codes, str_eq, str_eq_iff}
use kws_control.Common.Table.{insert}
use kws_control.Structure.Repository.{VmRepository}
use kws_control.Structure.Control.{ControlContext}
use kws_control.Service.Action.{Services}
use kws_control.Api.Requests.{ApiJson, ApiRequest}
use kws_control.Api.Response.{with_security_headers}
use kws_control.Api.Handlers.{
  create_vm_handler, delete_vm_handler, start_vm_handler, shutdown_vm_handler, vm_info_handler,
  vm_status_handler, vm_connect_handler, redis_handler, take_snapshot_handler,
  list_snapshots_handler, delete_snapshot_handler,
}
use kws_control.Api.Server.{takes, routes, serve}
use kws_control.Api.Server.Answers.{Each, Fits, dispatch-Each}
use kws_control.Api.Server.Served.{
  Served, IsServed, served, refused, call-IsServed, decode-IsServed, if_IsServed, missing-Served,
  json_ok, error_500, error_404, plain_ok, json-IsServed, plain-IsServed, create-IsServed,
  status-IsServed, secured,
}

module _ {R : Type 0} (repo : VmRepository R) (services : Services) (json : ApiJson)
    (request : ApiRequest) (c : ControlContext R) where
  create_vm-IsServed :
      request.method ≡ codes "POST"
      → request.path ≡ codes "/vm"
      → IsServed repo services json request c (create_vm_handler repo services json request secured)
  unfolding create_vm_handler
  create_vm-IsServed method path =
      create-IsServed repo services json request c method path (json.create_vm request.body) refl

  delete_vm-IsServed :
      IsServed repo services json request c (delete_vm_handler repo services json request secured)
  unfolding delete_vm_handler
  delete_vm-IsServed =
      decode-IsServed repo services json request c _ _ _
        (λ _. plain-IsServed repo services json request c _)

  shutdown_vm-IsServed :
      IsServed repo services json request c (shutdown_vm_handler repo services json request secured)
  unfolding shutdown_vm_handler
  shutdown_vm-IsServed =
      decode-IsServed repo services json request c _ _ _
        (λ _. plain-IsServed repo services json request c _)

  vm_status-IsServed :
      IsServed repo services json request c (vm_status_handler repo services json request secured)
  unfolding vm_status_handler
  vm_status-IsServed = decode-IsServed repo services json request c _ _ _ (λ req.
      if_IsServed repo services json request c _ _ _ (refused repo services json request c _)
        (status-IsServed repo services json request c req))

  vm_connect-IsServed :
      IsServed repo services json request c (vm_connect_handler repo services json request secured)
  unfolding vm_connect_handler
  vm_connect-IsServed =
      if_IsServed repo services json request c _ _ _ (refused repo services json request c _)
        (json-IsServed repo services json request c _ _)

  redis-IsServed :
      IsServed repo services json request c (redis_handler repo services json request secured)
  unfolding redis_handler
  redis-IsServed = decode-IsServed repo services json request c _ _ _ (λ _.
      call-IsServed repo services json request c _ _ _
        (λ _. plain_ok repo services json request c (codes "VM status updated in Redis"))
        (λ _. error_500 repo services json request c _))

  vm_info-IsServed :
      IsServed repo services json request c (vm_info_handler repo services json request secured)
  unfolding vm_info_handler
  vm_info-IsServed = decode-IsServed repo services json request c _ _ _ (λ _.
      call-IsServed repo services json request c _ _ _ (λ _. json_ok repo services json request c _)
        (λ _. error_404 repo services json request c _))

  start_vm-IsServed :
      IsServed repo services json request c (start_vm_handler repo services json request secured)
  unfolding start_vm_handler
  start_vm-IsServed =
      decode-IsServed repo services json request c _ _ _
        (λ _. plain-IsServed repo services json request c _)

  take_snapshot-IsServed :
      IsServed repo services json request c
        (take_snapshot_handler repo services json request secured)
  unfolding take_snapshot_handler
  take_snapshot-IsServed = decode-IsServed repo services json request c _ _ _ (λ _.
      if_IsServed repo services json request c _ _ _ (refused repo services json request c _)
        (json-IsServed repo services json request c _ _))

  list_snapshots-IsServed :
      IsServed repo services json request c
        (list_snapshots_handler repo services json request secured)
  unfolding list_snapshots_handler
  list_snapshots-IsServed =
      if_IsServed repo services json request c _ _ _ (refused repo services json request c _)
        (json-IsServed repo services json request c _ _)

  delete_snapshot-IsServed :
      IsServed repo services json request c
        (delete_snapshot_handler repo services json request secured)
  unfolding delete_snapshot_handler
  delete_snapshot-IsServed = decode-IsServed repo services json request c _ _ _ (λ _.
      if_IsServed repo services json request c _ _ _ (refused repo services json request c _)
        (plain-IsServed repo services json request c _))

  not_get : str_eq (codes "POST") (codes "GET") ≡ false
  unfolding str_eq
  not_get = refl

  post_fits :
      takes (codes "POST") request.method && str_eq (codes "/vm") request.path ≡ true
      → (request.method ≡ codes "POST") × (request.path ≡ codes "/vm")
  post_fits fits =
      let method : str_eq (codes "POST") request.method ≡ true = ground (arith, not_get) in
      let path : str_eq (codes "/vm") request.path ≡ true = ground arith in
      (
        sym ((str_eq_iff (codes "POST") request.method).0 method),
        sym ((str_eq_iff (codes "/vm") request.path).0 path),
      )

  -- Every request for a clean path is answered with the header X-Content-Type-Options: nosniff, unless
  -- its handler panics. An answer with status 400 or 405, or 404 before any call, leaves the shared state as it
  -- was. The other answers have status 200, 404 or 500, or else 201: this one only for a POST of /vm
  -- whose body asks for memory, processors and disk and for which `CreateVM` has returned no error.
  pub serve-Served : Served repo services json request c (serve repo services json request c)
  unfolding serve routes Each with_security_headers insert
  serve-Served =
      dispatch-Each (Served repo services json request c) (routes repo services json request)
        request c each (missing-Served repo services json request c)
    where
      each :
          Each
            (λ r. Fits request r → Served repo services json request c (r.handler [] c))
            (routes repo services json request)
      each = (
        λ fits.
            let (method, path) = post_fits fits in
            served repo services json request c _ (create_vm-IsServed method path),
        (
          λ _. served repo services json request c _ delete_vm-IsServed,
          (
            λ _. served repo services json request c _ shutdown_vm-IsServed,
            (
              λ _. served repo services json request c _ vm_status-IsServed,
              (
                λ _. served repo services json request c _ vm_connect-IsServed,
                (
                  λ _. served repo services json request c _ redis-IsServed,
                  (
                    λ _. served repo services json request c _ vm_info-IsServed,
                    (
                      λ _. served repo services json request c _ start_vm-IsServed,
                      (
                        λ _. served repo services json request c _ take_snapshot-IsServed,
                        (
                          λ _. served repo services json request c _ list_snapshots-IsServed,
                          (λ _. served repo services json request c _ delete_snapshot-IsServed, tt),
                        ),
                      ),
                    ),
                  ),
                ),
              ),
            ),
          ),
        ),
      )

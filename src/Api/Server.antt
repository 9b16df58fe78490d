-- ===== src/Api/Server.antt =====
-- api/handlers.go: the routes, and the choice that net/http makes among them for a request whose path
-- is clean. A route for GET takes HEAD too; a path with other methods only is answered by 405, and a
-- path without a route by 404.
pub mod Answers
pub mod Served
pub mod Routes
pub mod Create
pub mod Safe
pub mod Reach
pub mod Answered
use kws_control.Common.{
  ℕ, ◌≡◌, Bool, true, false, ◌&&◌, ◌||◌, Option, none, some, List, [], ◌∷◌, if◌then◌else◌,
}
use kws_control.Common.Text.{GoString, codes, str_eq}
use kws_control.Structure.Repository.{VmRepository}
use kws_control.Service.Action.{Services}
use kws_control.Api.Requests.{ApiJson, ApiRequest}
use kws_control.Api.Response.{Handled, Handler, plain, write, with_security_headers, reply}
use kws_control.Api.Handlers.{
  create_vm_handler, delete_vm_handler, start_vm_handler, shutdown_vm_handler, vm_info_handler,
  vm_status_handler, vm_connect_handler, redis_handler, take_snapshot_handler,
  list_snapshots_handler, delete_snapshot_handler,
}

-- A pattern such as `POST /vm`, and its handler
pub record Route (R : Type 0) : Type 0 where
  pub method : GoString
  pub path : GoString
  pub handler : Handler R

abbrev pub route : {R : Type 0} → GoString → GoString → Handler R → Route R
route method path handler = record { method = method; path = path; handler = handler }

abbrev pub takes : GoString → GoString → Bool
takes pattern method =
    str_eq pattern method || (str_eq pattern (codes "GET") && str_eq method (codes "HEAD"))

module _ {R : Type 0} where
  unfoldable pub find_route : GoString → GoString → List (Route R) → Option (Route R)
  find_route method path [] = none
  find_route method path (r ∷ rs) =
      let rest = find_route method path rs in
      if takes r.method method && str_eq r.path path then some r else rest

  unfoldable pub has_path : GoString → List (Route R) → Bool
  has_path path [] = false
  has_path path (r ∷ rs) = str_eq r.path path || has_path path rs

  -- `http.Error`, as net/http answers where no route fits; the header `Allow` is left out.
  abbrev http_error : ℕ → GoString → Handled R
  http_error status text = reply (
      write status (plain text) (
        (codes "Content-Type", codes "text/plain; charset=utf-8")
        ∷ (codes "X-Content-Type-Options", codes "nosniff")
        ∷ []))

  unfoldable pub no_route : Bool → Handled R
  unfolding reply
  no_route true = http_error 405 (codes "Method Not Allowed")
  no_route false = http_error 404 (codes "404 page not found")

  unfoldable pub dispatch : List (Route R) → ApiRequest → Handled R
  unfolding find_route has_path no_route
  dispatch rs request c = elim (find_route request.method request.path rs) [
    | some r ↦ r.handler [] c
    | none ↦ no_route (has_path request.path rs) c
  ]

  module _ (repo : VmRepository R) (services : Services) (json : ApiJson)
      (request : ApiRequest) where
    -- The `http.HandleFunc` calls of `Server`
    unfoldable pub routes : List (Route R)
    routes =
        route (codes "POST") (codes "/vm")
          (with_security_headers (create_vm_handler repo services json request))
        ∷ route (codes "DELETE") (codes "/vm")
            (with_security_headers (delete_vm_handler repo services json request))
        ∷ route (codes "POST") (codes "/vm/shutdown")
            (with_security_headers (shutdown_vm_handler repo services json request))
        ∷ route (codes "GET") (codes "/vm/status")
            (with_security_headers (vm_status_handler repo services json request))
        ∷ route (codes "GET") (codes "/vm/connect")
            (with_security_headers (vm_connect_handler repo services json request))
        ∷ route (codes "POST") (codes "/vm/redis")
            (with_security_headers (redis_handler repo services json request))
        ∷ route (codes "GET") (codes "/vm/info")
            (with_security_headers (vm_info_handler repo services json request))
        ∷ route (codes "POST") (codes "/vm/start")
            (with_security_headers (start_vm_handler repo services json request))
        ∷ route (codes "POST") (codes "/vm/snapshot")
            (with_security_headers (take_snapshot_handler repo services json request))
        ∷ route (codes "GET") (codes "/vm/snapshot")
            (with_security_headers (list_snapshots_handler repo services json request))
        ∷ route (codes "DELETE") (codes "/vm/snapshot")
            (with_security_headers (delete_snapshot_handler repo services json request))
        ∷ []

    -- `Server` on one request
    unfoldable pub serve : Handled R
    unfolding routes
    serve = dispatch routes request

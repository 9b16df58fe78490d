-- ===== src/Client/Cms.antt =====
-- client/cms.go: the requests to the CMS.
use kws_control.Common.{Option, none, some, [], ◌∷◌, ◌++◌, ◌==◌, if◌then◌else◌}
use kws_control.Common.Text.{GoString, codes, str_eq}
use kws_control.Service.Action.{CmsNewInstanceResponse}
use kws_control.Client.Http.{Http, Method, post, delete, Request, Response}

-- `encoding/json` for the bodies of the CMS; the detail of a deletion is not read.
pub record CmsJson : Type 0 where
  pub new_request : GoString → Option GoString
  pub delete_request : GoString → Option GoString
  pub new_response : GoString → Option CmsNewInstanceResponse
  pub delete_response : GoString → Option (Unit {0})

-- `type CmsClient struct`
pub record CmsClient : Type 0 where
  pub base_url : GoString

-- `NewCmsClient`, with the value of CMS_HOST, which is "" if it is not set
unfoldable pub new_cms_client : GoString → CmsClient
new_cms_client host = record { base_url = if str_eq host [] then codes "localhost:8080" else host }

-- `reqURL`
abbrev pub instance_url : CmsClient → GoString
instance_url c = codes "http://" ++ c.base_url ++ codes "/New/Instance"

abbrev pub cms_request : CmsClient → Method → GoString → Request
cms_request c method text = record {
  method = method;
  url = instance_url c;
  headers =
      (codes "Content-Type", codes "application/json")
      ∷ (codes "Accept", codes "application/json")
      ∷ [];
  body = some text;
}

-- The status must be 200.
unfoldable pub read_ok : {A : Type 0} → (GoString → Option A) → Option Response → Option A
read_ok decode none = none
read_ok decode (some resp) = if resp.status == 200 then decode resp.body else none

-- What the two requests have in common
unfoldable pub ask_cms :
    {A : Type 0} → Http → CmsClient → Method → Option GoString → (GoString → Option A) → Option A
unfolding read_ok
ask_cms http c method none decode = none
ask_cms http c method (some text) decode =
    if http.new_request method (instance_url c)
    then read_ok decode (http.exchange (cms_request c method text))
    else none

-- `RequestDeleteInstance`
unfoldable pub request_delete_instance : Http → CmsJson → CmsClient → GoString → Option (Unit {0})
request_delete_instance http json c ip =
    ask_cms http c delete (json.delete_request ip) json.delete_response

-- `RequestNewInstance`
unfoldable pub request_new_instance :
    Http → CmsJson → CmsClient → GoString → Option CmsNewInstanceResponse
request_new_instance http json c subnet =
    ask_cms http c post (json.new_request subnet) json.new_response

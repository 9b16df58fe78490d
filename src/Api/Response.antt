-- ===== src/Api/Response.antt =====
-- util/response.go and api/middleware.go: what a handler answers. A handler gets the headers that are
-- set so far; those that net/http adds by itself, such as Date, are not among them.
use kws_control.Common.{ℕ, Option, none, some, List}
use kws_control.Common.Text.{GoString, codes}
use kws_control.Common.Table.{Table, insert}
use kws_control.Structure.Control.{ControlContext}
use kws_control.Service.Action.{Error, ok, err, panic, Action}

-- `ApiVmInfoResponse` of api/get_vm_info.go
pub record ApiVmInfoResponse : Type 0 where
  pub uuid : GoString
  pub cpu : ℕ
  pub memory : ℕ
  pub disk : ℕ
  pub ip : GoString

-- `ApiVmCpuStatusResponse`, `ApiVmMemoryStatusResponse` and `ApiVmDiskStatusResponse` of
-- api/get_vm_status.go. A float64 is its bits.
pub record ApiVmCpuStatusResponse : Type 0 where
  pub system : ℕ
  pub idle : ℕ
  pub usage : ℕ

pub record ApiVmMemoryStatusResponse : Type 0 where
  pub total : ℕ
  pub used : ℕ
  pub available : ℕ
  pub used_percent : ℕ

pub record ApiVmDiskStatusResponse : Type 0 where
  pub total : ℕ
  pub used : ℕ
  pub free : ℕ
  pub used_percent : ℕ

-- The value whose JSON is the body. `failure` is the text of an error of the service layer; `plain`
-- is not JSON.
pub data Body : Type 0 where
  empty : Body
  plain : GoString → Body
  message error_text : GoString → Body
  failure : Error → Body
  auth_token : GoString → Body
  vm_info : ApiVmInfoResponse → Body
  cpu_status : ApiVmCpuStatusResponse → Body
  memory_status : ApiVmMemoryStatusResponse → Body
  disk_status : ApiVmDiskStatusResponse → Body
  snapshots : List GoString → Body

abbrev pub Headers : Type 0
Headers = Table GoString

pub record Response : Type 0 where
  pub status : ℕ
  pub headers : Headers
  pub body : Body

-- `w.WriteHeader(status)`, and what is written after it
abbrev pub write : ℕ → Body → Headers → Response
write status body headers = record { status = status; headers = headers; body = body }

-- `RespondJSON`
unfoldable pub respond_json : ℕ → Body → Headers → Response
respond_json status data_ headers =
    write status data_ (insert (codes "Content-Type") (codes "application/json") headers)

-- `RespondError`
unfoldable pub respond_error : ℕ → Body → Headers → Response
respond_error status text headers =
    write status text (insert (codes "Content-Type") (codes "application/json") headers)

-- A handler: `none` is a panic, which net/http turns into a closed connection.
abbrev pub Handled : Type 0 → Type 0
Handled R = ControlContext R → Option Response × ControlContext R

abbrev pub Handler : Type 0 → Type 0
Handler R = Headers → Handled R

-- `withSecurityHeaders`
unfoldable pub with_security_headers : {R : Type 0} → Handler R → Handler R
with_security_headers next headers =
    next (insert (codes "X-Content-Type-Options") (codes "nosniff") headers)

module _ {R : Type 0} where
  -- An answer that calls nothing
  unfoldable pub reply : Response → Handled R
  reply response c = (some response, c)

  -- The answer to the return value or to the error of a call
  unfoldable pub respond :
      {A : Type 0} → Action R A → (A → Response) → (Error → Response) → Handled R
  respond call done failed c = elim ((call c).0) [
    | ok a ↦ (some (done a), (call c).1)
    | err e ↦ (some (failed e), (call c).1)
    | panic ↦ (none, (call c).1)
  ]

-- ===== src/Client/Http.antt =====
-- `net/http` as the clients use it: a request, and what comes back.
use kws_control.Common.{ℕ, Bool, Option, List}
use kws_control.Common.Text.{GoString}

pub data Method : Type 0 where
  get post delete : Method

pub record Request : Type 0 where
  pub method : Method
  pub url : GoString
  pub headers : List (GoString × GoString)
  pub body : Option GoString

pub record Response : Type 0 where
  pub status : ℕ
  pub body : GoString

-- `NewRequest` refuses a bad URL; `exchange` is `Do`, which gives a response, or an error for one that never came.
pub record Http : Type 0 where
  pub new_request : Method → GoString → Bool
  pub exchange : Request → Option Response

-- ===== src/Api/Server/Reach.antt =====
-- The server (api/) over any sequence of requests.
use kws_control.Common.{refl, map}
use kws_control.Common.Lists.{All}
use kws_control.Structure.Repository.{VmRepository}
use kws_control.Structure.Control.{ControlContext}
use kws_control.Structure.Control.Find.{PlacesInRange}
use kws_control.Structure.Control.Sound.{Sound, identity, HasWords}
use kws_control.Service.Action.{Services}
use kws_control.Api.Requests.{ApiJson, ApiRequest}
use kws_control.Api.Server.{serve}
use kws_control.Api.Server.Safe.{serve_safe}

-- The states that the server reaches from `c0`; what the other services answer, the clock and the
-- random bytes may differ from request to request.
pub data Reach {R : Type 0} (repo : VmRepository R) (json : ApiJson) (c0 : ControlContext R)
    : ControlContext R → Type 0 where
  start : Reach repo json c0 c0
  next :
      {c : ControlContext R}
      → Reach repo json c0 c
      → (services : Services) (request : ApiRequest)
      → Reach repo json c0 (serve repo services json request c).1

-- In every state that the server reaches by any requests from one in which each cached place is the
-- index of a core and the free amounts are `uint32` values, the same holds, and the cores are those
-- of the start by address, port, liveness and size. That includes requests that fail or panic.
pub Reach-Sound :
    {R : Type 0} (repo : VmRepository R) (json : ApiJson) (c0 c : ControlContext R)
    → PlacesInRange c0.resources
    → All HasWords c0.resources.cores
    → Reach repo json c0 c
    → Sound (map identity c0.resources.cores) c.resources
Reach-Sound repo json c0 c places words start = record {
  same_cores = refl;
  words = words;
  in_range = places;
}
Reach-Sound repo json c0 _ places words (next {c} reached services request) =
    serve_safe (map identity c0.resources.cores) repo services json request c
      (Reach-Sound repo json c0 c places words reached)

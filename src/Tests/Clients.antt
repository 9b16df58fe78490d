-- ===== src/Tests/Clients.antt =====
-- Requests of the clients.
use kws_control.Common.{◌≡◌, ◌↔◌, some}
use kws_control.Common.Text.{GoString, codes}
use kws_control.Client.Http.{post}
use kws_control.Client.Core.{CoreClient, do_request}
use kws_control.Client.Core.Exchange.{Answered, do_request-Answered}
use kws_control.Tests.Server.{http}

abbrev client : CoreClient
client = record { base_url = codes "http://c:8080" }

do_request-Answered_example :
    (do_request http client post (codes "/createVM") (some (some (codes "t"))) (λ s. some s)
      ≡ some (codes "j"))
    ↔ ((text : GoString) × (some (codes "t") ≡ some text)
        × Answered http client post (codes "/createVM") text (λ s. some s) (codes "j"))
do_request-Answered_example =
    do_request-Answered http client post (codes "/createVM") (some (codes "t")) (λ s. some s)
      (codes "j")

-- ===== src/Client/Core/Exchange.antt =====
-- `doRequest` (client/vm.go): when a request to a core has an answer.
use kws_control.Common.{
  ◌≡◌, ◌≤◌, ◌<◌, ◌↔◌, refl, sym, ap, ◌∙◌, true, Option, none, some, ◌++◌, [], ◌∷◌, arith,
  Bool-cases, inl, inr,
}
use kws_control.Common.Text.{GoString, codes}
use kws_control.Client.Http.{Http, Method, Response}
use kws_control.Client.Core.{CoreClient, core_request, read_response, do_request}

-- The server has answered the request of that method, URL and body, whose one header says that the
-- body is JSON, with a status from 200 to 299 and a body that can be read.
pub record Answered {A : Type 0} (http : Http) (c : CoreClient) (method : Method)
    (path text : GoString) (decode : GoString → Option A) (a : A) : Type 0 where
  pub url : http.new_request method (c.base_url ++ path) ≡ true
  pub response : Response
  pub came :
      http.exchange (record {
        method = method;
        url = c.base_url ++ path;
        headers = (codes "Content-Type", codes "application/json") ∷ [];
        body = some text;
      })
      ≡ some response
  pub success : (200 ≤ response.status) × (response.status < 300)
  pub read : decode response.body ≡ some a

read_response-some :
    {A : Type 0} (decode : GoString → Option A) (o : Option Response) (a : A)
    → (read_response decode o ≡ some a) ↔ (
        (resp : Response) × (o ≡ some resp)
        × (200 ≤ resp.status)
        × (resp.status < 300)
        × (decode resp.body ≡ some a))
unfolding read_response
read_response-some decode none a = (λ e. cc, λ (resp, e, _, _, _). cc)
read_response-some decode (some resp) a = (
  (λ e. (resp, refl, ground arith, ground arith, ground arith)),
  λ (r, same, lo, hi, e). ground arith,
)

-- `doRequest` returns a response for a body exactly if `Marshal` has a text for it, the URL is
-- accepted, the server answers the request with the method, the base URL and the path, that text and
-- the JSON header, its status is from 200 to 299, and the response is what its body decodes to.
pub do_request-Answered :
    {A : Type 0} (http : Http) (c : CoreClient) (method : Method) (path : GoString)
    (body : Option GoString) (decode : GoString → Option A) (a : A)
    → (do_request http c method path (some body) decode ≡ some a)
      ↔ ((text : GoString) × (body ≡ some text) × Answered http c method path text decode a)
unfolding do_request
do_request-Answered http c method path none decode a = (λ e. cc, λ (text, e, _). cc)
do_request-Answered http c method path (some text) decode a =
    elim (Bool-cases (http.new_request method (c.base_url ++ path))) [
      | inl good ↦
          let answers =
            read_response-some decode (http.exchange (core_request c method path (some text))) a in
          (
            (λ e.
                let (resp, came, lo, hi, read) = answers.0 (ground arith) in
                (
                  text,
                  refl,
                  record {
                    url = good;
                    response = resp;
                    came = came;
                    success = (lo, hi);
                    read = read;
                  },
                )),
            λ (t, same, h).
                let sent : t ≡ text = cc in
                let came =
                  ap (λ t. http.exchange (core_request c method path (some t))) (sym sent)
                  ∙ h.came in
                let read = answers.1 (h.response, came, h.success.0, h.success.1, h.read) in
                ground arith,
          )
      | inr bad ↦ (λ e. absurd (ground arith), λ (t, e, h). absurd (ground (arith, h.url)))
    ]

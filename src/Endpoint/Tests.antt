-- ===== src/Endpoint/Tests.antt =====
-- An endpoint with one request pending calls another one, whose storage limits the size of its blobs;
-- a blob is its own size.
use proxy_store.Prelude.{
  ℕ, suc, ◌≡◌, ◌≢◌, refl, arith, ℕ_discrete, true, false, none, some, List, [], ◌∷◌,
}
use proxy_store.Prelude.Sets.{mem}
use proxy_store.Prelude.Exec.{Exec, ok, err, object_size_exceeded, serialization_error}
use proxy_store.Storage.{DictStorage, too_large}
use proxy_store.Storage
use proxy_store.Endpoint.{
  request, response, op_get, EndpointRequest, waiting, Endpoint, set_call, exists_call, awaiting,
  request_of, local_call, start, await, respond, handle,
}
use proxy_store.Endpoint.Waiting.{Event, incoming, calling, concerns, concerns_any, meanwhile_all}
use proxy_store.Endpoint.Remote.{remote_call}

-- the world counts the messages
abbrev send : ℕ → EndpointRequest ℕ ℕ ℕ → Exec ℕ (Unit {0})
send u m w = (ok tt, suc w)

abbrev endpoint : Endpoint ℕ ℕ ℕ ℕ
endpoint = record {
  uuid = 1;
  peering = true;
  storage = record { blobs = []; max_object_size = none };
  pending = 30 ∷ [];
  futures = (30, waiting) ∷ [];
}

abbrev storage : DictStorage ℕ ℕ
storage = record { blobs = (4, 9) ∷ []; max_object_size = some 10 }

abbrev other_response : EndpointRequest ℕ ℕ ℕ
other_response = record {
  kind = response;
  op = op_get;
  uuid = 30;
  key = 8;
  blob = some 80;
  exists = none;
  error = none;
}

abbrev other_request : EndpointRequest ℕ ℕ ℕ
other_request = record {
  kind = request;
  op = op_get;
  uuid = 31;
  key = 8;
  blob = none;
  exists = none;
  error = none;
}

abbrev events : List (Event ℕ ℕ ℕ ℕ)
events =
    incoming 2 (ok other_response)
    ∷ incoming 3 (ok other_request)
    ∷ calling (exists_call 5) (some 3) 32
    ∷ incoming 3 (err serialization_error)
    ∷ []

apart : concerns_any ℕ_discrete 33 events ≡ false
unfolding concerns_any concerns ℕ_discrete
apart = refl

fresh : mem ℕ_discrete 33 endpoint.pending ≡ false
unfolding mem ℕ_discrete
fresh = refl

other_endpoint : 2 ≢ endpoint.uuid
other_endpoint = λ p. omega (arith, p)

-- the blob is too large for the other endpoint
remote_call_example :
    ((start ℕ_discrete ℕ_discrete ℕ_discrete
        (λ n. n)
        send
        (set_call 4 11)
        (some 2)
        33
        (endpoint, 0)).0
      ≡ awaiting 33)
    × ((await ℕ_discrete ℕ_discrete ℕ_discrete
            (λ n. n)
            send
            (set_call 4 11)
            33
            (meanwhile_all ℕ_discrete ℕ_discrete ℕ_discrete
              (λ n. n)
              send
              events
              (start ℕ_discrete ℕ_discrete ℕ_discrete
                (λ n. n)
                send
                (set_call 4 11)
                (some 2)
                33
                (endpoint, 0)).1).0
          ≡ none)
        × ((await ℕ_discrete ℕ_discrete ℕ_discrete
                (λ n. n)
                send
                (set_call 4 11)
                33
                (handle ℕ_discrete ℕ_discrete ℕ_discrete
                  (λ n. n)
                  send
                  2
                  (ok
                    (respond ℕ_discrete ℕ_discrete ℕ_discrete
                      (λ n. n)
                      send
                      (request_of (set_call 4 11) 33)
                      storage).0)
                  (meanwhile_all ℕ_discrete ℕ_discrete ℕ_discrete
                    (λ n. n)
                    send
                    events
                    (start ℕ_discrete ℕ_discrete ℕ_discrete
                      (λ n. n)
                      send
                      (set_call 4 11)
                      (some 2)
                      33
                      (endpoint, 0)).1)).1.0
              ≡ some (err object_size_exceeded))
            × ((respond ℕ_discrete ℕ_discrete ℕ_discrete
                  (λ n. n)
                  send
                  (request_of (set_call 4 11) 33)
                  storage).1
                ≡ storage)))
unfolding local_call Storage.set too_large
remote_call_example =
    remote_call ℕ_discrete ℕ_discrete ℕ_discrete (λ n. n) send (set_call 4 11) endpoint 2 33 events
      storage 0 refl other_endpoint fresh refl apart

-- ===== src/Endpoint.antt =====
-- `Endpoint` of proxystore/endpoint/endpoint.py and its messages of proxystore/endpoint/messages.py,
-- with the storage in memory. Other endpoints are reached by `send`, over the world `W`.
pub mod Exchange
pub mod Waiting
pub mod Remote
mod Tests
use proxy_store.Prelude.{
  ℕ, if◌then◌else◌, ite, Bool, true, false, not, ◌||◌, Option, none, some, List, [], ◌∷◌,
}
use proxy_store.Prelude.Dict
use proxy_store.Prelude.Dict.{Dict, insert}
use proxy_store.Prelude.Sets.{mem, remove}
use proxy_store.Prelude.Exec.{
  Result, ok, err, Error, Exec, assertion_error, peer_request, invalid_state, map_ok,
}
use proxy_store.Storage.{DictStorage}
use proxy_store.Storage

pub data Kind : Type 0 where
  request response : Kind

pub data Op : Type 0 where
  op_evict op_exists op_get op_set : Op

-- `blob` is the `data` of the source
pub record EndpointRequest (R K B : Type 0) : Type 0 where
  pub kind : Kind
  pub op : Op
  pub uuid : R
  pub key : K
  pub blob : Option B
  pub exists : Option Bool
  pub error : Option Error

pub data Future (R K B : Type 0) : Type 0 where
  waiting : Future R K B
  result : EndpointRequest R K B → Future R K B
  exception : Error → Future R K B

-- `U` is the identifiers of endpoints and `R` of requests. A pending request is named like its future.
pub record Endpoint (U R K B : Type 0) : Type 0 where
  pub uuid : U
  pub peering : Bool
  pub storage : DictStorage K B
  pub pending : List R
  pub futures : Dict R (Future R K B)

-- the calls of an endpoint, and their answers
pub data Call (K B : Type 0) : Type 0 where
  evict_call exists_call get_call : K → Call K B
  set_call : K → B → Call K B

pub data Answer (B : Type 0) : Type 0 where
  nothing : Answer B
  existing : Bool → Answer B
  found : Option B → Answer B

-- a call is answered at once, or waits for a future
pub data Started (R B : Type 0) : Type 0 where
  answered : Result (Answer B) → Started R B
  awaiting : R → Started R B

-- the request of each method
unfoldable pub request_of : {R K B : Type 0} → Call K B → R → EndpointRequest R K B
request_of (evict_call k) id = record {
  kind = request;
  op = op_evict;
  uuid = id;
  key = k;
  blob = none;
  exists = none;
  error = none;
}
request_of (exists_call k) id = record {
  kind = request;
  op = op_exists;
  uuid = id;
  key = k;
  blob = none;
  exists = none;
  error = none;
}
request_of (get_call k) id = record {
  kind = request;
  op = op_get;
  uuid = id;
  key = k;
  blob = none;
  exists = none;
  error = none;
}
request_of (set_call k b) id = record {
  kind = request;
  op = op_set;
  uuid = id;
  key = k;
  blob = some b;
  exists = none;
  error = none;
}

-- what each method returns of a response
unfoldable pub answer_of : {R K B : Type 0} → Call K B → EndpointRequest R K B → Result (Answer B)
answer_of (evict_call _) m = ok nothing
answer_of (exists_call _) m = elim m.exists [
  | none ↦ err assertion_error
  | some b ↦ ok (existing b)
]
answer_of (get_call _) m = ok (found m.blob)
answer_of (set_call _ _) m = ok nothing

module _ {U R K B W : Type 0} (endpoint_dec : Discrete U) (id_dec : Discrete R)
    (key_dec : Discrete K) (size_of : B → ℕ)
    (send : U → EndpointRequest R K B → Exec W (Unit {0})) where
  -- the local branch of each method
  unfoldable pub local_call : Call K B → Exec (DictStorage K B) (Answer B)
  local_call (evict_call k) s = (ok nothing, Storage.evict key_dec size_of k s)
  local_call (exists_call k) s = (ok (existing (Storage.exists key_dec size_of k s)), s)
  local_call (get_call k) s = (ok (found (Storage.get key_dec size_of k none s)), s)
  local_call (set_call k b) s =
      let (r, s') = Storage.set key_dec size_of k b s in (map_ok (λ _. nothing) r, s')

  -- `_is_peer_request`
  unfoldable pub is_peer_request : Option U → Endpoint U R K B → Bool
  is_peer_request endpoint e = elim endpoint [
    | none ↦ false
    | some u ↦ not (not e.peering || ite (endpoint_dec u e.uuid) true false)
  ]

  -- `_request_from_peer`
  unfoldable pub request_from_peer : U → EndpointRequest R K B → Exec (Endpoint U R K B × W) R
  request_from_peer endpoint m (e, w) =
      let e' = record e {
        pending = if mem id_dec m.uuid e.pending then e.pending else m.uuid ∷ e.pending;
        futures = insert id_dec m.uuid waiting e.futures;
      } in
      let (r, w') = send endpoint m w in
      elim r [
        | err _ ↦ (
          ok m.uuid,
          (record e' { futures = insert id_dec m.uuid (exception peer_request) e'.futures }, w'),
        )
        | ok _ ↦ (ok m.uuid, (e', w'))
      ]

  -- `evict`, `exists`, `get` and `set`, up to `await request_future`
  unfoldable pub start :
      Call K B → Option U → R → (Endpoint U R K B × W) → Started R B × (Endpoint U R K B × W)
  start call endpoint id (e, w) = elim endpoint [
    | none ↦ let (r, s) = local_call call e.storage in (answered r, (record e { storage = s }, w))
    | some u ↦
        if is_peer_request (some u) e
        then (awaiting id, (request_from_peer u (request_of call id) (e, w)).1)
        else (let (r, s) = local_call call e.storage in (answered r, (record e { storage = s }, w)))
  ]

  -- `await request_future`: there is nothing while the future waits
  unfoldable pub await : Call K B → R → Endpoint U R K B → Option (Result (Answer B))
  await call id e = elim (Dict.get id_dec id e.futures) [
    | none ↦ none
    | some fut ↦ elim fut [
      | waiting ↦ none
      | exception raised ↦ some (err raised)
      | result m ↦ some (answer_of call m)
    ]
  ]

  -- the `try` block of `_handle_peer_requests`
  unfoldable pub perform : EndpointRequest R K B → Exec (DictStorage K B) (EndpointRequest R K B)
  perform m s = elim m.op [
    | op_evict ↦ (ok m, Storage.evict key_dec size_of m.key s)
    | op_exists ↦ (ok (record m { exists = some (Storage.exists key_dec size_of m.key s) }), s)
    | op_get ↦ (ok (record m { blob = Storage.get key_dec size_of m.key none s }), s)
    | op_set ↦ elim m.blob [
      | none ↦ (err assertion_error, s)
      | some b ↦
          let (r, s') = Storage.set key_dec size_of m.key b s in
          (map_ok (λ _. record m { blob = none }) r, s')
    ]
  ]

  -- the response to a request, and the storage after it
  unfoldable pub respond :
      EndpointRequest R K B → DictStorage K B → EndpointRequest R K B × DictStorage K B
  respond m s =
      let (r, s') = perform m s in
      elim r [
        | err raised ↦ (record m { kind = response; error = some raised }, s')
        | ok m' ↦ (record m' { kind = response }, s')
      ]

  -- `set_result` or `set_exception` of a future, which is set once
  unfoldable pub resolve : EndpointRequest R K B → Exec (Endpoint U R K B) (Unit {0})
  resolve m e = elim (Dict.get id_dec m.uuid e.futures) [
    | none ↦ (err invalid_state, e)
    | some fut ↦ elim fut [
      | result _ ↦ (err invalid_state, e)
      | exception _ ↦ (err invalid_state, e)
      | waiting ↦ elim m.error [
        | none ↦ (ok tt, record e { futures = insert id_dec m.uuid (result m) e.futures })
        | some raised ↦
            (ok tt, record e { futures = insert id_dec m.uuid (exception raised) e.futures })
      ]
    ]
  ]

  -- a round of `_handle_peer_requests`; a message that does not decode is dropped
  unfoldable pub handle :
      U → Result (EndpointRequest R K B) → Exec (Endpoint U R K B × W) (Unit {0})
  handle source decoded (e, w) = elim decoded [
    | err _ ↦ (ok tt, (e, w))
    | ok m ↦ elim m.kind [
      | response ↦
          if mem id_dec m.uuid e.pending
          then (let (r, e') = resolve m (record e { pending = remove id_dec m.uuid e.pending }) in
              (r, (e', w)))
          else (ok tt, (e, w))
      | request ↦
          let (reply, s) = respond m e.storage in
          let (r, w') = send source reply w in (r, (record e { storage = s }, w'))
    ]
  ]

-- ===== src/Endpoint/Exchange.antt =====
-- A call at another endpoint: the request, its handling there, and the response.
use mathlib.Core.Path.{subst, ap₂}
use proxy_store.Prelude.{
  ℕ, ◌≡◌, ◌≢◌, refl, ◌∙◌, ap, arith, if◌then◌else◌, if_neg, inl, inr, Bool, true, false, Option,
  none, some, List, ◌∷◌,
}
use proxy_store.Prelude.Dict
use proxy_store.Prelude.Dict.{Dict, insert, get-insert_self}
use proxy_store.Prelude.Sets.{mem, remove}
use proxy_store.Prelude.Exec.{Result, ok, err, Exec, Error, Result-cases, peer_request}
use proxy_store.Storage.{DictStorage, too_large}
use proxy_store.Storage
use proxy_store.Endpoint.{
  Kind, request, response, EndpointRequest, Future, waiting, result, exception, Endpoint, Call,
  evict_call, exists_call, get_call, set_call, Answer, Started, awaiting, request_of, answer_of,
  local_call, is_peer_request, request_from_peer, start, perform, respond, resolve, handle,
}

module _ {U R K B W : Type 0} (endpoint_dec : Discrete U) (id_dec : Discrete R)
    (key_dec : Discrete K) (size_of : B → ℕ)
    (send : U → EndpointRequest R K B → Exec W (Unit {0})) where
  abbrev pub peer : U → DictStorage K B → List R → Dict R (Future R K B) → Endpoint U R K B
  peer uuid storage pending futures = record {
    uuid = uuid;
    peering = true;
    storage = storage;
    pending = pending;
    futures = futures;
  }

  pub mem_head : (id : R) (l : List R) → mem id_dec id (id ∷ l) ≡ true
  unfolding mem
  mem_head id l = ground arith

  pub request_of-uuid : (call : Call K B) (id : R) → (request_of call id).uuid ≡ id
  unfolding request_of
  request_of-uuid (evict_call _) id = refl
  request_of-uuid (exists_call _) id = refl
  request_of-uuid (get_call _) id = refl
  request_of-uuid (set_call _ _) id = refl

  asked :
      (other : U) (m : EndpointRequest R K B) (uuid : U) (storage : DictStorage K B)
      (pending : List R) (futures : Dict R (Future R K B)) (w : W)
      → mem id_dec m.uuid pending ≡ false
      → (send other m w).0 ≡ ok tt
      → request_from_peer endpoint_dec id_dec key_dec size_of send other m
          (peer uuid storage pending futures, w)
        ≡ (
          ok m.uuid,
          (
            peer uuid storage (m.uuid ∷ pending) (insert id_dec m.uuid waiting futures),
            (send other m w).1,
          ),
        )
  unfolding request_from_peer
  asked other m uuid storage pending futures w fresh sent =
      let after : Bool → Result (Unit {0}) → Result R × (Endpoint U R K B × W) = λ known r.
        let l : List R = if known then pending else m.uuid ∷ pending in
        elim r [
          | err _ ↦ (
            ok m.uuid,
            (
              peer uuid storage l (
                  insert id_dec m.uuid (exception peer_request)
                    (insert id_dec m.uuid waiting futures)),
              (send other m w).1,
            ),
          )
          | ok _ ↦ (
            ok m.uuid,
            (peer uuid storage l (insert id_dec m.uuid waiting futures), (send other m w).1),
          )
        ] in
      ap₂ after fresh sent

  -- what is left after a request, whose identifier is `i`
  abbrev Sent :
      EndpointRequest R K B
      → U
      → U
      → DictStorage K B
      → List R
      → Dict R (Future R K B)
      → W
      → R
      → R
      → Type 0
  Sent m uuid other storage pending futures w id i =
      ◌≡◌ {A = Started R B × (Endpoint U R K B × W)}
        (
          awaiting id,
          (request_from_peer endpoint_dec id_dec key_dec size_of send other m
              (peer uuid storage pending futures, w)).1,
        )
        (
          awaiting id,
          (peer uuid storage (i ∷ pending) (insert id_dec i waiting futures), (send other m w).1),
        )

  -- a call at another endpoint is sent and waits
  pub started :
      (call : Call K B) (uuid other : U) (id : R) (storage : DictStorage K B) (pending : List R)
      (futures : Dict R (Future R K B)) (w : W)
      → other ≢ uuid
      → mem id_dec id pending ≡ false
      → (send other (request_of call id) w).0 ≡ ok tt
      → start endpoint_dec id_dec key_dec size_of send call
          (some other)
          id
          (peer uuid storage pending futures, w)
        ≡ (
          awaiting id,
          (
            peer uuid storage (id ∷ pending) (insert id_dec id waiting futures),
            (send other (request_of call id) w).1,
          ),
        )
  unfolding start is_peer_request
  started call uuid other id storage pending futures w ne fresh sent =
      let m : EndpointRequest R K B = request_of call id in
      rw (if_neg (endpoint_dec other uuid) ne) (
        subst (λ i. Sent m uuid other storage pending futures w id i) (request_of-uuid call id)
          (ap (λ r. (awaiting id, r.1))
            (asked other m uuid storage pending futures w
              (ap (λ i. mem id_dec i pending) (request_of-uuid call id) ∙ fresh) sent)))

  -- what a response makes of its future
  abbrev pub settled : EndpointRequest R K B → Option Error → Future R K B
  settled m none = result m
  settled m (some raised) = exception raised

  pub resolve_eq :
      (m : EndpointRequest R K B) (e : Endpoint U R K B)
      → Dict.get id_dec m.uuid e.futures ≡ some waiting
      → resolve endpoint_dec id_dec key_dec size_of send m e
        ≡ (ok tt, record e { futures = insert id_dec m.uuid (settled m m.error) e.futures })
  unfolding resolve
  resolve_eq m e waits = rw (resolve, waits) (by_error m.error)
    where
      by_error :
          (o : Option Error)
          → ◌≡◌ {A = Result (Unit {0}) × Endpoint U R K B}
              (elim o [
                | none ↦ (ok tt, record e { futures = insert id_dec m.uuid (result m) e.futures })
                | some raised ↦ (
                  ok tt,
                  record e { futures = insert id_dec m.uuid (exception raised) e.futures },
                )
              ])
              (ok tt, record e { futures = insert id_dec m.uuid (settled m o) e.futures })
      by_error none = refl
      by_error (some raised) = refl

  -- what `handle` does with a message of a kind
  abbrev pub received :
      U
      → EndpointRequest R K B
      → Endpoint U R K B
      → W
      → Kind
      → Result (Unit {0}) × (Endpoint U R K B × W)
  received source m e w kind = elim kind [
    | response ↦
        if mem id_dec m.uuid e.pending
        then (let (r, e') =
              resolve endpoint_dec id_dec key_dec size_of send m
                (record e { pending = remove id_dec m.uuid e.pending }) in
            (r, (e', w)))
        else (ok tt, (e, w))
    | request ↦
        let (reply, st) = respond endpoint_dec id_dec key_dec size_of send m e.storage in
        let (q, w') = send source reply w in (q, (record e { storage = st }, w'))
  ]

  pub handle-received :
      (source : U) (m : EndpointRequest R K B) (e : Endpoint U R K B) (w : W) (kind : Kind)
      → m.kind ≡ kind
      → handle endpoint_dec id_dec key_dec size_of send source (ok m) (e, w)
        ≡ received source m e w kind
  unfolding handle
  handle-received source m e w kind k = ap (received source m e w) k

  -- a response to a pending request
  pub resolved :
      (source : U) (m : EndpointRequest R K B) (e : Endpoint U R K B) (w : W)
      → m.kind ≡ response
      → mem id_dec m.uuid e.pending ≡ true
      → Dict.get id_dec m.uuid e.futures ≡ some waiting
      → handle endpoint_dec id_dec key_dec size_of send source (ok m) (e, w) ≡ (
        ok tt,
        (
          record e {
            pending = remove id_dec m.uuid e.pending;
            futures = insert id_dec m.uuid (settled m m.error) e.futures;
          },
          w,
        ),
      )
  resolved source m e w k there waits =
      handle-received source m e w response k
      ∙ (rw (there) refl
          ∙ ap (λ (r : Result (Unit {0}) × Endpoint U R K B). (r.0, (r.1, w)))
              (resolve_eq m (record e { pending = remove id_dec m.uuid e.pending }) waits))

  -- a response as an answer
  abbrev pub outcome : Call K B → EndpointRequest R K B → Result (Answer B)
  outcome call m = elim m.error [ none ↦ answer_of call m | some raised ↦ err raised ]

  -- the response of a request carries what the call answers there
  pub record Responds (call : Call K B) (id : R) (s : DictStorage K B) : Type 0 where
    pub reply : EndpointRequest R K B
    pub after : DictStorage K B
    pub made :
        respond endpoint_dec id_dec key_dec size_of send (request_of call id) s ≡ (reply, after)
    pub is_response : reply.kind ≡ response
    pub same_id : reply.uuid ≡ id
    pub locally :
        local_call endpoint_dec id_dec key_dec size_of send call s ≡ (outcome call reply, after)

  pub responds : (call : Call K B) (id : R) (s : DictStorage K B) → Responds call id s
  unfolding respond perform request_of local_call answer_of
  responds (evict_call k) id s = record {
    reply = _;
    after = _;
    made = refl;
    is_response = refl;
    same_id = refl;
    locally = refl;
  }
  responds (exists_call k) id s = record {
    reply = _;
    after = _;
    made = refl;
    is_response = refl;
    same_id = refl;
    locally = refl;
  }
  responds (get_call k) id s = record {
    reply = _;
    after = _;
    made = refl;
    is_response = refl;
    same_id = refl;
    locally = refl;
  }
  responds (set_call k b) id s = elim (Result-cases (Storage.set key_dec size_of k b s).0) [
    | inl (_, e) ↦ record {
      reply = record (request_of (set_call k b) id) { kind = response; blob = none };
      after = (Storage.set key_dec size_of k b s).1;
      made = rw (respond, perform, e) refl;
      is_response = refl;
      same_id = refl;
      locally = rw (local_call, e) refl;
    }
    | inr (raised, e) ↦ record {
      reply = record (request_of (set_call k b) id) { kind = response; error = some raised };
      after = (Storage.set key_dec size_of k b s).1;
      made = rw (respond, perform, e) refl;
      is_response = refl;
      same_id = refl;
      locally = rw (local_call, e) refl;
    }
  ]

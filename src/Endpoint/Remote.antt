-- ===== src/Endpoint/Remote.antt =====
-- A call at another endpoint, from the request to the answer.
use mathlib.Core.Path.{subst}
use proxy_store.Prelude.{
  ℕ, ◌≡◌, ◌≢◌, refl, sym, ◌∙◌, ap, true, false, Option, none, some, List, ◌∷◌,
}
use proxy_store.Prelude.Dict.{insert, get-insert_self}
use proxy_store.Prelude.Sets.{mem, remove}
use proxy_store.Prelude.Exec.{Result, ok, err, Exec, Error}
use proxy_store.Storage.{DictStorage}
use proxy_store.Endpoint.{
  response, EndpointRequest, waiting, result, exception, Endpoint, Call, Answer, Started, awaiting,
  request_of, answer_of, local_call, start, await, respond, handle,
}
use proxy_store.Endpoint.Exchange.{
  peer, settled, outcome, mem_head, started, resolved, Responds, responds,
}
use proxy_store.Endpoint.Waiting.{
  Event, concerns_any, meanwhile_all, IsWaiting, meanwhile_all-IsWaiting,
}

module _ {U R K B W : Type 0} (endpoint_dec : Discrete U) (id_dec : Discrete R)
    (key_dec : Discrete K) (size_of : B → ℕ)
    (send : U → EndpointRequest R K B → Exec W (Unit {0})) where
  waits_for :
      (call : Call K B) (id : R) (e : Endpoint U R K B)
      → IsWaiting endpoint_dec id_dec key_dec size_of send id e
      → await endpoint_dec id_dec key_dec size_of send call id e ≡ none
  unfolding await
  waits_for call id e h = rw (await, h.1) refl

  await-settled :
      (call : Call K B) (m : EndpointRequest R K B) (e : Endpoint U R K B)
      → await endpoint_dec id_dec key_dec size_of send call m.uuid (record e {
        futures =
            insert id_dec m.uuid
              (settled endpoint_dec id_dec key_dec size_of send m m.error)
              e.futures;
      })
        ≡ some (outcome endpoint_dec id_dec key_dec size_of send call m)
  unfolding await
  await-settled call m e =
      rw
        (
          await,
          get-insert_self id_dec m.uuid (settled endpoint_dec id_dec key_dec size_of send m m.error)
              e.futures,
        )
        (by_error m.error)
    where
      by_error :
          (o : Option Error)
          → (elim (settled endpoint_dec id_dec key_dec size_of send m o)
              as (λ _. Option (Result (Answer B))) [
                | waiting ↦ none
                | exception raised ↦ some (err raised)
                | result m' ↦ some (answer_of call m')
              ])
            ≡ some (elim o as (λ _. Result (Answer B)) [
              | none ↦ answer_of call m
              | some raised ↦ err raised
            ])
      by_error none = refl
      by_error (some raised) = refl

  -- the response of a request, at an endpoint that has waited for it
  answered_by :
      (call : Call K B) (source : U) (m : EndpointRequest R K B) (e : Endpoint U R K B) (w : W)
      → m.kind ≡ response
      → IsWaiting endpoint_dec id_dec key_dec size_of send m.uuid e
      → await endpoint_dec id_dec key_dec size_of send call m.uuid
          (handle endpoint_dec id_dec key_dec size_of send source (ok m) (e, w)).1.0
        ≡ some (outcome endpoint_dec id_dec key_dec size_of send call m)
  answered_by call source m e w k (there, waits) =
      ap
        (λ (r : Result (Unit {0}) × (Endpoint U R K B × W)).
          await endpoint_dec id_dec key_dec size_of send call m.uuid r.1.0)
        (resolved endpoint_dec id_dec key_dec size_of send source m e w k there waits)
      ∙ await-settled call m (record e { pending = remove id_dec m.uuid e.pending })

  started-IsWaiting :
      (call : Call K B) (a : Endpoint U R K B) (other : U) (id : R) (w : W)
      → a.peering ≡ true
      → other ≢ a.uuid
      → mem id_dec id a.pending ≡ false
      → (send other (request_of call id) w).0 ≡ ok tt
      → ((start endpoint_dec id_dec key_dec size_of send call (some other) id (a, w)).0
          ≡ awaiting id)
        × IsWaiting endpoint_dec id_dec key_dec size_of send id
            (start endpoint_dec id_dec key_dec size_of send call (some other) id (a, w)).1.0
  started-IsWaiting call a other id w peers ne fresh sent =
      subst
        (λ (a' : Endpoint U R K B).
          ((start endpoint_dec id_dec key_dec size_of send call (some other) id (a', w)).0
            ≡ awaiting id)
          × IsWaiting endpoint_dec id_dec key_dec size_of send id
              (start endpoint_dec id_dec key_dec size_of send call (some other) id (a', w)).1.0)
        (sym (ap (λ b. record a { peering = b }) peers))
        (
          ap (λ r. r.0) eq,
          subst
              (λ (r : Started R B × (Endpoint U R K B × W)).
                IsWaiting endpoint_dec id_dec key_dec size_of send id r.1.0)
              (sym eq)
              (
                mem_head endpoint_dec id_dec key_dec size_of send id a.pending,
                get-insert_self id_dec id waiting a.futures,
              ),
        )
    where
      eq :
          start endpoint_dec id_dec key_dec size_of send call
            (some other)
            id
            (peer endpoint_dec id_dec key_dec size_of send a.uuid a.storage a.pending a.futures, w)
          ≡ (
            awaiting id,
            (
              peer endpoint_dec id_dec key_dec size_of send a.uuid a.storage
                  (id ∷ a.pending)
                  (insert id_dec id waiting a.futures),
              (send other (request_of call id) w).1,
            ),
          )
      eq =
          started endpoint_dec id_dec key_dec size_of send call a.uuid other id a.storage a.pending
            a.futures w ne fresh sent

  answer_comes :
      (call : Call K B) (source : U) (id : R) (s : DictStorage K B) (later : Endpoint U R K B × W)
      → (r : Responds endpoint_dec id_dec key_dec size_of send call id s)
      → IsWaiting endpoint_dec id_dec key_dec size_of send id later.0
      → await endpoint_dec id_dec key_dec size_of send call id
          (handle endpoint_dec id_dec key_dec size_of send source
            (ok (respond endpoint_dec id_dec key_dec size_of send (request_of call id) s).0)
            later).1.0
        ≡ some (local_call endpoint_dec id_dec key_dec size_of send call s).0
  answer_comes call source id s later r still =
      ap
        (λ (x : EndpointRequest R K B × DictStorage K B).
          await endpoint_dec id_dec key_dec size_of send call id
            (handle endpoint_dec id_dec key_dec size_of send source (ok x.0) later).1.0)
        r.made
      ∙ (subst
            (λ i.
              await endpoint_dec id_dec key_dec size_of send call i
                (handle endpoint_dec id_dec key_dec size_of send source (ok r.reply) later).1.0
              ≡ some (outcome endpoint_dec id_dec key_dec size_of send call r.reply))
            r.same_id
            (answered_by call source r.reply later.0 later.1 r.is_response (
              subst (λ i. IsWaiting endpoint_dec id_dec key_dec size_of send i later.0)
                (sym r.same_id) still))
          ∙ ap some (sym (ap (λ x. x.0) r.locally)))

  -- An endpoint in peering mode calls `evict`, `exists`, `get` or `set` at another one, with a
  -- request whose identifier is not pending, and the request is sent. Whatever messages the
  -- endpoint gets and whatever calls it starts meanwhile, other than a response to this request or
  -- a call with its identifier, the call waits. When the response that the other endpoint makes of
  -- the request comes, the call returns or raises what a local call returns or raises there, and
  -- the storage of the other endpoint is as after that local call.
  pub remote_call :
      (call : Call K B) (a : Endpoint U R K B) (other : U) (id : R) (l : List (Event U R K B))
      (s : DictStorage K B) (w : W)
      → a.peering ≡ true
      → other ≢ a.uuid
      → mem id_dec id a.pending ≡ false
      → (send other (request_of call id) w).0 ≡ ok tt
      → concerns_any id_dec id l ≡ false
      → let sent = start endpoint_dec id_dec key_dec size_of send call (some other) id (a, w) in
        let later = meanwhile_all endpoint_dec id_dec key_dec size_of send l sent.1 in
        let reply = respond endpoint_dec id_dec key_dec size_of send (request_of call id) s in
        let done = handle endpoint_dec id_dec key_dec size_of send other (ok reply.0) later in
        (sent.0 ≡ awaiting id)
        × ((await endpoint_dec id_dec key_dec size_of send call id later.0 ≡ none)
            × ((await endpoint_dec id_dec key_dec size_of send call id done.1.0
                  ≡ some (local_call endpoint_dec id_dec key_dec size_of send call s).0)
                × (reply.1 ≡ (local_call endpoint_dec id_dec key_dec size_of send call s).1)))
  remote_call call a other id l s w peers ne fresh sent apart =
      let first = started-IsWaiting call a other id w peers ne fresh sent in
      let later : Endpoint U R K B × W =
        meanwhile_all endpoint_dec id_dec key_dec size_of send l
          (start endpoint_dec id_dec key_dec size_of send call (some other) id (a, w)).1 in
      let still =
        meanwhile_all-IsWaiting endpoint_dec id_dec key_dec size_of send id l
          (start endpoint_dec id_dec key_dec size_of send call (some other) id (a, w)).1 apart
          first.1 in
      let r = responds endpoint_dec id_dec key_dec size_of send call id s in
      (
        first.0,
        (
          waits_for call id later.0 still,
          (
            answer_comes call other id s later r still,
            ap (λ x. x.1) r.made ∙ sym (ap (λ x. x.1) r.locally),
          ),
        ),
      )

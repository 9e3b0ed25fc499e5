-- ===== src/Endpoint/Waiting.antt =====
-- While a request is pending: what else an endpoint does in the meantime, and the response.
use mathlib.Core.Path.{subst}
use proxy_store.Prelude.{
  ℕ, ◌≡◌, ◌≢◌, refl, sym, ◌∙◌, arith, if◌then◌else◌, ite, Bool-cases, Option-cases, inl, inr, Bool,
  true, false, ◌||◌, Option, none, some, List, [], ◌∷◌,
}
use proxy_store.Prelude.Dict
use proxy_store.Prelude.Dict.{Dict, insert, get-insert_self, get-insert_ne}
use proxy_store.Prelude.Sets.{mem, remove, mem-remove_ne}
use proxy_store.Prelude.Exec.{Result, ok, err, Exec, Result-cases}
use proxy_store.Endpoint.{
  Kind, request, response, EndpointRequest, Future, waiting, result, exception, Endpoint, Call,
  request_of, is_peer_request, request_from_peer, start, resolve, handle,
}
use proxy_store.Endpoint.Exchange.{resolve_eq, received, request_of-uuid}

-- what an endpoint does in the meantime: it gets a message, or one of its methods is called
pub data Event (U R K B : Type 0) : Type 0 where
  incoming : U → Result (EndpointRequest R K B) → Event U R K B
  calling : Call K B → Option U → R → Event U R K B

module _ {U R K B : Type 0} (id_dec : Discrete R) (id : R) where
  -- an event about the request `id`: a response to it, or another call that takes its identifier
  unfoldable pub concerns : Event U R K B → Bool
  concerns (incoming _ decoded) = elim decoded [
    | err _ ↦ false
    | ok m ↦ elim m.kind [ request ↦ false | response ↦ ite (id_dec m.uuid id) true false ]
  ]
  concerns (calling _ _ other) = ite (id_dec other id) true false

  unfoldable pub concerns_any : List (Event U R K B) → Bool
  concerns_any [] = false
  concerns_any (e ∷ l) = let rest = concerns_any l in concerns e || rest

module _ {U R K B W : Type 0} (endpoint_dec : Discrete U) (id_dec : Discrete R)
    (key_dec : Discrete K) (size_of : B → ℕ)
    (send : U → EndpointRequest R K B → Exec W (Unit {0})) where
  unfoldable pub meanwhile : Event U R K B → (Endpoint U R K B × W) → Endpoint U R K B × W
  meanwhile (incoming source decoded) s =
      (handle endpoint_dec id_dec key_dec size_of send source decoded s).1
  meanwhile (calling call endpoint id) s =
      (start endpoint_dec id_dec key_dec size_of send call endpoint id s).1

  unfoldable pub meanwhile_all :
      List (Event U R K B) → (Endpoint U R K B × W) → Endpoint U R K B × W
  meanwhile_all [] s = s
  meanwhile_all (e ∷ l) s = meanwhile_all l (meanwhile e s)

  -- the request is pending, and its future waits
  abbrev pub IsWaiting : R → Endpoint U R K B → Type 0
  IsWaiting id e = (mem id_dec id e.pending ≡ true) × (Dict.get id_dec id e.futures ≡ some waiting)

  or_false : (a b : Bool) → (a || b) ≡ false → (a ≡ false) × (b ≡ false)
  or_false true b n = ground arith
  or_false false b n = (refl, n)

  ite-no : {P : Type 0} (d : Dec P) → ite d true false ≡ false → ¬ P
  ite-no d e = ground arith

  resolve-IsWaiting :
      (id : R) (m : EndpointRequest R K B) (e : Endpoint U R K B)
      → m.uuid ≢ id
      → IsWaiting id e
      → IsWaiting id (resolve endpoint_dec id_dec key_dec size_of send m e).1
  unfolding resolve
  resolve-IsWaiting id m e ne h = elim (Option-cases (Dict.get id_dec m.uuid e.futures)) [
    | inl unknown ↦ rw (resolve, unknown) h
    | inr (fut, known) ↦ by_future fut known
  ]
    where
      by_future :
          (fut : Future R K B)
          → Dict.get id_dec m.uuid e.futures ≡ some fut
          → IsWaiting id (resolve endpoint_dec id_dec key_dec size_of send m e).1
      by_future (result _) known = rw (resolve, known) h
      by_future (exception _) known = rw (resolve, known) h
      by_future waiting known =
          subst (λ (r : Result (Unit {0}) × Endpoint U R K B). IsWaiting id r.1)
            (sym (resolve_eq endpoint_dec id_dec key_dec size_of send m e known))
            (h.0, get-insert_ne id_dec m.uuid id _ e.futures ne ∙ h.1)

  received-IsWaiting :
      (id : R) (source : U) (m : EndpointRequest R K B) (e : Endpoint U R K B) (w : W) (kind : Kind)
      → (elim kind [ request ↦ false | response ↦ ite (id_dec m.uuid id) true false ]) ≡ false
      → IsWaiting id e
      → IsWaiting id (received endpoint_dec id_dec key_dec size_of send source m e w kind).1.0
  received-IsWaiting id source m e w request n h = h
  received-IsWaiting id source m e w response n h =
      elim (Bool-cases (mem id_dec m.uuid e.pending)) [
        | inl there ↦ rw (there) (
            resolve-IsWaiting id m (record e { pending = remove id_dec m.uuid e.pending })
              (ite-no (id_dec m.uuid id) n)
              (mem-remove_ne id_dec m.uuid id e.pending (ite-no (id_dec m.uuid id) n) ∙ h.0, h.1))
        | inr unknown ↦ rw (unknown) h
      ]

  handle-IsWaiting :
      (id : R) (source : U) (decoded : Result (EndpointRequest R K B)) (e : Endpoint U R K B)
      (w : W)
      → concerns id_dec id (incoming source decoded) ≡ false
      → IsWaiting id e
      → IsWaiting id (handle endpoint_dec id_dec key_dec size_of send source decoded (e, w)).1.0
  unfolding handle concerns
  handle-IsWaiting id source (err raised) e w n h = h
  handle-IsWaiting id source (ok m) e w n h = received-IsWaiting id source m e w m.kind n h

  request_from_peer-IsWaiting :
      (id : R) (u : U) (m : EndpointRequest R K B) (e : Endpoint U R K B) (w : W)
      → m.uuid ≢ id
      → IsWaiting id e
      → IsWaiting id (request_from_peer endpoint_dec id_dec key_dec size_of send u m (e, w)).1.0
  unfolding request_from_peer mem
  request_from_peer-IsWaiting id u m e w ne h =
      let still : mem id_dec id
            (if mem id_dec m.uuid e.pending then e.pending else m.uuid ∷ e.pending)
          ≡ true =
        ground (arith, h.0) in
      let waits : Dict.get id_dec id (insert id_dec m.uuid waiting e.futures) ≡ some waiting =
        get-insert_ne id_dec m.uuid id _ e.futures ne ∙ h.1 in
      elim (Result-cases (send u m w).0) [
        | inl (_, sent) ↦ rw (request_from_peer, sent) (still, waits)
        | inr (raised, failed) ↦
            rw (request_from_peer, failed) (still, get-insert_ne id_dec m.uuid id _ _ ne ∙ waits)
      ]

  start-IsWaiting :
      (id : R) (call : Call K B) (endpoint : Option U) (other : R) (e : Endpoint U R K B) (w : W)
      → other ≢ id
      → IsWaiting id e
      → IsWaiting id (start endpoint_dec id_dec key_dec size_of send call endpoint other (e, w)).1.0
  unfolding start
  start-IsWaiting id call none other e w ne h = h
  start-IsWaiting id call (some u) other e w ne h =
      elim (Bool-cases (is_peer_request endpoint_dec id_dec key_dec size_of send (some u) e)) [
        | inl remote ↦
            rw (start, remote)
              (request_from_peer-IsWaiting id u (request_of call other) e w
                (λ p.
                  ne
                    (sym (request_of-uuid endpoint_dec id_dec key_dec size_of send call other) ∙ p))
                h)
        | inr here ↦ rw (start, here) h
      ]

  pub meanwhile_all-IsWaiting :
      (id : R) (l : List (Event U R K B)) (s : Endpoint U R K B × W)
      → concerns_any id_dec id l ≡ false
      → IsWaiting id s.0
      → IsWaiting id (meanwhile_all l s).0
  unfolding meanwhile_all meanwhile concerns_any concerns
  meanwhile_all-IsWaiting id [] s n h = h
  meanwhile_all-IsWaiting id (incoming source decoded ∷ l) (e, w) n h =
      meanwhile_all-IsWaiting id l _
        (or_false (concerns id_dec id (incoming source decoded)) (concerns_any id_dec id l) n).1
        (handle-IsWaiting id source decoded e w
          (or_false (concerns id_dec id (incoming source decoded)) (concerns_any id_dec id l) n).0
          h)
  meanwhile_all-IsWaiting id (calling call endpoint other ∷ l) (e, w) n h =
      meanwhile_all-IsWaiting id l _
        (or_false (ite (id_dec other id) true false) (concerns_any id_dec id l) n).1
        (start-IsWaiting id call endpoint other e w
          (ite-no (id_dec other id)
            (or_false (ite (id_dec other id) true false) (concerns_any id_dec id l) n).0)
          h)

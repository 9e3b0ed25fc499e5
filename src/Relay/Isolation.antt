-- ===== src/Relay/Isolation.antt =====
-- The isolation of users: who the clients of a server are, and to which websockets it sends the peer
-- requests that come on another one.
use mathlib.Core.Path.{subst}
use proxy_store.Prelude.{
  ℕ, ◌≡◌, ◌≢◌, refl, ◌∙◌, ap, inl, inr, ◌⊎◌, Option-cases, none, some, Bool, true, false, List, [],
  ◌∷◌, arith,
}
use proxy_store.Prelude.Dict
use proxy_store.Prelude.Dict.{Dict, insert, erase, get-insert, get-erase}
use proxy_store.Prelude.Exec.{Result, Result-cases, ok, err, Error, forbidden}
use proxy_store.Relay.{
  Client, PeerConnectionRequest, RelayMessage, registration, response, peer_connection, Event, sent,
  RelayServer, Received, closed_ok, closed_error, too_long, undecodable, message, add_client,
  remove_client, send, close, unregister, welcome, register, forward, process_message, disconnect,
  Reply, uncaught, responding, closing, reply_to, reply, answer, not_registered, other_user, handle,
  run, new_server,
}

module _ {I U W T : Type 0} (uuid_dec : Discrete I) (socket_dec : Discrete W)
    (user_dec : Discrete U) (authenticate : W → Result U) where
  -- the client is that of a user that its websocket proved to be
  abbrev pub Authentic : Client I U W T → Type 0
  Authentic c = authenticate c.websocket ≡ ok c.user

  -- the websocket that a peer request came on and the one that it went to are of the same user
  abbrev pub IsPermitted : Event I W T → Type 0
  IsPermitted (sent origin target (peer_connection _)) =
      (user : U) × ((authenticate origin ≡ ok user) × (authenticate target ≡ ok user))
  IsPermitted _ = Unit

  abbrev pub Permitted : List (Event I W T) → Type 0
  Permitted [] = Unit
  Permitted (e ∷ l) = IsPermitted e × Permitted l

  pub record IsIsolated (s : RelayServer I U W T) : Type 0 where
    pub by_uuid :
        (u : I) (c : Client I U W T)
        → Dict.get uuid_dec u s.client_manager.clients_by_uuid ≡ some c
        → Authentic c
    pub by_websocket :
        (w : W) (c : Client I U W T)
        → Dict.get socket_dec w s.client_manager.clients_by_websocket ≡ some c
        → (c.websocket ≡ w) × Authentic c
    pub permitted : Permitted s.log

  module _ {J : Type 0} (dec : Discrete J) where
    get-erase-found :
        (k j : J) (c : Client I U W T) (d : Dict J (Client I U W T))
        → Dict.get dec j (erase dec k d) ≡ some c
        → Dict.get dec j d ≡ some c
    get-erase-found k j c d h = ground (arith, get-erase dec k j d)

    get-insert-found :
        (k j : J) (c e : Client I U W T) (d : Dict J (Client I U W T))
        → Dict.get dec j (insert dec k e d) ≡ some c
        → ((k ≡ j) × (e ≡ c)) ⊎ (Dict.get dec j d ≡ some c)
    get-insert-found k j c e d h = ground (arith, get-insert dec k j e d)

  unregister-IsIsolated :
      (c : Client I U W T) (expected : Bool) (s : RelayServer I U W T)
      → IsIsolated s
      → IsIsolated (unregister uuid_dec socket_dec user_dec c expected s)
  unfolding unregister remove_client close
  unregister-IsIsolated c expected s h = record {
    by_uuid = λ u d e. h.by_uuid u d (get-erase-found uuid_dec c.uuid u d _ e);
    by_websocket = λ w d e. h.by_websocket w d (get-erase-found socket_dec c.websocket w d _ e);
    permitted = (tt, h.permitted);
  }

  welcome-IsIsolated :
      (w : W) (c : Client I U W T) (s : RelayServer I U W T)
      → Authentic c
      → IsIsolated s
      → IsIsolated (welcome uuid_dec socket_dec user_dec w c s)
  unfolding welcome add_client send
  welcome-IsIsolated o c s a h = record {
    by_uuid = λ u d e. elim (get-insert-found uuid_dec c.uuid u d c _ e) [
      | inl (_, same) ↦ cc (same, a)
      | inr old ↦ h.by_uuid u d old
    ];
    by_websocket = λ w d e. elim (get-insert-found socket_dec c.websocket w d c _ e) [
      | inl (here, same) ↦ (cc (here, same), cc (same, a))
      | inr old ↦ h.by_websocket w d old
    ];
    permitted = (tt, h.permitted);
  }

  sent-IsIsolated :
      (origin : W) (c : Client I U W T) (r : PeerConnectionRequest I T) (s : RelayServer I U W T)
      (user : U)
      → authenticate origin ≡ ok user
      → authenticate c.websocket ≡ ok user
      → IsIsolated s
      → IsIsolated (send origin c (peer_connection r) s)
  unfolding send
  sent-IsIsolated origin c r s user from to h = record {
    by_uuid = h.by_uuid;
    by_websocket = h.by_websocket;
    permitted = ((user, (from, to)), h.permitted);
  }

  close-IsIsolated :
      (w : W) (code : ℕ) (s : RelayServer I U W T) → IsIsolated s → IsIsolated (close w code s)
  unfolding close
  close-IsIsolated w code s h = record {
    by_uuid = h.by_uuid;
    by_websocket = h.by_websocket;
    permitted = (tt, h.permitted);
  }

  module _ (w : W) (name : T) (u : I) (s : RelayServer I U W T) where
    abbrev newcomer : U → Client I U W T
    newcomer user = record { name = name; uuid = u; user = user; websocket = w }

    register_refused :
        (e : Error)
        → authenticate w ≡ err e
        → register uuid_dec socket_dec user_dec authenticate w name u s ≡ (err e, s)
    unfolding register
    register_refused e h = rw (register, h) refl

    register_new :
        (user : U)
        → authenticate w ≡ ok user
        → Dict.get uuid_dec u s.client_manager.clients_by_uuid ≡ none
        → register uuid_dec socket_dec user_dec authenticate w name u s
          ≡ (ok tt, welcome uuid_dec socket_dec user_dec w (newcomer user) s)
    unfolding register
    register_new user h e = rw (register, h, e) refl

    register_taken :
        (user : U) (c : Client I U W T)
        → authenticate w ≡ ok user
        → Dict.get uuid_dec u s.client_manager.clients_by_uuid ≡ some c
        → c.user ≢ user
        → register uuid_dec socket_dec user_dec authenticate w name u s ≡ (err forbidden, s)
    unfolding register
    register_taken user c h e ne = rw (register, h, e) (ground arith)

    register_again :
        (user : U) (c : Client I U W T)
        → authenticate w ≡ ok user
        → Dict.get uuid_dec u s.client_manager.clients_by_uuid ≡ some c
        → c.user ≡ user
        → (register uuid_dec socket_dec user_dec authenticate w name u s
            ≡ (ok tt, welcome uuid_dec socket_dec user_dec w (newcomer user) s))
          ⊎ (register uuid_dec socket_dec user_dec authenticate w name u s ≡ (
            ok tt,
            welcome uuid_dec socket_dec user_dec w
                (newcomer user)
                (unregister uuid_dec socket_dec user_dec c false s),
          ))
    unfolding register
    register_again user c h e same = rw (register, h, e) (ground arith)

    register-IsIsolated :
        IsIsolated s → IsIsolated (register uuid_dec socket_dec user_dec authenticate w name u s).1
    register-IsIsolated h = elim (Result-cases (authenticate w)) [
      | inr (e, refused) ↦ rw (register_refused e refused) h
      | inl (user, proved) ↦
          elim (Option-cases (Dict.get uuid_dec u s.client_manager.clients_by_uuid)) [
            | inl e ↦
                rw (register_new user proved e) (welcome-IsIsolated w (newcomer user) s proved h)
            | inr (c, e) ↦ elim (user_dec c.user user) [
              | no ne ↦ rw (register_taken user c proved e ne) h
              | yes same ↦ elim (register_again user c proved e same) [
                | inl done ↦ rw done (welcome-IsIsolated w (newcomer user) s proved h)
                | inr done ↦ rw done (
                    welcome-IsIsolated w (newcomer user) _ proved
                      (unregister-IsIsolated c false s h))
              ]
            ]
          ]
    ]

  module _ (w : W) (c : Client I U W T) (r : PeerConnectionRequest I T)
      (s : RelayServer I U W T) where
    forward_unknown :
        Dict.get uuid_dec r.peer_uuid s.client_manager.clients_by_uuid ≡ none
        → forward uuid_dec socket_dec user_dec w c r s
          ≡ send w c (peer_connection (record r { error = some (inr not_registered) })) s
    unfolding forward
    forward_unknown e = rw (forward, e) refl

    forward_known :
        (t : Client I U W T)
        → Dict.get uuid_dec r.peer_uuid s.client_manager.clients_by_uuid ≡ some t
        → ((c.user ≡ t.user)
            × (forward uuid_dec socket_dec user_dec w c r s ≡ send w t (peer_connection r) s))
          ⊎ (forward uuid_dec socket_dec user_dec w c r s
              ≡ send w c (peer_connection (record r { error = some (inr other_user) })) s)
    unfolding forward
    forward_known t e = rw (forward, e) (ground arith)

    forward-IsIsolated :
        c.websocket ≡ w
        → Authentic c
        → IsIsolated s
        → IsIsolated (forward uuid_dec socket_dec user_dec w c r s)
    forward-IsIsolated here a h =
        let from : authenticate w ≡ ok c.user = subst (λ o. authenticate o ≡ ok c.user) here a in
        elim (Option-cases (Dict.get uuid_dec r.peer_uuid s.client_manager.clients_by_uuid)) [
          | inl e ↦ rw (forward_unknown e) (sent-IsIsolated w c _ s c.user from a h)
          | inr (t, e) ↦ elim (forward_known t e) [
            | inl (same, done) ↦
                rw done
                  (sent-IsIsolated w t r s t.user (from ∙ ap ok same) (h.by_uuid r.peer_uuid t e) h)
            | inr done ↦ rw done (sent-IsIsolated w c _ s c.user from a h)
          ]
        ]

  reply-IsIsolated :
      (w : W) (r : Reply) (s : RelayServer I U W T)
      → IsIsolated s
      → IsIsolated (reply uuid_dec socket_dec user_dec w r s)
  unfolding reply
  reply-IsIsolated w uncaught s h = h
  reply-IsIsolated w (closing code) s h = close-IsIsolated w code s h
  reply-IsIsolated w responding s h = record {
    by_uuid = h.by_uuid;
    by_websocket = h.by_websocket;
    permitted = (tt, h.permitted);
  }

  answer-IsIsolated :
      (w : W) (r : Result (Unit {0})) (s : RelayServer I U W T)
      → IsIsolated s
      → IsIsolated (answer uuid_dec socket_dec user_dec w r s)
  unfolding answer
  answer-IsIsolated w (ok _) s h = h
  answer-IsIsolated w (err e) s h = reply-IsIsolated w (reply_to e) s h

  disconnect-IsIsolated :
      (w : W) (expected : Bool) (s : RelayServer I U W T)
      → IsIsolated s
      → IsIsolated (disconnect uuid_dec socket_dec user_dec w expected s)
  unfolding disconnect
  disconnect-IsIsolated w expected s h =
      elim (Option-cases (Dict.get socket_dec w s.client_manager.clients_by_websocket)) [
        | inl e ↦ rw (disconnect, e) h
        | inr (c, e) ↦ rw (disconnect, e) (unregister-IsIsolated c expected s h)
      ]

  process-IsIsolated :
      (w : W) (m : RelayMessage I T) (s : RelayServer I U W T)
      → IsIsolated s
      → IsIsolated (process_message uuid_dec socket_dec user_dec authenticate w m s).1
  unfolding process_message
  process-IsIsolated w (registration name u) s h = register-IsIsolated w name u s h
  process-IsIsolated w (response a b) s h = h
  process-IsIsolated w (peer_connection r) s h =
      elim (Option-cases (Dict.get socket_dec w s.client_manager.clients_by_websocket)) [
        | inl e ↦ rw (process_message, e) h
        | inr (c, e) ↦
            rw (process_message, e)
              (forward-IsIsolated w c r s (h.by_websocket w c e).0 (h.by_websocket w c e).1 h)
      ]

  handle-IsIsolated :
      (w : W) (r : Received I T) (s : RelayServer I U W T)
      → IsIsolated s
      → IsIsolated (handle uuid_dec socket_dec user_dec authenticate w r s)
  unfolding handle
  handle-IsIsolated w closed_ok s h = disconnect-IsIsolated w true s h
  handle-IsIsolated w closed_error s h = disconnect-IsIsolated w false s h
  handle-IsIsolated w too_long s h = close-IsIsolated w 4003 s h
  handle-IsIsolated w undecodable s h = close-IsIsolated w 4000 s h
  handle-IsIsolated w (message m) s h = answer-IsIsolated w _ _ (process-IsIsolated w m s h)

  pub run-IsIsolated :
      (rounds : List (W × Received I T)) (s : RelayServer I U W T)
      → IsIsolated s
      → IsIsolated (run uuid_dec socket_dec user_dec authenticate rounds s)
  unfolding run
  run-IsIsolated [] s h = h
  run-IsIsolated ((w, r) ∷ rounds) s h = run-IsIsolated rounds _ (handle-IsIsolated w r s h)

  -- Whatever the websockets of a new server receive, in whatever order, every peer request that it
  -- has sent went to a websocket that authenticates as a user, the same one as the websocket on
  -- which the request came.
  pub users_isolated :
      (rounds : List (W × Received I T))
      → Permitted (run uuid_dec socket_dec user_dec authenticate rounds new_server).log
  unfolding new_server Dict.get
  users_isolated rounds =
      let start : IsIsolated (new_server {I = I} {U = U} {W = W} {T = T}) = record {
        by_uuid = λ u c e. cc;
        by_websocket = λ w c e. cc;
        permitted = tt;
      } in
      (run-IsIsolated rounds new_server start).permitted

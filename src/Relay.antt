-- ===== src/Relay.antt =====
-- The relay server: `Client` and `ClientManager` of proxystore/p2p/relay/manager.py, the messages of
-- proxystore/p2p/relay/messages.py and `RelayServer` of proxystore/p2p/relay/server.py.
pub mod Isolation
mod Tests
use proxy_store.Prelude.{
  ℕ, ◌⊎◌, inr, Option, none, some, is_some, Bool, true, false, not, ◌&&◌, List, [], ◌∷◌,
  if◌then◌else◌,
}
use proxy_store.Prelude.Dict
use proxy_store.Prelude.Dict.{Dict, insert, erase}
use proxy_store.Prelude.Exec.{
  Error, Result, ok, err, Exec, forbidden, unauthorized, relay_server_error, assertion_error,
}

-- `I` is the uuids, `U` the users, `W` the websockets, `T` any text
pub record Client (I U W T : Type 0) : Type 0 where
  pub name : T
  pub uuid : I
  pub user : U
  pub websocket : W

pub record ClientManager (I U W T : Type 0) : Type 0 where
  pub clients_by_uuid : Dict I (Client I U W T)
  pub clients_by_websocket : Dict W (Client I U W T)

-- the error strings of the server
pub data Reason : Type 0 where
  not_registered other_user : Reason

pub record PeerConnectionRequest (I T : Type 0) : Type 0 where
  pub source_uuid : I
  pub source_name : T
  pub peer_uuid : I
  pub is_offer : Bool
  pub description : T
  pub error : Option (T ⊎ Reason)

-- `RelayRegistrationRequest`, `RelayResponse` and `PeerConnectionRequest`
pub data RelayMessage (I T : Type 0) : Type 0 where
  registration : T → I → RelayMessage I T
  response : Bool → Bool → RelayMessage I T
  peer_connection : PeerConnectionRequest I T → RelayMessage I T

-- What the server does on websockets. For a message that is sent, the first websocket is the one
-- whose message is being processed, the second one gets the message.
pub data Event (I W T : Type 0) : Type 0 where
  sent : W → W → RelayMessage I T → Event I W T
  closed : W → ℕ → Event I W T

pub record RelayServer (I U W T : Type 0) : Type 0 where
  pub client_manager : ClientManager I U W T
  pub log : List (Event I W T)

-- what `websocket.recv()` gives to the handler
pub data Received (I T : Type 0) : Type 0 where
  closed_ok closed_error too_long undecodable : Received I T
  message : RelayMessage I T → Received I T

module _ {I U W T : Type 0} (uuid_dec : Discrete I) (socket_dec : Discrete W) where
  -- `ClientManager.add_client`
  unfoldable pub add_client : Client I U W T → ClientManager I U W T → ClientManager I U W T
  add_client client m = record {
    clients_by_uuid = insert uuid_dec client.uuid client m.clients_by_uuid;
    clients_by_websocket = insert socket_dec client.websocket client m.clients_by_websocket;
  }

  -- `ClientManager.remove_client`
  unfoldable pub remove_client : Client I U W T → ClientManager I U W T → ClientManager I U W T
  remove_client client m = record {
    clients_by_uuid = erase uuid_dec client.uuid m.clients_by_uuid;
    clients_by_websocket = erase socket_dec client.websocket m.clients_by_websocket;
  }

-- `RelayServer.send`
unfoldable pub send :
    {I U W T : Type 0}
    → W
    → Client I U W T
    → RelayMessage I T
    → RelayServer I U W T
    → RelayServer I U W T
send origin client m s = record s { log = sent origin client.websocket m ∷ s.log }

-- `websocket.close(code)`
unfoldable pub close : {I U W T : Type 0} → W → ℕ → RelayServer I U W T → RelayServer I U W T
close websocket code s = record s { log = closed websocket code ∷ s.log }

-- The `except` clauses of the handler: the websocket is closed, or gets a response. An exception
-- that none of them catches ends the handler.
pub data Reply : Type 0 where
  uncaught responding : Reply
  closing : ℕ → Reply

unfoldable pub reply_to : Error → Reply
reply_to unauthorized = closing 4001
reply_to forbidden = closing 4002
reply_to relay_server_error = responding
reply_to _ = uncaught

module _ {I U W T : Type 0} (uuid_dec : Discrete I) (socket_dec : Discrete W)
    (user_dec : Discrete U) where
  -- `RelayServer.unregister`
  unfoldable pub unregister : Client I U W T → Bool → RelayServer I U W T → RelayServer I U W T
  unregister client expected s =
      close client.websocket (if expected then 1000 else 1001)
        (record s { client_manager = remove_client uuid_dec socket_dec client s.client_manager })

  -- the end of `register`: the client is added, and told so
  unfoldable pub welcome : W → Client I U W T → RelayServer I U W T → RelayServer I U W T
  welcome origin client s =
      send origin client (response true false)
        (record s { client_manager = add_client uuid_dec socket_dec client s.client_manager })

  -- `RelayServer.register`; the authenticator answers a user, by the headers of the websocket's
  -- request, or raises
  unfoldable pub register : (W → Result U) → W → T → I → Exec (RelayServer I U W T) (Unit {0})
  register authenticate websocket name uuid s = elim (authenticate websocket) [
    | err e ↦ (err e, s)
    | ok auth_user ↦
        let client : Client I U W T = record {
          name = name;
          uuid = uuid;
          user = auth_user;
          websocket = websocket;
        } in
        elim (Dict.get uuid_dec uuid s.client_manager.clients_by_uuid) [
          | none ↦ (ok tt, welcome websocket client s)
          | some existing_client ↦ elim (user_dec existing_client.user auth_user) [
            | no _ ↦ (err forbidden, s)
            | yes _ ↦ elim (socket_dec existing_client.websocket websocket) [
              | no _ ↦ (ok tt, welcome websocket client (unregister existing_client false s))
              | yes _ ↦ (ok tt, welcome websocket client s)
            ]
          ]
        ]
  ]

  -- `RelayServer.forward`, for a message that came on the first websocket
  unfoldable pub forward :
      W → Client I U W T → PeerConnectionRequest I T → RelayServer I U W T → RelayServer I U W T
  forward origin source_client request s =
      elim (Dict.get uuid_dec request.peer_uuid s.client_manager.clients_by_uuid) [
        | none ↦
            send origin source_client
              (peer_connection (record request { error = some (inr not_registered) })) s
        | some target_client ↦ elim (user_dec source_client.user target_client.user) [
          | no _ ↦
              send origin source_client
                (peer_connection (record request { error = some (inr other_user) })) s
          | yes _ ↦ send origin target_client (peer_connection request) s
        ]
      ]

  -- `RelayServer._process_message`; a response is not expected there
  unfoldable pub process_message :
      (W → Result U) → W → RelayMessage I T → Exec (RelayServer I U W T) (Unit {0})
  process_message authenticate websocket (registration name uuid) s =
      register authenticate websocket name uuid s
  process_message authenticate websocket (response success error) s = (err assertion_error, s)
  process_message authenticate websocket (peer_connection request) s =
      elim (Dict.get socket_dec websocket s.client_manager.clients_by_websocket) [
        | none ↦ (err forbidden, s)
        | some client ↦ (ok tt, forward websocket client request s)
      ]

  -- the websocket is closed: its client is unregistered
  unfoldable pub disconnect : W → Bool → RelayServer I U W T → RelayServer I U W T
  disconnect websocket expected s =
      elim (Dict.get socket_dec websocket s.client_manager.clients_by_websocket) [
        | none ↦ s
        | some client ↦ unregister client expected s
      ]

  unfoldable pub reply : W → Reply → RelayServer I U W T → RelayServer I U W T
  reply websocket uncaught s = s
  reply websocket (closing code) s = close websocket code s
  reply websocket responding s = record s {
    log = sent websocket websocket (response false true) ∷ s.log;
  }

  -- what the handler does with an exception of `_process_message`
  unfoldable pub answer : W → Result (Unit {0}) → RelayServer I U W T → RelayServer I U W T
  answer websocket (ok _) s = s
  answer websocket (err e) s = reply websocket (reply_to e) s

  -- one round of the loop of `RelayServer.handler`
  unfoldable pub handle :
      (W → Result U) → W → Received I T → RelayServer I U W T → RelayServer I U W T
  handle authenticate websocket closed_ok s = disconnect websocket true s
  handle authenticate websocket closed_error s = disconnect websocket false s
  handle authenticate websocket too_long s = close websocket 4003 s
  handle authenticate websocket undecodable s = close websocket 4000 s
  handle authenticate websocket (message m) s =
      let (r, s') = process_message authenticate websocket m s in answer websocket r s'

  -- rounds of the handlers of all websockets, in the order in which they happen
  unfoldable pub run :
      (W → Result U) → List (W × Received I T) → RelayServer I U W T → RelayServer I U W T
  run authenticate [] s = s
  run authenticate ((websocket, received) ∷ rest) s =
      run authenticate rest (handle authenticate websocket received s)

-- `RelayServer.__init__`
unfoldable pub new_server : {I U W T : Type 0} → RelayServer I U W T
new_server = record {
  client_manager = record { clients_by_uuid = []; clients_by_websocket = [] };
  log = [];
}

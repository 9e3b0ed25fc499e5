-- ===== src/Relay/Tests.antt =====
-- Two users and three websockets.
use proxy_store.Prelude.{ℕ, none, true, List, [], ◌∷◌, ℕ_discrete, ltb, if◌then◌else◌}
use proxy_store.Prelude.Exec.{Result, ok}
use proxy_store.Relay.{
  PeerConnectionRequest, registration, peer_connection, Received, message, closed_ok, run,
  new_server,
}
use proxy_store.Relay.Isolation.{Permitted, users_isolated}

-- the websockets below 10 are of the user 1, the others of the user 2
abbrev user_of : ℕ → Result ℕ
user_of w = if ltb w 10 then ok 1 else ok 2

abbrev request : PeerConnectionRequest ℕ ℕ
request = record {
  source_uuid = 100;
  source_name = 0;
  peer_uuid = 101;
  is_offer = true;
  description = 0;
  error = none;
}

abbrev rounds : List (ℕ × Received ℕ ℕ)
rounds =
    (3, message (registration 0 100))
    ∷ (4, message (registration 0 101))
    ∷ (12, message (registration 0 101))
    ∷ (3, message (peer_connection request))
    ∷ (4, closed_ok)
    ∷ (3, message (peer_connection request))
    ∷ []

users_isolated_example :
    Permitted ℕ_discrete ℕ_discrete ℕ_discrete user_of
      (run ℕ_discrete ℕ_discrete ℕ_discrete user_of rounds new_server).log
users_isolated_example = users_isolated ℕ_discrete ℕ_discrete ℕ_discrete user_of rounds

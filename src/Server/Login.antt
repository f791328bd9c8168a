-- ===== src/Server/Login.antt =====
-- What a request for a session changes for the requests after it.
use cloud_storage_system.Base.{
  true, false, ◌≡◌, ◌≢◌, refl, sym, ap, ◌∙◌, none, [], ◌∷◌, ◌++◌, arith,
}
use cloud_storage_system.Base.Int.{ℤ}
use cloud_storage_system.Base.Text.{Text, text, text_eq_iff}
use cloud_storage_system.Base.Dict.{lookup, insert, lookup-insert}
use cloud_storage_system.Protocol.Messages.{Request, unauthorized_status}
use cloud_storage_system.Protocol.Responses.{error}
use cloud_storage_system.Protocol.Requests.{
  authenticate, create_account, deposit, transfer, get_balance, top_spenders, schedule_payment,
  cancel_payment, merge_accounts,
}
use cloud_storage_system.Processor.Calls.{
  Call, create, balance, spenders, schedule, cancel, merge, request_of,
}
use cloud_storage_system.Server.{
  Server, is_authenticate, is_heartbeat, is_authorized, new_token, token_of, handle, submit,
}
use cloud_storage_system.Server.Sessions.{submit-queued}

-- The three ways of handling a request that concern sessions.
login :
    (json : Text) (r : Request) (s : Server)
    → is_authenticate r.type ≡ true
    → (handle json r s).0
      ≡ record s { active_sessions = insert r.client_id (new_token r) s.active_sessions }
unfolding handle
login json r s a = rw (a, handle) refl

allowed :
    (json : Text) (r : Request) (s : Server)
    → is_authenticate r.type ≡ false
    → is_heartbeat r.type ≡ false
    → is_authorized r s ≡ true
    → handle json r s ≡ submit json r s
unfolding handle
allowed json r s a h k = rw (a, h, k, handle) refl

refused :
    (json : Text) (r : Request) (s : Server)
    → is_authenticate r.type ≡ false
    → is_heartbeat r.type ≡ false
    → is_authorized r s ≡ false
    → handle json r s ≡ (s, error unauthorized_status (text "Invalid session") r.timestamp)
unfolding handle
refused json r s a h k = rw (a, h, k, handle) refl

stranger :
    (client : Text) (r : Request) (s : Server)
    → r.client_id ≡ client
    → lookup client s.active_sessions ≡ none
    → is_authorized r s ≡ false
unfolding is_authorized
stranger client r s e n = rw (e, n, is_authorized) refl

-- A session is usable at once: after a request for a session has been handled, a request of the same
-- client that carries the token issued for it, and that is neither for a session nor a heartbeat, is
-- queued. The credentials of the first request play no part.
pub handle-session :
    (json json' : Text) (r r' : Request) (s : Server)
    → is_authenticate r.type ≡ true
    → is_authenticate r'.type ≡ false
    → is_heartbeat r'.type ≡ false
    → r'.client_id ≡ r.client_id
    → r'.session_token ≡ new_token r
    → (handle json' r' (handle json r s).0).0.transactions ≡ s.transactions ++ json' ∷ []
unfolding is_authorized
handle-session json json' r r' s a a' h' same token = rw (login json r s a) (
    ap (λ x. x.0.transactions) (allowed json' r' _ a' h' authorized) ∙ (submit-queued json' r' _).0)
  where
    authorized :
        is_authorized r'
          (record s { active_sessions = insert r.client_id (new_token r) s.active_sessions })
        ≡ true
    authorized = ground (
      arith,
      lookup-insert r.client_id r'.client_id (new_token r) s.active_sessions,
      text_eq_iff r.client_id r'.client_id,
      text_eq_iff (new_token r) r'.session_token,
      same,
      token,
    )

-- The request of a call is neither for a session nor a heartbeat, and names the client.
request_of-plain :
    (t : ℤ) (client token : Text) (call : Call)
    → (is_authenticate (request_of t client token call).type ≡ false)
      × (is_heartbeat (request_of t client token call).type ≡ false)
      × ((request_of t client token call).client_id ≡ client)
unfolding request_of create_account deposit transfer get_balance top_spenders schedule_payment
    cancel_payment merge_accounts is_authenticate is_heartbeat
request_of-plain t client token (create a) = (refl, refl, refl)
request_of-plain t client token (Call.deposit a x) = (refl, refl, refl)
request_of-plain t client token (Call.transfer a b x) = (refl, refl, refl)
request_of-plain t client token (balance a u) = (refl, refl, refl)
request_of-plain t client token (spenders n) = (refl, refl, refl)
request_of-plain t client token (schedule a x d) = (refl, refl, refl)
request_of-plain t client token (cancel a id) = (refl, refl, refl)
request_of-plain t client token (merge a b) = (refl, refl, refl)

-- A request for a session that a client builds names no client, so it opens no session for a client
-- with a name: a call that such a client, without a session before, builds afterwards is refused,
-- whatever its token, and is not queued.
pub handle-authenticate :
    (json json' : Text) (t t' : ℤ) (user password client token : Text) (call : Call) (s : Server)
    → client ≢ []
    → lookup client s.active_sessions ≡ none
    → let after =
        handle json'
          (request_of t' client token call)
          (handle json (authenticate t user password) s).0 in
      (after.1.status ≡ unauthorized_status) × (after.0.transactions ≡ s.transactions)
unfolding authenticate is_authenticate error
handle-authenticate json json' t t' user password client token call s named unknown =
    let (a, h, id) = request_of-plain t' client token call in
    let e = refused json' (request_of t' client token call) _ a h (stranger client _ _ id other) in
    rw (login json (authenticate t user password) s refl)
      (ap (λ x. x.1.status) e, ap (λ x. x.0.transactions) e)
  where
    other : lookup client (insert [] (token_of [] t) s.active_sessions) ≡ none
    other = ground (
      arith,
      lookup-insert [] client (token_of [] t) s.active_sessions,
      text_eq_iff [] client,
      unknown,
      λ (e : [] ≡ client). named (sym e),
    )

-- ===== src/Server/Sessions.antt =====
-- Which requests the server queues.
use cloud_storage_system.Base.{
  true, false, ◌≡◌, refl, sym, ap, ◌∙◌, subst, not, ◌||◌, some, List, [], ◌∷◌, ◌++◌, arith, inl,
  inr, Bool-cases, Option-cases, if_elim,
}
use cloud_storage_system.Base.Int.{ℤ}
use cloud_storage_system.Base.Lists.{All}
use cloud_storage_system.Base.Text.{Text, text_eq, text_eq_iff}
use cloud_storage_system.Base.Dict.{lookup, insert, lookup-insert}
use cloud_storage_system.Protocol.Json.{Codec}
use cloud_storage_system.Protocol.Messages.{Request, Response}
use cloud_storage_system.Protocol.Serial.{deserialize_request}
use cloud_storage_system.Server.{
  Server, is_authenticate, is_heartbeat, is_financial, is_authorized, new_token, token_of, handle,
  submit, handle_request, extract_transaction_data,
}

-- A token that the server issues for a client, at some time.
abbrev pub IsIssued : Text → Text → Type 0
IsIssued client token = (t : ℤ) × (token ≡ token_of client t)

-- A queued text is a request, neither for a session nor a heartbeat, that carries a token issued for
-- its client.
abbrev pub IsAdmitted : Codec → Text → Type 0
IsAdmitted c json =
    (r : Request) × (deserialize_request c json ≡ some r)
    × (is_authenticate r.type ≡ false)
    × (is_heartbeat r.type ≡ false)
    × IsIssued r.client_id r.session_token

pub record IsGuarded (c : Codec) (s : Server) : Type 0 where
  pub issued :
      (client token : Text) → lookup client s.active_sessions ≡ some token → IsIssued client token
  pub admitted : All (IsAdmitted c) s.transactions

-- The requests that arrive, in their order.
unfoldable pub serve : Codec → List Text → Server → Server
serve c [] s = s
serve c (json ∷ jsons) s = serve c jsons (handle_request c json s).0

abbrev pub idle : Server
idle = record { active_sessions = []; transactions = []; analysed = [] }

All-append {ℓ κ} :
    {A : Type ℓ} (P : A → Type κ) (xs : List A) (x : A) → All P xs → P x → All P (xs ++ x ∷ [])
All-append P [] x h p = (p, tt)
All-append P (y ∷ xs) x h p = (h.0, All-append P xs x h.1 p)

authorized-IsIssued :
    (c : Codec) (r : Request) (s : Server)
    → IsGuarded c s
    → is_authorized r s ≡ true
    → IsIssued r.client_id r.session_token
unfolding is_authorized
authorized-IsIssued c r s g e = elim (Option-cases (lookup r.client_id s.active_sessions)) [
  | inl n ↦ absurd (ground (arith, n, e))
  | inr (token, y) ↦
      subst (IsIssued r.client_id) ((text_eq_iff token r.session_token).0 (ground (arith, y, e)))
        (g.issued r.client_id token y)
]

-- What submitting a request changes: its text is queued, and the sessions stay.
pub submit-queued :
    (json : Text) (r : Request) (s : Server)
    → ((submit json r s).0.transactions ≡ s.transactions ++ json ∷ [])
      × ((submit json r s).0.active_sessions ≡ s.active_sessions)
unfolding submit
submit-queued json r s = elim (Bool-cases (is_financial r.type)) [
  | inl e ↦ elim (Option-cases (extract_transaction_data r)) [
    | inl n ↦ rw (e, n, submit) (refl, refl)
    | inr (d, y) ↦ rw (e, y, submit) (refl, refl)
  ]
  | inr e ↦ rw (e, submit) (refl, refl)
]

submit-IsGuarded :
    (c : Codec) (json : Text) (r : Request) (s : Server)
    → IsGuarded c s
    → IsAdmitted c json
    → IsGuarded c (submit json r s).0
submit-IsGuarded c json r s g a =
    let (queue, sessions) = submit-queued json r s in
    record {
      issued = λ client token e. g.issued client token (ap (lookup client) (sym sessions) ∙ e);
      admitted =
          subst (All (IsAdmitted c)) (sym queue)
            (All-append (IsAdmitted c) s.transactions json g.admitted a);
    }

session-IsGuarded :
    (c : Codec) (r : Request) (s : Server)
    → IsGuarded c s
    → IsGuarded c
        (record s { active_sessions = insert r.client_id (new_token r) s.active_sessions })
session-IsGuarded c r s g = record {
  issued = λ client token e. elim (Bool-cases (text_eq r.client_id client)) [
    | inl y ↦ (
      r.timestamp,
      ground (
        arith,
        e,
        lookup-insert r.client_id client (new_token r) s.active_sessions,
        ap (λ k. token_of k r.timestamp) ((text_eq_iff r.client_id client).0 y),
      ),
    )
    | inr n ↦
        g.issued client token
          (ground (arith, e, lookup-insert r.client_id client (new_token r) s.active_sessions))
  ];
  admitted = g.admitted;
}

-- The property of the server that handling a request leaves.
abbrev Leaves : Codec → Server × Response → Type 0
Leaves c x = IsGuarded c x.0

handle-IsGuarded :
    (c : Codec) (json : Text) (r : Request) (s : Server)
    → deserialize_request c json ≡ some r
    → IsGuarded c s
    → IsGuarded c (handle json r s).0
unfolding handle
handle-IsGuarded c json r s e g =
    if_elim (Leaves c) (not (is_authenticate r.type || (is_heartbeat r.type || is_authorized r s)))
      _ _ (λ _. g)
      (λ allowed.
        if_elim (Leaves c) (is_authenticate r.type) _ _ (λ _. session-IsGuarded c r s g)
          (λ a.
            if_elim (Leaves c) (is_heartbeat r.type) _ _ (λ _. g)
              (λ h.
                submit-IsGuarded c json r s g
                  (r, e, a, h, authorized-IsIssued c r s g (ground (arith, allowed, a, h))))))

handle_request-IsGuarded :
    (c : Codec) (json : Text) (s : Server) → IsGuarded c s → IsGuarded c (handle_request c json s).0
unfolding handle_request
handle_request-IsGuarded c json s g = elim (Option-cases (deserialize_request c json)) [
  | inl n ↦ rw (n, handle_request) g
  | inr (r, e) ↦ rw (e, handle_request) (handle-IsGuarded c json r s e g)
]

serve-IsGuarded :
    (c : Codec) (jsons : List Text) (s : Server) → IsGuarded c s → IsGuarded c (serve c jsons s)
unfolding serve
serve-IsGuarded c [] s g = g
serve-IsGuarded c (json ∷ jsons) s g =
    serve-IsGuarded c jsons _ (handle_request-IsGuarded c json s g)

-- Whatever texts arrive at a server without sessions, each one that it queues for processing is a
-- request, neither for a session nor a heartbeat, that carries a token which the server issues for
-- its client at some time.
pub serve-IsAdmitted :
    (c : Codec) (jsons : List Text) → All (IsAdmitted c) (serve c jsons idle).transactions
unfolding lookup
serve-IsAdmitted c jsons =
    (serve-IsGuarded c jsons idle
      (record { issued = λ client token e. absurd (ground (arith, e)); admitted = tt })).admitted

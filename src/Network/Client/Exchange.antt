-- ===== src/Network/Client/Exchange.antt =====
-- A request and its response on their way between the client and the server.
use cloud_storage_system.Base.{
  ℕ, zero, suc, ◌+◌, ◌<◌, ◌^◌, ◌≡◌, refl, sym, ap, ◌∙◌, true, false, none, some, [], ◌∷◌, ◌++◌,
  arith,
}
use cloud_storage_system.Base.Int.{pos, ◌≤ℤ◌}
use cloud_storage_system.Base.Lists.{length, take}
use cloud_storage_system.Base.Text.{Text}
use cloud_storage_system.Network.Framing.Header.{append_nil}
use cloud_storage_system.Network.Connection.{wire, Peer, goes_on, round, runs_on}
use cloud_storage_system.Network.Connection.Rounds.{
  unframe-wire_inner, unframe-wire_outer, round-wire, answers, wire_complete,
}
use cloud_storage_system.Network.Client.{
  Client, begin_request, send_message, end_request, receive_round, receive_messages,
}

take_all : (t : Text) → take (length t) t ≡ t
take_all [] = refl
take_all (x ∷ t) = ap (x ∷◌) (take_all t)

pub receive-wire :
    (unset : ℕ) (m s : Text) (c : Client)
    → 8 + length m < 16 ^ 8
    → receive_round unset (wire m ++ s) c
      ≡ some (record c { pending_response = m; response_ready = true })
unfolding wire receive_round
receive-wire unset m s c h =
    rw (unframe-wire_outer unset m s h, receive_round)
      (rw (unframe-wire_inner unset m h, receive_round) refl)

receive_messages-step :
    (unset f : ℕ) (m s : Text) (c : Client)
    → 8 + length m < 16 ^ 8
    → receive_messages unset (suc f) (wire m ++ s) c
      ≡ receive_messages unset f
          (wire m ++ s)
          (record c { pending_response = m; response_ready = true })
unfolding receive_messages
receive_messages-step unset f m s c h =
    rw (wire_complete unset m s h, receive-wire unset m s c h) refl

-- Once a response is complete, the inner loop of the client stores it again and again, and never reads
-- on.
receive_messages-wire :
    (unset n : ℕ) (m s : Text) (c : Client)
    → 8 + length m < 16 ^ 8
    → receive_messages unset (suc n) (wire m ++ s) c
      ≡ (record c { pending_response = m; response_ready = true }, runs_on)
unfolding receive_messages
receive_messages-wire unset zero m s c h = receive_messages-step unset zero m s c h
receive_messages-wire unset (suc n) m s c h =
    receive_messages-step unset (suc n) m s c h
    ∙ receive_messages-wire unset n m s (record c { pending_response = m; response_ready = true }) h

-- sendRequest, where the write takes the whole message.
begin_request-eq :
    (m : Text) (c : Client)
    → c.connected ≡ true
    → pos 0 ≤ℤ c.socket
    → begin_request (pos (length (wire m))) m c
      ≡ (record c { response_ready = false; sent = c.sent ++ wire m }, none)
unfolding begin_request send_message wire
begin_request-eq m c e f = ground (arith, take_all (wire m))

-- A connected client with an open socket that has sent nothing before, whose write takes the whole
-- message, puts the bytes on the wire from which the server's loop takes just that request; the answer
-- that the server writes is what the client's wait for the response returns, once its own loop has
-- read it, and not before. Both messages fit their two frames.
pub exchange :
    (p : Peer) (unset : ℕ) (m r : Text) (c : Client)
    → c.connected ≡ true
    → pos 0 ≤ℤ c.socket
    → c.sent ≡ []
    → 8 + length m < 16 ^ 8
    → 8 + length r < 16 ^ 8
    → p.answer m ≡ some r
    → p.writes 0 ≡ true
    → let c' = (begin_request (pos (length (wire m))) m c).0 in
      (end_request c' ≡ none)
      × ((out : Text) × (c'' : Client) × (round p 0 c'.sent ≡ goes_on out)
          × (receive_round unset out c' ≡ some c'')
          × (end_request c'' ≡ some r))
unfolding end_request
exchange p unset m r c e f g h k a w =
    let client = record c { response_ready = false; sent = c.sent ++ wire m } in
    rw (begin_request-eq m c e f) (
      refl,
      (
        wire r,
        record client { pending_response = r; response_ready = true },
        ap (round p 0) (ap (λ t. t ++ wire m) g ∙ sym (append_nil (wire m)))
            ∙ round-wire p 0 m [] h
            ∙ answers p 0 m r a w,
        ap (λ t. receive_round unset t client) (sym (append_nil (wire r)))
            ∙ receive-wire unset r [] client k,
        refl,
      ),
    )

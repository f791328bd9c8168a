-- ===== src/Processor/Refinement.antt =====
-- A transaction that a client has built does on the bank what its call stands for.
use cloud_storage_system.Base.{arith, ◌≢◌, suc, ◌≡◌, refl, ap, some, List, [], ◌∷◌, map}
use cloud_storage_system.Base.Int.{ℤ}
use cloud_storage_system.Base.Lists.{length}
use cloud_storage_system.Base.Text.{Text, text_eq}
use cloud_storage_system.Core.State.{Bank}
use cloud_storage_system.Core.Runs.{Operation, step, run}
use cloud_storage_system.Core.Instance.{in_memory, query_balance}
use cloud_storage_system.Interface.{BankingSystem}
use cloud_storage_system.Protocol.Json.{Codec, IsLossless, set, find, at, get_int, get_string}
use cloud_storage_system.Protocol.Messages.{Response, Request}
use cloud_storage_system.Protocol.Requests.{
  create_account, deposit, transfer, get_balance, top_spenders, schedule_payment, cancel_payment,
  merge_accounts,
}
use cloud_storage_system.Protocol.Serial.{
  request_json, serialize_request, deserialize_request, serialize_response,
}
use cloud_storage_system.Protocol.RoundTrip.{IsListed, deserialize_request-serialize_request}
use cloud_storage_system.Processor.{
  run_create_account, run_deposit, run_transfer, run_get_balance, run_top_spenders,
  run_schedule_payment, run_cancel_payment, run_merge_accounts, dispatch, process_transaction, work,
}
use cloud_storage_system.Processor.Calls.{
  Call, create, balance, spenders, schedule, cancel, merge, request_of, operation_of,
}

abbrev Performs : ℤ → Text → Text → Call → Bank → Type 0
Performs t client token call s =
    (response : Response) × (dispatch in_memory (request_of t client token call).type
        (request_of t client token call) s
      ≡ some (step (operation_of t call) s, response))

dispatch-Performs :
    (t : ℤ) (client token : Text) (call : Call) (s : Bank) → Performs t client token call s
unfolding request_of operation_of create_account deposit transfer get_balance top_spenders
    schedule_payment cancel_payment merge_accounts dispatch run_create_account run_deposit
    run_transfer run_get_balance run_top_spenders run_schedule_payment run_cancel_payment
    run_merge_accounts set find at get_int get_string text_eq step query_balance
    cloud_storage_system.Core.Spenders.top_spenders
dispatch-Performs t client token (create a) s = (_, refl)
dispatch-Performs t client token (Call.deposit a x) s = (_, refl)
dispatch-Performs t client token (Call.transfer a b x) s = (_, refl)
dispatch-Performs t client token (balance a u) s = (_, refl)
dispatch-Performs t client token (spenders n) s = (_, refl)
dispatch-Performs t client token (schedule a x d) s = (_, refl)
dispatch-Performs t client token (cancel a id) s = (_, refl)
dispatch-Performs t client token (merge a b) s = (_, refl)

request_of_listed :
    (t : ℤ) (client token : Text) (call : Call) → IsListed (request_of t client token call).type
unfolding request_of create_account deposit transfer get_balance top_spenders schedule_payment
    cancel_payment merge_accounts
request_of_listed t client token (create a) = tt
request_of_listed t client token (Call.deposit a x) = tt
request_of_listed t client token (Call.transfer a b x) = tt
request_of_listed t client token (balance a u) = tt
request_of_listed t client token (spenders n) = tt
request_of_listed t client token (schedule a x d) = tt
request_of_listed t client token (cancel a id) = tt
request_of_listed t client token (merge a b) = tt

-- The text of the request that a client builds for a call.
abbrev pub transaction_of : Codec → ℤ → Text → Text → Call → Text
transaction_of c t client token call = serialize_request c (request_of t client token call)

process_transaction-eq :
    {S : Type 0} (bank : BankingSystem S) (c : Codec) (json : Text) (r : Request) (p : Response)
    (s s' : S)
    → deserialize_request c json ≡ some r
    → dispatch bank r.type r s ≡ some (s', p)
    → process_transaction bank c json s ≡ (s', serialize_response c p)
unfolding process_transaction
process_transaction-eq bank c json r p s s' e d =
    rw (e, process_transaction) (rw (d, process_transaction) refl)

-- A request that a client has built for a call and serialised makes the in-memory bank take exactly
-- the step of that call, if printing and parsing JSON lose nothing.
pub process_transaction-step :
    (c : Codec) (t : ℤ) (client token : Text) (call : Call) (s : Bank)
    → IsLossless c
    → (process_transaction in_memory c (transaction_of c t client token call) s).0
      ≡ step (operation_of t call) s
process_transaction-step c t client token call s lossless =
    let (response, e) = dispatch-Performs t client token call s in
    ap (λ r. r.0)
      (process_transaction-eq in_memory c _ (request_of t client token call) response s _
        (deserialize_request-serialize_request c _ lossless (request_of_listed t client token call))
        e)

transaction_of-≢-nil :
    (c : Codec) (t : ℤ) (client token : Text) (call : Call)
    → IsLossless c
    → transaction_of c t client token call ≢ []
unfolding serialize_request
transaction_of-≢-nil c t client token call lossless e = ground (
  arith,
  lossless.reads_back (request_json (request_of t client token call)),
  ap c.parse e,
  lossless.empty_fails,
)

work_cons :
    {S : Type 0} (bank : BankingSystem S) (c : Codec) (json : Text) (queue : List Text) (s : S)
    → json ≢ []
    → let (s', response) = process_transaction bank c json s in
      let (s'', responses, processed) = work bank c queue s' in
      work bank c (json ∷ queue) s ≡ (s'', response ∷ responses, suc processed)
unfolding work
work_cons bank c [] queue s ne = absurd (ne refl)
work_cons bank c (b ∷ bs) queue s ne = refl

-- The same for calls with their times.
abbrev pub queued : Codec → Text → Text → ℤ × Call → Text
queued c client token (t, call) = transaction_of c t client token call

abbrev pub timed : ℤ × Call → Operation
timed (t, call) = operation_of t call

-- A worker that finds the transactions of some calls, each at its own time, in the queue, serialised by their clients, leaves
-- the in-memory bank as the calls leave it, one after the other, and has answered and counted each of
-- them, if printing and parsing JSON lose nothing.
pub work-run :
    (c : Codec) (client token : Text) (calls : List (ℤ × Call)) (s : Bank)
    → IsLossless c
    → let after = work in_memory c (map (queued c client token) calls) s in
      (after.0 ≡ run (map timed calls) s)
      × (length after.1 ≡ length calls)
      × (after.2 ≡ length calls)
unfolding work run
work-run c client token [] s lossless = (refl, refl, refl)
work-run c client token ((t, call) ∷ calls) s lossless =
    let rest = work-run c client token calls (step (operation_of t call) s) lossless in
    rw
      (
        work_cons in_memory c (transaction_of c t client token call) _ s
            (transaction_of-≢-nil c t client token call lossless),
        process_transaction-step c t client token call s lossless,
      )
      (rest.0, ap suc rest.1, ap suc rest.2)

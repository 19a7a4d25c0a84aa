-- ===== src/Transactions/Tests.antt =====
-- A payment, a request, and a key.
use astroid_api.Common.{
  ◌≢◌, ◌+◌, ◌≤◌, String, ◌≡◌, refl, ◌⊎◌, Bool, true, false, none, some, [], arith,
}
use astroid_api.Common.Results.{err}
use astroid_api.Schema.{processing, draft, submitted, WalletStatus, AgentStatus, low}
use astroid_api.Transactions.Execution.{
  Transaction, TransactionError, Wallet, set_status, claim, Submission, answered, Bookkeeping,
  settle, record_result, execute,
}
use astroid_api.Transactions.Payments.{
  World, Reach, fresh, is_open, start, later, claims, pays, records, paid_once,
}
use astroid_api.Transactions.Outcomes.{IsExecutable, payments_in, execute_pays_once}
use astroid_api.Transactions.Creation.{Request, Answers}
use astroid_api.Transactions.Idempotency.{
  Entry, Answer, reserve, answer, insert, new_entry, different_payload,
}
use astroid_api.Transactions.OncePerKey.{Keyed, KeyRun, KeyStep, one_transaction_per_key}
use astroid_api.Transactions.Replays.{Replays, answer_reserved}
use astroid_api.Transactions.Validator.{Text}

abbrev rent : Transaction
rent = record {
  id = "t1";
  asset = "XLM";
  amount = 50;
  recipient_address = "GB";
  memo = none;
  budget_id = some "ops";
  status = draft;
  stellar_hash = none;
  confirmation_count = 0;
}

abbrev wallet : Wallet
wallet = record { stellar_address = "GA"; status = WalletStatus.active }

abbrev all_well : Bookkeeping
all_well = record { updates = true; consumes = true; recovers = true }

abbrev accepted : Submission
accepted = answered true "h1" (some 12)

reads : Unit {0}
unfolding claim settle insert
reads = tt

-- After the payment of `rent`.
abbrev settled : World
settled = record {
  row = record_result true "h1" (some 12) rent;
  waiting = 0;
  answers = [];
  recorded = 1;
  payments = 1;
}

reaches : Reach (fresh rent) 0 settled
unfolding reads
reaches =
    later
      (later (later start (claims (set_status submitted rent) refl))
        (pays record { submission = accepted; accepted = true } 0 refl refl))
      (records true "h1" (some 12) true [] [] refl refl)

paid_once_example : settled.payments + is_open settled.row ≤ is_open rent + 0
paid_once_example = paid_once rent reaches

execute_pays_once_example :
    (IsExecutable (some rent) (some wallet)
      × (payments_in (execute all_well accepted (some wallet) (some rent)).2 ≡ 1))
    ⊎ (¬ IsExecutable (some rent) (some wallet)
        × ((execute all_well accepted (some wallet) (some rent)).1 ≡ some rent)
        × ((execute all_well accepted (some wallet) (some rent)).2 ≡ [])
        × ((e : TransactionError) × ((execute all_well accepted (some wallet) (some rent)).0
              ≡ err e)))
execute_pays_once_example = execute_pays_once all_well accepted (some rent) (some wallet)

abbrev request : Request
request = record {
  agent_id = some "bot";
  budget_id = none;
  asset = "XLM";
  amount = 50;
  recipient_address = "GB";
  memo = none;
  memo_type = none;
  memo_value = none;
}

abbrev answers : Answers
answers = record {
  wallet = some wallet;
  agent = some AgentStatus.active;
  velocity = true;
  spending_limits = true;
  policy = record { passed = true; requires_approval = false };
  risk = record { band = low; requires_approval = false };
  inserted = true;
  recorded = true;
  proposed = true;
  announced = true;
  parked = true;
}

abbrev any_key : Text → Bool
any_key t = true

abbrev same : String → String
same s = s

abbrev held : Keyed
held = record {
  slot = some (new_entry 0 "h" 100);
  next = 1;
  since = 0;
  holders = 0;
  unnoted = 1;
  transactions = 1;
  freed = 0;
}

runs : KeyRun held
unfolding reads
runs =
    KeyRun.later (KeyRun.later KeyRun.start (KeyStep.reserves "h" 100 refl))
      (KeyStep.creates 0 refl)

one_transaction_per_key_example : held.transactions + held.holders ≤ 1 + held.freed
one_transaction_per_key_example = one_transaction_per_key runs

abbrev key_hash : String
key_hash = "h"

abbrev in_process : Entry
in_process = new_entry 1 "h" 100

answer_reserved_example :
    (let (reservation, slot) = reserve 60 2 key_hash (some in_process) in
      (slot ≡ some in_process)
      × (((key_hash ≢ key_hash) × (answer key_hash reservation ≡ some different_payload))
          ⊎ ((key_hash ≡ key_hash)
              × ((a : Answer) × ((answer key_hash reservation ≡ some a)
                    × Replays none processing a)))))
answer_reserved_example = answer_reserved 60 2 key_hash in_process (omega arith)

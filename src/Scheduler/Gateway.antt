-- ===== src/Scheduler/Gateway.antt =====
-- `triggerStreamCreation` of scheduler/scheduler.ts. The Stellar SDK and the network are a parameter:
-- what it makes of a schedule, what simulation, submission and polling answer. `C` is the state of the
-- chain, which only a submission changes.
use quipay_backend.Prelude.{
  ℕ, zero, suc, ◌+◌, String, ◌≡◌, refl, ◌⊎◌, inl, inr, ◌||◌, Option, none, some, if◌then◌else◌,
  or_else, if-both, ◌==◌, nat_eq, string_eq,
}
use quipay_backend.Scheduler.Tables.{PayrollSchedule}

-- The environment that the module reads.
pub record Config : Type 0 where
  pub automation_gateway_address : String
  pub payroll_stream_address : String
  pub hot_wallet_secret : String
  pub soroban_rpc_url : String

-- The answer to a submission: an exception, status ERROR, or a hash.
pub data Sent : Type 0 where
  send_throws : String → Sent
  rejected : String → Sent
  accepted : String → Sent

-- The answer to a `getTransaction`: a success with the stream id, if the value that is returned is one,
-- a failure, TRY_AGAIN_LATER, any other status, or an exception.
pub data Polled : Type 0 where
  tx_success : Option ℕ → Polled
  tx_failed : String → Polled
  tx_try_again : Polled
  tx_other : Polled
  tx_throws : String → Polled

pub record Chain (C T : Type 0) : Type 0 where
  -- The account, the contract call and the transaction, or the error that one of these throws.
  pub build_transaction : PayrollSchedule → ℕ → ℕ → C → String ⊎ T
  pub simulate : T → C → Option String
  pub assemble : T → T
  pub send_transaction : T → C → Sent × C
  pub get_transaction : String → C → ℕ → Polled

-- A stream id, or the error that is thrown.
pub data Created : Type 0 where
  created : ℕ → Created
  throws : String → Created

abbrev pub timeout_message : String
timeout_message = "Soroban transaction timeout while awaiting result"

abbrev parse_message : String
parse_message = "Soroban contract call succeeded but stream id could not be parsed"

-- `!streamId`
abbrev parsed : Option ℕ → Created
parsed none = throws parse_message
parsed (some zero) = throws parse_message
parsed (some (suc n)) = created (suc n)

abbrev waited : ℕ → Created × ℕ → Created × ℕ
waited ms (r, more) = (r, ms + more)

-- What an answer does to the loop; `later` is what the later rounds give.
abbrev after_answer : Polled → Created × ℕ → Created × ℕ
after_answer (tx_success id) later = (parsed id, 0)
after_answer (tx_failed e) later = (throws e, 0)
after_answer tx_try_again later = waited 1000 later
after_answer tx_other later = later
after_answer (tx_throws e) later = (throws e, 0)

-- The rounds of the loop that are left, from the answer i on; with the milliseconds waited.
unfoldable pub poll_transaction : (ℕ → Polled) → ℕ → ℕ → Created × ℕ
poll_transaction answers i zero = (throws timeout_message, 0)
poll_transaction answers i (suc rounds) =
    after_answer (answers i) (poll_transaction answers (suc i) rounds)

abbrev pub poll_rounds : ℕ
poll_rounds = 30

module _ {C T : Type 0} (config : Config) (chain : Chain C T) where
  abbrev await_result : Sent × C → Created × C
  await_result (send_throws e, c) = (throws e, c)
  await_result (rejected e, c) = (throws e, c)
  await_result (accepted hash, c) =
      ((poll_transaction (chain.get_transaction hash c) 0 poll_rounds).0, c)

  abbrev submit : T → C → Option String → Created × C
  submit tx c (some e) = (throws e, c)
  submit tx c none = await_result (chain.send_transaction (chain.assemble tx) c)

  abbrev submit_built : String ⊎ T → C → Created × C
  submit_built (inl e) c = (throws e, c)
  submit_built (inr tx) c = submit tx c (chain.simulate tx c)

  -- `random` is the id of a creation that is only simulated.
  unfoldable pub trigger_stream_creation :
      ℕ → PayrollSchedule → (start_ts end_ts : ℕ) → C → Created × C
  unfolding poll_transaction
  trigger_stream_creation random schedule start_ts end_ts c =
      if (config.automation_gateway_address == "") || (config.payroll_stream_address == "")
      then (created (suc random), c)
      else if config.hot_wallet_secret == ""
      then (throws "HOT_WALLET_SECRET is required for scheduler contract submission", c)
      else if config.soroban_rpc_url == ""
      then (
        throws
            "PUBLIC_STELLAR_RPC_URL (or STELLAR_RPC_URL) is required for scheduler contract submission",
        c,
      )
      else submit_built (chain.build_transaction schedule start_ts end_ts c) c

-- Whether an answer ends the loop, and how.
abbrev pub verdict : Polled → Option Created
verdict (tx_success id) = some (parsed id)
verdict (tx_failed e) = some (throws e)
verdict tx_try_again = none
verdict tx_other = none
verdict (tx_throws e) = some (throws e)

-- The verdict of the first of n answers that has one.
abbrev pub or_later : Option Created → Option Created → Option Created
or_later (some v) later = some v
or_later none later = later

pub first_verdict : (ℕ → Polled) → ℕ → ℕ → Option Created
first_verdict answers i zero = none
first_verdict answers i (suc n) = or_later (verdict (answers i)) (first_verdict answers (suc i) n)

after_answer-verdict :
    (p : Polled) (later : Created × ℕ) (v : Option Created)
    → later.0 ≡ or_else v (throws timeout_message)
    → (after_answer p later).0 ≡ or_else (or_later (verdict p) v) (throws timeout_message)
after_answer-verdict (tx_success id) later v h = refl
after_answer-verdict (tx_failed e) later v h = refl
after_answer-verdict tx_try_again (r, ms) v h = h
after_answer-verdict tx_other later v h = h
after_answer-verdict (tx_throws e) later v h = refl

-- The loop gives what the first of the answers that is neither TRY_AGAIN_LATER nor an unknown status
-- says, and the timeout where there is none.
pub poll_transaction-first_verdict :
    (answers : ℕ → Polled) (i rounds : ℕ)
    → (poll_transaction answers i rounds).0
      ≡ or_else (first_verdict answers i rounds) (throws timeout_message)
unfolding poll_transaction first_verdict
poll_transaction-first_verdict answers i zero = refl
poll_transaction-first_verdict answers i (suc n) =
    after_answer-verdict (answers i) (poll_transaction answers (suc i) n)
      (first_verdict answers (suc i) n) (poll_transaction-first_verdict answers (suc i) n)

-- Where every answer is of another status, such as NOT_FOUND, the loop takes its rounds without
-- waiting and throws the timeout.
pub poll_transaction-never_waits :
    (answers : ℕ → Polled) (i rounds : ℕ)
    → ((j : ℕ) → answers j ≡ tx_other)
    → poll_transaction answers i rounds ≡ (throws timeout_message, 0)
unfolding poll_transaction
poll_transaction-never_waits answers i zero h = refl
poll_transaction-never_waits answers i (suc n) h =
    rw (h i) (poll_transaction-never_waits answers (suc i) n h)

module _ (C T : Type 0) (config : Config) (chain : Chain C T) where
  -- A creation leaves the chain as it is, or as one submission leaves it.
  abbrev pub SubmitsOnce : C → C → Type 0
  SubmitsOnce c c' = (c' ≡ c) ⊎ ((tx : T) × (c' ≡ (chain.send_transaction tx c).1))

  await_result-chain : (sent : Sent × C) → (await_result config chain sent).1 ≡ sent.1
  await_result-chain (send_throws e, c) = refl
  await_result-chain (rejected e, c) = refl
  await_result-chain (accepted hash, c) = refl

  submit-SubmitsOnce :
      (tx : T) (c : C) (simulated : Option String)
      → SubmitsOnce c (submit config chain tx c simulated).1
  submit-SubmitsOnce tx c (some e) = inl refl
  submit-SubmitsOnce tx c none = inr (chain.assemble tx, await_result-chain _)

  submit_built-SubmitsOnce :
      (built : String ⊎ T) (c : C) → SubmitsOnce c (submit_built config chain built c).1
  submit_built-SubmitsOnce (inl e) c = inl refl
  submit_built-SubmitsOnce (inr tx) c = submit-SubmitsOnce tx c (chain.simulate tx c)

  pub trigger_stream_creation-SubmitsOnce :
      (random : ℕ) (schedule : PayrollSchedule) (start_ts end_ts : ℕ) (c : C)
      → SubmitsOnce c (trigger_stream_creation config chain random schedule start_ts end_ts c).1
  unfolding trigger_stream_creation
  trigger_stream_creation-SubmitsOnce random schedule start_ts end_ts c =
      let P = λ (r : Created × C). SubmitsOnce c r.1 in
      if-both P ((config.automation_gateway_address == "") || (config.payroll_stream_address == ""))
        {x = (created (suc random), c)} (inl refl)
        (if-both P (config.hot_wallet_secret == "")
          {x = (throws "HOT_WALLET_SECRET is required for scheduler contract submission", c)}
          (inl refl)
          (if-both P (config.soroban_rpc_url == "")
            {x = (
              throws
                  "PUBLIC_STELLAR_RPC_URL (or STELLAR_RPC_URL) is required for scheduler contract submission",
              c,
            )}
            {y = submit_built config chain (chain.build_transaction schedule start_ts end_ts c) c}
            (inl refl)
            (submit_built-SubmitsOnce (chain.build_transaction schedule start_ts end_ts c) c)))

-- ===== src/Nonce/Tests.antt =====
-- Runs of services/nonceManager.ts, and its laws at inputs.
use quipay_backend.Prelude.{◌≡◌, refl, some, none, [], ◌∷◌, true}
use quipay_backend.Nonce.{NonceManager, account, failed, ok, get_nonce, release_nonce}
use quipay_backend.Nonce.Ownership.{Call, gets, releases, uses, Inv, start, run, run-start-Inv}
use mathlib.Core.List.{List}

abbrev busy : NonceManager
busy = record {
  current_sequence = some 9;
  available_nonces = 8 ∷ 5 ∷ [];
  is_initialized = true;
  initialization_error = none;
}

lowest_first : (get_nonce (release_nonce busy 3) (failed "unused")).1 ≡ ok 3
unfolding get_nonce release_nonce quipay_backend.Nonce.sort quipay_backend.Nonce.insert_sorted
lowest_first = refl

abbrev history : List Call
history =
    gets (failed "timeout")
    ∷ gets (account 40)
    ∷ gets (account 40)
    ∷ releases 41
    ∷ uses 42
    ∷ gets (account 0)
    ∷ []

run-start-Inv_example : Inv (run start history)
run-start-Inv_example = run-start-Inv history

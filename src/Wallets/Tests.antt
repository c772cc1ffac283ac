-- ===== src/Wallets/Tests.antt =====
-- Runs of services/walletVerification.ts, and its laws at inputs.
use mathlib.Core.Path.{subst}
use quipay_backend.Prelude.{◌≡◌, refl, true, none, some, [], ◌∷◌, arith, ◌==◌, nat_eq, string_eq}
use quipay_backend.Map
use quipay_backend.Wallets.{
  stellar, Worker, Store, Crypto, success, no_pending, create_challenge, is_pending_for,
  new_challenge, verify_and_link, is_for, verify_stored, verify_signature,
}
use quipay_backend.Wallets.Single.{IsSingle, create_challenge-IsSingle, open_challenges}
use quipay_backend.Wallets.Proved.{IsProved}
use quipay_backend.Wallets.Challenges.{
  wallet_on, verify_and_link_sound, verify_and_link-single_use, verify_and_link-keeps_address,
}

-- Every signature that reads "signed" is good.
abbrev crypto : Crypto
crypto = record {
  ed25519_verify = λ address challenge signature. some (signature == "signed");
  recover_message_address = λ challenge signature. none;
  lower_case = λ s. s;
}

-- A worker whose row has the address "old".
abbrev empty : Store
empty = record {
  challenges = [];
  ids = 1;
  workers =
      (
        "ann",
        record {
          wallet_stellar = record { address = some "old"; verified = none };
          wallet_base = record { address = none; verified = none };
        },
      )
      ∷ [];
}

abbrev asked : Store
asked = record empty { challenges = new_challenge 1 "new" stellar "ann" "17" 1000 ∷ []; ids = 2 }

asked_by_create : (create_challenge "new" stellar "ann" "17" 1000 empty).1 ≡ asked
unfolding create_challenge
asked_by_create = refl

abbrev verified : Store
verified = (verify_and_link crypto "new" stellar "quipay-verify:17" "signed" "ann" 2000 asked).1

empty-IsSingle : IsSingle empty
unfolding IsSingle open_challenges
empty-IsSingle a c = omega arith

asked-IsSingle : IsSingle asked
asked-IsSingle =
    subst IsSingle asked_by_create
      (create_challenge-IsSingle "new" stellar "ann" "17" 1000 empty empty-IsSingle)

succeeds :
    (verify_and_link crypto "new" stellar "quipay-verify:17" "signed" "ann" 2000 asked).0 ≡ success
unfolding verify_and_link verify_stored is_pending_for is_for verify_signature
succeeds = refl

verify_and_link_sound_example :
    IsProved crypto "new" stellar "quipay-verify:17" "signed" "ann" 2000 asked verified
verify_and_link_sound_example =
    verify_and_link_sound crypto "new" stellar "quipay-verify:17" "signed" "ann" 2000 asked succeeds

verify_and_link-single_use_example :
    verify_and_link crypto "new" stellar "quipay-verify:17" "signed" "ann" 2001 verified
    ≡ (no_pending, verified)
verify_and_link-single_use_example =
    verify_and_link-single_use crypto "new" stellar "quipay-verify:17" "signed" "ann" 2000 asked
      "quipay-verify:17" "signed" "ann" 2001 asked-IsSingle succeeds

verify_and_link-keeps_address_example :
    (after : Worker) × (Map.lookup "ann" verified.workers ≡ some after)
    × (wallet_on stellar after ≡ record { address = some "old"; verified = some true })
unfolding Map.lookup
verify_and_link-keeps_address_example =
    verify_and_link-keeps_address crypto "new" "old" stellar "quipay-verify:17" "signed" "ann" 2000
      asked _ succeeds refl refl

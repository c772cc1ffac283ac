-- ===== src/Cctp/Starvation.antt =====
-- Which transfers the cycles of services/attestationPoller.ts attest.
use quipay_backend.Prelude.{
  String, ◌≡◌, refl, ◌⊎◌, inl, inr, true, none, some, List, [], ◌∷◌, nat_eq, string_eq, All,
}
use quipay_backend.Cctp.Attestations.{
  Transfers, TransferRow, still_pending, Iris, pending_transfers, told, poll_all, poll_cycle,
  poll_cycles,
}

-- No attestation is known of a transfer.
abbrev pub HasNone : Iris → String × TransferRow → Type 0
HasNone iris e = (told iris e.1 ≡ none) ⊎ (told iris e.1 ≡ some still_pending)

poll_all-unchanged :
    (iris : Iris) (es table : Transfers)
    → All (HasNone iris) es
    → poll_all (λ id. true) iris es table ≡ table
poll_all-unchanged iris [] table h = refl
poll_all-unchanged iris (e ∷ es) table h = elim h.0 [
  | inl failed ↦ rw failed (poll_all-unchanged iris es table h.1)
  | inr waiting ↦ rw waiting (poll_all-unchanged iris es table h.1)
]

-- Where in no cycle an attestation is known of the first fifty transfers that wait for one, the cycles
-- change nothing, whatever is known of the others: they wait as long.
pub poll_cycles-starve :
    (cycles : List Iris) (table : Transfers)
    → All (λ (iris : Iris). All (HasNone iris) (pending_transfers table)) cycles
    → poll_cycles cycles table ≡ table
unfolding poll_cycles poll_cycle
poll_cycles-starve [] table h = refl
poll_cycles-starve (iris ∷ later) table h =
    rw (poll_all-unchanged iris (pending_transfers table) table h.0)
      (poll_cycles-starve later table h.1)

-- ===== src/Tests/Signing.antt =====
-- The committee's signatures and schedule, and the results.
use less_chain.BeaconChain.{verify_time_beacon}
use less_chain.Committee.{
  Committee, MultiSignReply, com_add_tbs, handle_multi_sign_reply, no_old, signed_tb,
}
use less_chain.Committee.MultiSign.{
  IsCollected, handle_multi_sign_reply-IsCollected, signed_tb-Verified,
}
use less_chain.Committee.Schedule.{IsScheduled, com_add_tbs-IsScheduled}
use less_chain.Core.{TxReceipt, exited, intra_success, ok}
use less_chain.Prelude.{
  Bytes, Option, [], arith, false, length, max, none, refl, some, true, ℕ, ◌+◌, ◌-◌, ◌∷◌, ◌≡◌, ◌⊎◌,
}
use less_chain.Prelude.Int.{pos}
use less_chain.Result.{
  Result, check_tx_finished, count_receipts, is_rollback_success, record_receipts,
  set_tx_receipt_v2, set_tx_receipt_v2-counts,
}
use less_chain.Tests.Data.{beacon, receipt}

abbrev recover_signer : ℕ → ℕ → Option ℕ
recover_signer h sig = some (sig - 20)

abbrev sample_committee : Committee
sample_committee = record {
  height2_reconfig = 5;
  multi_sign_required_num = 2;
  multi_sign_data = record { signers = 1 ∷ []; sigs = 21 ∷ []; vrf_values = []; sign_tokens = 0 };
  tx_pool = none;
  old_tx_pool = no_old;
  inject_not_done = pos 1;
  tb_height = 9;
  to_reconfig = false;
  reconfig_seed_height = 5;
}

abbrev complete : Committee
complete = record sample_committee {
  multi_sign_data = record {
    signers = 1 ∷ 2 ∷ [];
    sigs = 21 ∷ 22 ∷ [];
    vrf_values = [];
    sign_tokens = 1;
  };
}

abbrev sign_reply : MultiSignReply
sign_reply = record { seed = 4; tb = beacon 0 1; pub_address = 2; sig = 22; vrf_value = 22 ∷ [] }

abbrev first_byte : Bytes → ℕ
first_byte [] = 0
first_byte (b ∷ bs) = b

handle_multi_sign_reply-IsCollected_example :
    ((c' : Committee) × (handle_multi_sign_reply
          (λ tb. tb.height)
          recover_signer
          first_byte
          sign_reply
          sample_committee
        ≡ ok c')
      × IsCollected (λ tb. tb.height) recover_signer first_byte (beacon 0 1) c'
      × (c'.multi_sign_required_num ≡ 2))
    ⊎ ((handle_multi_sign_reply
            (λ tb. tb.height)
            recover_signer
            first_byte
            sign_reply
            sample_committee
          ≡ exited)
        × ((recover_signer 4 22 ≡ none) ⊎ (recover_signer 1 22 ≡ none)))
handle_multi_sign_reply-IsCollected_example =
    handle_multi_sign_reply-IsCollected (λ tb. tb.height) recover_signer first_byte sign_reply
      sample_committee (omega arith)
      (record { signed = (refl, tt); fits = omega arith; token = refl })

signed_tb-Verified_example :
    verify_time_beacon (λ tb. tb.height) recover_signer 2 (signed_tb (beacon 0 1) 3 complete)
    ≡ ok true
signed_tb-Verified_example =
    signed_tb-Verified (λ tb. tb.height) recover_signer first_byte (beacon 0 1) 3 complete
      (record { signed = (refl, (refl, tt)); fits = omega arith; token = refl }) refl (omega arith)

com_add_tbs-IsScheduled_example :
    (c' : Committee) × (com_add_tbs 10 sample_committee ≡ ok c')
    × (c'.tb_height ≡ max 10 9)
    × IsScheduled c'
com_add_tbs-IsScheduled_example =
    com_add_tbs-IsScheduled 10 sample_committee (omega arith) (record { due = λ t. cc })

abbrev empty_result : Result
empty_result = record {
  totalnum = 2;
  all_complished = 0;
  work_load = 0;
  broadcast_map = 0 ∷ 0 ∷ [];
  confirm_map = 0 ∷ 0 ∷ [];
  all_tx_status = [] ∷ [] ∷ [];
  all_roll_back = 0;
  workload4_shard = [];
}

set_tx_receipt_v2-counts_example :
    (1 ≡ 0 + count_receipts check_tx_finished ((1, receipt 1 intra_success 4) ∷ []))
    × (0 ≡ 0 + count_receipts is_rollback_success ((1, receipt 1 intra_success 4) ∷ []))
    × (1 ≡ 0 + length {A = ℕ × TxReceipt} ((1, receipt 1 intra_success 4) ∷ []))
unfolding set_tx_receipt_v2 record_receipts
set_tx_receipt_v2-counts_example =
    set_tx_receipt_v2-counts ((1, receipt 1 intra_success 4) ∷ []) empty_result
      (record empty_result {
        all_complished = 1;
        work_load = 1;
        all_tx_status = [] ∷ (intra_success ∷ []) ∷ [];
        workload4_shard = (0, 1) ∷ [];
      })
      refl

-- ===== src/Transfer/Storage/Tests.antt =====
-- A download that was under way when it was stored.
use aioslsk.Base.{◌≡◌, refl, true, some, []}
use aioslsk.Base.{◌∷◌}
use aioslsk.Transfer.Model.{downloading, incomplete, Transfer, download, new_transfer}
use aioslsk.Transfer.State.{World}
use aioslsk.Transfer.Storage.{get_state, set_state, correct_state, IsAtRest, correct_state-IsAtRest}

abbrev world : World
world = record { now = 5; exists = λ path. true; removes = λ path. true }

abbrev running : Transfer
running = record (new_transfer (97 ∷ []) (98 ∷ []) download) {
  state = downloading;
  filesize = some 20;
  bytes_transfered = 8;
  start_time = some 3;
  transfer_task = some 4;
}

broken_off : (correct_state world (set_state (get_state running))).state ≡ incomplete
unfolding correct_state set_state get_state new_transfer
broken_off = refl

correct_state-IsAtRest_example :
    let t = correct_state world (set_state (get_state running)) in
    IsAtRest (get_state running) t × (correct_state world (set_state (get_state t)) ≡ t)
correct_state-IsAtRest_example = correct_state-IsAtRest world world (get_state running)

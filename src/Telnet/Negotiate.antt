-- ===== src/Telnet/Negotiate.antt =====
-- Option negotiation of src/telnet.c: `telnet_send_negotiate`, `telnet_update_mode` and
-- `telnet_handle_negotiate`.
pub mod Answers
pub mod Modes
use modembridge.Prelude.{ℕ, true, false, not, ◌&&◌, ◌||◌, List, [], ◌∷◌, ◌++◌, ◌==◌, if◌then◌else◌}
use modembridge.Common.{Status, success, error_invalid_arg, error_io}
use modembridge.Telnet.State.{sent, would_block, failed, Os, Telnet, is_open, assign}
use modembridge.Telnet.Byte
use modembridge.Telnet.Telopt

-- `send(tn->fd, buf, …)`, and what the callers make of its answer: EAGAIN is no error.
unfoldable pub send_control : Os → Telnet → List ℕ → Status × Telnet
send_control os tn buf =
    let tn' = record tn { requests = tn.requests ++ buf ∷ [] } in
    elim (os.send tn.requests buf) [
      | sent _ ↦ (success, tn')
      | would_block ↦ (success, tn')
      | failed ↦ (error_io, tn')
    ]

unfoldable pub send_negotiate : Os → Telnet → ℕ → ℕ → Status × Telnet
unfolding send_control
send_negotiate os tn command option =
    if is_open tn.fd
    then send_control os tn (Byte.iac ∷ command ∷ option ∷ [])
    else (error_invalid_arg, tn)

unfoldable pub update_mode : Telnet → Telnet
update_mode tn = record tn {
  binary_mode = tn.binary_local || tn.binary_remote;
  sga_mode = tn.sga_local || tn.sga_remote;
  echo_mode = tn.echo_remote;
  linemode =
      if tn.linemode_active
      then tn.linemode_edit
      else if tn.echo_remote && tn.sga_remote
      then false
      else true;
}

module _ (os : Os) (tn : Telnet) (option : ℕ) where
  -- `case TELNET_WILL`, without the call of `telnet_update_mode`.
  unfoldable pub handle_will : Telnet
  handle_will =
      if option == Telopt.binary || option == Telopt.sga || option == Telopt.echo
      then (if not (tn.remote_options option)
          then (let t1 = record tn { remote_options = assign tn.remote_options option true } in
              let t2 = (send_negotiate os t1 Byte.do_it option).1 in
              if option == Telopt.binary
              then record t2 { binary_remote = true }
              else if option == Telopt.sga
              then record t2 { sga_remote = true }
              else if option == Telopt.echo
              then record t2 { echo_remote = true }
              else t2)
          else tn)
      else (if tn.remote_options option
          then (let t1 = record tn { remote_options = assign tn.remote_options option false } in
              (send_negotiate os t1 Byte.dont option).1)
          else tn)

  -- `case TELNET_WONT`.
  unfoldable pub handle_wont : Telnet
  handle_wont =
      if tn.remote_options option
      then (let t1 = record tn { remote_options = assign tn.remote_options option false } in
          let t2 = (send_negotiate os t1 Byte.dont option).1 in
          if option == Telopt.binary
          then record t2 { binary_remote = false }
          else if option == Telopt.sga
          then record t2 { sga_remote = false }
          else if option == Telopt.echo
          then record t2 { echo_remote = false }
          else if option == Telopt.linemode
          then record t2 { linemode_active = false }
          else t2)
      else tn

  -- `case TELNET_DO`.
  unfoldable pub handle_do : Telnet
  handle_do =
      if option == Telopt.binary
        || option == Telopt.sga
        || option == Telopt.ttype
        || option == Telopt.linemode
      then (if not (tn.local_options option)
          then (let t1 = record tn { local_options = assign tn.local_options option true } in
              let t2 = (send_negotiate os t1 Byte.will option).1 in
              if option == Telopt.binary
              then record t2 { binary_local = true }
              else if option == Telopt.sga
              then record t2 { sga_local = true }
              else if option == Telopt.ttype
              then t2
              else if option == Telopt.linemode
              then record t2 { linemode_active = true }
              else t2)
          else tn)
      else (if tn.local_options option
          then (let t1 = record tn { local_options = assign tn.local_options option false } in
              (send_negotiate os t1 Byte.wont option).1)
          else tn)

  -- `case TELNET_DONT`.
  unfoldable pub handle_dont : Telnet
  handle_dont =
      if tn.local_options option
      then (let t1 = record tn { local_options = assign tn.local_options option false } in
          let t2 = (send_negotiate os t1 Byte.wont option).1 in
          if option == Telopt.binary
          then record t2 { binary_local = false }
          else if option == Telopt.sga
          then record t2 { sga_local = false }
          else if option == Telopt.linemode
          then record t2 { linemode_active = false }
          else t2)
      else tn

-- `telnet_handle_negotiate`, which always answers SUCCESS.
unfoldable pub handle_negotiate : Os → Telnet → ℕ → ℕ → Telnet
unfolding update_mode
handle_negotiate os tn command option =
    if command == Byte.will
    then update_mode (handle_will os tn option)
    else if command == Byte.wont
    then update_mode (handle_wont os tn option)
    else if command == Byte.do_it
    then update_mode (handle_do os tn option)
    else if command == Byte.dont
    then update_mode (handle_dont os tn option)
    else tn

-- ===== src/Level3/Machine/Connects.antt =====
-- From the carrier to the data: how the state machine of src/level3.c brings a connection up.
use modembridge.Prelude.{
  ℕ, ◌+◌, ◌≡◌, ◌≢◌, ◌<◌, refl, sym, ap, ◌∙◌, Bool, true, false, some, arith, if◌then◌else◌,
}
use modembridge.Common.{success}
use modembridge.Telnet.State.{Os, Telnet, is_open}
use modembridge.Telnet.Negotiate.{send_negotiate}
use modembridge.Telnet.Negotiate.Answers.{send_negotiate_frame}
use modembridge.Telnet.Send.{is_connected}
use modembridge.Telnet.Connect.{
  Network, at_once, greet, init_epoll, finish_connect, connect_socket, disconnect, connect,
}
use modembridge.Level3.State.{
  uninitialized, ready, connecting, data_transfer, connect_timeout, l3_success, Level3,
  is_valid_state_transition,
}
use modembridge.Level3.Monad.{done, ◌>>=◌}
use modembridge.Level3.Machine.{
  enter, is_state_timed_out, transition, process_ready, attempt, process_state,
  process_state_machine,
}
use modembridge.Level3.Machine.Locking.{with_mutex}
use modembridge.Level3.Machine.Steps.{Finishes, next_state, IsOnline}
use modembridge.Level3.Machine.Cycle.{
  Serves, process_state_machine_free, process_state_machine-Serves, Finishes_mono,
}
use modembridge.Telnet.Byte
use modembridge.Telnet.Telopt

-- A server that is reached at once.
pub record Reachable (net : Network) : Type 0 where
  pub fd : ℕ
  pub epoll_fd : ℕ
  pub socket_is : net.socket ≡ some fd
  pub resolves_is : net.resolves ≡ true
  pub connects_is : net.connects ≡ at_once
  pub epoll_is : net.epoll ≡ some epoll_fd
  pub adds_is : net.adds ≡ true

greet_keeps :
    (os : Os) (tn : Telnet)
    → let t = greet os tn in (t.fd ≡ tn.fd) × (t.is_connected ≡ tn.is_connected)
unfolding greet
greet_keeps os tn =
    let t1 = (send_negotiate os tn Byte.will Telopt.binary).1 in
    let t2 = (send_negotiate os t1 Byte.will Telopt.sga).1 in
    let t3 = (send_negotiate os t2 Byte.do_it Telopt.sga).1 in
    let t4 = (send_negotiate os t3 Byte.do_it Telopt.echo).1 in
    let t5 = (send_negotiate os t4 Byte.will Telopt.ttype).1 in
    let e1 = send_negotiate_frame os tn Byte.will Telopt.binary in
    let e2 = send_negotiate_frame os t1 Byte.will Telopt.sga in
    let e3 = send_negotiate_frame os t2 Byte.do_it Telopt.sga in
    let e4 = send_negotiate_frame os t3 Byte.do_it Telopt.echo in
    let e5 = send_negotiate_frame os t4 Byte.will Telopt.ttype in
    let e6 = send_negotiate_frame os t5 Byte.will Telopt.linemode in
    (
      ap (λ t. t.fd) e6
          ∙ ap (λ t. t.fd) e5
          ∙ ap (λ t. t.fd) e4
          ∙ ap (λ t. t.fd) e3
          ∙ ap (λ t. t.fd) e2
          ∙ ap (λ t. t.fd) e1,
      ap (λ t. t.is_connected) e6
          ∙ ap (λ t. t.is_connected) e5
          ∙ ap (λ t. t.is_connected) e4
          ∙ ap (λ t. t.is_connected) e3
          ∙ ap (λ t. t.is_connected) e2
          ∙ ap (λ t. t.is_connected) e1,
    )

finish_connect_lem :
    (os : Os) (net : Network) (tn : Telnet)
    → Reachable net
    → is_connected tn ≡ true
    → is_connected (finish_connect os net tn).1 ≡ true
unfolding finish_connect init_epoll is_connected
finish_connect_lem os net tn r h =
    let opened : is_open tn.fd ≡ true = ground arith in
    let on : tn.is_connected ≡ true = ground arith in
    let t = (init_epoll net tn).1 in
    let armed : (init_epoll net tn ≡ (success, t))
        × (t.fd ≡ tn.fd)
        × (t.is_connected ≡ tn.is_connected) =
      ground (arith, r.epoll_is, r.adds_is) in
    let kept = greet_keeps os t in ground (arith, kept.0, kept.1, armed.0, armed.1, armed.2)

connect_lem :
    (os : Os) (net : Network) (tn : Telnet)
    → Reachable net
    → is_connected (connect os net tn).1 ≡ true
unfolding connect connect_socket
connect_lem os net tn r =
    let t = if tn.is_connected then disconnect tn else tn in
    let t' = record t { fd = some r.fd; is_connecting = false; is_connected = true } in
    let connected = finish_connect_lem os net t' r (unfold is_connected in refl) in
    rw r.socket_is (rw r.resolves_is (rw r.connects_is connected))

-- READY, with a rise of the carrier noted: the context after one call.
abbrev started : ℕ → Level3 → Level3
started now c = record c {
  level2_ready = is_connected c.telnet;
  dcd_rising_detected = false;
  connection_attempted = false;
  transition_logged = false;
  previous_state = c.system_state;
  system_state = connecting;
  state_change_time = now;
  state_timeout = connect_timeout;
  state_transitions = c.state_transitions + 1;
}

process_ready_lem :
    (os : Os) (net : Network) (now : ℕ) (c : Level3)
    → c.system_state ≡ ready
    → c.dcd_rising_detected ≡ true
    → process_ready os net now c ≡ done l3_success (with_mutex true (started now c))
unfolding process_ready transition enter is_valid_state_transition
process_ready_lem os net now c s d = ground arith

process_state_ready :
    (os : Os) (net : Network) (now : ℕ) (c : Level3) (b : Bool)
    → c.system_state ≡ ready
    → c.dcd_rising_detected ≡ true
    → process_state os net now c.system_state (with_mutex b c)
      ≡ done l3_success (with_mutex true (started now c))
process_state_ready os net now c b s d =
    ap (λ q. process_state os net now q (with_mutex b c)) s
    ∙ unfold process_state in process_ready_lem os net now (with_mutex b c) s d

first_call :
    (os : Os) (net : Network) (now : ℕ) (c : Level3)
    → c.mutex_held ≡ false
    → c.system_state ≡ ready
    → c.dcd_rising_detected ≡ true
    → is_state_timed_out now c ≡ false
    → process_state_machine os net now c ≡ done l3_success (with_mutex false (started now c))
first_call os net now c h s d t =
    process_state_machine_free os net now c h t
    ∙ rw (process_state_ready os net now c true s d, ◌>>=◌) refl

-- The bridge carries data: the state, the filter, the flag of Level 3, and the mutex.
pub record IsTransferring (c : Level3) : Type 0 where
  pub in_transfer : c.system_state ≡ data_transfer
  pub online : c.in_online_mode ≡ true
  pub active : c.level3_active ≡ true
  pub free_mutex : c.mutex_held ≡ false

connecting_ne : connecting ≢ data_transfer
connecting_ne e = cc

connecting_known : connecting ≢ uninitialized
connecting_known e = cc

second_call :
    (os : Os) (net : Network) (now : ℕ) (c : Level3)
    → c.mutex_held ≡ false
    → c.system_state ≡ connecting
    → c.connection_attempted ≡ false
    → is_state_timed_out now c ≡ false
    → Reachable net
    → Finishes (process_state_machine os net now c) (λ r c'. IsTransferring c')
second_call os net now c h s a t r =
    let connected : is_connected (attempt os net now c).telnet ≡ true =
      unfold attempt in ground (arith, connect_lem os net c.telnet r) in
    let goal : next_state os net now c.system_state c ≡ data_transfer =
      ap (λ q. next_state os net now q c) s ∙ unfold next_state in rw connected refl in
    let was_online : IsOnline c = λ e. absurd (connecting_ne (sym s ∙ e)) in
    Finishes_mono (Serves (next_state os net now c.system_state c) c) (λ r c'. IsTransferring c')
      (process_state_machine os net now c)
      (λ r c' w.
        let arrived = w.reaches ∙ goal in
        let on = w.online was_online arrived in
        record { in_transfer = arrived; online = on.0; active = on.1; free_mutex = w.gives_back })
      (process_state_machine-Serves os net now c h t (λ e. connecting_known (sym s ∙ e)))

-- From READY with a rise of the carrier noted that READY has not yet acted on (the flag
-- `dcd_rising_detected`, which it clears), the mutex free and no timeout due, two calls of
-- `l3_process_state_machine` bring the bridge to DATA_TRANSFER, if the second comes before the
-- connect timeout and the server is reached at once then: the Hayes filter is online, Level 3 is
-- active and the mutex is free, whether or not there was a telnet connection before.
pub process_state_machine_connects :
    (os : Os) (net net' : Network) (now now' : ℕ) (c : Level3)
    → c.mutex_held ≡ false
    → c.system_state ≡ ready
    → c.dcd_rising_detected ≡ true
    → is_state_timed_out now c ≡ false
    → now' < now + connect_timeout
    → Reachable net'
    → Finishes
        ((process_state_machine os net now >>= λ _. process_state_machine os net' now') c)
        (λ r c'. IsTransferring c')
process_state_machine_connects os net net' now now' c h s d t soon r =
    rw (first_call os net now c h s d t, ◌>>=◌)
      (second_call os net' now' (with_mutex false (started now c)) refl refl refl
        (unfold is_state_timed_out in ground arith) r)

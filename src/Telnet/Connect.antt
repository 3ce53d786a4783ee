-- ===== src/Telnet/Connect.antt =====
-- `telnet_connect`, `telnet_init_epoll`, `telnet_process_events` and `telnet_disconnect` of
-- src/telnet.c.
use modembridge.Prelude.{
  ℕ, Bool, true, false, ◌&&◌, ◌||◌, Option, none, some, List, [], ◌∷◌, length, if◌then◌else◌,
}
use modembridge.Common.{Status, success, error_invalid_arg, error_io, error_connection}
use modembridge.Telnet.State.{Os, Telnet, data_state, is_open}
use modembridge.Telnet.Negotiate.{send_negotiate}
use modembridge.Telnet.Byte
use modembridge.Telnet.Telopt

-- What `connect` answers: at once, EINPROGRESS, or another error.
pub data ConnectResult : Type 0 where
  at_once in_progress refused : ConnectResult

-- What the operating system answers in one call of `telnet_connect`: the descriptor of the socket,
-- whether the host is resolved, `connect`, the epoll descriptor, and whether the socket is added.
pub record Network : Type 0 where
  pub socket : Option ℕ
  pub resolves : Bool
  pub connects : ConnectResult
  pub epoll : Option ℕ
  pub adds : Bool

-- The six requests that open a conversation.
unfoldable pub greet : Os → Telnet → Telnet
greet os t0 =
    let t1 = (send_negotiate os t0 Byte.will Telopt.binary).1 in
    let t2 = (send_negotiate os t1 Byte.will Telopt.sga).1 in
    let t3 = (send_negotiate os t2 Byte.do_it Telopt.sga).1 in
    let t4 = (send_negotiate os t3 Byte.do_it Telopt.echo).1 in
    let t5 = (send_negotiate os t4 Byte.will Telopt.ttype).1 in
    (send_negotiate os t5 Byte.will Telopt.linemode).1

-- `telnet_init_epoll`.
unfoldable pub init_epoll : Network → Telnet → Status × Telnet
init_epoll net tn =
    if is_open tn.fd
    then elim net.epoll [
      | none ↦ (error_io, record tn { epoll_fd = none })
      | some e ↦
          if net.adds
          then (
            success,
            record tn {
              epoll_fd = some e;
              can_read = false;
              can_write = true;
              has_error = false;
              event_count = 0;
              read_pos = 0;
              read_buf = [];
              write_pos = 0;
              write_buf = [];
            },
          )
          else (error_io, record tn { epoll_fd = none })
    ]
    else (error_invalid_arg, tn)

-- `telnet_disconnect`.
unfoldable pub disconnect : Telnet → Telnet
disconnect tn =
    if is_open tn.fd
    then record tn {
      epoll_fd = none;
      fd = none;
      is_connected = false;
      is_connecting = false;
      can_read = false;
      can_write = false;
      has_error = false;
      event_count = 0;
      state = data_state;
      sb_buffer = [];
      read_pos = 0;
      read_buf = [];
      write_pos = 0;
      write_buf = [];
    }
    else tn

-- The end of `telnet_connect`, on an open socket.
unfoldable pub finish_connect : Os → Network → Telnet → Status × Telnet
unfolding init_epoll greet
finish_connect os net tn = elim (init_epoll net tn).0 [
  | success ↦ let t = (init_epoll net tn).1 in (success, (if t.is_connected then greet os t else t))
  | _ ↦ (
    error_io,
    record (init_epoll net tn).1 { fd = none; is_connected = false; is_connecting = false },
  )
]

-- The call of `connect` and what follows, on an open socket.
unfoldable pub connect_socket : Os → Network → ConnectResult → Telnet → Status × Telnet
unfolding finish_connect
connect_socket os net refused tn = (error_connection, record tn { fd = none })
connect_socket os net in_progress tn = finish_connect os net (record tn { is_connecting = true })
connect_socket os net at_once tn =
    finish_connect os net (record tn { is_connecting = false; is_connected = true })

-- `telnet_connect`. The host name and the port are only stored for the log.
unfoldable pub connect : Os → Network → Telnet → Status × Telnet
unfolding disconnect connect_socket
connect os net tn =
    let t1 = if tn.is_connected then disconnect tn else tn in
    elim net.socket [
      | none ↦ (error_connection, record t1 { fd = none })
      | some s ↦
          if net.resolves
          then connect_socket os net net.connects (record t1 { fd = some s })
          else (error_connection, record t1 { fd = none })
    ]

-- The flags of one epoll event.
pub record Event : Type 0 where
  pub readable : Bool
  pub writable : Bool
  pub fails : Bool
  pub hangs_up : Bool

-- The loop over the events.
unfoldable pub process_event_list : Telnet → List Event → Telnet
process_event_list tn [] = tn
process_event_list tn (e ∷ es) =
    process_event_list
      (record tn {
        can_read = tn.can_read || e.readable;
        can_write = tn.can_write || e.writable;
        has_error = tn.has_error || e.fails || e.hangs_up;
      })
      es

-- What `epoll_wait` answers: events, EINTR, or another error.
pub data Wait : Type 0 where
  events : List Event → Wait
  interrupted wait_failed : Wait

-- What `getsockopt(SO_ERROR)` tells of a connection that was in progress.
pub data SocketError : Type 0 where
  no_error error_set query_failed : SocketError

-- The completion of a connection that was in progress.
unfoldable pub complete : Os → SocketError → Telnet → Status × Telnet
unfolding greet
complete os no_error tn =
    (success, greet os (record tn { is_connected = true; is_connecting = false }))
complete os _ tn = (error_connection, record tn { is_connected = false; is_connecting = false })

-- `telnet_process_events`. Where `epoll_wait` fails, the source also stores its -1 as the number of
-- events, which no function reads.
unfoldable pub process_events : Os → Wait → SocketError → Telnet → Status × Telnet
unfolding process_event_list complete
process_events os wait socket_error tn =
    if is_open tn.epoll_fd
    then elim wait [
      | interrupted ↦ (success, tn)
      | wait_failed ↦ (error_io, tn)
      | events es ↦
          let t =
            process_event_list
              (record tn {
                event_count = length es;
                can_read = false;
                can_write = false;
                has_error = false;
              })
              es in
          if t.is_connecting && t.can_write then complete os socket_error t else (success, t)
    ]
    else (error_invalid_arg, tn)

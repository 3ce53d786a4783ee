-- ===== src/Level3/Chunk/Server.antt =====
-- What `l3_process_serial_to_telnet_chunk` of src/level3.c hands to a server that is ready.
use modembridge.Prelude.{
  ℕ, suc, ◌+◌, ◌≤◌, ◌≡◌, refl, sym, subst, true, false, List, [], ◌∷◌, ◌++◌, append-nil, arith, ltb,
  leb, ◌==◌, length,
}
use modembridge.Common.{success}
use modembridge.Telnet.State.{sent, Os, Telnet, is_open}
use modembridge.Telnet.Queue.{queue_write, flush_writes}
use modembridge.Level3.Chunk.{after_queue, send_filtered}

-- Connected, with nothing to be written, and a socket that is ready.
pub record IsReady (tn : Telnet) : Type 0 where
  pub open_socket : is_open tn.fd ≡ true
  pub connected : tn.is_connected ≡ true
  pub writable : tn.can_write ≡ true
  pub empty : tn.write_buf ≡ []
  pub at_start : tn.write_pos ≡ 0

-- The socket takes all it is given.
abbrev pub TakesAll : Os → Type 0
TakesAll os = (log : List (List ℕ)) (buf : List ℕ) → os.send log buf ≡ sent (length buf)

suc-eq-zero : (n : ℕ) → (suc n == 0) ≡ false
suc-eq-zero n = ground arith

zero-lt-suc : (n : ℕ) → ltb 0 (suc n) ≡ true
zero-lt-suc n = ground arith

le_whole : (n : ℕ) → leb (suc n) (0 + suc n) ≡ true
le_whole n = ground arith

queue_write-IsReady :
    (tn : Telnet) (c : ℕ) (cs : List ℕ)
    → IsReady tn
    → length (c ∷ cs) ≤ 8192
    → queue_write tn (c ∷ cs) ≡ (success, record tn { write_buf = c ∷ cs })
unfolding queue_write
queue_write-IsReady tn c cs h fits =
    let room : ltb 8192 (suc (length cs)) ≡ false = ground arith in
    rw (h.open_socket, h.connected, h.empty, suc-eq-zero (length cs), room) refl

flush_writes-IsReady :
    (os : Os) (tn : Telnet) (c : ℕ) (cs : List ℕ)
    → TakesAll os
    → IsReady tn
    → let tn' = (flush_writes os (record tn { write_buf = c ∷ cs })).1 in
      IsReady tn' × (tn'.requests ≡ tn.requests ++ (c ∷ cs) ∷ [])
unfolding flush_writes
flush_writes-IsReady os tn c cs all h =
    let n = length cs in
    rw
      (
        h.open_socket,
        h.writable,
        h.at_start,
        all tn.requests (c ∷ cs),
        suc-eq-zero n,
        zero-lt-suc n,
        le_whole n,
      )
      (
        record {
          open_socket = h.open_socket;
          connected = h.connected;
          writable = refl;
          empty = refl;
          at_start = refl;
        },
        refl,
      )

-- The bytes that are left of a line go to the socket in one piece.
unfoldable pub pieces : List ℕ → List (List ℕ)
pieces [] = []
pieces (c ∷ cs) = (c ∷ cs) ∷ []

pub send_filtered-IsReady :
    (os : Os) (bs : List ℕ) (tn : Telnet)
    → TakesAll os
    → IsReady tn
    → length bs ≤ 8192
    → let tn' = send_filtered os bs tn in IsReady tn' × (tn'.requests ≡ tn.requests ++ pieces bs)
unfolding send_filtered pieces
send_filtered-IsReady os [] tn all h fits = (h, sym (append-nil tn.requests))
send_filtered-IsReady os (c ∷ cs) tn all h fits =
    subst
      (λ r.
        IsReady (after_queue os r.0 r.1)
        × ((after_queue os r.0 r.1).requests ≡ tn.requests ++ (c ∷ cs) ∷ []))
      (sym (queue_write-IsReady tn c cs h fits)) (flush_writes-IsReady os tn c cs all h)

-- ===== src/Telnet/Negotiate/Modes.antt =====
-- The flags of `telnet_t` (src/telnet.c) follow from its tables of options.
use modembridge.Prelude.{
  ℕ, Bool, true, false, not, ◌&&◌, ◌||◌, ◌==◌, if◌then◌else◌, ◌≡◌, refl, arith, inl, inr,
  Bool-cases,
}
use modembridge.Telnet.State.{Os, Telnet, assign, init}
use modembridge.Telnet.Negotiate.{
  update_mode, handle_will, handle_wont, handle_do, handle_dont, handle_negotiate,
}
use modembridge.Telnet.Negotiate.Answers.{will_req, do_req, settled, send_negotiate_frame}
use modembridge.Telnet.Byte
use modembridge.Telnet.Telopt

-- The flags of one option each.
pub record FlagsAgree (tn : Telnet) : Type 0 where
  pub binary_remote_is : tn.binary_remote ≡ tn.remote_options Telopt.binary
  pub sga_remote_is : tn.sga_remote ≡ tn.remote_options Telopt.sga
  pub echo_remote_is : tn.echo_remote ≡ tn.remote_options Telopt.echo
  pub linemode_active_is : tn.linemode_active ≡ tn.local_options Telopt.linemode
  pub binary_local_needs : tn.binary_local ≡ true → tn.local_options Telopt.binary ≡ true
  pub sga_local_needs : tn.sga_local ≡ true → tn.local_options Telopt.sga ≡ true
  pub remote_known : (o : ℕ) → tn.remote_options o ≡ true → settled will_req o ≡ true
  pub local_known : (o : ℕ) → tn.local_options o ≡ true → settled do_req o ≡ true

-- The combined flags.
pub record ModesAgree (tn : Telnet) : Type 0 where
  pub flags : FlagsAgree tn
  pub binary_mode_is : tn.binary_mode ≡ (tn.binary_local || tn.binary_remote)
  pub sga_mode_is : tn.sga_mode ≡ (tn.sga_local || tn.sga_remote)
  pub echo_mode_is : tn.echo_mode ≡ tn.echo_remote
  pub linemode_is :
      tn.linemode
      ≡ (if tn.linemode_active then tn.linemode_edit else not (tn.echo_remote && tn.sga_remote))

pub update_mode-ModesAgree : (tn : Telnet) → FlagsAgree tn → ModesAgree (update_mode tn)
unfolding update_mode
update_mode-ModesAgree tn f = record {
  flags = record {
    binary_remote_is = f.binary_remote_is;
    sga_remote_is = f.sga_remote_is;
    echo_remote_is = f.echo_remote_is;
    linemode_active_is = f.linemode_active_is;
    binary_local_needs = f.binary_local_needs;
    sga_local_needs = f.sga_local_needs;
    remote_known = f.remote_known;
    local_known = f.local_known;
  };
  binary_mode_is = refl;
  sga_mode_is = refl;
  echo_mode_is = refl;
  linemode_is = ground arith;
}

-- The client with one setting changed, before it answers.
abbrev remote_set : Telnet → ℕ → Bool → Telnet
remote_set tn o b = record tn { remote_options = assign tn.remote_options o b }

abbrev local_set : Telnet → ℕ → Bool → Telnet
local_set tn o b = record tn { local_options = assign tn.local_options o b }

module _ (os : Os) (tn : Telnet) (o : ℕ) (f : FlagsAgree tn) where
  handle_will-FlagsAgree : FlagsAgree (handle_will os tn o)
  unfolding handle_will
  handle_will-FlagsAgree =
      let on = send_negotiate_frame os (remote_set tn o true) Byte.do_it o in
      let off = send_negotiate_frame os (remote_set tn o false) Byte.dont o in
      record {
        binary_remote_is = ground (arith, on, off, f.binary_remote_is);
        sga_remote_is = ground (arith, on, off, f.sga_remote_is);
        echo_remote_is = ground (arith, on, off, f.echo_remote_is);
        linemode_active_is = ground (arith, on, off, f.linemode_active_is);
        binary_local_needs = ground (arith, on, off, f.binary_local_needs);
        sga_local_needs = ground (arith, on, off, f.sga_local_needs);
        remote_known = λ k. ground (arith, on, off, f.remote_known k);
        local_known = λ k. ground (arith, on, off, f.local_known k);
      }

  handle_wont-FlagsAgree : FlagsAgree (handle_wont os tn o)
  unfolding handle_wont
  handle_wont-FlagsAgree =
      let off = send_negotiate_frame os (remote_set tn o false) Byte.dont o in
      record {
        binary_remote_is = ground (arith, off, f.binary_remote_is);
        sga_remote_is = ground (arith, off, f.sga_remote_is);
        echo_remote_is = ground (arith, off, f.echo_remote_is);
        linemode_active_is = ground (arith, off, f.linemode_active_is, f.remote_known o);
        binary_local_needs = ground (arith, off, f.binary_local_needs);
        sga_local_needs = ground (arith, off, f.sga_local_needs);
        remote_known = λ k. ground (arith, off, f.remote_known k);
        local_known = λ k. ground (arith, off, f.local_known k);
      }

  handle_do-FlagsAgree : FlagsAgree (handle_do os tn o)
  unfolding handle_do
  handle_do-FlagsAgree =
      let on = send_negotiate_frame os (local_set tn o true) Byte.will o in
      let off = send_negotiate_frame os (local_set tn o false) Byte.wont o in
      record {
        binary_remote_is = ground (arith, on, off, f.binary_remote_is);
        sga_remote_is = ground (arith, on, off, f.sga_remote_is);
        echo_remote_is = ground (arith, on, off, f.echo_remote_is);
        linemode_active_is = ground (arith, on, off, f.linemode_active_is);
        binary_local_needs = ground (arith, on, off, f.binary_local_needs);
        sga_local_needs = ground (arith, on, off, f.sga_local_needs);
        remote_known = λ k. ground (arith, on, off, f.remote_known k);
        local_known = λ k. ground (arith, on, off, f.local_known k);
      }

  handle_dont-FlagsAgree : FlagsAgree (handle_dont os tn o)
  unfolding handle_dont
  handle_dont-FlagsAgree =
      let off = send_negotiate_frame os (local_set tn o false) Byte.wont o in
      record {
        binary_remote_is = ground (arith, off, f.binary_remote_is);
        sga_remote_is = ground (arith, off, f.sga_remote_is);
        echo_remote_is = ground (arith, off, f.echo_remote_is);
        linemode_active_is = ground (arith, off, f.linemode_active_is);
        binary_local_needs = ground (arith, off, f.binary_local_needs);
        sga_local_needs = ground (arith, off, f.sga_local_needs);
        remote_known = λ k. ground (arith, off, f.remote_known k);
        local_known = λ k. ground (arith, off, f.local_known k);
      }

-- Every request, of any command and option, leaves the flags and the combined modes in step with
-- the tables of options: character mode is on exactly where the server echoes and suppresses GA,
-- unless LINEMODE decides, and no option is on that the client does not know.
pub handle_negotiate-ModesAgree :
    (os : Os) (tn : Telnet) (command option : ℕ)
    → ModesAgree tn
    → ModesAgree (handle_negotiate os tn command option)
unfolding handle_negotiate
handle_negotiate-ModesAgree os tn command option m =
    let will = update_mode-ModesAgree _ (handle_will-FlagsAgree os tn option m.flags) in
    let wont = update_mode-ModesAgree _ (handle_wont-FlagsAgree os tn option m.flags) in
    let do_it = update_mode-ModesAgree _ (handle_do-FlagsAgree os tn option m.flags) in
    let dont = update_mode-ModesAgree _ (handle_dont-FlagsAgree os tn option m.flags) in
    elim (Bool-cases (command == Byte.will)) [
      | inl e ↦ rw e will
      | inr e ↦ rw e (elim (Bool-cases (command == Byte.wont)) [
        | inl e' ↦ rw e' wont
        | inr e' ↦ rw e' (elim (Bool-cases (command == Byte.do_it)) [
          | inl d ↦ rw d do_it
          | inr d ↦
              rw d (elim (Bool-cases (command == Byte.dont)) [
                | inl d' ↦ rw d' dont
                | inr d' ↦ rw d' m
              ])
        ])
      ])
    ]

module _ (os : Os) (tn : Telnet) (o : ℕ) where
  sb_buffer-handle_will : (handle_will os tn o).sb_buffer ≡ tn.sb_buffer
  unfolding handle_will
  sb_buffer-handle_will = ground (
    arith,
    send_negotiate_frame os (remote_set tn o true) Byte.do_it o,
    send_negotiate_frame os (remote_set tn o false) Byte.dont o,
  )

  sb_buffer-handle_wont : (handle_wont os tn o).sb_buffer ≡ tn.sb_buffer
  unfolding handle_wont
  sb_buffer-handle_wont =
      ground (arith, send_negotiate_frame os (remote_set tn o false) Byte.dont o)

  sb_buffer-handle_do : (handle_do os tn o).sb_buffer ≡ tn.sb_buffer
  unfolding handle_do
  sb_buffer-handle_do = ground (
    arith,
    send_negotiate_frame os (local_set tn o true) Byte.will o,
    send_negotiate_frame os (local_set tn o false) Byte.wont o,
  )

  sb_buffer-handle_dont : (handle_dont os tn o).sb_buffer ≡ tn.sb_buffer
  unfolding handle_dont
  sb_buffer-handle_dont = ground (arith, send_negotiate_frame os (local_set tn o false) Byte.wont o)

pub sb_buffer-handle_negotiate :
    (os : Os) (tn : Telnet) (command o : ℕ)
    → (handle_negotiate os tn command o).sb_buffer ≡ tn.sb_buffer
unfolding handle_negotiate update_mode
sb_buffer-handle_negotiate os tn command o = ground (
  arith,
  sb_buffer-handle_will os tn o,
  sb_buffer-handle_wont os tn o,
  sb_buffer-handle_do os tn o,
  sb_buffer-handle_dont os tn o,
)

-- A fresh client is in step.
pub init-ModesAgree : (now : ℕ) → ModesAgree (init now)
init-ModesAgree now = record {
  flags = record {
    binary_remote_is = refl;
    sga_remote_is = refl;
    echo_remote_is = refl;
    linemode_active_is = refl;
    binary_local_needs = λ e. cc;
    sga_local_needs = λ e. cc;
    remote_known = λ o e. cc;
    local_known = λ o. ground arith;
  };
  binary_mode_is = refl;
  sga_mode_is = refl;
  echo_mode_is = refl;
  linemode_is = refl;
}

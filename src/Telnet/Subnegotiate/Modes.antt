-- ===== src/Telnet/Subnegotiate/Modes.antt =====
-- Subnegotiation (src/telnet.c) keeps the modes of `telnet_t` in step.
use modembridge.Prelude.{
  ℕ, Bool, not, ◌&&◌, List, [], ◌∷◌, ◌==◌, if◌then◌else◌, ◌≡◌, refl, arith, ap, ◌∙◌, inl, inr,
  Bool-cases,
}
use modembridge.Telnet.State.{Os, Telnet}
use modembridge.Telnet.Negotiate.{send_control, update_mode}
use modembridge.Telnet.Negotiate.Modes.{FlagsAgree, ModesAgree, update_mode-ModesAgree}
use modembridge.Telnet.Subnegotiate.{
  send_subnegotiation, handle_ttype, handle_mode, handle_linemode, handle_option,
  handle_subnegotiation_of, handle_subnegotiation, has_bit, mode_edit, lm_mode, ttype_send,
  same_bool, ttype_is,
}
use modembridge.Telnet.Telopt

-- A frame that is sent touches nothing but the log.
pub send_subnegotiation_frame :
    (os : Os) (tn : Telnet) (payload : List ℕ)
    → let t = (send_subnegotiation os tn payload).1 in t ≡ record tn { requests = t.requests }
unfolding send_subnegotiation send_control
send_subnegotiation_frame os tn [] = refl
send_subnegotiation_frame os tn (c ∷ cs) = ground arith

abbrev logged : Telnet → List (List ℕ) → Telnet
logged tn log = record tn { requests = log }

logged-ModesAgree : (tn : Telnet) (log : List (List ℕ)) → ModesAgree tn → ModesAgree (logged tn log)
logged-ModesAgree tn log m = record {
  flags = record {
    binary_remote_is = m.flags.binary_remote_is;
    sga_remote_is = m.flags.sga_remote_is;
    echo_remote_is = m.flags.echo_remote_is;
    linemode_active_is = m.flags.linemode_active_is;
    binary_local_needs = m.flags.binary_local_needs;
    sga_local_needs = m.flags.sga_local_needs;
    remote_known = m.flags.remote_known;
    local_known = m.flags.local_known;
  };
  binary_mode_is = m.binary_mode_is;
  sga_mode_is = m.sga_mode_is;
  echo_mode_is = m.echo_mode_is;
  linemode_is = m.linemode_is;
}

handle_ttype-ModesAgree :
    (os : Os) (tn : Telnet) (rest : List ℕ) → ModesAgree tn → ModesAgree (handle_ttype os tn rest)
unfolding handle_ttype
handle_ttype-ModesAgree os tn [] m = m
handle_ttype-ModesAgree os tn (c ∷ cs) m = elim (Bool-cases (c == ttype_send)) [
  | inl e ↦ rw e (
      rw (send_subnegotiation_frame os tn (Telopt.ttype ∷ ttype_is ∷ tn.terminal_type))
        (logged-ModesAgree tn _ m))
  | inr e ↦ rw e m
]

abbrev with_edit : Telnet → Bool → List (List ℕ) → Telnet
with_edit tn edit log = record tn { linemode_edit = edit; requests = log }

with_edit-FlagsAgree :
    (tn : Telnet) (edit : Bool) (log : List (List ℕ))
    → FlagsAgree tn
    → FlagsAgree (with_edit tn edit log)
with_edit-FlagsAgree tn edit log f = record {
  binary_remote_is = f.binary_remote_is;
  sga_remote_is = f.sga_remote_is;
  echo_remote_is = f.echo_remote_is;
  linemode_active_is = f.linemode_active_is;
  binary_local_needs = f.binary_local_needs;
  sga_local_needs = f.sga_local_needs;
  remote_known = f.remote_known;
  local_known = f.local_known;
}

-- What a MODE subnegotiation leaves: the new edit flag, the modes updated if it changed.
handle_mode_lem :
    (os : Os) (tn : Telnet) (mode : ℕ)
    → let t = handle_mode os tn mode in
      let t2 = with_edit tn (has_bit mode mode_edit) t.requests in
      t ≡ (if same_bool tn.linemode_edit (has_bit mode mode_edit) then t2 else update_mode t2)
unfolding handle_mode update_mode
handle_mode_lem os tn mode =
    let t1 = record tn { linemode_edit = has_bit mode mode_edit } in
    ground (arith, send_subnegotiation_frame os t1 (Telopt.linemode ∷ lm_mode ∷ mode ∷ []))

with_edit_same :
    (tn : Telnet) (edit : Bool) (log : List (List ℕ))
    → tn.linemode_edit ≡ edit
    → ModesAgree tn
    → ModesAgree (with_edit tn edit log)
with_edit_same tn edit log e m = record {
  flags = with_edit-FlagsAgree tn edit log m.flags;
  binary_mode_is = m.binary_mode_is;
  sga_mode_is = m.sga_mode_is;
  echo_mode_is = m.echo_mode_is;
  linemode_is =
      m.linemode_is
      ∙ ap (λ x. if tn.linemode_active then x else not (tn.echo_remote && tn.sga_remote)) e;
}

handle_mode-ModesAgree :
    (os : Os) (tn : Telnet) (mode : ℕ) → ModesAgree tn → ModesAgree (handle_mode os tn mode)
handle_mode-ModesAgree os tn mode m =
    let edit = has_bit mode mode_edit in
    rw (handle_mode_lem os tn mode) (elim (Bool-cases (same_bool tn.linemode_edit edit)) [
      | inl e ↦ rw e (with_edit_same tn edit _ (ground (arith, e)) m)
      | inr e ↦ rw e (update_mode-ModesAgree _ (with_edit-FlagsAgree tn edit _ m.flags))
    ])

handle_linemode-ModesAgree :
    (os : Os) (tn : Telnet) (rest : List ℕ)
    → ModesAgree tn
    → ModesAgree (handle_linemode os tn rest)
handle_linemode-ModesAgree os tn [] m = unfold handle_linemode in m
handle_linemode-ModesAgree os tn (c ∷ []) m = unfold handle_linemode in m
handle_linemode-ModesAgree os tn (c ∷ mode ∷ cs) m =
    unfold handle_linemode in
    elim (Bool-cases (c == lm_mode)) [
      | inl e ↦ rw e (handle_mode-ModesAgree os tn mode m)
      | inr e ↦ rw e m
    ]

handle_option-ModesAgree :
    (os : Os) (tn : Telnet) (option : ℕ) (rest : List ℕ)
    → ModesAgree tn
    → ModesAgree (handle_option os tn option rest)
unfolding handle_option
handle_option-ModesAgree os tn option rest m = elim (Bool-cases (option == Telopt.ttype)) [
  | inl e ↦ rw e (handle_ttype-ModesAgree os tn rest m)
  | inr e ↦ rw e (elim (Bool-cases (option == Telopt.linemode)) [
    | inl e' ↦ rw e' (handle_linemode-ModesAgree os tn rest m)
    | inr e' ↦ rw e' m
  ])
]

handle_subnegotiation_of-ModesAgree :
    (os : Os) (tn : Telnet) (buf : List ℕ)
    → ModesAgree tn
    → ModesAgree (handle_subnegotiation_of os tn buf).1
handle_subnegotiation_of-ModesAgree os tn [] m = unfold handle_subnegotiation_of in m
handle_subnegotiation_of-ModesAgree os tn (c ∷ cs) m =
    unfold handle_subnegotiation_of in handle_option-ModesAgree os tn c cs m

-- Whatever a subnegotiation holds, the modes stay in step.
pub handle_subnegotiation-ModesAgree :
    (os : Os) (tn : Telnet) → ModesAgree tn → ModesAgree (handle_subnegotiation os tn).1
handle_subnegotiation-ModesAgree os tn m =
    unfold handle_subnegotiation in handle_subnegotiation_of-ModesAgree os tn tn.sb_buffer m

-- ===== src/Telnet/Negotiate/Answers.antt =====
-- What the client answers to an option request (src/telnet.c), against the rules of RFC 855.
use modembridge.Prelude.{
  ℕ, Bool, true, false, not, ◌||◌, List, [], ◌∷◌, ◌++◌, ◌==◌, if◌then◌else◌, ◌≡◌, arith, append-nil,
  ap, ◌∙◌,
}
use modembridge.Telnet.State.{Os, Telnet, is_open, assign}
use modembridge.Telnet.Negotiate.{
  send_control, send_negotiate, update_mode, handle_will, handle_wont, handle_do, handle_dont,
  handle_negotiate,
}
use modembridge.Telnet.Byte
use modembridge.Telnet.Telopt

-- The four requests, each about one side: WILL and WONT about the server, DO and DONT about us.
pub data Request : Type 0 where
  will_req wont_req do_req dont_req : Request

abbrev pub byte : Request → ℕ
byte will_req = Byte.will
byte wont_req = Byte.wont
byte do_req = Byte.do_it
byte dont_req = Byte.dont

-- The options that the request's side uses.
abbrev pub side : Request → Telnet → ℕ → Bool
side will_req tn = tn.remote_options
side wont_req tn = tn.remote_options
side do_req tn = tn.local_options
side dont_req tn = tn.local_options

abbrev pub other_side : Request → Telnet → ℕ → Bool
other_side will_req tn = tn.local_options
other_side wont_req tn = tn.local_options
other_side do_req tn = tn.remote_options
other_side dont_req tn = tn.remote_options

-- Whether the option is in use once the request is settled.
abbrev pub settled : Request → ℕ → Bool
settled will_req o = o == Telopt.binary || o == Telopt.sga || o == Telopt.echo
settled do_req o =
    o == Telopt.binary || o == Telopt.sga || o == Telopt.ttype || o == Telopt.linemode
settled _ o = false

-- The word for the new setting of that side, said by us.
abbrev pub word : Request → Bool → ℕ
word will_req on = if on then Byte.do_it else Byte.dont
word wont_req on = if on then Byte.do_it else Byte.dont
word do_req on = if on then Byte.will else Byte.wont
word dont_req on = if on then Byte.will else Byte.wont

abbrev pub same : Bool → Bool → Bool
same true b = b
same false b = not b

-- One answer where the setting changes, and none where it stays.
abbrev pub answer : Request → Bool → ℕ → List (List ℕ)
answer r old o =
    if same old (settled r o) then [] else (Byte.iac ∷ word r (settled r o) ∷ o ∷ []) ∷ []

pub send_control_lem :
    (os : Os) (tn : Telnet) (buf : List ℕ)
    → (send_control os tn buf).1 ≡ record tn { requests = tn.requests ++ buf ∷ [] }
unfolding send_control
send_control_lem os tn buf = ground arith

pub send_negotiate_lem :
    (os : Os) (tn : Telnet) (command option : ℕ)
    → is_open tn.fd ≡ true
    → (send_negotiate os tn command option).1
      ≡ record tn { requests = tn.requests ++ (Byte.iac ∷ command ∷ option ∷ []) ∷ [] }
unfolding send_negotiate
send_negotiate_lem os tn command option h = ground arith

-- Open or not, a request to send touches nothing but the log.
pub send_negotiate_frame :
    (os : Os) (tn : Telnet) (command option : ℕ)
    → let t = (send_negotiate os tn command option).1 in t ≡ record tn { requests = t.requests }
unfolding send_negotiate send_control
send_negotiate_frame os tn command option = ground arith

-- What a request does, for each of the four: the tables, the answers.
pub record Settles (r : Request) (o : ℕ) (tn tn' : Telnet) : Type 0 where
  pub setting : (k : ℕ) → side r tn' k ≡ (if k == o then settled r o else side r tn k)
  pub other : other_side r tn' ≡ other_side r tn
  pub answers : tn'.requests ≡ tn.requests ++ answer r (side r tn o) o
  pub still_open : tn'.fd ≡ tn.fd

-- The client with one setting changed, before it answers.
abbrev set_side : Request → Telnet → ℕ → Bool → Telnet
set_side will_req tn o b = record tn { remote_options = assign tn.remote_options o b }
set_side wont_req tn o b = record tn { remote_options = assign tn.remote_options o b }
set_side do_req tn o b = record tn { local_options = assign tn.local_options o b }
set_side dont_req tn o b = record tn { local_options = assign tn.local_options o b }

module _ (os : Os) (tn : Telnet) (o : ℕ) (h : is_open tn.fd ≡ true) where
  sends :
      (r : Request) (b : Bool) (command : ℕ)
      → (send_negotiate os (set_side r tn o b) command o).1 ≡ record (set_side r tn o b) {
        requests = tn.requests ++ (Byte.iac ∷ command ∷ o ∷ []) ∷ [];
      }
  sends will_req b command = send_negotiate_lem os _ command o h
  sends wont_req b command = send_negotiate_lem os _ command o h
  sends do_req b command = send_negotiate_lem os _ command o h
  sends dont_req b command = send_negotiate_lem os _ command o h

  handle_will-Settles : Settles will_req o tn (handle_will os tn o)
  unfolding handle_will
  handle_will-Settles =
      let on = sends will_req true Byte.do_it in
      let off = sends will_req false Byte.dont in
      record {
        setting = λ k. ground (arith, on, off);
        other = ground (arith, on, off);
        answers = ground (arith, on, off, append-nil tn.requests);
        still_open = ground (arith, on, off);
      }

  handle_wont-Settles : Settles wont_req o tn (handle_wont os tn o)
  unfolding handle_wont
  handle_wont-Settles =
      let off = sends wont_req false Byte.dont in
      record {
        setting = λ k. ground (arith, off);
        other = ground (arith, off);
        answers = ground (arith, off, append-nil tn.requests);
        still_open = ground (arith, off);
      }

  handle_do-Settles : Settles do_req o tn (handle_do os tn o)
  unfolding handle_do
  handle_do-Settles =
      let on = sends do_req true Byte.will in
      let off = sends do_req false Byte.wont in
      record {
        setting = λ k. ground (arith, on, off);
        other = ground (arith, on, off);
        answers = ground (arith, on, off, append-nil tn.requests);
        still_open = ground (arith, on, off);
      }

  handle_dont-Settles : Settles dont_req o tn (handle_dont os tn o)
  unfolding handle_dont
  handle_dont-Settles =
      let off = sends dont_req false Byte.wont in
      record {
        setting = λ k. ground (arith, off);
        other = ground (arith, off);
        answers = ground (arith, off, append-nil tn.requests);
        still_open = ground (arith, off);
      }

update_mode-Settles :
    (r : Request) (o : ℕ) (tn tn' : Telnet) → Settles r o tn tn' → Settles r o tn (update_mode tn')
unfolding update_mode
update_mode-Settles will_req o tn tn' s = record {
  setting = s.setting;
  other = s.other;
  answers = s.answers;
  still_open = s.still_open;
}
update_mode-Settles r o tn tn' s = record {
  setting = s.setting;
  other = s.other;
  answers = s.answers;
  still_open = s.still_open;
}

-- On an open connection a request about an option switches the option on exactly where the client
-- knows it and the request asks for it, on the request's own side and for that option alone. It is
-- answered once, by the word for the new setting, if the setting changes, and else not at all: a
-- request for an option that the client does not know, which is off, gets no answer.
pub handle_negotiate-Settles :
    (os : Os) (tn : Telnet) (r : Request) (o : ℕ)
    → is_open tn.fd ≡ true
    → Settles r o tn (handle_negotiate os tn (byte r) o)
unfolding handle_negotiate
handle_negotiate-Settles os tn will_req o h =
    update_mode-Settles will_req o tn _ (handle_will-Settles os tn o h)
handle_negotiate-Settles os tn wont_req o h =
    update_mode-Settles wont_req o tn _ (handle_wont-Settles os tn o h)
handle_negotiate-Settles os tn do_req o h =
    update_mode-Settles do_req o tn _ (handle_do-Settles os tn o h)
handle_negotiate-Settles os tn dont_req o h =
    update_mode-Settles dont_req o tn _ (handle_dont-Settles os tn o h)

settled-answer :
    (r : Request) (o : ℕ) (b : Bool) (said : List (List ℕ)) (old : Bool)
    → b ≡ (if o == o then settled r o else old)
    → said ++ answer r b o ≡ said
settled-answer will_req o b said old e = ground (arith, append-nil said)
settled-answer do_req o b said old e = ground (arith, append-nil said)
settled-answer _ o b said old e = ground (arith, append-nil said)

-- On an open connection a request that comes a second time, as a confirmation does, is not answered
-- again.
handle_negotiate_twice :
    (os : Os) (tn : Telnet) (r : Request) (o : ℕ)
    → is_open tn.fd ≡ true
    → let once = handle_negotiate os tn (byte r) o in
      (handle_negotiate os once (byte r) o).requests ≡ once.requests
handle_negotiate_twice os tn r o h =
    let s = handle_negotiate-Settles os tn r o h in
    let once = handle_negotiate os tn (byte r) o in
    let s' = handle_negotiate-Settles os once r o (ap is_open s.still_open ∙ h) in
    s'.answers ∙ settled-answer r o (side r once o) once.requests (side r tn o) (s.setting o)

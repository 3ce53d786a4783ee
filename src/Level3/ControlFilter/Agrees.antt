-- ===== src/Level3/ControlFilter/Agrees.antt =====
-- The control filter of src/level3.c against the receiving machine of src/telnet.c.
use modembridge.Prelude.{
  ℕ, ◌+◌, ◌≤◌, ◌≡◌, refl, sym, ap, ◌∙◌, List, [], ◌∷◌, ◌++◌, append-nil, append_assoc, arith,
  length, length-append, ltb, true,
}
use modembridge.Telnet.State.{
  TelnetState, data_state, iac_state, will_state, wont_state, do_state, dont_state, sb_state,
  sb_iac_state, Os, Telnet,
}
use modembridge.Telnet.Input.{iac_command, accumulate, sb_command, step, process_input}
use modembridge.Telnet.Input.Stream.{emits, decode, process_input-decode}
use modembridge.Level3.ControlFilter.{
  FilterState, filter_data, filter_iac, filter_will, filter_wont, filter_do, filter_dont, filter_sb,
  filter_sb_data, next, emit, filter_controls_from, filter_controls,
}

-- The state of the receiving machine that a state of the filter stands for.
abbrev pub telnet_state : FilterState → TelnetState
telnet_state filter_data = data_state
telnet_state filter_iac = iac_state
telnet_state filter_will = will_state
telnet_state filter_wont = wont_state
telnet_state filter_do = do_state
telnet_state filter_dont = dont_state
telnet_state filter_sb = sb_state
telnet_state filter_sb_data = sb_iac_state

emit-emits : (s : FilterState) (c : ℕ) → emit s c ≡ emits (telnet_state s) c
unfolding emit
emit-emits filter_data c = refl
emit-emits filter_iac c = ground arith
emit-emits _ c = refl

length-emit-le : (s : FilterState) (c : ℕ) → length (emit s c) ≤ 1
unfolding emit
length-emit-le filter_data c = ground arith
length-emit-le filter_iac c = ground arith
length-emit-le _ c = omega arith

state-accumulate : (tn : Telnet) (c : ℕ) → (accumulate tn c).state ≡ tn.state
unfolding accumulate
state-accumulate tn c = ground arith

state-step :
    (os : Os) (s : FilterState) (tn : Telnet) (c : ℕ)
    → tn.state ≡ telnet_state s
    → (step os (telnet_state s) tn c).state ≡ telnet_state (next s c)
unfolding step next iac_command sb_command
state-step os filter_data tn c h = ground arith
state-step os filter_iac tn c h = ground arith
state-step os filter_sb tn c h = ground (arith, state-accumulate tn c)
state-step os filter_sb_data tn c h = ground arith
state-step os _ tn c h = refl

filter_controls_from-decode :
    (os : Os) (size : ℕ) (input : List ℕ) (s : FilterState) (tn : Telnet) (out : List ℕ)
    → tn.state ≡ telnet_state s
    → length out + length input ≤ size
    → let (got, s') = filter_controls_from size s out input in
      let (got', tn') = decode os tn input in (got ≡ out ++ got') × (tn'.state ≡ telnet_state s')
unfolding filter_controls_from decode
filter_controls_from-decode os size [] s tn out h r = (sym (append-nil out), h)
filter_controls_from-decode os size (c ∷ cs) s tn out h r =
    let room : ltb (length out) size ≡ true = ground arith in
    let tn' = step os tn.state tn c in
    let e : emit s c ≡ emits tn.state c = emit-emits s c ∙ ap (λ q. emits q c) (sym h) in
    let h' : tn'.state ≡ telnet_state (next s c) =
      ap (λ q. (step os q tn c).state) h ∙ state-step os s tn c h in
    let short = length-emit-le s c in
    let (same, state) =
      filter_controls_from-decode os size cs (next s c) tn' (out ++ emit s c) h'
        (omega (arith, length-append out (emit s c), short)) in
    rw room
      (same ∙ append_assoc out (emit s c) _ ∙ ap (λ b. out ++ (b ++ (decode os tn' cs).0)) e, state)

-- From corresponding states, `l3_filter_telnet_controls` hands out the very bytes that the
-- receiving machine of the telnet client hands out, and ends in the corresponding state, whatever
-- commands, options and subnegotiations the stream holds: with room for the input and three bytes
-- more in the output that each of them is given.
pub filter_controls-process_input :
    (os : Os) (tn : Telnet) (s : FilterState) (input : List ℕ) (size : ℕ)
    → tn.state ≡ telnet_state s
    → length input + 3 ≤ size
    → let (got, s') = filter_controls size s input in
      let (got', tn') = process_input os tn input size in
      (got ≡ got') × (tn'.state ≡ telnet_state s')
unfolding filter_controls
filter_controls-process_input os tn s input size h r =
    rw (process_input-decode os tn input size r)
      (filter_controls_from-decode os size input s tn [] h (omega arith))

-- ===== src/Client/Request/Arms.antt =====
-- The answers that `do_get` and `do_put` of src/client.rs take for one.
use atftp.Client.Request.{Answer, get_arm, put_arm}
use atftp.Client.{merge_oack}
use atftp.Common.{
  ℕ, ◌≡◌, refl, sym, ap, ◌∙◌, Bool, true, false, none, some, ◌==◌, if◌then◌else◌, Bytes, arith,
}
use atftp.Error.{Error, ok, err}
use atftp.Io.Receive.{returned-eq}
use atftp.Io.{Address, Net, Io, ◌>>=◌, pure}
use atftp.Proto.Options.{OptionSet}
use atftp.Proto.Packet.{Packet, rrq, wrq, block_data, ack, error, oack}
use atftp.Server.Receiver.Writes.{acked}
use atftp.Server.Receiver.{send_ack}
use atftp.Server.{defaults}

-- What `do_get` takes for an answer: an OACK, if it asked for one, or a DATA packet.
pub data IsGetAnswer (want_oack : Bool) (src : Address) (packet : Packet) (answer : Answer)
    (net net' : Net) : Type 0 where
  accepted :
      (options : OptionSet)
      → want_oack ≡ true
      → packet ≡ oack options
      → answer ≡ record { peer = src; neg = merge_oack defaults options; first_data = none }
      → net'.inbox ≡ net.inbox
      → IsGetAnswer want_oack src packet answer net net'
  begun :
      (block : ℕ) (payload : Bytes)
      → packet ≡ block_data block payload
      → answer ≡ record { peer = src; neg = defaults; first_data = some (block, payload) }
      → net' ≡ net
      → IsGetAnswer want_oack src packet answer net net'

-- What `do_put` takes for an answer: an OACK, if it asked for one, or ACK(0).
pub data IsPutAnswer (want_oack : Bool) (src : Address) (packet : Packet) (answer : Answer)
    (net net' : Net) : Type 0 where
  accepted :
      (options : OptionSet)
      → want_oack ≡ true
      → packet ≡ oack options
      → answer ≡ record { peer = src; neg = merge_oack defaults options; first_data = none }
      → net' ≡ net
      → IsPutAnswer want_oack src packet answer net net'
  acknowledged :
      packet ≡ ack 0
      → answer ≡ record { peer = src; neg = defaults; first_data = none }
      → net' ≡ net
      → IsPutAnswer want_oack src packet answer net net'

some-injective {ℓ} : {A : Type ℓ} {a b : A} → some a ≡ some b → a ≡ b
some-injective e = cc

-- An action that is known to be another has its effect.
acts_as :
    (action known : Io Answer) {net net' : Net} {answer : Answer}
    → some known ≡ some action
    → action net ≡ (ok answer, net')
    → known net ≡ (ok answer, net')
acts_as action known {net} same e = ap (λ (f : Io Answer). f net) (some-injective same) ∙ e

get_accepts :
    (src : Address) (options : OptionSet)
    → get_arm true src (oack options)
      ≡ some (
          send_ack src 0 >>= λ _.
          pure (record { peer = src; neg = merge_oack defaults options; first_data = none }))
get_accepts src options = unfold get_arm in refl

pub get_arm_lem :
    (want_oack : Bool) (src : Address) (packet : Packet) (action : Io Answer) (answer : Answer)
    (net net' : Net)
    → get_arm want_oack src packet ≡ some action
    → action net ≡ (ok answer, net')
    → IsGetAnswer want_oack src packet answer net net'
get_arm_lem true src (oack options) action answer net net' h e =
    let (is, inbox) =
      acked src 0 (record { peer = src; neg = merge_oack defaults options; first_data = none })
        answer net {net' = net'} (acts_as action _ (sym (get_accepts src options) ∙ h) e) in
    accepted options refl refl is inbox
get_arm_lem false src (oack options) action answer net net' h e = unfold get_arm in cc
get_arm_lem want src (block_data block payload) action answer net net' h e =
    let (is, same) = returned-eq (
      acts_as action
        (pure (record { peer = src; neg = defaults; first_data = some (block, payload) }))
        (begins ∙ h) e) in
    begun block payload refl (sym is) (sym same)
  where
    begins :
        some (pure (record { peer = src; neg = defaults; first_data = some (block, payload) }))
        ≡ get_arm want src (block_data block payload)
    begins = unfold get_arm in refl
get_arm_lem want src (error code msg) action answer net net' h e =
    let no = acts_as action (λ (n : Net). (err (Error.peer code msg), n)) (stops ∙ h) e in cc
  where
    stops : some (λ (n : Net). (err (Error.peer code msg), n)) ≡ get_arm want src (error code msg)
    stops = unfold get_arm in refl
get_arm_lem want src (rrq f m o) action answer net net' h e = unfold get_arm in cc
get_arm_lem want src (wrq f m o) action answer net net' h e = unfold get_arm in cc
get_arm_lem want src (ack b) action answer net net' h e = unfold get_arm in cc

put_acks :
    (want_oack : Bool) (src : Address) (block : ℕ)
    → put_arm want_oack src (ack block) ≡ (
        if block == 0
        then some (pure (record { peer = src; neg = defaults; first_data = none }))
        else none)
put_acks want src block = unfold put_arm in refl

put_acked :
    (want_oack : Bool) (src : Address) (block : ℕ) (zero_ : Bool) (action : Io Answer)
    (answer : Answer) (net net' : Net)
    → block == 0 ≡ zero_
    → (if zero_
        then some (pure (record { peer = src; neg = defaults; first_data = none }))
        else none)
      ≡ some action
    → action net ≡ (ok answer, net')
    → IsPutAnswer want_oack src (ack block) answer net net'
put_acked want src block true action answer net net' z h e =
    let is_zero : block ≡ 0 = ground arith in
    let (is, same) =
      returned-eq
        (acts_as action (pure (record { peer = src; neg = defaults; first_data = none })) h e) in
    acknowledged (ap ack is_zero) (sym is) (sym same)
put_acked want src block false action answer net net' z h e = cc

pub put_arm_lem :
    (want_oack : Bool) (src : Address) (packet : Packet) (action : Io Answer) (answer : Answer)
    (net net' : Net)
    → put_arm want_oack src packet ≡ some action
    → action net ≡ (ok answer, net')
    → IsPutAnswer want_oack src packet answer net net'
put_arm_lem true src (oack options) action answer net net' h e =
    let (is, same) = returned-eq (
      acts_as action
        (pure (record { peer = src; neg = merge_oack defaults options; first_data = none }))
        (takes ∙ h) e) in
    accepted options refl refl (sym is) (sym same)
  where
    takes :
        some (pure (record { peer = src; neg = merge_oack defaults options; first_data = none }))
        ≡ put_arm true src (oack options)
    takes = unfold put_arm in refl
put_arm_lem false src (oack options) action answer net net' h e = unfold put_arm in cc
put_arm_lem want src (ack block) action answer net net' h e =
    put_acked want src block (block == 0) action answer net net' refl
      (sym (put_acks want src block) ∙ h) e
put_arm_lem want src (error code msg) action answer net net' h e =
    let no = acts_as action (λ (n : Net). (err (Error.peer code msg), n)) (stops ∙ h) e in cc
  where
    stops : some (λ (n : Net). (err (Error.peer code msg), n)) ≡ put_arm want src (error code msg)
    stops = unfold put_arm in refl
put_arm_lem want src (rrq f m o) action answer net net' h e = unfold put_arm in cc
put_arm_lem want src (wrq f m o) action answer net net' h e = unfold put_arm in cc
put_arm_lem want src (block_data b d) action answer net net' h e = unfold put_arm in cc

-- ===== src/Core/Setup/Position.antt =====
-- The wait for a position in `setup` ends.
use galileo_terremoti.Base.{
  ℕ, ◌≡◌, ◌<◌, ◌^◌, ◌∙◌, refl, ap, ◌⊎◌, inl, inr, Bool, true, false, not, ◌&&◌, Option, none, some,
  List, [], ◌∷◌, ◌++◌, Bytes, length, bytes_eq, bytes_eq_refl, if◌then◌else◌, if_cases, if_false,
  Bool-cases, arith, ◌+◌,
}
use galileo_terremoti.Base
use galileo_terremoti.Floats.{Doubles}
use galileo_terremoti.Config.{mac_address_bytes, has_position, set_latitude, set_longitude}
use galileo_terremoti.Command.Packet.{
  PacketType, discovery, discovery_reply, ping, pong, sendgps, ok, setsyslog, reboot, getinfo,
  reset, trace, Datagram, Packet, read_packet, packet_bytes,
}
use galileo_terremoti.Command.Packet.Encode.{IsPacket}
use galileo_terremoti.Command.Packet.Read.{position_request}
use galileo_terremoti.Command.Position.{moved, check_command_packet-position_request}
use galileo_terremoti.Command.Reply.{CanTrace, check_command_packet-Served}
use galileo_terremoti.Command.{
  start_tracing, Build, Device, Status, send_packet, reply, set_position, reboot_now, reset_now,
  info_packet, handle, dispatch, check_command_packet,
}
use galileo_terremoti.Core.Setup.{
  Progress, reached, rebooted, Poll, Station, poll, wait_position, until,
}

-- What holds of the result, if there is one.
abbrev Held {ℓ κ} : {A : Type ℓ} → (A → Type κ) → Option A → Type κ
Held P none = Unit
Held P (some a) = P a

Held-bind {ℓ κ μ} :
    {A : Type ℓ} {B : Type κ} (P : B → Type μ) (o : Option A) (f : A → Option B)
    → ((a : A) → Held P (f a))
    → Held P (Base.◌>>=◌ o f)
Held-bind P none f h = tt
Held-bind P (some a) f h = h a

module _ (D : Doubles) where
  open D use {of_float, of_nat, eq}

  -- No request changes the device's own address.
  abbrev Owns : Bytes → Device D → Type 0
  Owns mac d = d.config.mac_address ≡ mac

  send_packet-Owns :
      (b : Build) (mac : Bytes) (pkt : Packet) (d : Device D)
      → Owns mac d
      → Held (Owns mac) (send_packet D b pkt d)
  unfolding send_packet
  send_packet-Owns b mac pkt d h =
      Held-bind (Owns mac)
        (packet_bytes b.platform_tag (mac_address_bytes d.config.mac_address) pkt) _ (λ buf. h)

  reply-Owns :
      (b : Build) (kind : PacketType) (mac : Bytes) (pkt : Packet) (d : Device D)
      → Owns mac d
      → Held (Owns mac) (reply D b kind pkt d)
  unfolding reply
  reply-Owns b kind mac pkt d h = send_packet-Owns b mac (record pkt { kind = kind }) d h

  then-Owns :
      (mac : Bytes) (o : Option (Device D)) (f : Device D → Device D)
      → ((d : Device D) → Owns mac d → Owns mac (f d))
      → Held (Owns mac) o
      → Held (Owns mac) (Base.◌>>=◌ o (λ d. some (f d)))
  then-Owns mac none f h k = tt
  then-Owns mac (some d) f h k = h d k

  set_position-Owns :
      (mac : Bytes) (pkt : Packet) (d : Device D) → Owns mac d → Owns mac (set_position D pkt d)
  unfolding set_position set_latitude set_longitude
  set_position-Owns mac pkt d h = ground (arith, h)

  debug-Owns :
      (debug : Bool) (mac : Bytes) (d : Device D)
      → Owns mac d
      → Owns mac (if debug then reset_now D d else d)
  unfolding reset_now
  debug-Owns true mac d h = h
  debug-Owns false mac d h = h

  start_tracing-Owns :
      (st : Status D) (mac : Bytes) (d : Device D)
      → Owns mac d
      → Held (Owns mac) (start_tracing D st d)
  unfolding start_tracing
  start_tracing-Owns st mac d h =
      if_cases (Held (Owns mac)) d.tracing _ _ h (if_cases (Held (Owns mac)) st.can_trace _ _ h tt)

  handle-Owns :
      (b : Build) (st : Status D) (kind : PacketType) (mac : Bytes) (pkt : Packet) (d : Device D)
      → Owns mac d
      → Held (Owns mac) (handle D b st kind pkt d)
  unfolding handle reboot_now
  handle-Owns b st discovery mac pkt d h = reply-Owns b discovery_reply mac pkt d h
  handle-Owns b st ping mac pkt d h = reply-Owns b pong mac pkt d h
  handle-Owns b st sendgps mac pkt d h =
      if_cases (Held (Owns mac)) (not (bytes_eq (mac_address_bytes d.config.mac_address) pkt.mac)) _
        _ h (reply-Owns b ok mac pkt (set_position D pkt d) (set_position-Owns mac pkt d h))
  handle-Owns b st setsyslog mac pkt d h = reply-Owns b ok mac pkt _ h
  handle-Owns b st reboot mac pkt d h =
      then-Owns mac _ (reboot_now D) (λ d k. k) (reply-Owns b ok mac pkt d h)
  handle-Owns b st getinfo mac pkt d h =
      then-Owns mac _ (λ d. if b.is_debug then reset_now D d else d) (debug-Owns b.is_debug mac)
        (send_packet-Owns b mac (info_packet D st d pkt) d h)
  handle-Owns b st reset mac pkt d h = debug-Owns b.is_debug mac d h
  handle-Owns b st trace mac pkt d h =
      if_cases (Held (Owns mac)) b.is_debug _ _ (start_tracing-Owns st mac d h) h
  handle-Owns b st _ mac pkt d h = h

  dispatch-Owns :
      (b : Build) (st : Status D) (o : Option Packet) (mac : Bytes) (d : Device D)
      → Owns mac d
      → Held (Owns mac) (dispatch D b st o d)
  unfolding dispatch
  dispatch-Owns b st none mac d h = h
  dispatch-Owns b st (some pkt) mac d h = handle-Owns b st pkt.kind mac pkt d h

  pub check_command_packet-Owns :
      (b : Build) (st : Status D) (input : Option Datagram) (mac : Bytes) (pkt : Packet)
      (d d' : Device D)
      → Owns mac d
      → check_command_packet D b st input pkt d ≡ some d'
      → Owns mac d'
  unfolding check_command_packet
  check_command_packet-Owns b st input mac pkt d d' h e =
      rw e at (dispatch-Owns b st (read_packet input pkt) mac d h)

  check_command_packet-some :
      (b : Build) (st : Status D) (input : Option Datagram) (pkt : Packet) (d : Device D)
      → IsPacket pkt
      → CanTrace D b st
      → (d' : Device D) × (check_command_packet D b st input pkt d ≡ some d')
  unfolding check_command_packet dispatch read_packet
  check_command_packet-some b st none pkt d v t = (d, refl)
  check_command_packet-some b st (some datagram) pkt d v t =
      let (d', e, answered) = check_command_packet-Served D b st datagram pkt d v t in (d', e)

  -- The wait is over with a position, or a datagram made the device reboot.
  abbrev pub Ends : Progress (Station D) → Type 0
  Ends o =
      ((s : Station D) × (o ≡ reached s) × (has_position D s.device.config ≡ true)) ⊎ (o ≡ rebooted)

  -- Every struct on the handler's stack has arrays of their declared sizes, and the trace file can be
  -- opened where a request may ask for it.
  abbrev pub AreHandled : Build → List (Poll D) → Type 0
  AreHandled b [] = Unit {0}
  AreHandled b (p ∷ ps) = (IsPacket p.stack × CanTrace D b p.status) × AreHandled b ps

  poll_served :
      (b : Build) (p : Poll D) (s : Station D) (d : Device D)
      → p.beat_returns ≡ true
      → check_command_packet D b p.status p.input p.stack s.device ≡ some d
      → d.rebooting ≡ false
      → poll D b p s ≡ reached (record s { device = d; beats = s.beats + 1 })
  unfolding poll
  poll_served b p s d t e r = rw (t, e, r) refl

  poll_rebooted :
      (b : Build) (p : Poll D) (s : Station D) (d : Device D)
      → p.beat_returns ≡ true
      → check_command_packet D b p.status p.input p.stack s.device ≡ some d
      → d.rebooting ≡ true
      → poll D b p s ≡ rebooted
  unfolding poll
  poll_rebooted b p s d t e r = rw (t, e, r) refl

  poll_unbeaten :
      (b : Build) (p : Poll D) (s : Station D) → p.beat_returns ≡ false → poll D b p s ≡ rebooted
  unfolding poll
  poll_unbeaten b p s f = if_false _ _ f

  wait_found :
      (b : Build) (p : Poll D) (ps : List (Poll D)) (s s' : Station D)
      → poll D b p s ≡ reached s'
      → has_position D s'.device.config ≡ true
      → wait_position D b (p ∷ ps) s ≡ reached s'
  unfolding wait_position until
  wait_found b p ps s s' e h = rw e (ap (until D (wait_position D b ps) s') h)

  wait_on :
      (b : Build) (p : Poll D) (ps : List (Poll D)) (s s' : Station D)
      → poll D b p s ≡ reached s'
      → has_position D s'.device.config ≡ false
      → wait_position D b (p ∷ ps) s ≡ wait_position D b ps s'
  unfolding wait_position until
  wait_on b p ps s s' e h = rw e (ap (until D (wait_position D b ps) s') h)

  wait_rebooted :
      (b : Build) (p : Poll D) (ps : List (Poll D)) (s : Station D)
      → poll D b p s ≡ rebooted
      → wait_position D b (p ∷ ps) s ≡ rebooted
  unfolding wait_position
  wait_rebooted b p ps s e = rw e refl

  has_position-moved :
      (lat lon address : ℕ) (d : Device D)
      → eq (of_float lat) (of_nat 0) ≡ false
      → eq (of_float lon) (of_nat 0) ≡ false
      → has_position D (moved D lat lon address d).config ≡ true
  unfolding has_position set_latitude set_longitude
  has_position-moved lat lon address d p q = ground (arith, p, q)

  -- The request that brings the position ends the wait.
  wait_request :
      (b : Build) (beats : Bool) (st : Status D) (mac : Bytes) (lat lon address : ℕ)
      (stack : Packet) (after : List (Poll D)) (s : Station D)
      → length mac ≡ 6
      → lat < 2 ^ 32
      → lon < 2 ^ 32
      → eq (of_float lat) (of_nat 0) ≡ false
      → eq (of_float lon) (of_nat 0) ≡ false
      → mac_address_bytes s.device.config.mac_address ≡ mac
      → s.device.rebooting ≡ false
      → Ends (
          wait_position D b
            (record {
              beat_returns = beats;
              status = st;
              input = some (record { address = address; payload = position_request mac lat lon });
              stack = stack;
            }
              ∷ after)
            s)
  wait_request b beats st mac lat lon address stack after s m p q x y own r =
      let same : bytes_eq (mac_address_bytes s.device.config.mac_address) mac ≡ true =
        rw own (bytes_eq_refl mac) in
      let step =
        check_command_packet-position_request D b st mac lat lon address stack s.device m p q in
      let here = has_position-moved lat lon address s.device x y in
      elim (Bool-cases beats) [
        | inl on ↦
            let done =
              poll_served b _ s (moved D lat lon address s.device) on (rw same at step) r in
            inl (_, wait_found b _ after s _ done here, here)
        | inr off ↦ inr (wait_rebooted b _ after s (poll_unbeaten b _ s off))
      ]

  -- Once a SENDGPS request for the device has arrived, with two coordinates that are not zero, the
  -- wait of `setup` is over: the device has a position, or it reboots, on a request or because
  -- `heartBeat` cannot write its file. What else arrives before and behind it does not matter. (The
  -- structs on the handler's stack have arrays of their declared sizes; in a debug build the trace
  -- file can be opened; the device is not about to reboot at the start.)
  pub wait_position-Ends :
      (b : Build) (beats : Bool) (st : Status D) (mac : Bytes) (lat lon address : ℕ)
      (stack : Packet) (before after : List (Poll D)) (s : Station D)
      → length mac ≡ 6
      → lat < 2 ^ 32
      → lon < 2 ^ 32
      → eq (of_float lat) (of_nat 0) ≡ false
      → eq (of_float lon) (of_nat 0) ≡ false
      → mac_address_bytes s.device.config.mac_address ≡ mac
      → s.device.rebooting ≡ false
      → AreHandled b before
      → Ends (
          wait_position D b
            (before
              ++ (record {
                beat_returns = beats;
                status = st;
                input = some (record { address = address; payload = position_request mac lat lon });
                stack = stack;
              }
                  ∷ after))
            s)
  wait_position-Ends b beats st mac lat lon address stack [] after s m p q x y own r v =
      wait_request b beats st mac lat lon address stack after s m p q x y own r
  wait_position-Ends b beats st mac lat lon address stack (o ∷ before) after s m p q x y own r
        ((v, t), vs) =
      let (d, e) = check_command_packet-some b o.status o.input o.stack s.device v t in
      let same =
        check_command_packet-Owns b o.status o.input s.device.config.mac_address o.stack s.device d
          refl e in
      elim (Bool-cases o.beat_returns) [
        | inr off ↦ inr (wait_rebooted b o _ s (poll_unbeaten b o s off))
        | inl on ↦ elim (Bool-cases d.rebooting) [
          | inl gone ↦ inr (wait_rebooted b o _ s (poll_rebooted b o s d on e gone))
          | inr here ↦ elim (Bool-cases (has_position D d.config)) [
            | inl found ↦ inl (_, wait_found b o _ s _ (poll_served b o s d on e here) found, found)
            | inr later ↦ rw (wait_on b o _ s _ (poll_served b o s d on e here) later) (
                wait_position-Ends b beats st mac lat lon address stack before after _ m p q x y
                  (ap mac_address_bytes same ∙ own) here vs)
          ]
        ]
      ]

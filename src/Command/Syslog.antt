-- ===== src/Command/Syslog.antt =====
-- SETSYSLOG: where the messages go after it.
use galileo_terremoti.Base.{
  ℕ, ◌≡◌, ◌<◌, ◌^◌, ◌∙◌, refl, ap, sym, inl, inr, true, false, none, some, List, ◌∷◌, ◌++◌, Bytes,
  length, zeros, ◌==◌, ◌&&◌, leb, take, bytes_eq, to_bytes, of_bytes, of_bytes-to_bytes,
  if◌then◌else◌, if_true, if_false, Bool-cases,
}
use galileo_terremoti.Floats.{Doubles}
use galileo_terremoti.Log.{Logger, set_syslog_server}
use galileo_terremoti.Log.Filter.{Message, log_all}
use galileo_terremoti.Log.Syslog.{syslog_packets, log_all-sent, log_all-silent}
use galileo_terremoti.Command.Packet.{
  Packet, packet_size, magic, setsyslog, read_packet, fill, packet_type_of,
}
use galileo_terremoti.Command.Packet.Read.{request, read_packet-request}
use galileo_terremoti.Command.Position.{ok_bytes, accepted_lem, reply_ok}
use galileo_terremoti.Command.{command_port, Build, Device, Status, handle, check_command_packet}

-- A SETSYSLOG request with an address in the order of the device's memory.
abbrev pub syslog_request : ℕ → Bytes
syslog_request server = magic ++ (9 ∷ (to_bytes server ++ zeros 242))

syslog_fields :
    (server address : ℕ) (pkt : Packet)
    → request (record { address = address; payload = syslog_request server }) pkt ≡ record pkt {
      kind = setsyslog;
      source = address;
      syslog_server = of_bytes (to_bytes server);
    }
unfolding to_bytes fill packet_type_of of_bytes
syslog_fields server address pkt = refl

accepted_syslog :
    (server : ℕ) (o : Packet)
    → (if leb packet_size (length (syslog_request server))
          && bytes_eq (take 5 (syslog_request server)) magic
        then some o
        else none)
      ≡ some o
unfolding to_bytes bytes_eq
accepted_syslog server o = refl

read_packet-syslog_request :
    (server address : ℕ) (pkt : Packet)
    → server < 2 ^ 32
    → read_packet (some (record { address = address; payload = syslog_request server })) pkt
      ≡ some (record pkt { kind = setsyslog; source = address; syslog_server = server })
read_packet-syslog_request server address pkt h =
    read_packet-request _ pkt
    ∙ accepted_syslog server _
    ∙ ap some (syslog_fields server address pkt)
    ∙ ap (λ n. some (record pkt { kind = setsyslog; source = address; syslog_server = n }))
        (of_bytes-to_bytes server h)

-- The messages behind a call of `setSyslogServer`.
log_all-set_syslog_server :
    (ms : List Message) (server : ℕ) (s : Logger)
    → (log_all ms (set_syslog_server s server)).sent
      ≡ (if server == 0 then s.sent else syslog_packets server s.log_level ms ++ s.sent)
unfolding set_syslog_server
log_all-set_syslog_server ms server s = elim (Bool-cases (server == 0)) [
  | inl off ↦
      ap (λ l. (log_all ms l).sent) (if_true _ _ off)
      ∙ log_all-silent ms (record s { syslog_enabled = false }) refl
      ∙ sym (if_true _ _ off)
  | inr on ↦
      ap (λ l. (log_all ms l).sent) (if_false _ _ on)
      ∙ log_all-sent ms (record s { syslog_server = server; syslog_enabled = true }) refl
      ∙ sym (if_false _ _ on)
]

module _ (D : Doubles) where
  -- The device with this server, and OK sent to an address.
  abbrev pub with_syslog : ℕ → ℕ → Device D → Device D
  with_syslog server address d = record d {
    logger = set_syslog_server d.logger server;
    sent = record { address = address; port = command_port; payload = ok_bytes } ∷ d.sent;
  }

  -- A SETSYSLOG request is answered OK, and from then on each message of at least the configured
  -- level goes, in order, as one syslog packet to the server that the request names; the address 0
  -- ends that. Whatever else the device is and keeps is not touched. (The address has 32 bits.)
  pub check_command_packet-syslog_request :
      (b : Build) (st : Status D) (server address : ℕ) (pkt : Packet) (d : Device D)
      (ms : List Message)
      → server < 2 ^ 32
      → (check_command_packet D b st
            (some (record { address = address; payload = syslog_request server }))
            pkt
            d
          ≡ some (with_syslog server address d))
        × ((log_all ms (with_syslog server address d).logger).sent ≡ (
            if server == 0
            then d.logger.sent
            else syslog_packets server d.logger.log_level ms ++ d.logger.sent))
  unfolding handle
  check_command_packet-syslog_request b st server address pkt d ms h = (
    accepted_lem D b st _ pkt _ d (read_packet-syslog_request server address pkt h)
        ∙ reply_ok D b (record pkt { kind = setsyslog; source = address; syslog_server = server })
            (record d { logger = set_syslog_server d.logger server }),
    log_all-set_syslog_server ms server d.logger,
  )

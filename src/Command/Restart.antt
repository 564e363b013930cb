-- ===== src/Command/Restart.antt =====
-- A position from the app, `Config::save` and `Config::init` after the next start.
use galileo_terremoti.Base.{
  ℕ, ◌≡◌, ◌<◌, ◌^◌, ◌∙◌, refl, true, some, Bytes, length, bytes_eq, bytes_eq_refl, if◌then◌else◌,
  if_cases,
}
use galileo_terremoti.Floats.{Doubles}
use galileo_terremoti.Config
use galileo_terremoti.Config.{
  Config, mac_address_bytes, set_latitude, set_longitude, saved_text, read_config_file, save,
}
use galileo_terremoti.Config.File.{IsStorable, reloaded, read_text, file-save}
use galileo_terremoti.Command.Packet.{Packet}
use galileo_terremoti.Command.Packet.Read.{position_request}
use galileo_terremoti.Command.Position.{moved, check_command_packet-position_request}
use galileo_terremoti.Command.{Build, Device, Status, check_command_packet}

module _ (D : Doubles) where
  open D use {of_float}

  -- The configuration with the coordinates of a request.
  abbrev pub placed : ℕ → ℕ → Config D → Config D
  placed lat lon c = record c { lat = of_float lat; lon = of_float lon }

  file-moved :
      (lat lon address : ℕ) (d : Device D)
      → d.config.writable ≡ true
      → (moved D lat lon address d).config.file ≡ some (saved_text D (placed lat lon d.config))
  unfolding set_latitude set_longitude save saved_text
  file-moved lat lon address d w =
      let c : Config D = record (d.config) { lon = of_float lon } in
      let saved : Config D = record c { file = some (saved_text D c) } in
      let open_to : (if d.config.writable then saved else c).writable ≡ true =
        if_cases (λ k. k.writable ≡ true) d.config.writable saved c w w in
      file-save D (record (if d.config.writable then saved else c) { lat = of_float lat }) open_to
      ∙ if_cases
          (λ k.
            some (saved_text D (record k { lat = of_float lat }))
            ≡ some (saved_text D (placed lat lon d.config)))
          d.config.writable saved c refl refl

  init_saved :
      (interface_mac : Bytes) (c old : Config D)
      → IsStorable D c
      → Config.init D interface_mac (record old { file = some (saved_text D c) })
        ≡ some (record (reloaded D c old) { file = some (saved_text D c) })
  unfolding Config.init
  init_saved interface_mac c old s = rw (read_text D c old s) refl

  -- What a restart makes of a position that the app has sent to the device: `init`, which runs with
  -- any old settings on the file that the request left, ends without an error, with the device's
  -- address, and with the coordinates that the first eight characters of their texts name. Digits
  -- behind these characters are lost. (The request names the device's own address; the file can be
  -- written; the address has at least twelve characters, and it and the printed coordinates fit a
  -- line and hold no blank.)
  pub check_command_packet-init :
      (b : Build) (st : Status D) (mac : Bytes) (lat lon address : ℕ) (pkt : Packet) (d : Device D)
      (interface_mac : Bytes) (old : Config D)
      → length mac ≡ 6
      → lat < 2 ^ 32
      → lon < 2 ^ 32
      → mac_address_bytes d.config.mac_address ≡ mac
      → d.config.writable ≡ true
      → IsStorable D (placed lat lon d.config)
      → (d' : Device D) × (check_command_packet D b st
            (some (record { address = address; payload = position_request mac lat lon }))
            pkt
            d
          ≡ some d')
        × (Config.init D interface_mac (record old { file = d'.config.file })
            ≡ some (record (reloaded D (placed lat lon d.config) old) { file = d'.config.file }))
  check_command_packet-init b st mac lat lon address pkt d interface_mac old m p q own w s =
      let same : bytes_eq (mac_address_bytes d.config.mac_address) mac ≡ true =
        rw own (bytes_eq_refl mac) in
      let step = check_command_packet-position_request D b st mac lat lon address pkt d m p q in
      (
        moved D lat lon address d,
        rw same at step,
        rw (file-moved lat lon address d w)
            (init_saved interface_mac (placed lat lon d.config) old s),
      )

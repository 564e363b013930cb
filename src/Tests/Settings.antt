-- ===== src/Tests/Settings.antt =====
-- The configuration on concrete data.
use galileo_terremoti.Base.{◌≡◌, refl, ap, true, false, some, none, [], ◌∷◌, arith, length, decimal}
use galileo_terremoti.Floats.{whole}
use galileo_terremoti.Utils.Mac.{get_interface_mac, usable}
use galileo_terremoti.Config.{Config, mac_address_bytes, save, read_config_file}
use galileo_terremoti.Config.Mac.{mac_address_bytes-get_interface_mac}
use galileo_terremoti.Config.File.{IsStorable, reloaded, read_config_file-save}
use galileo_terremoti.Config.Split.{Map, config_split}
use galileo_terremoti.Config.Split.Join.{join, config_split-join}

abbrev config : Config whole
config = record {
  mac_address =
      b'0' ∷ b'2' ∷ b'0' ∷ b'0' ∷ b'0' ∷ b'0' ∷ b'1' ∷ b'1' ∷ b'2' ∷ b'2' ∷ b'3' ∷ b'3' ∷ [];
  lat = 0;
  lon = 0;
  syslog = 0;
  file = none;
  writable = true;
}

abbrev pub config-IsStorable : IsStorable whole config
unfolding decimal
config-IsStorable = record {
  mac_value = record {
    plain = (
      (
        (λ e. omega (arith, e)),
        (
          (λ e. omega (arith, e)),
          (
            (λ e. omega (arith, e)),
            (
              (λ e. omega (arith, e)),
              (
                (λ e. omega (arith, e)),
                (
                  (λ e. omega (arith, e)),
                  (
                    (λ e. omega (arith, e)),
                    (
                      (λ e. omega (arith, e)),
                      (
                        (λ e. omega (arith, e)),
                        (
                          (λ e. omega (arith, e)),
                          ((λ e. omega (arith, e)), ((λ e. omega (arith, e)), tt)),
                        ),
                      ),
                    ),
                  ),
                ),
              ),
            ),
          ),
        ),
      ),
      (
        (λ e. omega (arith, e)),
        (
          (λ e. omega (arith, e)),
          (
            (λ e. omega (arith, e)),
            (
              (λ e. omega (arith, e)),
              (
                (λ e. omega (arith, e)),
                (
                  (λ e. omega (arith, e)),
                  (
                    (λ e. omega (arith, e)),
                    (
                      (λ e. omega (arith, e)),
                      (
                        (λ e. omega (arith, e)),
                        (
                          (λ e. omega (arith, e)),
                          ((λ e. omega (arith, e)), ((λ e. omega (arith, e)), tt)),
                        ),
                      ),
                    ),
                  ),
                ),
              ),
            ),
          ),
        ),
      ),
      (
        (λ e. omega (arith, e)),
        (
          (λ e. omega (arith, e)),
          (
            (λ e. omega (arith, e)),
            (
              (λ e. omega (arith, e)),
              (
                (λ e. omega (arith, e)),
                (
                  (λ e. omega (arith, e)),
                  (
                    (λ e. omega (arith, e)),
                    (
                      (λ e. omega (arith, e)),
                      (
                        (λ e. omega (arith, e)),
                        (
                          (λ e. omega (arith, e)),
                          ((λ e. omega (arith, e)), ((λ e. omega (arith, e)), tt)),
                        ),
                      ),
                    ),
                  ),
                ),
              ),
            ),
          ),
        ),
      ),
      (
        (λ e. omega (arith, e)),
        (
          (λ e. omega (arith, e)),
          (
            (λ e. omega (arith, e)),
            (
              (λ e. omega (arith, e)),
              (
                (λ e. omega (arith, e)),
                (
                  (λ e. omega (arith, e)),
                  (
                    (λ e. omega (arith, e)),
                    (
                      (λ e. omega (arith, e)),
                      (
                        (λ e. omega (arith, e)),
                        (
                          (λ e. omega (arith, e)),
                          ((λ e. omega (arith, e)), ((λ e. omega (arith, e)), tt)),
                        ),
                      ),
                    ),
                  ),
                ),
              ),
            ),
          ),
        ),
      ),
    );
    some_text = λ e. omega (arith, ap length e);
    short = omega arith;
  };
  mac_size = omega arith;
  lat_value = record {
    plain = (
      ((λ e. omega (arith, e)), tt),
      ((λ e. omega (arith, e)), tt),
      ((λ e. omega (arith, e)), tt),
      ((λ e. omega (arith, e)), tt),
    );
    some_text = λ e. omega (arith, ap length e);
    short = omega arith;
  };
  lon_value = record {
    plain = (
      ((λ e. omega (arith, e)), tt),
      ((λ e. omega (arith, e)), tt),
      ((λ e. omega (arith, e)), tt),
      ((λ e. omega (arith, e)), tt),
    );
    some_text = λ e. omega (arith, ap length e);
    short = omega arith;
  };
}

read_config_file-save_example :
    read_config_file whole (record config { file = (save whole config).file })
    ≡ some (record (reloaded whole config config) { file = (save whole config).file }, true)
read_config_file-save_example = read_config_file-save whole config config refl config-IsStorable

mac_address_bytes-get_interface_mac_example :
    mac_address_bytes (
      get_interface_mac (
        record { loopback = some true; hardware = none }
        ∷ record { loopback = some false; hardware = some (2 ∷ 0 ∷ 0 ∷ 17 ∷ 34 ∷ 51 ∷ []) }
        ∷ []))
    ≡ 2 ∷ 0 ∷ 0 ∷ 17 ∷ 34 ∷ 51 ∷ []
unfolding usable
mac_address_bytes-get_interface_mac_example =
    mac_address_bytes-get_interface_mac (record { loopback = some true; hardware = none } ∷ []) []
      (record { loopback = some false; hardware = some (2 ∷ 0 ∷ 0 ∷ 17 ∷ 34 ∷ 51 ∷ []) })
      (2 ∷ 0 ∷ 0 ∷ 17 ∷ 34 ∷ 51 ∷ []) (refl, tt) refl refl
      (omega arith, (omega arith, (omega arith, (omega arith, (omega arith, (omega arith, tt))))))

abbrev entries : Map
entries = (b'a' ∷ [], b'1' ∷ []) ∷ (b'b' ∷ [], b'2' ∷ []) ∷ []

config_split-join_example :
    config_split (join b'|' entries) b'|' ≡ (b'b' ∷ [], b'2' ∷ []) ∷ (b'a' ∷ [], b'1' ∷ []) ∷ []
config_split-join_example =
    config_split-join b'|' entries (λ e. omega (arith, e))
      (
        (
          ((λ e. omega (arith, e)), tt),
          ((λ e. omega (arith, e)), tt),
          ((λ e. omega (arith, e)), tt),
        ),
        (
          (
            ((λ e. omega (arith, e)), tt),
            ((λ e. omega (arith, e)), tt),
            ((λ e. omega (arith, e)), tt),
          ),
          tt,
        ),
      )

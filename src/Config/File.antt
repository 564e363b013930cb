-- ===== src/Config/File.antt =====
-- Saving the configuration and reading it back.
use galileo_terremoti.Base.{
  ℕ, zero, suc, ◌+◌, ◌-◌, ◌≤◌, ◌<◌, ◌≡◌, ◌≢◌, refl, ap, ◌∙◌, true, none, some, [], ◌∷◌, ◌++◌,
  append-nil, append_assoc, arith, Bytes, length, length-append, IsText, c_string, c_string-IsText,
  ◌>>=◌, starts_with,
}
use galileo_terremoti.Floats.{Doubles}
use galileo_terremoti.Utils.{atofn}
use galileo_terremoti.Utils.Trim.{NoneIs}
use galileo_terremoti.Config.{
  Config, line_of, deviceid_key, lat_key, lon_key, fgets, behind_colon, save, saved_text,
  store_argument, read_line, read_lines, read_config_file,
}
use galileo_terremoti.Config.Lines.{
  IsKey, IsText-append, trim_argument_line, trim_argument_blank, fgets_line, behind_colon_key,
  NoneIs-append, deviceid_IsKey, lat_IsKey, lon_IsKey, line_of_value, fgets_value, IsValue,
}

module _ (D : Doubles) where
  -- The line of a key and its value is read as that value.
  read_line_value :
      (key v : Bytes) (c : Config D)
      → IsKey key
      → IsValue v
      → read_line D (c_string (line_of key v)) c ≡ some (store_argument D (line_of key v) v c)
  unfolding read_line
  read_line_value key v c k w =
      let text : IsText (line_of key v) = rw (line_of_value key v k w) (
        IsText-append key _ k.text
          ((λ e. omega (arith, e)), IsText-append v _ w.plain.0 ((λ e. omega (arith, e)), tt))) in
      let arg : behind_colon (line_of key v) ≡ some (v ++ b'\n' ∷ []) =
        rw (line_of_value key v k w) (behind_colon_key key (v ++ b'\n' ∷ []) k.no_colon) in
      rw (c_string-IsText (line_of key v) text, arg, read_line)
        (rw (trim_argument_line v w.plain w.some_text, c_string-IsText (line_of key v) text))

  -- One round of the loop.
  read_lines_step :
      (fuel : ℕ) (s : Bytes) (c : Config D)
      → s ≢ []
      → read_lines D (suc fuel) s c
        ≡ (read_line D (c_string (fgets 99 s).0) c >>= read_lines D fuel (fgets 99 s).1)
  unfolding read_lines
  read_lines_step fuel [] c h = absurd (h refl)
  read_lines_step fuel (x ∷ s) c h = refl

  read_lines_value :
      (fuel : ℕ) (key v rest : Bytes) (c : Config D)
      → IsKey key
      → IsValue v
      → read_lines D (suc fuel) (line_of key v ++ rest) c
        ≡ read_lines D fuel rest (store_argument D (line_of key v) v c)
  read_lines_value fuel key v rest c h w =
      let some_text : line_of key v ++ rest ≢ [] = (λ e. omega (
        arith,
        ap length e,
        length-append (line_of key v) rest,
        ap length (line_of_value key v h w),
        length-append key (b':' ∷ (v ++ b'\n' ∷ [])),
      )) in
      read_lines_step fuel (line_of key v ++ rest) c some_text
      ∙ rw (fgets_value key v rest h w) (rw (read_line_value key v c h w))

  store_deviceid :
      (v : Bytes) (c : Config D)
      → IsValue v
      → 12 ≤ length v
      → store_argument D (line_of deviceid_key v) v c ≡ record c { mac_address = v }
  unfolding store_argument starts_with
  store_deviceid v c w h = rw (line_of_value deviceid_key v deviceid_IsKey w) (ground arith)

  store_lat :
      (v : Bytes) (c : Config D)
      → IsValue v
      → store_argument D (line_of lat_key v) v c ≡ record c { lat = atofn D.scan v 8 }
  unfolding store_argument starts_with
  store_lat v c w = rw (line_of_value lat_key v lat_IsKey w, c_string-IsText v w.plain.0) refl

  store_lon :
      (v : Bytes) (c : Config D)
      → IsValue v
      → store_argument D (line_of lon_key v) v c ≡ record c { lon = atofn D.scan v 8 }
  unfolding store_argument starts_with
  store_lon v c w = rw (line_of_value lon_key v lon_IsKey w, c_string-IsText v w.plain.0) refl

  -- A configuration whose values each fit a line.
  pub record IsStorable (c : Config D) : Type 0 where
    pub mac_value : IsValue c.mac_address
    pub mac_size : 12 ≤ length c.mac_address
    pub lat_value : IsValue (D.print c.lat)
    pub lon_value : IsValue (D.print c.lon)

  -- What comes back: the device's address as it was, and of each coordinate the number that the
  -- first eight characters of its text name.
  abbrev pub reloaded : Config D → Config D → Config D
  reloaded c old = record old {
    mac_address = c.mac_address;
    lat = atofn D.scan (D.print c.lat) 8;
    lon = atofn D.scan (D.print c.lon) 8;
  }

  read_lines_end : (n : ℕ) (c : Config D) → read_lines D n [] c ≡ some c
  unfolding read_lines
  read_lines_end zero c = refl
  read_lines_end (suc n) c = refl

  read_saved :
      (n : ℕ) (c old : Config D)
      → IsStorable c
      → read_lines D (suc (suc (suc n))) (saved_text D c) old ≡ some (reloaded c old)
  unfolding saved_text
  read_saved n c old s = rw (c_string-IsText c.mac_address s.mac_value.plain.0) (
      read_lines_value _ deviceid_key c.mac_address _ old deviceid_IsKey s.mac_value
      ∙ rw (store_deviceid c.mac_address old s.mac_value s.mac_size) (
          read_lines_value _ lat_key (D.print c.lat) _ _ lat_IsKey s.lat_value
          ∙ rw
              (
                store_lat (D.print c.lat) _ s.lat_value,
                ← append-nil (line_of lon_key (D.print c.lon)),
              )
              (read_lines_value n lon_key (D.print c.lon) [] _ lon_IsKey s.lon_value
                ∙ rw (store_lon (D.print c.lon) _ s.lon_value) (read_lines_end n _))))

  length-saved_text : (c : Config D) → IsStorable c → 2 ≤ length (saved_text D c)
  unfolding saved_text
  length-saved_text c s = omega arith

  pub file-save : (c : Config D) → c.writable ≡ true → (save D c).file ≡ some (saved_text D c)
  unfolding save
  file-save c w = ground arith

  -- The saved text is read back.
  pub read_text :
      (c old : Config D)
      → IsStorable c
      → read_config_file D (record old { file = some (saved_text D c) })
        ≡ some (record (reloaded c old) { file = some (saved_text D c) }, true)
  unfolding read_config_file
  read_text c old s =
      let fuel : length (saved_text D c) + 1 ≡ suc (suc (suc (length (saved_text D c) - 2))) =
        omega (arith, length-saved_text c s) in
      rw fuel (rw (read_saved _ c (record old { file = some (saved_text D c) }) s))

  -- What `save` writes, `readConfigFile` reads without an error: the device's address comes back
  -- unchanged, and each coordinate as the number that the first eight characters of its `%f` text
  -- name. (The file can be written; the address has at least twelve characters, and it and the
  -- printed coordinates fit a line and hold no blank.)
  pub read_config_file-save :
      (c old : Config D)
      → c.writable ≡ true
      → IsStorable c
      → read_config_file D (record old { file = (save D c).file })
        ≡ some (record (reloaded c old) { file = (save D c).file }, true)
  read_config_file-save c old w s = rw (file-save c w) (read_text c old s)

  read_line_empty :
      (key : Bytes) (c : Config D)
      → IsText key
      → NoneIs b':' key
      → read_line D (c_string (key ++ (b':' ∷ b'\n' ∷ []))) c ≡ none
  unfolding read_line
  read_line_empty key c t k =
      let text : IsText (key ++ (b':' ∷ b'\n' ∷ [])) =
        IsText-append key _ t ((λ e. omega (arith, e)), ((λ e. omega (arith, e)), tt)) in
      let arg : behind_colon (key ++ (b':' ∷ b'\n' ∷ [])) ≡ some (b'\n' ∷ []) =
        behind_colon_key key _ k in
      rw (c_string-IsText _ text, arg, read_line) (rw trim_argument_blank)

  -- A line of the file that ends behind its first colon ends the program with an exception: `trim`
  -- throws on the empty value. (The text before the colon has less than 98 characters and no zero
  -- byte or line end; the loop has fuel for a round.)
  pub read_lines_blank :
      (fuel : ℕ) (key rest : Bytes) (c : Config D)
      → IsText key
      → NoneIs b'\n' key
      → NoneIs b':' key
      → length key < 98
      → read_lines D (suc fuel) (key ++ (b':' ∷ b'\n' ∷ rest)) c ≡ none
  read_lines_blank fuel key rest c t n k h =
      let l = key ++ b':' ∷ [] in
      let one : NoneIs b'\n' l =
        NoneIs-append b'\n' key (b':' ∷ []) n ((λ e. omega (arith, e)), tt) in
      let split : fgets 99 (key ++ (b':' ∷ b'\n' ∷ rest)) ≡ (key ++ (b':' ∷ b'\n' ∷ []), rest) =
        simp append_assoc at
          (fgets_line 99 l rest one (omega (arith, length-append key (b':' ∷ [])))) in
      let some_text : key ++ (b':' ∷ b'\n' ∷ rest) ≢ [] =
        (λ e. omega (arith, ap length e, length-append key (b':' ∷ b'\n' ∷ rest))) in
      read_lines_step fuel _ c some_text ∙ rw (split, read_line_empty key c t k)

-- ===== src/Log/Rotate.antt =====
-- What `setLogFile` and `rotate` do to the files.
use galileo_terremoti.Base.{
  ◌≡◌, ◌≢◌, sym, ap, true, false, some, [], ◌++◌, Bytes, arith, length, length-append, bytes_eq,
  bytes_eq_refl, bytes_eq_sound,
}
use galileo_terremoti.Log.{Logger, old_suffix, set_log_file}

bytes_eq_ne : (a b : Bytes) → a ≢ b → bytes_eq a b ≡ false
bytes_eq_ne a b h = ground (arith, bytes_eq_sound a b, h)

old_ne : (path : Bytes) → path ++ old_suffix ≢ path
old_ne path e = omega (arith, ap length e, length-append path old_suffix)

-- Opening a log file keeps the text that stood at its path under ".old", empties the path, and
-- touches no other file. (There was a file at the path, and it can be opened.)
pub set_log_file-files :
    (s : Logger) (path text : Bytes)
    → s.can_open path ≡ true
    → s.files path ≡ some text
    → let t = set_log_file s path in
      (t.files (path ++ old_suffix) ≡ some text)
      × (t.files path ≡ some [])
      × ((p : Bytes) → p ≢ path → p ≢ path ++ old_suffix → t.files p ≡ s.files p)
      × (t.log_file ≡ some path)
unfolding set_log_file
set_log_file-files s path text c f =
    let old = path ++ old_suffix in
    let n = bytes_eq_ne path old (λ e. old_ne path (sym e)) in
    let n' = bytes_eq_ne old path (old_ne path) in
    (
      ground (arith, n, n', bytes_eq_refl old, bytes_eq_refl path),
      ground (arith, bytes_eq_refl path),
      (λ p h k.
          let q = bytes_eq_ne path p (λ e. h (sym e)) in
          let q' = bytes_eq_ne old p (λ e. k (sym e)) in ground (arith, q, q')),
      ground arith,
    )

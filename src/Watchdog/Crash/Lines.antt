-- ===== src/Watchdog/Crash/Lines.antt =====
-- A crash report, as its reader takes it apart.
use galileo_terremoti.Base.{
  ℕ, zero, suc, ◌≡◌, ◌∙◌, refl, ap, true, [], ◌∷◌, ◌++◌, append_assoc, append-nil, arith, Bytes,
  ◌==◌, if◌then◌else◌, length, decimal, decimal-AreDigits, AreDigits,
}
use galileo_terremoti.Utils.Trim.{NoneIs}
use galileo_terremoti.Config.Split.{Map}
use galileo_terremoti.Net.Http.Sent.{NoneIs-append, lacks, NoneIs-lacks}
use galileo_terremoti.Watchdog.Crash.{CrashInfo, info_line, info_text}

-- The text in front of the first `c`, and behind it.
pub cut : ℕ → Bytes → Bytes × Bytes
cut c [] = ([], [])
cut c (x ∷ s) = let (front, rest) = cut c s in if x == c then ([], s) else (x ∷ front, rest)

-- The key and the value of each of the first lines, and what stands behind these lines.
pub read_report : ℕ → Bytes → Map × Bytes
read_report zero s = ([], s)
read_report (suc n) s =
    let (line, rest) = cut b'\n' s in
    let (m, behind) = read_report n rest in (cut b':' line ∷ m, behind)

cut-append : (c : ℕ) (s t : Bytes) → NoneIs c s → cut c (s ++ (c ∷ t)) ≡ (s, t)
unfolding cut
cut-append c [] t h = ground arith
cut-append c (x ∷ s) t (n, h) = rw (cut-append c s t h) (ground (arith, n))

-- Keys without a colon, and lines without an end of line.
abbrev pub AreLines : Map → Type 0
AreLines [] = Unit {0}
AreLines ((k, v) ∷ m) = (NoneIs b':' k × NoneIs b'\n' k × NoneIs b'\n' v) × AreLines m

abbrev lines_of : Map → Bytes
lines_of [] = []
lines_of ((k, v) ∷ m) = info_line k v ++ lines_of m

regroup : (k v m t : Bytes) → (info_line k v ++ m) ++ t ≡ (k ++ (b':' ∷ v)) ++ (b'\n' ∷ (m ++ t))
regroup k v m t = simp append_assoc

read_report-lines_of :
    (m : Map) (t : Bytes) → AreLines m → read_report (length m) (lines_of m ++ t) ≡ (m, t)
unfolding read_report
read_report-lines_of [] t h = refl
read_report-lines_of ((k, v) ∷ m) t ((a, b, c), h) =
    let line : NoneIs b'\n' (k ++ (b':' ∷ v)) =
      NoneIs-append b'\n' k (b':' ∷ v) b ((λ e. omega (arith, e)), c) in
    rw
      (
        regroup k v (lines_of m) t,
        cut-append b'\n' (k ++ (b':' ∷ v)) (lines_of m ++ t) line,
        cut-append b':' k v a,
        read_report-lines_of m t h,
      )
      refl

-- The keys of a report.
abbrev mac_key : Bytes
mac_key = b'm' ∷ b'a' ∷ b'c' ∷ []

abbrev time_key : Bytes
time_key = b't' ∷ b'i' ∷ b'm' ∷ b'e' ∷ []

abbrev ram_key : Bytes
ram_key = b'f' ∷ b'r' ∷ b'e' ∷ b'e' ∷ b'r' ∷ b'a' ∷ b'm' ∷ []

abbrev uptime_key : Bytes
uptime_key = b'u' ∷ b'p' ∷ b't' ∷ b'i' ∷ b'm' ∷ b'e' ∷ []

abbrev platform_key : Bytes
platform_key = b'p' ∷ b'l' ∷ b'a' ∷ b't' ∷ b'f' ∷ b'o' ∷ b'r' ∷ b'm' ∷ []

abbrev build_key : Bytes
build_key = b'b' ∷ b'u' ∷ b'i' ∷ b'l' ∷ b'd' ∷ b'v' ∷ b'e' ∷ b'r' ∷ b's' ∷ b'i' ∷ b'o' ∷ b'n' ∷ []

abbrev software_key : Bytes
software_key =
    b's' ∷ b'o' ∷ b'f' ∷ b't' ∷ b'w' ∷ b'a' ∷ b'r' ∷ b'e' ∷ b'v' ∷ b'e' ∷ b'r' ∷ b's' ∷ b'i' ∷ b'o'
    ∷ b'n' ∷ []

abbrev reason_key : Bytes
reason_key = b'r' ∷ b'e' ∷ b'a' ∷ b's' ∷ b'o' ∷ b'n' ∷ []

-- What a report tells.
abbrev pub report_values : CrashInfo → Bytes → Map
report_values x reason =
    (mac_key, x.mac_address)
    ∷ (time_key, decimal x.now)
    ∷ (ram_key, decimal x.free_ram)
    ∷ (uptime_key, decimal x.uptime)
    ∷ (platform_key, x.platform_tag)
    ∷ (build_key, x.build_version)
    ∷ (software_key, x.software_version)
    ∷ (reason_key, reason)
    ∷ []

-- The texts hold no end of line.
abbrev pub AreTexts : CrashInfo → Bytes → Type 0
AreTexts x reason =
    NoneIs b'\n' x.mac_address
    × NoneIs b'\n' x.platform_tag
    × NoneIs b'\n' x.build_version
    × NoneIs b'\n' x.software_version
    × NoneIs b'\n' reason

AreDigits-NoneIs : (s : Bytes) → AreDigits s → NoneIs b'\n' s
AreDigits-NoneIs [] h = tt
AreDigits-NoneIs (c ∷ s) h = ((λ e. ground (arith, h.0, e)), AreDigits-NoneIs s h.1)

decimal-NoneIs : (n : ℕ) → NoneIs b'\n' (decimal n)
decimal-NoneIs n = AreDigits-NoneIs (decimal n) (decimal-AreDigits n)

report_values-AreLines :
    (x : CrashInfo) (reason : Bytes) → AreTexts x reason → AreLines (report_values x reason)
report_values-AreLines x reason (mac, platform, build, software, why) =
    let line : (k v : Bytes)
        → lacks b':' k ≡ true
        → lacks b'\n' k ≡ true
        → NoneIs b'\n' v
        → NoneIs b':' k × NoneIs b'\n' k × NoneIs b'\n' v =
      λ k v a b c. (NoneIs-lacks b':' k a, NoneIs-lacks b'\n' k b, c) in
    (
      line mac_key x.mac_address refl refl mac,
      (
        line time_key (decimal x.now) refl refl (decimal-NoneIs x.now),
        (
          line ram_key (decimal x.free_ram) refl refl (decimal-NoneIs x.free_ram),
          (
            line uptime_key (decimal x.uptime) refl refl (decimal-NoneIs x.uptime),
            (
              line platform_key x.platform_tag refl refl platform,
              (
                line build_key x.build_version refl refl build,
                (
                  line software_key x.software_version refl refl software,
                  (line reason_key reason refl refl why, tt),
                ),
              ),
            ),
          ),
        ),
      ),
    )

info_text_lem :
    (x : CrashInfo) (reason : Bytes) → info_text x reason ≡ lines_of (report_values x reason)
info_text_lem x reason = simp append-nil

-- A reader finds the values of a report, and behind them what was written after them.
pub read_report-info_text :
    (x : CrashInfo) (reason t : Bytes)
    → AreTexts x reason
    → read_report 8 (info_text x reason ++ t) ≡ (report_values x reason, t)
read_report-info_text x reason t h =
    ap (λ s. read_report 8 (s ++ t)) (info_text_lem x reason)
    ∙ read_report-lines_of (report_values x reason) t (report_values-AreLines x reason h)

-- ===== src/Net/Ntp/Sync.antt =====
-- What `sync` does with the replies of the time server.
use mathlib.Core.List.{reverse}
use galileo_terremoti.Base.{
  ℕ, ◌+◌, ◌-◌, ◌^◌, ◌≡◌, ◌≢◌, ◌<◌, ◌≤◌, refl, ◌∙◌, Bool, true, false, none, some, List, [], ◌∷◌,
  ◌++◌, Bytes, arith, length, take, drop, word_sub, to_bytes, leb, ltb, ◌==◌, length-append,
  drop-append, take_all, ◌>>=◌,
}
use galileo_terremoti.Utils.{hton64, hton64_from}
use galileo_terremoti.Net.Ntp.{
  Ntp, Attempt, Outcome, jan_1970, oldest_time, send_ntp_packet, exec_system_time_update,
  first_reply, is_old, set_time, end_round, wait_reply, round, rounds, sync, looping, trim,
  returned,
}
use galileo_terremoti.Seismometer.Quiet.{word_sub_le}

-- A reply of the server: a time of 32 bits, most significant byte first, at offset 40.
abbrev pub reply_packet : Bytes → ℕ → Bytes → Bytes
reply_packet front time rest = front ++ (reverse (to_bytes time) ++ rest)

hton64-to_bytes : (n : ℕ) (rest : Bytes) → n < 2 ^ 32 → hton64 (reverse (to_bytes n) ++ rest) ≡ n
unfolding hton64 hton64_from to_bytes
hton64-to_bytes n rest h = omega arith

-- A round in which the server is reached and nothing long enough arrives.
pub record IsSilent (a : Attempt) : Type 0 where
  pub reached : a.address ≢ 0
  pub nothing : first_reply a.datagrams ≡ none

abbrev pub AreSilent : List Attempt → Type 0
AreSilent [] = Unit {0}
AreSilent (a ∷ rest) = IsSilent a × AreSilent rest

-- A silent round keeps the time, which is still too old for the loop to end.
round_silent :
    (w : ℕ) (a : Attempt) (s : Ntp)
    → IsSilent a
    → is_old w s.unix_time_ts ≡ true
    → round w a false s
      ≡ looping false (send_ntp_packet a.address (record s { last_ntp_server = a.address }))
unfolding round wait_reply end_round
round_silent w a s h old =
    let reached : (a.address == 0) ≡ false = ground (arith, h.reached) in
    rw (reached, h.nothing, old) refl

-- At least 32 bits.
abbrev pub IsWide : ℕ → Type 0
IsWide w = (2 ^ 31 ≤ 2 ^ (w - 1)) × (2 ^ 32 ≤ 2 ^ w)

-- Each line that `date` prints holds something but blanks and line ends.
abbrev pub ArePrinted : List Bytes → Type 0
ArePrinted [] = Unit {0}
ArePrinted (l ∷ ls) =
    ((line : Bytes) × ((trim b'\r' l >>= trim b'\n' >>= trim 32) ≡ some line)) × ArePrinted ls

exec_system_time_update_lem :
    (ls : List Bytes) (s : Ntp) → ArePrinted ls → exec_system_time_update ls s ≡ some s
unfolding exec_system_time_update
exec_system_time_update_lem [] s h = refl
exec_system_time_update_lem (l ∷ ls) s ((line, e), h) = rw e (exec_system_time_update_lem ls s h)

-- A round in which a packet of the server with a time arrives first.
pub record IsReply (a : Attempt) (time : ℕ) : Type 0 where
  pub reached : a.address ≢ 0
  pub front : Bytes
  pub rest : Bytes
  pub more : List Bytes
  pub datagrams_are : a.datagrams ≡ reply_packet front time rest ∷ more
  pub front_size : length front ≡ 40
  pub rest_size : length rest ≡ 4
  pub time_word : time < 2 ^ 32
  pub printed_lines : ArePrinted a.printed

first_reply_lem :
    (a : Attempt) (time : ℕ) (h : IsReply a time)
    → first_reply a.datagrams ≡ some (reply_packet h.front time h.rest)
unfolding first_reply to_bytes
first_reply_lem a time h =
    let p = reply_packet h.front time h.rest in
    let size : length p ≡ 48 = omega (
      arith,
      length-append h.front (reverse (to_bytes time) ++ h.rest),
      h.front_size,
      h.rest_size,
    ) in
    let whole : take 48 p ≡ p = take_all 48 p (omega (arith, size)) in
    rw h.datagrams_are (rw (whole, size) refl)

-- The time of a reply, as `set_time` stores it.
set_time_lem :
    (w : ℕ) (a : Attempt) (time : ℕ) (s : Ntp) (h : IsReply a time)
    → set_time w a (reply_packet h.front time h.rest) s
      ≡ some (record s { unix_time_ts = word_sub w time jan_1970; unix_time_update = a.now })
unfolding set_time
set_time_lem w a time s h =
    let rest = reverse (to_bytes time) ++ h.rest in
    let at_40 : drop 40 (h.front ++ rest) ≡ rest = rw h.front_size at (drop-append h.front rest) in
    rw (at_40, hton64-to_bytes time h.rest h.time_word)
      (exec_system_time_update_lem a.printed _ h.printed_lines)

-- The state after a reply.
abbrev pub synced : ℕ → Attempt → ℕ → Ntp → Ntp
synced w a time s = record (send_ntp_packet a.address (record s { last_ntp_server = a.address })) {
  unix_time_ts = word_sub w time jan_1970;
  unix_time_update = a.now;
}

round_reply :
    (w : ℕ) (a : Attempt) (time : ℕ) (s : Ntp)
    → IsReply a time
    → round w a false s ≡ end_round w true (some (synced w a time s))
unfolding round wait_reply
round_reply w a time s h =
    let reached : (a.address == 0) ≡ false = ground (arith, h.reached) in
    rw (reached, first_reply_lem a time h, set_time_lem w a time _ h) refl

-- A time that the loop accepts.
abbrev pub IsRecent : ℕ → Type 0
IsRecent time = jan_1970 + oldest_time ≤ time

is_old_recent :
    (w time : ℕ) → IsWide w → IsRecent time → time < 2 ^ 32 → is_old w (time - jan_1970) ≡ false
unfolding is_old
is_old_recent w time h r p =
    let low : leb (2 ^ (w - 1)) (time - jan_1970) ≡ false = ground (arith, h.0) in
    let high : ltb (time - jan_1970) oldest_time ≡ false = ground arith in rw (low, high) refl

-- The rounds that go on are passed over.
rounds_looping :
    (w : ℕ) (a : Attempt) (later : List Attempt) (ret b : Bool) (s t : Ntp)
    → round w a ret s ≡ looping b t
    → rounds w (a ∷ later) ret s ≡ rounds w later b t
unfolding rounds
rounds_looping w a later ret b s t e = rw (e, rounds) refl

rounds_returned :
    (w : ℕ) (a : Attempt) (later : List Attempt) (ret b : Bool) (s t : Ntp)
    → round w a ret s ≡ returned b t
    → rounds w (a ∷ later) ret s ≡ returned b t
unfolding rounds
rounds_returned w a later ret b s t e = rw (e, rounds) refl

length_ne : (xs : Bytes) → xs ≢ [] → (length xs == 0) ≡ false
length_ne [] n = absurd (n refl)
length_ne (x ∷ xs) n = ground arith

-- `sync` has set the clock by a round.
abbrev pub IsSynchronized : ℕ → Attempt → ℕ → Outcome → Type 0
IsSynchronized w a time o =
    (t : Ntp) × (o ≡ returned true t)
    × (t.unix_time_ts ≡ time - jan_1970)
    × (t.unix_time_update ≡ a.now)
    × (t.last_ntp_server ≡ a.address)

rounds-IsSynchronized :
    (w : ℕ) (silent later : List Attempt) (a : Attempt) (time : ℕ) (s : Ntp)
    → IsWide w
    → is_old w s.unix_time_ts ≡ true
    → AreSilent silent
    → IsReply a time
    → IsRecent time
    → IsSynchronized w a time (rounds w (silent ++ (a ∷ later)) false s)
unfolding end_round send_ntp_packet
rounds-IsSynchronized w [] later a time s wide old quiet h recent =
    let value : word_sub w time jan_1970 ≡ time - jan_1970 =
      word_sub_le w time jan_1970 (omega arith) (omega (arith, h.time_word, wide.1)) in
    let fresh : is_old w (word_sub w time jan_1970) ≡ false =
      rw value (is_old_recent w time wide recent h.time_word) in
    (
      synced w a time s,
      rounds_returned w a later false true s (synced w a time s)
          (round_reply w a time s h ∙ rw fresh refl),
      value,
      refl,
      refl,
    )
rounds-IsSynchronized w (b ∷ silent) later a time s wide old quiet h recent =
    let (t, e, value, update, server) =
      rounds-IsSynchronized w silent later a time
        (send_ntp_packet b.address (record s { last_ntp_server = b.address })) wide old quiet.1 h
        recent in
    (
      t,
      rounds_looping w b (silent ++ (a ∷ later)) false false s _ (round_silent w b s quiet.0 old)
          ∙ e,
      value,
      update,
      server,
    )

-- However many rounds stay without a reply, the first reply that comes sets the clock: `sync` returns
-- true, keeps the UNIX time of the reply, when it came and who sent it. (A server is configured and
-- its name resolves in every round; the old time is too old; the reply is 48 bytes long, its time
-- lies after July 2015 and before the end of 32 bits; `date` prints no blank line; words have at
-- least 32 bits.)
pub sync-IsSynchronized :
    (w : ℕ) (silent later : List Attempt) (a : Attempt) (time : ℕ) (s : Ntp)
    → IsWide w
    → s.ntpserver ≢ []
    → is_old w s.unix_time_ts ≡ true
    → AreSilent silent
    → IsReply a time
    → IsRecent time
    → IsSynchronized w a time (sync w (silent ++ (a ∷ later)) s)
unfolding sync
sync-IsSynchronized w silent later a time s wide named old quiet h recent =
    let some_name : (length s.ntpserver == 0) ≡ false = length_ne s.ntpserver named in
    rw some_name (rounds-IsSynchronized w silent later a time s wide old quiet h recent)

abbrev pub AreReached : List Attempt → Type 0
AreReached [] = Unit {0}
AreReached (a ∷ rest) = (a.address ≢ 0) × AreReached rest

-- The loop has not ended.
abbrev pub IsLooping : Outcome → Type 0
IsLooping o = (t : Ntp) × (o ≡ looping true t)

rounds-IsLooping :
    (w : ℕ) (later : List Attempt) (s : Ntp)
    → is_old w s.unix_time_ts ≡ true
    → AreReached later
    → IsLooping (rounds w later true s)
unfolding rounds round wait_reply end_round
rounds-IsLooping w [] s old h = (s, refl)
rounds-IsLooping w (a ∷ later) s old h =
    let reached : (a.address == 0) ≡ false = ground (arith, h.0) in
    let s' = send_ntp_packet a.address (record s { last_ntp_server = a.address }) in
    let one : round w a true s ≡ looping true s' = rw (reached, old) refl in
    let (t, e) = rounds-IsLooping w later s' old h.1 in
    (t, rounds_looping w a later true true s s' one ∙ e)

-- After a reply whose time is too old, `sync` never returns as long as the server's name resolves,
-- whatever it answers from then on: the wait for another reply is skipped. (A server is configured;
-- the reply comes in the first round and has 48 bytes; `date` prints no blank line.)
pub sync-IsLooping :
    (w : ℕ) (a : Attempt) (later : List Attempt) (time : ℕ) (s : Ntp)
    → s.ntpserver ≢ []
    → IsReply a time
    → is_old w (word_sub w time jan_1970) ≡ true
    → AreReached later
    → IsLooping (sync w (a ∷ later) s)
unfolding sync end_round
sync-IsLooping w a later time s named h old reached =
    let some_name : (length s.ntpserver == 0) ≡ false = length_ne s.ntpserver named in
    let (t, e) = rounds-IsLooping w later (synced w a time s) old reached in
    rw some_name
      (t, rounds_looping w a later false true s _ (round_reply w a time s h ∙ rw old refl) ∙ e)

-- ===== src/Net/Tcp.antt =====
-- net/Tcp.cpp: the wrapper of a TCP socket. What the system answers is an argument, and the calls that
-- a method makes of it on its descriptor are a result, the first one first; the switches between
-- blocking and non-blocking mode are left out. The descriptor 0 is the class's sign for none.
pub mod Safe
use galileo_terremoti.Base.{
  ℕ, ◌+◌, ◌-◌, ◌^◌, Bool, true, false, not, ◌&&◌, Option, none, some, List, [], ◌∷◌, ◌++◌, Bytes,
  ltb, ◌==◌, if◌then◌else◌, c_string,
}

pub record Tcp : Type 0 where
  pub fd : ℕ

-- The calls of the system, with their descriptor.
pub data Call : Type 0 where
  -- `socket` has returned it; `connect`; `recv` with MSG_PEEK; `read`; `write`; `shutdown`; `close`.
  opened dialled peeked reads shut closed : ℕ → Call
  writes : ℕ → Bytes → Call

-- What a call of a method returns, the object after it, and the calls.
pub record Done {ℓ} (A : Type ℓ) : Type ℓ where
  pub result : A
  pub tcp : Tcp
  pub calls : List Call

abbrev pub nothing {ℓ} : {A : Type ℓ} → A → Tcp → Done A
nothing a t = record { result = a; tcp = t; calls = [] }

-- The constructor.
abbrev pub create : Tcp
create = record { fd = 0 }

-- `send`, with what `write` returns: a number, or -1, which is `none`.
unfoldable pub send : Bytes → Option ℕ → Tcp → Done (Option ℕ)
send buf wrote t =
    if t.fd == 0
    then nothing (some 0) t
    else record { result = wrote; tcp = t; calls = writes t.fd buf ∷ [] }

unfoldable pub print : Bytes → Option ℕ → Tcp → Done (Option ℕ)
unfolding send
print buf wrote t = if t.fd == 0 then nothing (some 0) t else send (c_string buf) wrote t

unfoldable pub println : Bytes → Option ℕ → Tcp → Done (Option ℕ)
unfolding send
println buf wrote t =
    if t.fd == 0 then nothing (some 0) t else send (c_string buf ++ b'\r' ∷ b'\n' ∷ []) wrote t

-- `receive` and `readall`, with what `read` brings: bytes, or an error.
unfoldable pub receive : Option Bytes → Tcp → Done (Option Bytes)
receive got t =
    if t.fd == 0
    then nothing (some []) t
    else record { result = got; tcp = t; calls = reads t.fd ∷ [] }

unfoldable pub readall : Option Bytes → Tcp → Done (Option Bytes)
readall got t =
    if t.fd == 0
    then nothing (some []) t
    else record { result = got; tcp = t; calls = reads t.fd ∷ [] }

-- What `recv` with MSG_PEEK finds: data, the end of the stream, or an error.
pub data Peek : Type 0 where
  has_data at_end broken : Peek

abbrev pub is_waiting : Peek → Bool
is_waiting has_data = true
is_waiting _ = false

abbrev pub is_ended : Peek → Bool
is_ended at_end = true
is_ended _ = false

unfoldable pub available : Peek → Tcp → Done Bool
available p t =
    if t.fd == 0
    then nothing false t
    else record { result = is_waiting p; tcp = t; calls = peeked t.fd ∷ [] }

-- An error, such as a refused connection, counts as connected.
unfoldable pub connected : Peek → Tcp → Done Bool
connected p t =
    if t.fd == 0
    then nothing false t
    else record { result = not (is_ended p); tcp = t; calls = peeked t.fd ∷ [] }

-- `readchar`: the character, as a 32-bit word, or -1; `signed` says whether `char` is.
unfoldable pub char_word : Bool → Option ℕ → ℕ
char_word signed none = 2 ^ 32 - 1
char_word signed (some c) = if signed && ltb 127 c then c + (2 ^ 32 - 256) else c

unfoldable pub readchar : Bool → Option ℕ → Tcp → Done ℕ
unfolding char_word
readchar signed got t =
    if t.fd == 0
    then nothing 0 t
    else record { result = char_word signed got; tcp = t; calls = reads t.fd ∷ [] }

unfoldable pub stop : Tcp → Tcp × List Call
stop t = if t.fd == 0 then (t, []) else (record { fd = 0 }, shut t.fd ∷ closed t.fd ∷ [])

-- What the system says while `connectTo` runs: the descriptor of `socket`, if there is one; whether
-- `connect` succeeds or is under way; what `select` finds within ten seconds; and a peek.
pub data Selected : Type 0 where
  ready timed_out select_failed : Selected

pub record Dial : Type 0 where
  pub socket : Option ℕ
  pub dialling : Bool
  pub selected : Selected
  pub peek : Peek

-- The end of `connectTo`, behind `select`.
unfoldable pub select_end : Selected → Peek → ℕ → Done Bool
unfolding connected
select_end select_failed p fd = record { result = false; tcp = record { fd = 0 }; calls = [] }
select_end timed_out p fd = record {
  result = false;
  tcp = record { fd = 0 };
  calls = closed fd ∷ shut fd ∷ [];
}
select_end ready p fd = connected p (record { fd = fd })

dial_end : Dial → ℕ → Done Bool
unfolding select_end
dial_end d fd =
    let refused : Done Bool = record { result = false; tcp = record { fd = 0 }; calls = [] } in
    if d.dialling then select_end d.selected d.peek fd else refused

connect_end : Dial → Option ℕ → Done Bool
unfolding dial_end
connect_end d none = record { result = false; tcp = record { fd = 0 }; calls = [] }
connect_end d (some fd) =
    let done = dial_end d fd in record done { calls = opened fd ∷ dialled fd ∷ done.calls }

-- `connectTo`. What the descriptor was before is lost.
unfoldable pub connect_to : Dial → Tcp → Done Bool
unfolding connect_end
connect_to d t = connect_end d d.socket

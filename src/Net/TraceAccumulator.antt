-- ===== src/Net/TraceAccumulator.antt =====
-- net/TraceAccumulator.cpp: the file of traced values, on the platforms that define
-- `TRACEACCUMULATOR_FILE` (every one does). `size` is that of `unsigned long` in bytes; what is
-- written to the open file is appended to its text. What the world says in a call is a `World`.
-- `none` is a null pointer or another fault.
pub mod Read
pub mod Record
use galileo_terremoti.Base.{
  ℕ, zero, suc, ◌+◌, ◌*◌, ◌/◌, ◌%◌, Bool, true, false, not, ◌&&◌, Option, none, some, ◌>>=◌, List,
  [], ◌∷◌, ◌++◌, Bytes, ltb, ◌==◌, if◌then◌else◌, to_bytes, word_sub,
}
use galileo_terremoti.Floats.{Doubles}
use galileo_terremoti.Net.Http.{Exchange, HttpResponse}
use galileo_terremoti.Net.Http.Upload.{http_post_file}

-- The text of the file at `TRACEACCUMULATOR_FILE`, and the class's variables: whether `traceFile`
-- is open, and `traceStartedAt`.
pub record Trace : Type 0 where
  pub file : Option Bytes
  pub is_open : Bool
  pub started_at : ℕ
  -- What was sent to the server, the newest first.
  pub uploads : List Bytes

-- `NTP::getUNIXTime()`, whether `fopen` for writing succeeds, the exchange with the server, and the
-- URL, which ends with the device's address.
pub record World : Type 0 where
  pub now : ℕ
  pub can_open : Bool
  pub exchange : Exchange
  pub url : Bytes

-- The bytes of a word of `n` bytes in memory.
unfoldable pub word_bytes : ℕ → ℕ → Bytes
word_bytes zero x = []
word_bytes (suc n) x = x % 256 ∷ word_bytes n (x / 256)

-- The three bytes at the beginning.
abbrev pub head : ℕ → Bytes
head size = 1 ∷ size ∷ 4 ∷ []

-- The log line behind the upload reads the response, which is NULL if the file was not there.
uploaded : Option (Bytes × HttpResponse) → Trace → Option Trace
uploaded none t = none
uploaded (some (text, resp)) t = some (record t { file = none; uploads = text ∷ t.uploads })

-- `setTrace(false)` and `setTrace(true)`.
unfoldable pub stop_trace : World → Trace → Option Trace
unfolding uploaded http_post_file
stop_trace x t =
    let send =
      http_post_file x.exchange x.url t.file >>= λ r. uploaded r (record t { is_open = false }) in
    if t.is_open then send else some t

unfoldable pub start_trace : ℕ → World → Trace → Option Trace
start_trace size x t =
    let opened = record t { file = some (head size); is_open = true; started_at = x.now } in
    if t.is_open then some t else if x.can_open then some opened else none

unfoldable pub set_trace : ℕ → World → Bool → Trace → Option Trace
unfolding stop_trace start_trace
set_trace size x false t = stop_trace x t
set_trace size x true t = start_trace size x t

module _ (D : Doubles) where
  open D use {Double, to_float}

  -- The arguments of `traceValue`.
  pub record Sample : Type 0 where
    pub ts : ℕ
    pub val : Double
    pub threshold : Double
    pub avg : Double
    pub stddev : Double
    pub sigma : Double

  unfoldable pub sample_bytes : ℕ → Sample → Bytes
  unfolding word_bytes
  sample_bytes size v =
      word_bytes size v.ts
      ++ (to_bytes (to_float v.val)
          ++ (to_bytes (to_float v.threshold)
              ++ (to_bytes (to_float v.avg)
                  ++ (to_bytes (to_float v.stddev) ++ to_bytes (to_float v.sigma)))))

  append : Bytes → Option Bytes → Option Bytes
  append new none = none
  append new (some text) = some (text ++ new)

  -- `traceStartedAt != 0 && traceStartedAt < NTP::getUNIXTime() - 60 * 15`, on unsigned numbers.
  unfoldable pub is_over : ℕ → ℕ → Trace → Bool
  is_over size now t = not (t.started_at == 0) && ltb t.started_at (word_sub (8 * size) now 900)

  unfoldable pub trace_value : ℕ → World → Sample → Trace → Option Trace
  unfolding is_over set_trace sample_bytes append
  trace_value size x v t =
      let over = set_trace size x false t >>= λ t. some (record t { started_at = 0 }) in
      let written = record t { file = append (sample_bytes size v) t.file } in
      if is_over size x.now t then over else some (if t.is_open then written else t)

-- ===== src/Net/TraceAccumulator/Record.antt =====
-- A trace from its start to its upload.
use galileo_terremoti.Base.{
  ℕ, ◌+◌, ◌-◌, ◌*◌, ◌≤◌, ◌<◌, ◌^◌, ◌≡◌, ◌∙◌, refl, ap, true, false, Option, none, some, ◌>>=◌, List,
  [], ◌∷◌, ◌++◌, append_assoc, append-nil, Bytes, arith, length, if_true, if_false, c_string,
  bind_cong, bind_assoc, word_sub, sym,
}
use galileo_terremoti.Floats.{Doubles}
use galileo_terremoti.Seismometer.Quiet.{word_sub_le}
use galileo_terremoti.Net.Http.{Host, HttpResponse, host_from_url}
use galileo_terremoti.Net.Http.Upload.{upload_text, http_post_file}
use galileo_terremoti.Net.Http.Crash.{answered, http_post_file-sent}
use galileo_terremoti.Net.TraceAccumulator.{
  Trace, World, head, uploaded, set_trace, stop_trace, start_trace, Sample, sample_bytes, append,
  is_over, trace_value,
}

-- What one trace leaves behind: the file is gone, the trace is off, and its text was sent.
abbrev pub sent_trace : Bytes → Host → Bytes → Trace → Trace
sent_trace url h content t = record t {
  file = none;
  is_open = false;
  started_at = 0;
  uploads = upload_text (c_string url) h content ∷ t.uploads;
}

module _ (D : Doubles) (size : ℕ) where
  -- The calls of `traceValue` one after the other.
  pub trace_all : List (World × Sample D) → Trace → Option Trace
  trace_all [] t = some t
  trace_all ((x, v) ∷ calls) t = trace_value D size x v t >>= trace_all calls

  -- What the samples leave in the file.
  abbrev pub samples_bytes : List (World × Sample D) → Bytes
  samples_bytes [] = []
  samples_bytes ((x, v) ∷ calls) = sample_bytes D size v ++ samples_bytes calls

  -- Every call comes at most 15 minutes after the start, by a clock that does not wrap.
  abbrev pub AreInTime : ℕ → List (World × Sample D) → Type 0
  AreInTime start [] = Unit {0}
  AreInTime start ((x, v) ∷ calls) =
      (900 ≤ x.now) × (x.now ≤ start + 900) × (x.now < 2 ^ (8 * size)) × AreInTime start calls

  in_time_lem :
      (now : ℕ) (t : Trace)
      → 900 ≤ now
      → now ≤ t.started_at + 900
      → now < 2 ^ (8 * size)
      → is_over D size now t ≡ false
  unfolding is_over
  in_time_lem now t a b c =
      let e : word_sub (8 * size) now 900 ≡ now - 900 = word_sub_le (8 * size) now 900 a c in
      rw e (ground arith)

  over_lem :
      (now : ℕ) (t : Trace)
      → 0 < t.started_at
      → t.started_at + 900 < now
      → now < 2 ^ (8 * size)
      → is_over D size now t ≡ true
  unfolding is_over
  over_lem now t a b c =
      let e : word_sub (8 * size) now 900 ≡ now - 900 =
        word_sub_le (8 * size) now 900 (omega arith) c in
      rw e (ground arith)

  trace_value_kept :
      (x : World) (v : Sample D) (t : Trace) (text : Bytes)
      → is_over D size x.now t ≡ false
      → t.is_open ≡ true
      → t.file ≡ some text
      → trace_value D size x v t ≡ some (record t { file = some (text ++ sample_bytes D size v) })
  unfolding trace_value
  trace_value_kept x v t text o p f =
      if_false _ _ o
      ∙ ap some (if_true _ _ p ∙ ap (λ g. record t { file = append D (sample_bytes D size v) g }) f)

  pub trace_all_kept :
      (calls : List (World × Sample D)) (t : Trace) (text : Bytes)
      → AreInTime t.started_at calls
      → t.is_open ≡ true
      → t.file ≡ some text
      → trace_all calls t ≡ some (record t { file = some (text ++ samples_bytes calls) })
  unfolding trace_all
  trace_all_kept [] t text i p f =
      ap (λ g. some (record t { file = g })) (f ∙ ap some (sym (append-nil text)))
  trace_all_kept ((x, v) ∷ calls) t text (a, b, c, i) p f =
      let new = text ++ sample_bytes D size v in
      let step = trace_value_kept x v t text (in_time_lem x.now t a b c) p f in
      ap (λ o. o >>= trace_all calls) step
      ∙ trace_all_kept calls (record t { file = some new }) new i p refl
      ∙ ap (λ s. some (record t { file = some s }))
          (append_assoc text (sample_bytes D size v) (samples_bytes calls))

  stop_trace_lem :
      (x : World) (h : Host) (resp : HttpResponse) (content : Bytes) (t : Trace)
      → t.is_open ≡ true
      → t.file ≡ some content
      → host_from_url (c_string x.url) 80 ≡ some h
      → x.exchange.connects ≡ true
      → answered x.exchange x.exchange.answer ≡ some resp
      → length content ≤ x.exchange.memory
      → stop_trace x t
        ≡ some (record t {
          file = none;
          is_open = false;
          uploads = upload_text (c_string x.url) h content ∷ t.uploads;
        })
  unfolding stop_trace uploaded
  stop_trace_lem x h resp content t p f e c o m =
      if_true _ _ p
      ∙ ap (λ r. r >>= λ r. uploaded r (record t { is_open = false }))
          (ap (http_post_file x.exchange x.url) f
            ∙ http_post_file-sent x.exchange x.url content h resp e c o m)

  trace_value_over :
      (x : World) (v : Sample D) (h : Host) (resp : HttpResponse) (content : Bytes) (t : Trace)
      → is_over D size x.now t ≡ true
      → t.is_open ≡ true
      → t.file ≡ some content
      → host_from_url (c_string x.url) 80 ≡ some h
      → x.exchange.connects ≡ true
      → answered x.exchange x.exchange.answer ≡ some resp
      → length content ≤ x.exchange.memory
      → trace_value D size x v t ≡ some (sent_trace x.url h content t)
  unfolding trace_value set_trace
  trace_value_over x v h resp content t over p f e c o m =
      if_true _ _ over
      ∙ ap (λ (o : Option Trace). o >>= λ t. some (record t { started_at = 0 }))
          (stop_trace_lem x h resp content t p f e c o m)

  trace_all-append :
      (calls later : List (World × Sample D)) (t : Trace)
      → trace_all (calls ++ later) t ≡ (trace_all calls t >>= trace_all later)
  unfolding trace_all
  trace_all-append [] later t = refl
  trace_all-append ((x, v) ∷ calls) later t =
      bind_cong (trace_value D size x v t) (trace_all (calls ++ later))
        (λ t. trace_all calls t >>= trace_all later) (trace_all-append calls later)
      ∙ sym (bind_assoc (trace_value D size x v t) (trace_all calls) (trace_all later))

  -- A trace that is started while none runs sends the server, at the first call more than 15 minutes
  -- later, one file: the three bytes of its head and the values of every call in between, in order,
  -- but not those of that last call. Then the file is gone and the trace is off. (The file can be
  -- opened; the clock does not wrap, and shows at least 900 seconds; at the last call the server is
  -- connected and there is a response, the host's name fits its buffer and the file the memory.)
  pub trace_all-sent :
      (start last : World) (v : Sample D) (calls : List (World × Sample D)) (t : Trace) (h : Host)
      (resp : HttpResponse)
      → t.is_open ≡ false
      → start.can_open ≡ true
      → 0 < start.now
      → AreInTime start.now calls
      → start.now + 900 < last.now
      → last.now < 2 ^ (8 * size)
      → host_from_url (c_string last.url) 80 ≡ some h
      → last.exchange.connects ≡ true
      → answered last.exchange last.exchange.answer ≡ some resp
      → length (head size ++ samples_bytes calls) ≤ last.exchange.memory
      → (set_trace size start true t >>= trace_all (calls ++ (last, v) ∷ []))
        ≡ some (sent_trace last.url h (head size ++ samples_bytes calls) t)
  unfolding set_trace start_trace trace_all
  trace_all-sent start last v calls t h resp p q z i l b e c o m =
      let opened : Trace = record t {
        file = some (head size);
        is_open = true;
        started_at = start.now;
      } in
      let content = head size ++ samples_bytes calls in
      let full : Trace = record opened { file = some content } in
      let began : set_trace size start true t ≡ some opened = if_false _ _ p ∙ if_true _ _ q in
      let kept = trace_all_kept calls opened (head size) i refl refl in
      let stopped =
        trace_value_over last v h resp content full (over_lem last.now full z l b) refl refl e c o
          m in
      ap (λ o. o >>= trace_all (calls ++ (last, v) ∷ [])) began
      ∙ trace_all-append calls ((last, v) ∷ []) opened
      ∙ ap (λ o. o >>= trace_all ((last, v) ∷ [])) kept
      ∙ ap (λ o. o >>= trace_all []) stopped

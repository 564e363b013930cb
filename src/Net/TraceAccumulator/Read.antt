-- ===== src/Net/TraceAccumulator/Read.antt =====
-- The trace file, as its reader takes it apart: by the head the size of the times and of the values,
-- then sample after sample.
use galileo_terremoti.Base.{
  length-append, ℕ, zero, suc, ◌≤◌, ◌<◌, ◌%◌, append_assoc, ◌/◌, ◌^◌, ◌≡◌, ◌∙◌, refl, ap, true,
  false, Option, none, some, ◌>>=◌, List, [], ◌∷◌, ◌++◌, Bytes, arith, length, take, drop, of_bytes,
  to_bytes, of_bytes-to_bytes, ◌==◌, ◌&&◌, if◌then◌else◌, if_true, if_false,
}
use galileo_terremoti.Floats.{Doubles}
use galileo_terremoti.Net.TraceAccumulator.{
  Trace, World, word_bytes, head, set_trace, start_trace, Sample, sample_bytes,
}
use galileo_terremoti.Net.TraceAccumulator.Record.{
  trace_all, samples_bytes, AreInTime, trace_all_kept,
}

-- The time, and the five floats as they stand in memory.
pub record Values : Type 0 where
  pub ts : ℕ
  pub val : ℕ
  pub threshold : ℕ
  pub avg : ℕ
  pub stddev : ℕ
  pub sigma : ℕ

-- The number in the next bytes, and what stands behind them.
abbrev word : ℕ → Bytes → ℕ × Bytes
word n s = (of_bytes (take n s), drop n s)

abbrev read_floats : ℕ → Bytes → Values × Bytes
read_floats ts s =
    let (val, s₁) = word 4 s in
    let (threshold, s₂) = word 4 s₁ in
    let (avg, s₃) = word 4 s₂ in
    let (stddev, s₄) = word 4 s₃ in
    let (sigma, rest) = word 4 s₄ in
    (
      record {
        ts = ts;
        val = val;
        threshold = threshold;
        avg = avg;
        stddev = stddev;
        sigma = sigma;
      },
      rest,
    )

abbrev read_sample : ℕ → Bytes → Values × Bytes
read_sample size s = let (ts, rest) = word size s in read_floats ts rest

-- Samples up to the end of the text; the fuel is the text's length.
pub read_samples : ℕ → ℕ → Bytes → List Values
read_samples zero size s = []
read_samples (suc fuel) size [] = []
read_samples (suc fuel) size (c ∷ s) =
    let (v, rest) = read_sample size (c ∷ s) in v ∷ read_samples fuel size rest

-- The head is the version 1, the size of a time, and the size of a float.
pub read_trace : Bytes → Option (List Values)
unfolding read_samples
read_trace [] = none
read_trace (version ∷ []) = none
read_trace (version ∷ size ∷ []) = none
read_trace (version ∷ size ∷ float ∷ s) =
    if version == 1 && float == 4 then some (read_samples (length s) size s) else none

-- A number has at most so many bytes.
abbrev pub HasBytes : ℕ → ℕ → Type 0
HasBytes zero x = x ≡ 0
HasBytes (suc n) x = HasBytes n (x / 256)

of_bytes-word_bytes : (n x : ℕ) → HasBytes n x → of_bytes (word_bytes n x) ≡ x
unfolding of_bytes word_bytes
of_bytes-word_bytes zero x h = omega (arith, h)
of_bytes-word_bytes (suc n) x h = omega (arith, of_bytes-word_bytes n (x / 256) h)

take-word_bytes : (n x : ℕ) (s : Bytes) → take n (word_bytes n x ++ s) ≡ word_bytes n x
unfolding word_bytes
take-word_bytes zero x s = refl
take-word_bytes (suc n) x s = ap (λ r. x % 256 ∷ r) (take-word_bytes n (x / 256) s)

drop-word_bytes : (n x : ℕ) (s : Bytes) → drop n (word_bytes n x ++ s) ≡ s
unfolding word_bytes
drop-word_bytes zero x s = refl
drop-word_bytes (suc n) x s = drop-word_bytes n (x / 256) s

word_lem : (n x : ℕ) (s : Bytes) → HasBytes n x → word n (word_bytes n x ++ s) ≡ (x, s)
word_lem n x s h = rw (take-word_bytes n x s, drop-word_bytes n x s, of_bytes-word_bytes n x h) refl

module _ (D : Doubles) (size : ℕ) where
  open D use {to_float}

  -- What a reader finds of a sample.
  abbrev pub values_of : Sample D → Values
  values_of v = record {
    ts = v.ts;
    val = to_float v.val;
    threshold = to_float v.threshold;
    avg = to_float v.avg;
    stddev = to_float v.stddev;
    sigma = to_float v.sigma;
  }

  -- The time fits an `unsigned long`, and a float has 32 bits.
  abbrev pub IsSample : Sample D → Type 0
  IsSample v =
      HasBytes size v.ts
      × (to_float v.val < 2 ^ 32)
      × (to_float v.threshold < 2 ^ 32)
      × (to_float v.avg < 2 ^ 32)
      × (to_float v.stddev < 2 ^ 32)
      × (to_float v.sigma < 2 ^ 32)

  abbrev pub AreSamples : List (World × Sample D) → Type 0
  AreSamples [] = Unit {0}
  AreSamples ((x, v) ∷ calls) = IsSample v × AreSamples calls

  abbrev pub all_values : List (World × Sample D) → List Values
  all_values [] = []
  all_values ((x, v) ∷ calls) = values_of v ∷ all_values calls

  -- The floats of a sample, behind its time.
  abbrev floats : Sample D → Bytes
  floats v =
      to_bytes (to_float v.val)
      ++ (to_bytes (to_float v.threshold)
          ++ (to_bytes (to_float v.avg)
              ++ (to_bytes (to_float v.stddev) ++ to_bytes (to_float v.sigma))))

  read_floats_lem :
      (v : Sample D) (s : Bytes) → IsSample v → read_floats v.ts (floats v ++ s) ≡ (values_of v, s)
  unfolding to_bytes
  read_floats_lem v s (_, a, b, c, d, e) =
      rw
        (
          of_bytes-to_bytes (to_float v.val) a,
          of_bytes-to_bytes (to_float v.threshold) b,
          of_bytes-to_bytes (to_float v.avg) c,
          of_bytes-to_bytes (to_float v.stddev) d,
          of_bytes-to_bytes (to_float v.sigma) e,
        )
        refl

  read_sample_lem :
      (v : Sample D) (s : Bytes)
      → IsSample v
      → read_sample size (sample_bytes D size v ++ s) ≡ (values_of v, s)
  unfolding sample_bytes
  read_sample_lem v s h =
      ap (read_sample size) (append_assoc (word_bytes size v.ts) (floats v) s)
      ∙ ap (λ (r : ℕ × Bytes). read_floats r.0 r.1) (word_lem size v.ts (floats v ++ s) h.0)
      ∙ read_floats_lem v s h

  length-sample_bytes : (v : Sample D) → 1 ≤ length (sample_bytes D size v)
  unfolding sample_bytes to_bytes
  length-sample_bytes v = omega (arith, length-append (word_bytes size v.ts) (floats v))

  read_samples-suc :
      (fuel : ℕ) (s : Bytes)
      → 1 ≤ length s
      → read_samples (suc fuel) size s
        ≡ ((read_sample size s).0 ∷ read_samples fuel size (read_sample size s).1)
  unfolding read_samples
  read_samples-suc fuel [] h = elim h [ ]
  read_samples-suc fuel (c ∷ s) h = refl

  read_samples_lem :
      (fuel : ℕ) (calls : List (World × Sample D))
      → AreSamples calls
      → length (samples_bytes D size calls) ≤ fuel
      → read_samples fuel size (samples_bytes D size calls) ≡ all_values calls
  unfolding read_samples
  read_samples_lem zero [] h k = refl
  read_samples_lem (suc fuel) [] h k = refl
  read_samples_lem zero ((x, v) ∷ calls) h k =
      let sizes = length-append (sample_bytes D size v) (samples_bytes D size calls) in
      let absurd : 1 ≤ 0 = omega (arith, k, sizes, length-sample_bytes v) in elim absurd [ ]
  read_samples_lem (suc fuel) ((x, v) ∷ calls) (h, hs) k =
      let rest = samples_bytes D size calls in
      let sizes = length-append (sample_bytes D size v) rest in
      let some_bytes = length-sample_bytes v in
      let enough : length rest ≤ fuel = omega (arith, k, sizes, some_bytes) in
      read_samples-suc fuel (sample_bytes D size v ++ rest) (omega (arith, sizes, some_bytes))
      ∙ ap (λ (r : Values × Bytes). r.0 ∷ read_samples fuel size r.1) (read_sample_lem v rest h)
      ∙ ap (λ vs. values_of v ∷ vs) (read_samples_lem fuel calls hs enough)

  -- A trace that is started while none runs is open, after any calls within 15 minutes, and the reader
  -- of its file finds the values of every call in order: the time, and the five floats each in its
  -- place. (The file can be opened; a time fits an `unsigned long`, and a float has 32 bits; the clock
  -- does not wrap, and shows at least 900 seconds.)
  pub read_trace-trace_all :
      (start : World) (calls : List (World × Sample D)) (t : Trace)
      → t.is_open ≡ false
      → start.can_open ≡ true
      → AreInTime D size start.now calls
      → AreSamples calls
      → (t' : Trace) × (text : Bytes) × ((set_trace size start true t >>= trace_all D size calls)
          ≡ some t')
        × (t'.is_open ≡ true)
        × (t'.file ≡ some text)
        × (read_trace text ≡ some (all_values calls))
  unfolding set_trace start_trace read_trace
  read_trace-trace_all start calls t p q i h =
      let opened : Trace = record t {
        file = some (head size);
        is_open = true;
        started_at = start.now;
      } in
      let content = head size ++ samples_bytes D size calls in
      let began : set_trace size start true t ≡ some opened = if_false _ _ p ∙ if_true _ _ q in
      (
        record opened { file = some content },
        content,
        ap (λ o. o >>= trace_all D size calls) began
            ∙ trace_all_kept D size calls opened (head size) i refl refl,
        refl,
        refl,
        ap some (read_samples_lem (length (samples_bytes D size calls)) calls h (omega arith)),
      )

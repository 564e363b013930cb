-- ===== src/Watchdog/Alive.antt =====
-- A program that beats often enough is not rebooted.
use galileo_terremoti.Base.{
  ℕ, ◌+◌, ◌-◌, ◌*◌, ◌/◌, ◌^◌, ◌≡◌, ◌≤◌, ◌<◌, refl, true, false, some, List, [], ◌∷◌, arith, ltb,
  word_sub, Bool-cases, inl, inr, ◌∙◌, ◌%◌, ap,
}
use galileo_terremoti.Watchdog.{Watched, Beat, heart_beat, is_missed, watch}

-- A call that takes at most a second and can write the file. The clock has not run back since the
-- last call, and less than 2^31 milliseconds, about 24 days, have passed.
pub record IsBeat (now : ℕ) (b : Beat) : Type 0 where
  pub forward : now ≤ b.check
  pub soon : b.check < now + 2 ^ 31
  pub written_after : b.check ≤ b.written
  pub set_after : b.written ≤ b.set
  pub quick : b.set ≤ b.check + 1000
  pub opens : b.can_open ≡ true

-- Such calls, one after another.
abbrev pub AreBeats : ℕ → List Beat → Type 0
AreBeats now [] = Unit {0}
AreBeats now (b ∷ bs) = IsBeat now b × AreBeats b.set bs

pub beats : ℕ → List Beat → Watched → Watched
beats w [] s = s
beats w (b ∷ bs) s = beats w bs (heart_beat w b s)

-- The time of the last call.
unfoldable pub last_call : ℕ → List Beat → ℕ
last_call now [] = now
last_call now (b ∷ bs) = last_call b.set bs

-- The state behind a call that ended at a time: the beat before it was noted at `last`, and the file
-- had been written at most two seconds before.
pub record IsBeating (now : ℕ) (s : Watched) : Type 0 where
  pub last : ℕ
  pub written : ℕ
  pub file_is : s.file ≡ some written
  pub noted : s.last_beat ≡ last % 2 ^ 32
  pub fresh : last ≤ written * 1000 + 1999
  pub recent : now ≤ last + 21000
  pub before : last ≤ now

elapsed : (a b : ℕ) → a ≤ b → b < a + 2 ^ 32 → word_sub 32 (b % 2 ^ 32) (a % 2 ^ 32) ≡ b - a
elapsed a b h k = omega arith

within : (last check : ℕ) → ltb 20000 (check - last) ≡ false → check ≤ last + 20000
within last check h = ground arith

heart_beat-IsBeating :
    (now : ℕ) (b : Beat) (s : Watched)
    → IsBeating now s
    → IsBeat now b
    → IsBeating b.set (heart_beat 32 b s) × ((heart_beat 32 b s).rebooting ≡ s.rebooting)
unfolding heart_beat
heart_beat-IsBeating now b s v k =
    let plain : word_sub 32 (b.check % 2 ^ 32) s.last_beat ≡ b.check - v.last =
      ap (word_sub 32 (b.check % 2 ^ 32)) v.noted
      ∙ elapsed v.last b.check (omega (arith, v.before, k.forward))
          (omega (arith, v.recent, k.soon)) in
    elim (Bool-cases (ltb 20000 (b.check - v.last))) [
      | inl late ↦
          rw (plain, late, k.opens)
            (
              record {
                last = b.set;
                written = b.written / 1000;
                file_is = refl;
                noted = refl;
                fresh = omega (arith, k.written_after, k.quick);
                recent = omega arith;
                before = omega arith;
              },
              refl,
            )
      | inr early ↦
          let soon = within v.last b.check early in
          rw (plain, early)
            (
              record {
                last = v.last;
                written = v.written;
                file_is = v.file_is;
                noted = v.noted;
                fresh = v.fresh;
                recent = omega (arith, soon, k.quick);
                before = omega (arith, v.before, k.forward, k.written_after, k.set_after);
              },
              refl,
            )
    ]

beats-IsBeating :
    (now : ℕ) (bs : List Beat) (s : Watched)
    → IsBeating now s
    → AreBeats now bs
    → IsBeating (last_call now bs) (beats 32 bs s) × ((beats 32 bs s).rebooting ≡ s.rebooting)
unfolding beats last_call
beats-IsBeating now [] s v h = (v, refl)
beats-IsBeating now (b ∷ bs) s v (k, h) =
    let (v', same) = heart_beat-IsBeating now b s v k in
    let (v'', same') = beats-IsBeating b.set bs (heart_beat 32 b s) v' h in (v'', same' ∙ same)

watch_lem :
    (now later : ℕ) (s : Watched)
    → IsBeating now s
    → later ≤ now + 35000
    → watch true s (later / 1000) ≡ false
unfolding watch is_missed
watch_lem now later s v h =
    rw v.file_is (not_missed v.written later (omega (arith, v.recent, v.fresh)))
  where
    not_missed : (m later : ℕ) → later ≤ m * 1000 + 57999 → ltb (m + 60) (later / 1000) ≡ false
    not_missed m later h = ground arith

-- While at most 35 seconds have passed since the program's last call of `heartBeat`, neither that
-- call nor the watching process has rebooted the device, after any run of calls, also when the
-- counter of milliseconds wraps. (`unsigned long` has 32 bits, as on the boards; the program runs,
-- and there was a fresh file at the start; the clock does not run backwards and less than 24 days lie
-- between two calls; a call takes at most a second and can write the file.)
pub watch-beats :
    (now later : ℕ) (bs : List Beat) (s : Watched)
    → IsBeating now s
    → AreBeats now bs
    → later ≤ last_call now bs + 35000
    → (watch true (beats 32 bs s) (later / 1000) ≡ false)
      × ((beats 32 bs s).rebooting ≡ s.rebooting)
watch-beats now later bs s v h l =
    let (v', same) = beats-IsBeating now bs s v h in
    (watch_lem (last_call now bs) later (beats 32 bs s) v' l, same)

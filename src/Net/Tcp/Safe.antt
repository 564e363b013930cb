-- ===== src/Net/Tcp/Safe.antt =====
-- Which descriptors a `Tcp` uses.
use galileo_terremoti.Base.{
  ℕ, ◌<◌, ◌≡◌, ◌∙◌, refl, ap, ◌⊎◌, inl, inr, Bool, true, false, not, ◌&&◌, Option, none, some, List,
  [], ◌∷◌, ◌++◌, Bytes, arith, ltb, ◌==◌, if◌then◌else◌, Bool-cases, c_string, if_true, if_false,
  sym, if_cases, some_inj,
}
use mathlib.Core.Path.{subst}
use galileo_terremoti.Net.Tcp.{
  Tcp, nothing, is_ended, Call, opened, dialled, peeked, reads, writes, shut, closed, Done, send,
  print, println, receive, readall, Peek, available, connected, readchar, stop, Selected, Dial,
  ready, timed_out, select_failed, select_end, connect_to, connect_end, dial_end, char_word,
  is_waiting,
}

-- The methods, with what the system answers.
pub data Op : Type 0 where
  op_send op_print op_println : Bytes → Option ℕ → Op
  op_receive op_readall : Option Bytes → Op
  op_readchar : Bool → Option ℕ → Op
  op_available op_connected : Peek → Op
  op_stop : Op
  op_connect : Dial → Op

abbrev effect {ℓ} : {A : Type ℓ} → Done A → Tcp × List Call
effect d = (d.tcp, d.calls)

unfoldable pub step : Op → Tcp → Tcp × List Call
unfolding send print println receive readall readchar available connected stop connect_to
step (op_send buf wrote) t = effect (send buf wrote t)
step (op_print buf wrote) t = effect (print buf wrote t)
step (op_println buf wrote) t = effect (println buf wrote t)
step (op_receive got) t = effect (receive got t)
step (op_readall got) t = effect (readall got t)
step (op_readchar signed got) t = effect (readchar signed got t)
step (op_available p) t = effect (available p t)
step (op_connected p) t = effect (connected p t)
step op_stop t = stop t
step (op_connect d) t = effect (connect_to d t)

-- The calls of a run of methods.
unfoldable pub run : List Op → Tcp → List Call
unfolding step
run [] t = []
run (op ∷ ops) t = let (t', calls) = step op t in calls ++ run ops t'

-- Follows the calls, from the last descriptor that was opened and is not closed, 0 for none, and
-- fails at a call that reads from, writes to, peeks at, dials or closes any other.
pub follow : ℕ → List Call → Option ℕ
follow o [] = some o
follow o (opened fd ∷ calls) = follow fd calls
follow o (shut fd ∷ calls) = follow o calls
follow o (closed fd ∷ calls) =
    let rest = follow 0 calls in if ltb 0 fd && fd == o then rest else none
follow o (dialled fd ∷ calls) =
    let rest = follow o calls in if ltb 0 fd && fd == o then rest else none
follow o (peeked fd ∷ calls) =
    let rest = follow o calls in if ltb 0 fd && fd == o then rest else none
follow o (reads fd ∷ calls) =
    let rest = follow o calls in if ltb 0 fd && fd == o then rest else none
follow o (writes fd buf ∷ calls) =
    let rest = follow o calls in if ltb 0 fd && fd == o then rest else none

follow-append :
    (o o' : ℕ) (a b : List Call) → follow o a ≡ some o' → follow o (a ++ b) ≡ follow o' b
unfolding follow
follow-append o o' [] b e = ap (λ n. follow n b) (some_inj e)
follow-append o o' (opened fd ∷ a) b e = follow-append fd o' a b e
follow-append o o' (shut fd ∷ a) b e = follow-append o o' a b e
follow-append o o' (closed fd ∷ a) b e = ground (arith, follow-append 0 o' a b)
follow-append o o' (dialled fd ∷ a) b e = ground (arith, follow-append o o' a b)
follow-append o o' (peeked fd ∷ a) b e = ground (arith, follow-append o o' a b)
follow-append o o' (reads fd ∷ a) b e = ground (arith, follow-append o o' a b)
follow-append o o' (writes fd buf ∷ a) b e = ground (arith, follow-append o o' a b)

-- The object's descriptor is the one in use, or none.
abbrev pub Owns : ℕ → Tcp → Type 0
Owns o t = (t.fd ≡ 0) ⊎ (t.fd ≡ o)

-- `socket` never returns the descriptor 0, which the standard input has.
abbrev pub IsPositive : Option ℕ → Type 0
IsPositive none = Unit {0}
IsPositive (some fd) = 0 < fd

abbrev pub IsDial : Op → Type 0
IsDial (op_connect d) = IsPositive d.socket
IsDial _ = Unit {0}

abbrev pub AreDials : List Op → Type 0
AreDials [] = Unit {0}
AreDials (op ∷ ops) = IsDial op × AreDials ops

abbrev Followed : ℕ → Tcp × List Call → Type 0
Followed o s = (o' : ℕ) × (follow o s.1 ≡ some o') × Owns o' s.0

-- A method that makes one call on the descriptor, if there is one.
touch-Followed {ℓ} :
    {A : Type ℓ} (o : ℕ) (t : Tcp) (call : ℕ → Call) (idle busy : A)
    → ((fd o : ℕ) → 0 < fd → fd ≡ o → follow o (call fd ∷ []) ≡ some o)
    → Owns o t
    → Followed o (
        effect (
          if t.fd == 0
          then nothing idle t
          else record { result = busy; tcp = t; calls = call t.fd ∷ [] }))
unfolding follow
touch-Followed {A = A} o t call idle busy used h = elim (Bool-cases (t.fd == 0)) [
  | inl none_there ↦
      subst (λ (d : Done A). Followed o (effect d)) (sym (if_true _ _ none_there)) (o, refl, h)
  | inr there ↦
      let positive : 0 < t.fd = ground arith in
      let same : t.fd ≡ o = ground arith in
      subst (λ (d : Done A). Followed o (effect d)) (sym (if_false _ _ there))
        (o, used t.fd o positive same, h)
]

read_used : (fd o : ℕ) → 0 < fd → fd ≡ o → follow o (reads fd ∷ []) ≡ some o
unfolding follow
read_used fd o p e = ground (arith, p, e)

peek_used : (fd o : ℕ) → 0 < fd → fd ≡ o → follow o (peeked fd ∷ []) ≡ some o
unfolding follow
peek_used fd o p e = ground (arith, p, e)

write_used : (buf : Bytes) (fd o : ℕ) → 0 < fd → fd ≡ o → follow o (writes fd buf ∷ []) ≡ some o
unfolding follow
write_used buf fd o p e = ground (arith, p, e)

guard_twice {ℓ} :
    {A : Type ℓ} (b : Bool) (x y : A) → (if b then x else if b then x else y) ≡ (if b then x else y)
guard_twice true x y = refl
guard_twice false x y = refl

send-Followed :
    (o : ℕ) (buf : Bytes) (wrote : Option ℕ) (t : Tcp)
    → Owns o t
    → Followed o (effect (send buf wrote t))
unfolding send
send-Followed o buf wrote t h =
    touch-Followed o t (λ fd. writes fd buf) (some 0) wrote (write_used buf) h

connected-Followed : (o : ℕ) (p : Peek) (t : Tcp) → Owns o t → Followed o (effect (connected p t))
unfolding connected
connected-Followed o p t h = touch-Followed o t peeked false (not (is_ended p)) peek_used h

stop-Followed : (o : ℕ) (t : Tcp) → Owns o t → Followed o (stop t)
unfolding stop follow
stop-Followed o t h = elim (Bool-cases (t.fd == 0)) [
  | inl none_there ↦ subst (Followed o) (sym (if_true _ _ none_there)) (o, refl, h)
  | inr there ↦
      subst (Followed o) (sym (if_false _ _ there)) (0, ground (arith, h, there), inl refl)
]

select_end-Followed :
    (s : Selected) (p : Peek) (fd : ℕ) → 0 < fd → Followed fd (effect (select_end s p fd))
unfolding select_end follow
select_end-Followed select_failed p fd h = (fd, refl, inl refl)
select_end-Followed timed_out p fd h = (0, ground (arith, h), inl refl)
select_end-Followed ready p fd h = connected-Followed fd p (record { fd = fd }) (inr refl)

dial_end-Followed : (d : Dial) (fd : ℕ) → 0 < fd → Followed fd (effect (dial_end d fd))
unfolding dial_end follow
dial_end-Followed d fd h =
    if_cases (λ (x : Done Bool). Followed fd (effect x)) d.dialling _ _
      (select_end-Followed d.selected d.peek fd h) (fd, refl, inl refl)

follow-dialled :
    (fd : ℕ) (calls : List Call) → 0 < fd → follow fd (dialled fd ∷ calls) ≡ follow fd calls
unfolding follow
follow-dialled fd calls h = ground (arith, h)

connect_end-Followed :
    (o : ℕ) (d : Dial) (socket : Option ℕ)
    → IsPositive socket
    → Followed o (effect (connect_end d socket))
unfolding connect_end
connect_end-Followed o d none p = (o, unfold follow in refl, inl refl)
connect_end-Followed o d (some fd) p =
    let (o', e, own) = dial_end-Followed d fd p in
    (o', unfold follow in follow-dialled fd (dial_end d fd).calls p ∙ e, own)

step-Followed : (o : ℕ) (op : Op) (t : Tcp) → Owns o t → IsDial op → Followed o (step op t)
unfolding step print println receive readall readchar available connect_to send
step-Followed o (op_send buf wrote) t h d = send-Followed o buf wrote t h
step-Followed o (op_print buf wrote) t h d =
    subst (λ (d : Done (Option ℕ)). Followed o (effect d)) (sym (guard_twice (t.fd == 0) _ _))
      (send-Followed o (c_string buf) wrote t h)
step-Followed o (op_println buf wrote) t h d =
    subst (λ (d : Done (Option ℕ)). Followed o (effect d)) (sym (guard_twice (t.fd == 0) _ _))
      (send-Followed o (c_string buf ++ b'\r' ∷ b'\n' ∷ []) wrote t h)
step-Followed o (op_receive got) t h d = touch-Followed o t reads (some []) got read_used h
step-Followed o (op_readall got) t h d = touch-Followed o t reads (some []) got read_used h
step-Followed o (op_readchar signed got) t h d =
    touch-Followed o t reads 0 (char_word signed got) read_used h
step-Followed o (op_available p) t h d = touch-Followed o t peeked false (is_waiting p) peek_used h
step-Followed o (op_connected p) t h d = connected-Followed o p t h
step-Followed o op_stop t h d = stop-Followed o t h
step-Followed o (op_connect d) t h p = connect_end-Followed o d d.socket p

-- In every run of methods, whatever the system answers, each `read`, `write`, `recv`, `connect` and
-- `close` is on the descriptor that `socket` returned last, and never on one that is closed. (The
-- object owns the descriptor in use at the start, or none; `socket` never returns the descriptor 0.
-- Nothing is said of `shutdown`, which is also called on a descriptor just closed.)
pub run-follow :
    (ops : List Op) (o : ℕ) (t : Tcp)
    → Owns o t
    → AreDials ops
    → (o' : ℕ) × (follow o (run ops t) ≡ some o')
unfolding run
run-follow [] o t h d = (o, unfold follow in refl)
run-follow (op ∷ ops) o t h (d, ds) =
    let (mid, e, own) = step-Followed o op t h d in
    let (last, f) = run-follow ops mid (step op t).0 own ds in
    (last, follow-append o mid (step op t).1 (run ops (step op t).0) e ∙ f)

-- ===== src/Mqtt/Log/Accounting.antt =====
-- Nothing is lost from the limited log lines, and no two lines of a limiter are less than a second apart.
use mqtt_raspberry_controlle.Base.{
  ℕ, suc, ◌+◌, ◌^◌, ◌<◌, ◌≤◌, false, Option, none, some, List, [], ◌∷◌, length, ◌≡◌, refl, arith,
  Bool-cases, inl, inr,
}
use mqtt_raspberry_controlle.Mqtt.Log.{
  Limiter, is_recent, increment, printf, record_overflow, record_rejection,
}

abbrev pub Limit : Type 0
Limit = ℕ → Limiter → Option ℕ × Limiter

-- A line is its time and the number that it reports.
abbrev pub Line : Type 0
Line = ℕ × ℕ

add_line : Option ℕ → ℕ → List Line × Limiter → List Line × Limiter
add_line none now (lines, l) = (lines, l)
add_line (some n) now (lines, l) = ((now, n) ∷ lines, l)

-- Calls at some times, in their order: the lines that are printed, and the limiter behind them.
unfoldable pub run_limit : Limit → List ℕ → Limiter → List Line × Limiter
unfolding add_line
run_limit limit [] l = ([], l)
run_limit limit (now ∷ times) l =
    let (printed, l1) = limit now l in add_line printed now (run_limit limit times l1)

-- The numbers of the lines, and `extra` for each line.
unfoldable pub total : ℕ → List Line → ℕ
total extra [] = 0
total extra ((now, n) ∷ lines) = extra + n + total extra lines

-- A second lies between the line before, if there is one, and this one.
abbrev pub Apart : Option ℕ → ℕ → Type 0
Apart none now = Unit {0}
Apart (some before) now = before + 1000000000 ≤ now

is_recent-Apart : (last : Option ℕ) (now : ℕ) → is_recent now last ≡ false → Apart last now
unfolding is_recent
is_recent-Apart none now h = tt
is_recent-Apart (some before) now h = ground (arith, h)

abbrev pub Spaced : Option ℕ → List Line → Type 0
Spaced last [] = Unit {0}
Spaced last ((now, n) ∷ lines) = Apart last now × Spaced (some now) lines

-- A call that prints nothing counts one more; one that prints a line reports what was counted, with
-- this call, of which the line itself is worth `extra`.
abbrev pub Law : ℕ → Limiter → ℕ → Option ℕ × Limiter → Type 0
Law extra l now (none, l') = (l'.count ≡ l.count + 1) × (l'.last ≡ l.last)
Law extra l now (some n, l') =
    (extra + n ≡ l.count + 1) × (l'.count ≡ 0) × (l'.last ≡ some now) × Apart l.last now

abbrev pub Lawful : ℕ → Limit → Type 0
Lawful extra limit = (now : ℕ) (l : Limiter) → l.count + 1 < 2 ^ 64 → Law extra l now (limit now l)

printf-Lawful : Lawful 1 printf
unfolding printf increment
printf-Lawful now l small = elim (Bool-cases (is_recent now l.last)) [
  | inl e ↦ rw e (ground (arith, small), refl)
  | inr e ↦ rw e (ground arith, refl, refl, is_recent-Apart l.last now e)
]

pub record_overflow-Lawful : Lawful 0 record_overflow
unfolding record_overflow increment
record_overflow-Lawful now l small = elim (Bool-cases (is_recent now l.last)) [
  | inl e ↦ rw e (ground (arith, small), refl)
  | inr e ↦ rw e (ground (arith, small), refl, refl, is_recent-Apart l.last now e)
]

record_rejection-Lawful : Lawful 1 record_rejection
unfolding record_rejection increment
record_rejection-Lawful now l small = elim (Bool-cases (is_recent now l.last)) [
  | inl e ↦ rw e (ground (arith, small), refl)
  | inr e ↦ rw e (ground (arith, small), refl, refl, is_recent-Apart l.last now e)
]

abbrev pub Accounted : ℕ → ℕ → Limiter → List Line × Limiter → Type 0
Accounted extra calls l (lines, l') =
    (total extra lines + l'.count ≡ l.count + calls) × Spaced l.last lines

module _ (extra : ℕ) (limit : Limit) (lawful : Lawful extra limit) where
  one_call :
      (now calls : ℕ) (l : Limiter) (x : Option ℕ × Limiter) (rest : List Line × Limiter)
      → Law extra l now x
      → Accounted extra calls x.1 rest
      → Accounted extra (suc calls) l (add_line x.0 now rest)
  unfolding add_line total
  one_call now calls l (none, l1) (lines, l2) (count, last) (sum, spaced) =
      (ground (arith, count, sum), rw last at spaced)
  one_call now calls l (some n, l1) (lines, l2) (worth, count, last, late) (sum, spaced) =
      (ground (arith, worth, count, sum), (late, rw last at spaced))

  run_limit-Accounted :
      (times : List ℕ) (l : Limiter)
      → l.count + length times < 2 ^ 64
      → Accounted extra (length times) l (run_limit limit times l)
  unfolding run_limit total
  run_limit-Accounted [] l small = (ground arith, tt)
  run_limit-Accounted (now ∷ times) l small =
      let law = lawful now l (ground (arith, small)) in
      one_call now (length times) l (limit now l) (run_limit limit times (limit now l).1) law
        (run_limit-Accounted times (limit now l).1 (fewer (limit now l) law))
    where
      fewer : (x : Option ℕ × Limiter) → Law extra l now x → x.1.count + length times < 2 ^ 64
      fewer (none, l1) (count, _) = ground (arith, count, small)
      fewer (some n, l1) (_, count, _, _) = ground (arith, count, small)

-- For fewer than 2^64 calls of each limiter, from any state: the lines and the messages that they report
-- as left out, with those that are counted at the end, are the calls and what was counted before (an
-- overflow line reports itself too); and no line is printed within a second of the one before it.
pub log_lines-Accounted :
    (times : List ℕ) (l : Limiter)
    → l.count + length times < 2 ^ 64
    → Accounted 1 (length times) l (run_limit printf times l)
      × Accounted 0 (length times) l (run_limit record_overflow times l)
      × Accounted 1 (length times) l (run_limit record_rejection times l)
log_lines-Accounted times l small = (
  run_limit-Accounted 1 printf printf-Lawful times l small,
  run_limit-Accounted 0 record_overflow record_overflow-Lawful times l small,
  run_limit-Accounted 1 record_rejection record_rejection-Lawful times l small,
)

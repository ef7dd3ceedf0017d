-- ===== src/Action/Output.antt =====
-- action/executor.go: `boundedOutput`, which counts what a command writes and keeps the first 64 KiB.
use mqtt_raspberry_controlle.Base.{
  ℕ, zero, suc, ◌+◌, ◌-◌, ◌*◌, ◌^◌, ◌≤◌, Bool, false, ◌||◌, List, [], ◌∷◌, ◌++◌, Bytes, ltb,
  if◌then◌else◌, length, take, ◌≡◌, refl, sym, ap, ◌∙◌, arith, append_assoc, append-nil,
  length-append, length-take, Bool-cases, inl, inr,
}

abbrev pub command_output_limit : ℕ
command_output_limit = 64 * 1024

abbrev pub max_uint64 : ℕ
max_uint64 = 2 ^ 64 - 1

pub record BoundedOutput : Type 0 where
  pub total : ℕ
  pub content : Bytes
  pub truncated : Bool

abbrev pub no_output : BoundedOutput
no_output = record { total = 0; content = []; truncated = false }

-- `content` is the field `data`. It never holds more than the limit, so that `remaining` is no negative number. The first
-- component is the result, the number of bytes that are taken as written.
unfoldable pub write : Bytes → BoundedOutput → ℕ × BoundedOutput
write p w =
    let amount = length p in
    let overflows = ltb (max_uint64 - w.total) amount in
    let remaining = command_output_limit - length w.content in
    let exceeds = ltb remaining amount in
    let captured = if exceeds then remaining else amount in
    (
      amount,
      record {
        total = if overflows then max_uint64 else w.total + amount;
        content = w.content ++ take captured p;
        truncated = exceeds || (overflows || w.truncated);
      },
    )

-- The writes of a command, which arrive one at a time.
unfoldable pub write_all : List Bytes → BoundedOutput → BoundedOutput
write_all [] w = w
write_all (p ∷ ps) w = write_all ps (write p w).1

unfoldable pub concat : List Bytes → Bytes
concat [] = []
concat (p ∷ ps) = p ++ concat ps

take-append : (n : ℕ) (s p : Bytes) → take n (s ++ p) ≡ take n s ++ take (n - length s) p
take-append zero [] p = refl
take-append zero (c ∷ s) p = let nothing : 0 - length (c ∷ s) ≡ 0 = omega arith in rw nothing refl
take-append (suc n) [] p = let whole : suc n - 0 ≡ suc n = omega arith in rw whole refl
take-append (suc n) (c ∷ s) p =
    let fewer : suc n - length (c ∷ s) ≡ n - length s = omega arith in
    rw fewer (ap (◌∷◌ c) (take-append n s p))

take_all : (n : ℕ) (p : Bytes) → length p ≤ n → take n p ≡ p
take_all zero [] h = refl
take_all (suc n) [] h = refl
take_all zero (c ∷ p) h = absurd (omega arith)
take_all (suc n) (c ∷ p) h = ap (◌∷◌ c) (take_all n p (omega arith))

take_capped : (n : ℕ) (p : Bytes) → take (if ltb n (length p) then n else length p) p ≡ take n p
take_capped n p = elim (Bool-cases (ltb n (length p))) [
  | inl e ↦ rw e refl
  | inr e ↦ rw e (take_all (length p) p (omega arith) ∙ sym (take_all n p (ground (arith, e))))
]

-- What stands for the text `s` that was written.
pub record Captures (s : Bytes) (w : BoundedOutput) : Type 0 where
  pub counted : w.total ≡ (if ltb max_uint64 (length s) then max_uint64 else length s)
  pub kept : w.content ≡ take command_output_limit s
  pub flagged : w.truncated ≡ ltb command_output_limit (length s)

captured_length :
    (s p : Bytes) (w : BoundedOutput)
    → Captures s w
    → command_output_limit - length w.content ≡ command_output_limit - length s
captured_length s p w v = omega (arith, ap length v.kept, length-take command_output_limit s)

-- The counter, where `top` is the largest one.
counted_step :
    (top a b total : ℕ)
    → total ≡ (if ltb top a then top else a)
    → (if ltb (top - total) b then top else total + b) ≡ (if ltb top (a + b) then top else a + b)
counted_step top a b total h = ground arith

flagged_step :
    (limit top a b total : ℕ) (before : Bool)
    → limit ≤ top
    → total ≡ (if ltb top a then top else a)
    → before ≡ ltb limit a
    → (ltb (limit - a) b || (ltb (top - total) b || before)) ≡ ltb limit (a + b)
flagged_step limit top a b total before fits h f = ground arith

write-Captures : (s p : Bytes) (w : BoundedOutput) → Captures s w → Captures (s ++ p) (write p w).1
unfolding write
write-Captures s p w v =
    let both = length-append s p in
    let room = captured_length s p w v in
    record {
      counted = rw both (counted_step max_uint64 (length s) (length p) w.total v.counted);
      kept =
          rw (room, v.kept, take_capped (command_output_limit - length s) p)
            (sym (take-append command_output_limit s p));
      flagged =
          rw (both, room)
            (flagged_step command_output_limit max_uint64 (length s) (length p) w.total w.truncated
              (omega arith) v.counted v.flagged);
    }

write_all-Captures :
    (ps : List Bytes) (s : Bytes) (w : BoundedOutput)
    → Captures s w
    → Captures (s ++ concat ps) (write_all ps w)
unfolding write_all concat
write_all-Captures [] s w v = rw append-nil v
write_all-Captures (p ∷ ps) s w v =
    rw (← append_assoc s p (concat ps), write_all)
      (write_all-Captures ps (s ++ p) (write p w).1 (write-Captures s p w v))

-- Whatever a command writes, and in whatever portions, its first 64 KiB are kept, the number of all
-- bytes is counted up to 2^64 - 1, and the output is marked as cut off if it is longer than 64 KiB.
pub write_all_text : (ps : List Bytes) → Captures (concat ps) (write_all ps no_output)
write_all_text ps =
    write_all-Captures ps [] no_output
      (record { counted = ground arith; kept = refl; flagged = ground arith })
